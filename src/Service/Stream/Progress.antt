-- ===== src/Service/Stream/Progress.antt =====
-- That a client which keeps asking a stream of services/proxy.go reaches its end.
use dappnode_nexus_gateway.Common.{
  ℕ, zero, suc, ◌+◌, ◌*◌, ◌≤◌, ◌<◌, ◌≡◌, refl, ap, String, Bool, true, List, [], ◌∷◌, Option, none,
  some, Option-cases, Bool-cases, inl, inr, arith, length-append, cut_prefix, string_eq, length,
  Any,
}
use dappnode_nexus_gateway.Domain.Generation.{TinfoilProof}
use dappnode_nexus_gateway.Service.Chunk.{Chunk, Codec}
use dappnode_nexus_gateway.Service.Stream.{
  ProxyStream, Restorer, data_prefix, trim_space_prefix, is_done, prime_from, prime,
  new_proxy_stream, drop_repeated_role, restore, held_tail, observe_chunk, observe_done, observe,
  keep, queue_line, queue, advance, Step, line_sent, stream_end, finish_next, send_pending,
  read_next, next, Op, asked, run_ops,
}
use dappnode_nexus_gateway.Service.Stream.Ends.{
  EndsFinished, next-IsStep, run_ops-IsLater, prime-IsReported, once_of_IsReported,
}

-- A number of calls of `Next`.
abbrev pub asks : ℕ → List Op
asks zero = []
asks (suc n) = asked ∷ asks n

-- The end of a stream, as `Next` gives it: io.EOF or an error.
abbrev pub EndGiven : Step → Type 0
EndGiven (line_sent l) = ⊥
EndGiven (stream_end e) = Unit

module _ {U : Type 0} (codec : Codec) (restorer : Restorer U) where
  -- What the restorer still holds back makes two lines: an event, and the blank line after it.
  tail_size : Option U → String → String → ℕ
  tail_size none id name = 0
  tail_size (some u) id name = elim (restorer.tail u id name).1 [ none ↦ 0 | some t ↦ 2 ]

  tail_size-bounded : (u : Option U) (id name : String) → tail_size u id name ≤ 2
  unfolding tail_size
  tail_size-bounded none id name = omega arith
  tail_size-bounded (some u) id name = ground arith

  -- A bound on the lines that a stream sends from here on.
  left_from : List String → ProxyStream U → ℕ
  left_from [] p = length p.pending + tail_size p.unmask p.o.provider_id p.public_name
  left_from (line ∷ lines) p = length p.pending + 3 * length (line ∷ lines) + 2

  left_from-bounded :
      (lines : List String) (p : ProxyStream U)
      → left_from lines p ≤ length p.pending + 3 * length lines + 2
  unfolding left_from
  left_from-bounded [] p = omega (arith, tail_size-bounded p.unmask p.o.provider_id p.public_name)
  left_from-bounded (line ∷ lines) p = omega arith

  length-queue_line :
      (p : ProxyStream U) (line : String) (c : Option Chunk)
      → length (queue_line codec restorer p line c).pending ≤ length p.pending + 1
  unfolding queue_line keep
  length-queue_line p line c = ground (arith, length-append p.pending (line ∷ []))

  length-queue :
      (p : ProxyStream U) (lines : List String) (c : Option Chunk)
      → length (queue codec restorer p lines c).pending ≤ length p.pending + length lines
  unfolding queue
  length-queue p [] c = omega arith
  length-queue p (line ∷ lines) c =
      let q = queue_line codec restorer p line c in
      omega (arith, length-queue_line p line c, length-queue q lines c)

  -- At most three lines are made of one, and none is sent before they are queued.
  record IsSmall (p : ProxyStream U) (r : ProxyStream U × List String × Option Chunk) : Type 0 where
    few : length r.1 ≤ 3
    same : r.0.pending ≡ p.pending

  observe_chunk-IsSmall :
      (p : ProxyStream U) (before payload : String) (c : Chunk)
      → IsSmall p (observe_chunk codec restorer p before payload c)
  unfolding observe_chunk drop_repeated_role restore
  observe_chunk-IsSmall p before payload c = record { few = omega arith; same = ground arith }

  observe_done-IsSmall :
      (p : ProxyStream U) (line : String) → IsSmall p (observe_done codec restorer p line)
  unfolding observe_done held_tail
  observe_done-IsSmall p line = record { few = ground arith; same = ground arith }

  observe-IsSmall : (p : ProxyStream U) (line : String) → IsSmall p (observe codec restorer p line)
  unfolding observe
  observe-IsSmall p line = elim (Option-cases (cut_prefix line "data:")) [
    | inl f ↦ rw (f, observe) (record { few = omega arith; same = refl })
    | inr (rest, f) ↦ elim (Bool-cases (is_done (trim_space_prefix rest))) [
      | inl d ↦ rw (f, d, observe) (observe_done-IsSmall p line)
      | inr d ↦ elim (Option-cases (codec.parse_chunk (trim_space_prefix rest))) [
        | inl c ↦ rw (f, d, c, observe) (record { few = omega arith; same = refl })
        | inr (c, e) ↦
            rw (f, d, e, observe)
              (observe_chunk-IsSmall p (data_prefix rest) (trim_space_prefix rest) c)
      ]
    ]
  ]

  length-advance :
      (p : ProxyStream U) (line : String)
      → length (advance codec restorer p line).0.pending ≤ length p.pending + 3
  unfolding advance
  length-advance p line =
      let r = observe codec restorer p line in
      let small = observe-IsSmall p line in
      let same : length r.0.pending ≡ length p.pending = ap length small.same in
      omega (arith, small.few, same, length-queue r.0 r.1 r.2)

  length-prime_from :
      (lines : List String) (p : ProxyStream U)
      → left_from (prime_from codec restorer lines p).0.lines (prime_from codec restorer lines p).0
        ≤ length p.pending + 3 * length lines + 2
  unfolding prime_from
  length-prime_from [] p = left_from-bounded [] (record p { lines = [] })
  length-prime_from (line ∷ lines) p =
      let q = (advance codec restorer p line).0 in
      ground (
        arith,
        length-advance p line,
        left_from-bounded lines (record q { lines = lines }),
        length-prime_from lines q,
      )

  -- What `Next` gives to a client that calls it so often.
  unfoldable pub steps : ProxyStream U → ℕ → List Step
  steps p zero = []
  steps p (suc n) = (next codec restorer p).1 ∷ steps (next codec restorer p).0 n

  -- A step that sends a line leaves less to send.
  IsNearer : ℕ → ProxyStream U × Step → Type 0
  IsNearer n (p, line_sent l) = left_from p.lines p < n
  IsNearer n (p, stream_end e) = Unit

  IsNearer-weaken : (k n : ℕ) (r : ProxyStream U × Step) → k ≤ n → IsNearer k r → IsNearer n r
  unfolding IsNearer
  IsNearer-weaken k n (p, line_sent l) le h = omega (arith, le, h)
  IsNearer-weaken k n (p, stream_end e) le h = tt

  -- A line was sent, and `lines` are left.
  sent_nearer :
      (lines : List String) (p : ProxyStream U) (rest : List String) (n : ℕ)
      → length p.pending ≡ suc (length rest)
      → left_from lines p ≤ n
      → left_from lines (record p { lines = lines; pending = rest }) < n
  unfolding left_from
  sent_nearer [] p rest n e le = omega (arith, e, le)
  sent_nearer (line ∷ lines) p rest n e le = omega (arith, e, le)

  module _
      (silent : (u : U) (id name : String)
        → (restorer.tail (restorer.tail u id name).0 id name).1 ≡ none) where
    -- What is held back is given once.
    Gives : ProxyStream U → ProxyStream U → Type 0
    Gives p q =
        (tail_size q.unmask q.o.provider_id q.public_name ≡ 0)
        × (tail_size p.unmask p.o.provider_id p.public_name ≡ 2)

    held_tail-Gives :
        (u : Option U) (p : ProxyStream U) (t : String)
        → (held_tail codec restorer (record p { unmask = u })).1 ≡ some t
        → Gives (record p { unmask = u }) (held_tail codec restorer (record p { unmask = u })).0
    unfolding held_tail tail_size Gives
    held_tail-Gives none p t h = absurd (ground (arith, h))
    held_tail-Gives (some u) p t h = ground (arith, h, silent u p.o.provider_id p.public_name)

    finish_next-IsNearer :
        (p : ProxyStream U) → IsNearer (left_from [] p) (finish_next codec restorer p)
    unfolding finish_next left_from IsNearer Gives
    finish_next-IsNearer p = elim (Option-cases (held_tail codec restorer p).1) [
      | inl f ↦ rw (f, finish_next) tt
      | inr (t, f) ↦
          let once : Gives p (held_tail codec restorer p).0 = held_tail-Gives p.unmask p t f in
          rw (f, finish_next) (omega (arith, once))
    ]

    send_pending-IsNearer :
        (pending lines : List String) (n : ℕ) (p : ProxyStream U) (later : ProxyStream U × Step)
        → p.pending ≡ pending
        → left_from lines p ≤ n
        → (pending ≡ [] → IsNearer n later)
        → IsNearer n (send_pending codec restorer pending lines p later)
    unfolding send_pending IsNearer
    send_pending-IsNearer [] lines n p later e le h = h refl
    send_pending-IsNearer (sent ∷ rest) lines n p later e le h =
        let e' : length p.pending ≡ suc (length rest) = ap length e in
        sent_nearer lines p rest n e' le

    read_next-IsNearer :
        (lines : List String) (p : ProxyStream U)
        → IsNearer (left_from lines p) (read_next codec restorer lines p)
    unfolding read_next left_from
    read_next-IsNearer [] p = finish_next-IsNearer p
    read_next-IsNearer (line ∷ lines) p =
        let q = (advance codec restorer p line).0 in
        let le : left_from lines q ≤ left_from (line ∷ lines) p =
          omega (arith, length-advance p line, left_from-bounded lines q) in
        send_pending-IsNearer q.pending lines (left_from (line ∷ lines) p) q
          (read_next codec restorer lines q) refl le
          (λ e.
            IsNearer-weaken (left_from lines q) (left_from (line ∷ lines) p)
              (read_next codec restorer lines q) le (read_next-IsNearer lines q))

    next-IsNearer : (p : ProxyStream U) → IsNearer (left_from p.lines p) (next codec restorer p)
    unfolding next
    next-IsNearer p =
        send_pending-IsNearer p.pending p.lines (left_from p.lines p) p
          (read_next codec restorer p.lines p) refl (omega arith)
          (λ e. read_next-IsNearer p.lines p)

    run_ops-finishes :
        (n : ℕ) (p : ProxyStream U)
        → left_from p.lines p < n
        → (run_ops codec restorer p (asks n)).finished ≡ true
    unfolding run_ops IsNearer
    run_ops-finishes zero p h = absurd (omega (arith, h))
    run_ops-finishes (suc n) p h =
        go (λ q. run_ops-finishes n q) (next codec restorer p) (next-IsNearer p)
          (next-IsStep codec restorer p).1
      where
        go :
            ((q : ProxyStream U)
              → left_from q.lines q < n
              → (run_ops codec restorer q (asks n)).finished ≡ true)
            → (r : ProxyStream U × Step) → IsNearer (left_from p.lines p) r
            → EndsFinished codec restorer r
            → (run_ops codec restorer r.0 (asks n)).finished ≡ true
        go ih (q, line_sent l) near ends = ih q (omega (arith, near, h))
        go ih (q, stream_end e) near ends =
            ((run_ops-IsLater codec restorer q (asks n)).settled ends).0

    steps-EndGiven :
        (n : ℕ) (p : ProxyStream U) → left_from p.lines p < n → Any EndGiven (steps p n)
    unfolding steps IsNearer
    steps-EndGiven zero p h = absurd (omega (arith, h))
    steps-EndGiven (suc n) p h =
        go (λ q. steps-EndGiven n q) (next codec restorer p) (next-IsNearer p)
      where
        go :
            ((q : ProxyStream U) → left_from q.lines q < n → Any EndGiven (steps q n))
            → (r : ProxyStream U × Step) → IsNearer (left_from p.lines p) r
            → Any EndGiven (r.1 ∷ steps r.0 n)
        go ih (q, line_sent l) near = inr (ih q (omega (arith, near, h)))
        go ih (q, stream_end e) near = inl tt

    -- A client of a primed stream that asks for a line three times as often as the provider sends one,
    -- and three times more, is given the end, and one outcome is reported; if what restores personal
    -- data holds nothing back once it has given its tail.
    pub run_ops-ends :
        (lines : List String) (scan_error : Option String) (public_name : String)
        (proof : Option TinfoilProof) (hide_usage : Bool) (unmask : Option U) (n : ℕ)
        → 3 * length lines + 3 ≤ n
        → let primed =
            (prime codec restorer
              (new_proxy_stream lines scan_error public_name proof hide_usage unmask)).0 in
          Any EndGiven (steps primed n)
          × (length (run_ops codec restorer primed (asks n)).reported ≡ 1)
    unfolding prime new_proxy_stream
    run_ops-ends lines scan_error public_name proof hide_usage unmask n h =
        let s = new_proxy_stream lines scan_error public_name proof hide_usage unmask in
        let primed = (prime codec restorer s).0 in
        let start =
          prime-IsReported codec restorer lines scan_error public_name proof hide_usage unmask in
        let enough : left_from primed.lines primed < n =
          omega (arith, h, length-prime_from lines s) in
        (
          steps-EndGiven n primed enough,
          once_of_IsReported codec restorer (run_ops codec restorer primed (asks n))
              ((run_ops-IsLater codec restorer primed (asks n)).reports start)
              (run_ops-finishes n primed enough),
        )
