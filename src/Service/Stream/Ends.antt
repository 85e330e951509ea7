-- ===== src/Service/Stream/Ends.antt =====
-- How often a stream of services/proxy.go reports its outcome (`end`, which calls `onEnd`).
use dappnode_nexus_gateway.Common.{
  ◌≡◌, refl, ◌∙◌, ◌⊎◌, inl, inr, String, Bool, true, false, List, [], ◌∷◌, Option, Bool-cases,
  Option-cases, arith, cut_prefix, string_eq, length,
}
use dappnode_nexus_gateway.Domain.Generation.{TinfoilProof}
use dappnode_nexus_gateway.Service.Chunk.{Chunk, Outcome, Codec}
use dappnode_nexus_gateway.Service.Stream.{
  ProxyStream, Restorer, data_prefix, trim_space_prefix, is_done, held_tail, drop_repeated_role,
  restore, observe_chunk, observe_done, observe, keep, queue_line, queue, advance, prime_from,
  prime, end, at_end, Step, line_sent, stream_end, finish_next, send_pending, read_next, next,
  close, Op, asked, closed, run_ops, new_proxy_stream,
}

module _ {U : Type 0} (codec : Codec) (restorer : Restorer U) where
  -- Nothing was reported between two states.
  record IsQuiet (p q : ProxyStream U) : Type 0 where
    finished : q.finished ≡ p.finished
    reported : q.reported ≡ p.reported

  IsQuiet-trans : (p q r : ProxyStream U) → IsQuiet p q → IsQuiet q r → IsQuiet p r
  IsQuiet-trans p q r a b = record {
    finished = b.finished ∙ a.finished;
    reported = b.reported ∙ a.reported;
  }

  held_tail-IsQuiet : (p : ProxyStream U) → IsQuiet p (held_tail codec restorer p).0
  unfolding held_tail
  held_tail-IsQuiet p = ground arith

  observe_chunk-IsQuiet :
      (p : ProxyStream U) (before payload : String) (c : Chunk)
      → IsQuiet p (observe_chunk codec restorer p before payload c).0
  unfolding observe_chunk drop_repeated_role restore
  observe_chunk-IsQuiet p before payload c = ground arith

  observe_done-IsQuiet :
      (p : ProxyStream U) (line : String) → IsQuiet p (observe_done codec restorer p line).0
  unfolding observe_done
  observe_done-IsQuiet p line = ground (arith, held_tail-IsQuiet (record p { saw_done = true }))

  observe-IsQuiet :
      (p : ProxyStream U) (line : String) → IsQuiet p (observe codec restorer p line).0
  unfolding observe
  observe-IsQuiet p line = elim (Option-cases (cut_prefix line "data:")) [
    | inl f ↦ rw (f, observe) (record { finished = refl; reported = refl })
    | inr (rest, f) ↦ elim (Bool-cases (is_done (trim_space_prefix rest))) [
      | inl d ↦ rw (f, d, observe) (observe_done-IsQuiet p line)
      | inr d ↦ elim (Option-cases (codec.parse_chunk (trim_space_prefix rest))) [
        | inl c ↦ rw (f, d, c, observe) (record { finished = refl; reported = refl })
        | inr (c, e) ↦
            rw (f, d, e, observe)
              (observe_chunk-IsQuiet p (data_prefix rest) (trim_space_prefix rest) c)
      ]
    ]
  ]

  queue_line-IsQuiet :
      (p : ProxyStream U) (line : String) (c : Option Chunk)
      → IsQuiet p (queue_line codec restorer p line c)
  unfolding queue_line keep
  queue_line-IsQuiet p line c = ground arith

  queue-IsQuiet :
      (p : ProxyStream U) (lines : List String) (c : Option Chunk)
      → IsQuiet p (queue codec restorer p lines c)
  unfolding queue
  queue-IsQuiet p [] c = record { finished = refl; reported = refl }
  queue-IsQuiet p (line ∷ lines) c =
      let q = queue_line codec restorer p line c in
      IsQuiet-trans p q (queue codec restorer q lines c) (queue_line-IsQuiet p line c)
        (queue-IsQuiet q lines c)

  advance-IsQuiet :
      (p : ProxyStream U) (line : String) → IsQuiet p (advance codec restorer p line).0
  unfolding advance
  advance-IsQuiet p line =
      let q = (observe codec restorer p line).0 in
      IsQuiet-trans p q (advance codec restorer p line).0 (observe-IsQuiet p line)
        (queue-IsQuiet q (observe codec restorer p line).1 (observe codec restorer p line).2)

  prime_from-IsQuiet :
      (lines : List String) (p : ProxyStream U) → IsQuiet p (prime_from codec restorer lines p).0
  unfolding prime_from
  prime_from-IsQuiet [] p = ground arith
  prime_from-IsQuiet (line ∷ lines) p =
      let q = (advance codec restorer p line).0 in
      ground (arith, advance-IsQuiet p line, prime_from-IsQuiet lines q)

  -- The reports so far: none, or one and the stream is finished.
  abbrev pub IsReported : ProxyStream U → Type 0
  IsReported p =
      ((p.finished ≡ false) × (p.reported ≡ []))
      ⊎ ((p.finished ≡ true) × ((o : Outcome) × (p.reported ≡ o ∷ [])))

  -- What an operation may do: report once, if nothing is reported.
  pub record IsLater (p q : ProxyStream U) : Type 0 where
    pub reports : IsReported p → IsReported q
    pub settled : p.finished ≡ true → (q.finished ≡ true) × (q.reported ≡ p.reported)

  IsLater-trans : (p q r : ProxyStream U) → IsLater p q → IsLater q r → IsLater p r
  IsLater-trans p q r a b = record {
    reports = λ h. b.reports (a.reports h);
    settled = λ h. let x = a.settled h in let y = b.settled x.0 in (y.0, y.1 ∙ x.1);
  }

  quiet-IsLater : (p q : ProxyStream U) → IsQuiet p q → IsLater p q
  quiet-IsLater p q h = record {
    reports = λ r. ground (arith, h, r);
    settled = λ f. (h.finished ∙ f, h.reported);
  }

  end-IsLater : (p : ProxyStream U) (how : String) → IsLater p (end codec restorer p how)
  unfolding end
  end-IsLater p how = record { reports = λ r. ground (arith, r); settled = λ f. ground (arith, f) }

  finished-end : (p : ProxyStream U) (how : String) → (end codec restorer p how).finished ≡ true
  unfolding end
  finished-end p how = ground arith

  at_end-IsLater : (p : ProxyStream U) → IsLater p (at_end codec restorer p).0
  unfolding at_end end
  at_end-IsLater p = record { reports = λ r. ground (arith, r); settled = λ f. ground (arith, f) }

  finished-at_end : (p : ProxyStream U) → (at_end codec restorer p).0.finished ≡ true
  unfolding at_end end
  finished-at_end p = ground arith

  close-IsLater : (p : ProxyStream U) → IsLater p (close codec restorer p)
  unfolding close end
  close-IsLater p = record { reports = λ r. ground (arith, r); settled = λ f. ground (arith, f) }

  finished-close : (p : ProxyStream U) → (close codec restorer p).finished ≡ true
  unfolding close end
  finished-close p = ground arith

  -- A step that ends the stream leaves it finished.
  abbrev pub EndsFinished : ProxyStream U × Step → Type 0
  EndsFinished (p, line_sent l) = Unit
  EndsFinished (p, stream_end e) = p.finished ≡ true

  -- An operation from one state, with what it gives.
  abbrev pub IsStep : ProxyStream U → ProxyStream U × Step → Type 0
  IsStep p r = IsLater p r.0 × EndsFinished r

  finish_next-IsStep : (p : ProxyStream U) → IsStep p (finish_next codec restorer p)
  unfolding finish_next
  finish_next-IsStep p =
      let q : ProxyStream U = record (held_tail codec restorer p).0 { lines = [] } in
      let quiet = quiet-IsLater p q (record {
        finished = (held_tail-IsQuiet p).finished;
        reported = (held_tail-IsQuiet p).reported;
      }) in
      elim (Option-cases (held_tail codec restorer p).1) [
        | inl f ↦
            rw (f, finish_next)
              (
                IsLater-trans p q (at_end codec restorer q).0 quiet (at_end-IsLater q),
                finished-at_end q,
              )
        | inr (t, f) ↦
            rw (f, finish_next) (record { reports = quiet.reports; settled = quiet.settled }, tt)
      ]

  send_pending-IsStep :
      (pending lines : List String) (p q : ProxyStream U) (later : ProxyStream U × Step)
      → IsLater p q
      → IsStep p later
      → IsStep p (send_pending codec restorer pending lines q later)
  unfolding send_pending
  send_pending-IsStep [] lines p q later h k = k
  send_pending-IsStep (sent ∷ rest) lines p q later h k =
      (record { reports = h.reports; settled = h.settled }, tt)

  read_next-IsStep :
      (lines : List String) (p : ProxyStream U) → IsStep p (read_next codec restorer lines p)
  unfolding read_next
  read_next-IsStep [] p = finish_next-IsStep p
  read_next-IsStep (line ∷ lines) p =
      let q = (advance codec restorer p line).0 in
      let now = quiet-IsLater p q (advance-IsQuiet p line) in
      let rest = read_next-IsStep lines q in
      send_pending-IsStep q.pending lines p q (read_next codec restorer lines q) now
        (IsLater-trans p q (read_next codec restorer lines q).0 now rest.0, rest.1)

  pub next-IsStep : (p : ProxyStream U) → IsStep p (next codec restorer p)
  unfolding next
  next-IsStep p =
      send_pending-IsStep p.pending p.lines p p (read_next codec restorer p.lines p)
        (quiet-IsLater p p (record { finished = refl; reported = refl }))
        (read_next-IsStep p.lines p)

  pub run_ops-IsLater :
      (p : ProxyStream U) (ops : List Op) → IsLater p (run_ops codec restorer p ops)
  unfolding run_ops
  run_ops-IsLater p [] = quiet-IsLater p p (record { finished = refl; reported = refl })
  run_ops-IsLater p (asked ∷ ops) =
      let q = (next codec restorer p).0 in
      IsLater-trans p q (run_ops codec restorer q ops) (next-IsStep p).0 (run_ops-IsLater q ops)
  run_ops-IsLater p (closed ∷ ops) =
      let q = close codec restorer p in
      IsLater-trans p q (run_ops codec restorer q ops) (close-IsLater p) (run_ops-IsLater q ops)

  pub once_of_IsReported :
      (p : ProxyStream U) → IsReported p → p.finished ≡ true → length p.reported ≡ 1
  once_of_IsReported p h f = ground (arith, h, f)

  pub prime-IsReported :
      (lines : List String) (scan_error : Option String) (public_name : String)
      (proof : Option TinfoilProof) (hide_usage : Bool) (unmask : Option U)
      → IsReported
          (prime codec restorer
            (new_proxy_stream lines scan_error public_name proof hide_usage unmask)).0
  unfolding prime new_proxy_stream
  prime-IsReported lines scan_error public_name proof hide_usage unmask =
      let quiet =
        prime_from-IsQuiet lines
          (new_proxy_stream lines scan_error public_name proof hide_usage unmask) in
      inl (quiet.finished, quiet.reported)

  -- Once the end is given, one outcome is reported, and stays.
  abbrev pub EndsReported : List Op → ProxyStream U × Step → Type 0
  EndsReported after (q, line_sent l) = Unit
  EndsReported after (q, stream_end e) =
      (length q.reported ≡ 1) × ((run_ops codec restorer q after).reported ≡ q.reported)

  -- Whatever the provider sends, and in whatever order a client of a primed stream asks for lines
  -- and closes it: `onEnd` is called exactly once by the time that it is closed, and by the time that
  -- a line is asked for and the end is given; and no later operation reports again or changes what
  -- was reported.
  pub run_ops-reports :
      (lines : List String) (scan_error : Option String) (public_name : String)
      (proof : Option TinfoilProof) (hide_usage : Bool) (unmask : Option U) (before after : List Op)
      → let p =
          run_ops codec restorer
            (prime codec restorer
              (new_proxy_stream lines scan_error public_name proof hide_usage unmask)).0
            before in
        (length (close codec restorer p).reported ≡ 1)
        × ((run_ops codec restorer (close codec restorer p) after).reported
            ≡ (close codec restorer p).reported)
        × EndsReported after (next codec restorer p)
  unfolding prime new_proxy_stream
  run_ops-reports lines scan_error public_name proof hide_usage unmask before after =
      let s = new_proxy_stream lines scan_error public_name proof hide_usage unmask in
      let primed = (prime codec restorer s).0 in
      let p = run_ops codec restorer primed before in
      let q = close codec restorer p in
      let start = prime-IsReported lines scan_error public_name proof hide_usage unmask in
      let h = (run_ops-IsLater primed before).reports start in
      (
        once_of_IsReported q ((close-IsLater p).reports h) (finished-close p),
        ((run_ops-IsLater q after).settled (finished-close p)).1,
        reported_at (next codec restorer p) ((next-IsStep p).0.reports h) (next-IsStep p).1,
      )
    where
      reported_at :
          (r : ProxyStream U × Step) → IsReported r.0 → EndsFinished r → EndsReported after r
      reported_at (q, line_sent l) h f = tt
      reported_at (q, stream_end e) h f =
          (once_of_IsReported q h f, ((run_ops-IsLater q after).settled f).1)
