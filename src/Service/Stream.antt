-- ===== src/Service/Stream.antt =====
-- The relay of a provider's event stream: `ProxyStream` of services/proxy.go. The provider is the
-- list of lines that the scanner finds, and the error with which it ends, if any. `reported` records
-- the calls of `onEnd`. Lines are taken to be valid UTF-8.
pub mod Ends
pub mod Progress
use Prim.Native.Char.{code}
use Prim.Native.String.{◌++◌}
use Prim.Native.Nat.{◌+◌}
use dappnode_nexus_gateway.Common.{
  ℕ, zero, suc, String, Bool, true, false, not, ◌&&◌, ◌||◌, List, [], ◌∷◌, ◌++◌ as join, Option,
  none, some, if◌then◌else◌, ◌==◌, ◌!=◌, string_eq, nat_eq, any, is_some, is_none, codes,
  cut_prefix, trim_space,
}
use dappnode_nexus_gateway.Common.Int.{ℤ, pos, int_eq}
use dappnode_nexus_gateway.Domain.Error.{
  GatewayError, Error, gateway, Result, ok, err, err_provider_error, err_client_canceled,
}
use dappnode_nexus_gateway.Domain.Generation.{Usage, TinfoilProof}
use dappnode_nexus_gateway.Service.Chunk.{
  Chunk, Choice, Outcome, Codec, drop_roles, usage_domain, failure, commits, finish_reason,
  rewrite_model,
}

-- What restores personal data in a stream: `unmasker`, with what it holds back.
pub record Restorer (U : Type 0) : Type 0 where
  pub event : U → String → U × String
  pub tail : U → String → String → U × Option String

pub record ProxyStream (U : Type 0) : Type 0 where
  pub lines : List String
  pub scan_error : Option String
  pub public_name : String
  pub pending : List String
  pub proof : Option TinfoilProof
  pub hide_usage : Bool
  pub skip_blank : Bool
  pub unmask : Option U
  pub o : Outcome
  pub saw_done : Bool
  pub role_sent : List ℤ
  pub finished : Bool
  pub chunks : ℕ
  pub reported : List Outcome

abbrev pub no_outcome : Outcome
no_outcome = record {
  provider_id = "";
  finish = none;
  usage = none;
  proof = none;
  error = none;
  end = "";
  chunks = 0;
  malformed = 0;
}

-- `newProxyStream`, with the fields that `Proxy` sets before `prime`.
unfoldable pub new_proxy_stream :
    {U : Type 0}
    → List String
    → Option String
    → String
    → Option TinfoilProof
    → Bool
    → Option U
    → ProxyStream U
new_proxy_stream lines scan_error public_name proof hide_usage unmask = record {
  lines = lines;
  scan_error = scan_error;
  public_name = public_name;
  pending = [];
  proof = proof;
  hide_usage = hide_usage;
  skip_blank = false;
  unmask = unmask;
  o = no_outcome;
  saw_done = false;
  role_sent = [];
  finished = false;
  chunks = 0;
  reported = [];
}

-- `line[:len(line)-len(data)]`, from what follows "data:".
unfoldable pub data_prefix : String → String
data_prefix String.[] = "data:"
data_prefix (String.◌∷◌ c s) = if code c == b' ' then "data: " else "data:"

-- `bytes.TrimPrefix(data, " ")`.
unfoldable pub trim_space_prefix : String → String
trim_space_prefix String.[] = String.[]
trim_space_prefix (String.◌∷◌ c s) = if code c == b' ' then s else String.◌∷◌ c s

-- Whether the data of an event marks the end of the stream (`string(bytes.TrimSpace(data))`).
abbrev pub is_done : String → Bool
is_done payload = trim_space payload == "[DONE]"

-- The index of a choice: its own, or its position.
abbrev index_of : ℕ → Choice → ℤ
index_of position choice = elim choice.index [ none ↦ pos position | some i ↦ i ]

abbrev pub has_role : Choice → Bool
has_role choice = elim choice.delta [ none ↦ false | some d ↦ is_some d.role ]

-- The loop of `dropRepeatedRole`: the choices whose role was sent, and those whose role is dropped.
unfoldable pub note_roles : ℕ → List Choice → List ℤ → List ℤ × List ℤ
note_roles position [] sent = (sent, [])
note_roles position (choice ∷ choices) sent =
    let i = index_of position choice in
    let (sent_skip, drop_skip) = note_roles (suc position) choices sent in
    let (sent_new, drop_new) = note_roles (suc position) choices (i ∷ sent) in
    if not (has_role choice)
    then (sent_skip, drop_skip)
    else if any (λ j. j == i) sent
    then (sent_skip, i ∷ drop_skip)
    else (sent_new, drop_new)

-- What `Next` returns: a line, or the end with its error.
pub data Step : Type 0 where
  line_sent : String → Step
  stream_end : Option String → Step

-- What a client does with a stream: `Next` and `Close`.
pub data Op : Type 0 where
  asked closed : Op

module _ {U : Type 0} (codec : Codec) (restorer : Restorer U) where
  -- `heldTail`.
  held_tail : ProxyStream U → ProxyStream U × Option String
  held_tail p = elim p.unmask [
    | none ↦ (p, none)
    | some u ↦
        let (v, tail) = restorer.tail u p.o.provider_id p.public_name in
        (record p { unmask = some v }, elim tail [ none ↦ none | some t ↦ some ("data: " ++ t) ])
  ]

  -- What the outcome takes from a chunk.
  pub read_chunk : Outcome → ℕ → Chunk → Outcome
  read_chunk o n c = record o {
    chunks = n;
    provider_id = if c.id != "" then c.id else o.provider_id;
    usage = elim (usage_domain c.usage) [ none ↦ o.usage | some u ↦ some u ];
    finish = elim (finish_reason c) [ none ↦ o.finish | some f ↦ some f ];
    error = elim o.error [ some e ↦ some e | none ↦ failure c ];
  }

  abbrev has_choices : List Choice → Bool
  has_choices [] = false
  has_choices (c ∷ cs) = true

  -- The roles that the stream has sent already are dropped.
  drop_repeated_role : ProxyStream U → String → Chunk → ProxyStream U × String
  drop_repeated_role p payload c =
      let (sent, drop) = note_roles 0 c.choices p.role_sent in
      (
        record p { role_sent = sent },
        elim drop [ [] ↦ payload | i ∷ is ↦ drop_roles codec (i ∷ is) payload ],
      )

  -- Personal data is restored, if the key masks and the chunk has choices.
  restore : ProxyStream U → String → Chunk → ProxyStream U × String
  restore p payload c = elim p.unmask [
    | none ↦ (p, payload)
    | some u ↦
        if has_choices c.choices
        then (let (v, out) = restorer.event u payload in (record p { unmask = some v }, out))
        else (p, payload)
  ]

  -- A data event that is a chunk; `prefix` is what stands before the data.
  observe_chunk :
      ProxyStream U → String → String → Chunk → ProxyStream U × List String × Option Chunk
  observe_chunk p prefix payload c =
      let counted = record p { chunks = suc p.chunks; o = read_chunk p.o (suc p.chunks) c } in
      let (noted, once) = drop_repeated_role counted payload c in
      let (restored, out) = restore noted once c in
      (restored, (prefix ++ rewrite_model codec out c p.public_name) ∷ [], some c)

  observe_done : ProxyStream U → String → ProxyStream U × List String × Option Chunk
  observe_done p line =
      let (q, tail) = held_tail (record p { saw_done = true }) in
      (q, elim tail [ none ↦ line ∷ [] | some t ↦ t ∷ "" ∷ line ∷ [] ], none)

  pub observe : ProxyStream U → String → ProxyStream U × List String × Option Chunk
  observe p line = elim (cut_prefix line "data:") [
    | none ↦ (p, line ∷ [], none)
    | some rest ↦
        if is_done (trim_space_prefix rest)
        then observe_done p line
        else elim (codec.parse_chunk (trim_space_prefix rest)) [
          | none ↦ (record p { o = record p.o { malformed = suc p.o.malformed } }, line ∷ [], none)
          | some c ↦ observe_chunk p (data_prefix rest) (trim_space_prefix rest) c
        ]
  ]

  -- A usage-only event that the client did not ask for.
  abbrev is_hidden : ProxyStream U → Option Chunk → Bool
  is_hidden p none = false
  is_hidden p (some c) =
      p.hide_usage && not (has_choices c.choices) && is_some c.usage && c.error == ""

  pub keep : ProxyStream U → String → Option Chunk → ProxyStream U × Bool
  keep p line c =
      if p.skip_blank && line == ""
      then (record p { skip_blank = false }, false)
      else if is_hidden p c
      then (record p { skip_blank = true }, false)
      else (record p { skip_blank = false }, true)

  -- A line is queued, if it is kept; then the loop.
  queue_line : ProxyStream U → String → Option Chunk → ProxyStream U
  queue_line p line c =
      let (q, kept) = keep p line c in
      record q { pending = if kept then join q.pending (line ∷ []) else q.pending }

  pub queue : ProxyStream U → List String → Option Chunk → ProxyStream U
  queue p [] c = p
  queue p (line ∷ lines) c = queue (queue_line p line c) lines c

  -- One round of the loops of `prime` and `Next`: a line is read and queued.
  pub advance : ProxyStream U → String → ProxyStream U × Option Chunk
  advance p line = let (q, lines, c) = observe p line in (queue q lines c, c)

  -- The stream belongs to the client.
  abbrev is_committed : ProxyStream U → Option Chunk → Bool
  is_committed p none = p.saw_done
  is_committed p (some c) = p.saw_done || commits c

  -- `prime` over the lines that are left; `none` is a nil error.
  prime_from : List String → ProxyStream U → ProxyStream U × Option GatewayError
  prime_from [] p = (
    record p { lines = [] },
    if is_some p.scan_error
        then some (err_provider_error 502 "provider stream failed before output")
        else if p.chunks == 0
        then some (err_provider_error 502 "provider returned an empty stream")
        else none,
  )
  prime_from (line ∷ lines) p =
      let (q, c) = advance p line in
      let later = prime_from lines q in
      elim q.o.error [
        | some e ↦ (record q { lines = lines }, some e)
        | none ↦ if is_committed q c then (record q { lines = lines }, none) else later
      ]

  pub prime : ProxyStream U → ProxyStream U × Option GatewayError
  prime p = prime_from p.lines p

  pub end : ProxyStream U → String → ProxyStream U
  end p how =
      if p.finished
      then p
      else let o = record p.o { end = how; proof = p.proof } in
        record p { finished = true; o = o; reported = join p.reported (o ∷ []) }

  -- `Next` when nothing is left to send: how the stream ended, and the error it returns, `none` for
  -- `io.EOF`.
  at_end : ProxyStream U → ProxyStream U × Option String
  at_end p = (
    elim p.o.error [
      | some e ↦ end p "provider_error"
      | none ↦
          if is_none p.scan_error
          then end p (if p.saw_done || is_some p.o.finish then "complete" else "eof_without_finish")
          else if is_some p.o.finish
          then end p "read_error_after_finish"
          else end
              (record p {
                o = record p.o { error = some (err_provider_error 502 "provider stream failed") };
              })
              "read_error"
    ],
    p.scan_error,
  )

  -- Nothing is pending, and no line is left.
  finish_next : ProxyStream U → ProxyStream U × Step
  finish_next p =
      let (q, tail) = held_tail p in
      elim tail [
        | some t ↦ (record q { lines = []; pending = "" ∷ [] }, line_sent t)
        | none ↦ let (r, e) = at_end (record q { lines = [] }) in (r, stream_end e)
      ]

  -- What is pending, with `lines` left; `later` is what is done if it is nothing.
  send_pending :
      List String → List String → ProxyStream U → ProxyStream U × Step → ProxyStream U × Step
  send_pending [] lines p later = later
  send_pending (sent ∷ rest) lines p later =
      (record p { lines = lines; pending = rest }, line_sent sent)

  -- `Next` with nothing pending.
  read_next : List String → ProxyStream U → ProxyStream U × Step
  read_next [] p = finish_next p
  read_next (line ∷ lines) p =
      let q = (advance p line).0 in send_pending q.pending lines q (read_next lines q)

  pub next : ProxyStream U → ProxyStream U × Step
  next p = send_pending p.pending p.lines p (read_next p.lines p)

  -- `Close`: before the end it is a cancellation, unless the response had finished.
  pub close : ProxyStream U → ProxyStream U
  close p =
      if p.finished
      then p
      else if is_none p.o.finish && is_none p.o.error
      then end (record p { o = record p.o { error = some err_client_canceled } })
          "closed_before_eof"
      else end p "closed_before_eof"

  pub run_ops : ProxyStream U → List Op → ProxyStream U
  run_ops p [] = p
  run_ops p (asked ∷ ops) = run_ops (next p).0 ops
  run_ops p (closed ∷ ops) = run_ops (close p) ops
