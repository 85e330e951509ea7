-- ===== src/Tests/Stream.antt =====
-- A stream of two events, with a concrete decoder.
use dappnode_nexus_gateway.Common.{
  arith, refl, ◌≡◌, String, false, List, [], ◌∷◌, none, some, if◌then◌else◌, ◌==◌, string_eq,
  length, Any,
}
use dappnode_nexus_gateway.Service.Chunk.{Chunk, Codec}
use dappnode_nexus_gateway.Service.Stream.{
  ProxyStream, Restorer, asked, closed, new_proxy_stream, prime, next, close, run_ops,
}
use dappnode_nexus_gateway.Service.Stream.Progress.{steps, EndGiven, asks, run_ops-ends}
use dappnode_nexus_gateway.Service.Stream.Ends.{EndsReported, run_ops-reports}

abbrev finishing : Chunk
finishing = record {
  id = "c-1";
  model = none;
  choices = record { index = none; delta = none; finish_reason = some "stop" } ∷ [];
  usage = none;
  error = "";
  base_resp = none;
}

abbrev pub codec : Codec
codec = record {
  parse_chunk = λ text. if text == "{}" then some finishing else none;
  decode_object = λ text. none;
  encode = λ value. none;
  quote = λ text. text;
  around_model = λ text. none;
  itoa = λ n. "0";
}

abbrev pub restorer : Restorer String
restorer = record { event = λ held text. (held, text); tail = λ held id name. ("", none) }

abbrev pub lines : List String
lines = "data: {}" ∷ "" ∷ "data: [DONE]" ∷ "" ∷ []

abbrev pub primed : ProxyStream String
primed = (prime codec restorer (new_proxy_stream lines none "small" none false none)).0

abbrev later : ProxyStream String
later = run_ops codec restorer primed (asked ∷ asked ∷ [])

run_ops-reports_example :
    (length (close codec restorer later).reported ≡ 1)
    × ((run_ops codec restorer (close codec restorer later) (closed ∷ [])).reported
        ≡ (close codec restorer later).reported)
    × EndsReported codec restorer (closed ∷ []) (next codec restorer later)
run_ops-reports_example =
    run_ops-reports codec restorer lines none "small" none false none (asked ∷ asked ∷ [])
      (closed ∷ [])

run_ops-ends_example :
    Any EndGiven (steps codec restorer primed 15)
    × (length (run_ops codec restorer primed (asks 15)).reported ≡ 1)
run_ops-ends_example =
    run_ops-ends codec restorer (λ held id name. refl) lines none "small" none false none 15
      (omega arith)
