-- ===== src/Tests/Streamed.antt =====
-- A streamed request at sample data, from the credit hold to its settlement.
use dappnode_nexus_gateway.Common.{
  ◌≡◌, refl, String, true, false, List, [], ◌∷◌, ◌++◌, none, some, All, count, equal_fold,
}
use dappnode_nexus_gateway.Domain.Error.{ok}
use dappnode_nexus_gateway.Domain.Generation.{GenerateRequest}
use dappnode_nexus_gateway.Domain.Model.{supports_endpoint, effective_proof_mode}
use dappnode_nexus_gateway.Service.Checks.{check_guest_model, cap_output, validate_request}
use dappnode_nexus_gateway.Service.Resolve.{resolve_model}
use dappnode_nexus_gateway.Service.Stream.{ProxyStream, close, run_ops, asked}
use dappnode_nexus_gateway.Service.Proxy.{
  Env, Event, streaming, proxy, admit, limit_guest, resolve, serve, hold, infer, attempt,
  attempt_stream, after_failure, fall_back, estimated,
}
use dappnode_nexus_gateway.Service.Proxy.Events.{
  opened, IsUnder, is_reservation, is_settlement, is_stop,
}
use dappnode_nexus_gateway.Service.Proxy.Streams.{finish_all, streamed-settled}
use dappnode_nexus_gateway.Tests.Samples.{env, model, request}
use dappnode_nexus_gateway.Tests.Stream.{codec, restorer, lines, primed}

abbrev streaming_env : Env String String (ProxyStream String) String
streaming_env = record {
  authenticate = env.authenticate;
  catalog = env.catalog;
  guest_max_output_tokens = env.guest_max_output_tokens;
  write_limit = env.write_limit;
  mask_body = env.mask_body;
  estimate_input_tokens = env.estimate_input_tokens;
  reserve = env.reserve;
  registered = env.registered;
  complete = env.complete;
  observe = env.observe;
  open_stream = λ body m mapping. ok primed;
  sanitize = env.sanitize;
  gone = env.gone;
  lost_after_attempt = none;
  lost_at_end = none;
}

abbrev streamed : GenerateRequest
streamed = record (request "small") { stream = true }

abbrev events : List (Event String)
events = (proxy streaming_env "chat_completions" "raw" streamed "token").0

streamed_computed :
    proxy streaming_env "chat_completions" "raw" streamed "token"
    ≡ (events, ok (streaming model primed "reservation" none))
unfolding proxy admit limit_guest resolve serve hold infer attempt attempt_stream after_failure
    fall_back estimated check_guest_model cap_output resolve_model validate_request
    supports_endpoint equal_fold effective_proof_mode
streamed_computed = refl

streamed-settled_example :
    (count is_reservation (
        events
        ++ finish_all streaming_env "reservation" model none none
            (close codec restorer (run_ops codec restorer primed (asked ∷ []))).reported)
      ≡ 1)
    × (count is_settlement (
          events
          ++ finish_all streaming_env "reservation" model none none
              (close codec restorer (run_ops codec restorer primed (asked ∷ []))).reported)
        ≡ 1)
    × (count is_stop (
          events
          ++ finish_all streaming_env "reservation" model none none
              (close codec restorer (run_ops codec restorer primed (asked ∷ []))).reported)
        ≡ 1)
    × (opened events ≡ some "reservation")
    × All (IsUnder (opened events)) (
        events
        ++ finish_all streaming_env "reservation" model none none
            (close codec restorer (run_ops codec restorer primed (asked ∷ []))).reported)
streamed-settled_example =
    streamed-settled streaming_env codec restorer "chat_completions" "raw" streamed "token"
      "reservation" model events none none lines none "small" none false none (asked ∷ [])
      streamed_computed
