-- ===== src/Tests/Service.antt =====
-- Inference requests at sample models and accounts.
use dappnode_nexus_gateway.Common.{
  ◌≡◌, ◌≢◌, refl, String, true, false, Option, none, some, All, ◌⊎◌, ◌↔◌, equal_fold,
}
use dappnode_nexus_gateway.Common.Int.{pos}
use dappnode_nexus_gateway.Domain.Error.{ok}
use dappnode_nexus_gateway.Domain.Generation.{GenerateRequest}
use dappnode_nexus_gateway.Service.Checks.{
  validate_request, chat_completions, is_unsupported_model_error,
}
use dappnode_nexus_gateway.Service.Checks.Laws.{Serves, validate_request_iff}
use dappnode_nexus_gateway.Service.Resolve.{
  named, resolve_model, resolve_router, resolve_decision, record_decision,
}
use dappnode_nexus_gateway.Service.Resolve.Laws.{Keeps, IsNamed, IsRouted, resolve_model-resolves}
use dappnode_nexus_gateway.Service.Proxy.{proxy}
use dappnode_nexus_gateway.Service.Proxy.Accounting.{IsAccounted, proxy-IsBalanced}
use dappnode_nexus_gateway.Service.Proxy.Guests.{IsGuestHold, proxy-IsGuestHold}
use dappnode_nexus_gateway.Tests.Samples.{model, router, decision, catalog, request, guest, env}

proxy-IsBalanced_example :
    IsAccounted env (proxy env "chat_completions" "raw" (request "small") "token")
proxy-IsBalanced_example = proxy-IsBalanced env "chat_completions" "raw" (request "small") "token"

proxy-IsGuestHold_example :
    All
      (IsGuestHold catalog "chat_completions" "small" (pos 1024))
      (proxy env "chat_completions" "raw" (request "small") "token").0
proxy-IsGuestHold_example =
    proxy-IsGuestHold env "chat_completions" "raw" (request "small") "token" guest refl refl refl

abbrev routed : GenerateRequest
routed = record_decision (record (request "auto") { requested_model_id = "auto" }) router decision

routed_computed : resolve_model catalog (request "auto") ≡ ok (model, routed)
unfolding resolve_model resolve_router resolve_decision named is_unsupported_model_error
routed_computed = refl

resolve_model-resolves_example :
    Keeps catalog (request "auto") routed
    × (IsNamed catalog (request "auto") model routed
        ⊎ IsRouted catalog (request "auto") model routed)
resolve_model-resolves_example =
    resolve_model-resolves catalog (request "auto") model routed routed_computed

validate_request_iff_example :
    (validate_request "chat_completions" (request "small") model ≡ none) ↔ (
      Serves model "chat_completions"
      × ((chat_completions ≢ "systemone") ⊎ (false ≡ false))
      × ((equal_fold "first" "doubleword" ≡ false) ⊎ (◌≡◌ {A = Option String} none none))
      × ((model.proof_mode ≢ "tinfoil_attested_transport") ⊎ (equal_fold "first" "tinfoil" ≡ true)))
validate_request_iff_example = validate_request_iff "chat_completions" (request "small") model

abbrev limited : GenerateRequest
limited = record (request "small") { max_output_tokens = some (pos 1024) }
