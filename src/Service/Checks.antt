-- ===== src/Service/Checks.antt =====
-- The checks of apps/gateway/internal/application/services that stand before a provider call:
-- generate_service.go (`validateRequest`, `shouldTryFallback`, `withProviderTarget`, `clientGone`),
-- guest_models.go and output_limit.go.
pub mod Laws
use dappnode_nexus_gateway.Common.{
  ℕ, String, Bool, true, false, not, ◌&&◌, ◌||◌, List, [], ◌∷◌, Option, none, some, if◌then◌else◌,
  ◌==◌, ◌!=◌, string_eq, nat_eq, leb, is_some, equal_fold,
}
use dappnode_nexus_gateway.Common.Int.{ℤ, pos, ltb_ℤ, leb_ℤ}
use dappnode_nexus_gateway.Domain.Error.{
  GatewayError, Error, gateway, Result, ok, err, as_gateway, err_unsupported_endpoint,
  err_unsupported_feature, err_invalid_field, err_client_canceled, err_guest_model_not_allowed,
}
use dappnode_nexus_gateway.Domain.Fault.{fault_of}
use dappnode_nexus_gateway.Domain.Model.{
  PublicModel, ProviderTarget, supports_endpoint, effective_proof_mode, proof_mode_tinfoil,
}
use dappnode_nexus_gateway.Domain.Generation.{GenerateRequest}

abbrev pub chat_completions : String
chat_completions = "chat_completions"

abbrev pub systemone : String
systemone = "systemone"

-- `none` is a nil error.
unfoldable pub validate_request : String → GenerateRequest → PublicModel → Option GatewayError
validate_request endpoint req model =
    if not (supports_endpoint model endpoint)
    then some (err_unsupported_endpoint model.public_model_id endpoint)
    else if endpoint == systemone && req.stream
    then some (err_unsupported_feature "streaming for systemone")
    else if equal_fold model.provider_config.provider_name "doubleword" && is_some req.service_tier
    then some (err_invalid_field "service_tier is fixed by the selected Doubleword model")
    else if effective_proof_mode model == proof_mode_tinfoil
        && not (equal_fold model.provider_config.provider_name "tinfoil")
    then some (err_unsupported_feature "Tinfoil verified transport for non-Tinfoil provider")
    else none

-- `canceled` is `ctx.Err() != nil`; the error is not nil where the source calls this with one.
unfoldable pub should_try_fallback : Bool → Error → Option ProviderTarget → Bool
should_try_fallback canceled e none = false
should_try_fallback canceled e (some target) =
    not canceled
    && elim (as_gateway e) [ none ↦ true | some g ↦ g.http_status == 429 || leb 500 g.http_status ]

unfoldable pub with_provider_target : PublicModel → ProviderTarget → PublicModel
with_provider_target model target = record model {
  provider_model_id = target.provider_model_id;
  upstream_model_name = target.upstream_model_name;
  service_tier = target.service_tier;
  provider_config = target.provider_config;
  fallback = none;
}

-- `gone` is `ctx.Err() != nil`.
unfoldable pub client_gone : Bool → Error → Error
client_gone gone e = if gone && fault_of e == "nexus" then gateway err_client_canceled else e

abbrev pub has_code : String → Error → Bool
has_code code e = elim (as_gateway e) [ none ↦ false | some g ↦ g.code == code ]

unfoldable pub is_unsupported_model_error : Error → Bool
is_unsupported_model_error e = has_code "unsupported_model" e

unfoldable pub is_not_found_error : Error → Bool
is_not_found_error e = has_code "not_found" e

-- `checkGuestModel`, with the catalog's answer for the model.
unfoldable pub check_guest_model : (String → Result PublicModel) → String → String → Option Error
unfolding is_unsupported_model_error
check_guest_model get_public_model endpoint id =
    if endpoint != chat_completions
    then some (gateway (err_guest_model_not_allowed id))
    else elim (get_public_model id) [
      | err e ↦
          if is_unsupported_model_error e
          then some (gateway (err_guest_model_not_allowed id))
          else some e
      | ok model ↦
          if not model.guest_allowed then some (gateway (err_guest_model_not_allowed id)) else none
    ]

-- `req.MaxOutputTokens != nil && *req.MaxOutputTokens > 0 && *req.MaxOutputTokens <= limit`.
abbrev pub within_limit : ℤ → Option ℤ → Bool
within_limit limit none = false
within_limit limit (some n) = ltb_ℤ (pos 0) n && leb_ℤ n limit

-- `capOutput`; `write_limit` writes the limit into the JSON body, or fails.
unfoldable pub cap_output :
    {Body : Type 0}
    → (Body → ℤ → Result Body)
    → ℤ
    → Body
    → GenerateRequest
    → Result (Body × GenerateRequest)
cap_output write_limit limit raw req =
    if within_limit limit req.max_output_tokens
    then ok (raw, req)
    else elim (write_limit raw limit) [
      | err e ↦ err e
      | ok rewritten ↦ ok (rewritten, record req { max_output_tokens = some limit })
    ]
