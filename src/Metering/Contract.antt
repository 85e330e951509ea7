-- ===== src/Metering/Contract.antt =====
-- What the gateway demands of Metering's answers: the `validate…` functions of runtime_client.go.
-- A `switch` without a value is the list of its cases, tried in order. Whether a raw text is a JSON
-- object is encoding/json's answer, the parameter `json_object`.
pub mod Conditions
pub mod Models
pub mod Authentication
use dappnode_nexus_gateway.Common.{
  ℕ, String, Bool, true, false, not, ◌&&◌, ◌||◌, List, [], ◌∷◌, ◌++◌, Option, none, some,
  if◌then◌else◌, ◌==◌, ◌!=◌, string_eq, nat_eq, is_blank, is_none,
}
use dappnode_nexus_gateway.Common.Int.{ℤ, pos, leb_ℤ, ltb_ℤ}
use dappnode_nexus_gateway.Domain.Error.{GatewayError, err_internal, with_meta, Metadata, Meta, str}
use dappnode_nexus_gateway.Domain.Account.{normalize_pii_mode}
use dappnode_nexus_gateway.Domain.Model.{proof_mode_none, proof_mode_tinfoil}
use dappnode_nexus_gateway.Metering.Wire.{
  AuthenticateResponse, RuntimePublicModel, RuntimeProviderTarget, RuntimeRouter, RuntimeProof,
}

unfoldable pub metering_internal_error : Metadata → GatewayError
metering_internal_error fields =
    with_meta (err_internal "an internal error occurred") (("dependency", str "metering") ∷ fields)

unfoldable pub runtime_contract_error : String → String → GatewayError
unfolding metering_internal_error
runtime_contract_error contract reason = metering_internal_error (
    ("cause", str "metering_bad_response")
    ∷ ("contract", str contract)
    ∷ ("reason", str reason)
    ∷ [])

-- The first case whose test holds decides.
abbrev pub Cases : Type 0
Cases = List (Bool × GatewayError)

unfoldable pub first_error : Cases → Option GatewayError
first_error [] = none
first_error ((test, e) ∷ cases) = if test then some e else first_error cases

abbrev auth_error : String → GatewayError
auth_error = runtime_contract_error "authentication"

abbrev pub authenticate_cases : AuthenticateResponse → Cases
authenticate_cases response =
    (is_blank response.account.id, auth_error "account.id is required")
    ∷ (is_blank response.api_key.id, auth_error "api_key.id is required")
    ∷ (is_blank response.api_key.account_id, auth_error "api_key.account_id is required")
    ∷ (
      response.api_key.account_id != response.account.id,
      auth_error "api key does not belong to returned account",
    )
    ∷ (
      response.account.status != "active",
      auth_error "successful response contains an inactive account",
    )
    ∷ (not response.api_key.active, auth_error "successful response contains an inactive API key")
    ∷ (response.api_key.pii_mode == "", auth_error "api_key.pii_mode is required")
    ∷ (
      is_none (normalize_pii_mode response.api_key.pii_mode),
      auth_error "api_key.pii_mode is invalid",
    )
    ∷ []

unfoldable pub validate_authenticate_response : AuthenticateResponse → Option GatewayError
unfolding first_error
validate_authenticate_response response = first_error (authenticate_cases response)

abbrev target_error : String → GatewayError
target_error = runtime_contract_error "public model fallback"

abbrev pub provider_target_cases : RuntimeProviderTarget → Cases
provider_target_cases target =
    (is_blank target.provider_model_id, target_error "provider_model_id is required")
    ∷ (is_blank target.upstream_model_name, target_error "upstream_model_name is required")
    ∷ (is_blank target.provider_config.id, target_error "provider_config.id is required")
    ∷ (
      is_blank target.provider_config.provider_name,
      target_error "provider_config.provider_name is required",
    )
    ∷ (
      is_blank target.provider_config.base_url,
      target_error "provider_config.base_url is required",
    )
    ∷ (
      is_blank target.provider_config.api_key_secret_ref,
      target_error "provider_config.api_key_secret_ref is required",
    )
    ∷ (not target.provider_config.active, target_error "provider config is inactive")
    ∷ []

abbrev model_error : String → GatewayError
model_error = runtime_contract_error "public model"

-- `p != nil && *p < 0`.
abbrev pub is_negative : Option ℤ → Bool
is_negative none = false
is_negative (some n) = ltb_ℤ n (pos 0)

abbrev pub model_cases : RuntimePublicModel → String → Cases
model_cases model expected =
    (is_blank model.id, model_error "id is required")
    ∷ (is_blank model.public_model_id, model_error "public_model_id is required")
    ∷ (
      expected != "" && model.public_model_id != expected,
      with_meta (model_error "returned public_model_id does not match request") (
          ("expected_public_model_id", str expected)
          ∷ ("actual_public_model_id", str model.public_model_id)
          ∷ []),
    )
    ∷ (is_blank model.display_name, model_error "display_name is required")
    ∷ (is_blank model.provider_model_id, model_error "provider_model_id is required")
    ∷ (is_blank model.upstream_model_name, model_error "upstream_model_name is required")
    ∷ (is_blank model.provider_config.id, model_error "provider_config.id is required")
    ∷ (
      is_blank model.provider_config.provider_name,
      model_error "provider_config.provider_name is required",
    )
    ∷ (is_blank model.provider_config.base_url, model_error "provider_config.base_url is required")
    ∷ (
      is_blank model.provider_config.api_key_secret_ref,
      model_error "provider_config.api_key_secret_ref is required",
    )
    ∷ (not model.active, model_error "inactive model returned by active catalog query")
    ∷ (
      not model.provider_config.active,
      model_error "inactive provider config returned by active catalog query",
    )
    ∷ (is_none model.supports_chat_completions, model_error "supports_chat_completions is required")
    ∷ (
      is_none model.supports_chat_completions_stream,
      model_error "supports_chat_completions_stream is required",
    )
    ∷ (is_none model.supports_tools, model_error "supports_tools is required")
    ∷ (
      is_none model.supports_parallel_tool_calls,
      model_error "supports_parallel_tool_calls is required",
    )
    ∷ (
      is_none model.supports_structured_output,
      model_error "supports_structured_output is required",
    )
    ∷ (is_none model.supports_reasoning, model_error "supports_reasoning is required")
    ∷ (
      model.proof_mode != proof_mode_none && model.proof_mode != proof_mode_tinfoil,
      model_error "proof_mode is invalid",
    )
    ∷ (leb_ℤ model.max_context_window (pos 0), model_error "max_context_window must be positive")
    ∷ (leb_ℤ model.max_output_tokens (pos 0), model_error "max_output_tokens must be positive")
    ∷ (is_none model.input_price, model_error "input price is required")
    ∷ (is_negative model.input_price, model_error "input price must not be negative")
    ∷ (is_none model.output_price, model_error "output price is required")
    ∷ (is_negative model.output_price, model_error "output price must not be negative")
    ∷ (is_negative model.cache_read_price, model_error "cache read price must not be negative")
    ∷ (is_negative model.cache_write_price, model_error "cache write price must not be negative")
    ∷ (is_blank model.currency, model_error "currency is required")
    ∷ []

-- The checks after the switch: a fallback must be complete, and differ from the primary target.
abbrev pub fallback_cases : RuntimePublicModel → Option RuntimeProviderTarget → Cases
fallback_cases model none = []
fallback_cases model (some target) =
    provider_target_cases target
    ++ (
      target.provider_model_id == model.provider_model_id
          && target.provider_config.id == model.provider_config.id,
      model_error "fallback must differ from primary target",
    )
      ∷ []

abbrev pub public_model_cases : RuntimePublicModel → String → Cases
public_model_cases model expected =
    model_cases model expected ++ fallback_cases model model.fallback

pub validate_public_model : RuntimePublicModel → String → Option GatewayError
unfolding first_error
validate_public_model model expected = first_error (public_model_cases model expected)

abbrev router_error : String → GatewayError
router_error = runtime_contract_error "router"

abbrev pub router_cases : (String → Bool) → RuntimeRouter → String → Cases
router_cases json_object router expected =
    (is_blank router.id, router_error "id is required")
    ∷ (is_blank router.router_id, router_error "router_id is required")
    ∷ (
      expected != "" && router.router_id != expected,
      with_meta (router_error "returned router_id does not match request")
          (("expected_router_id", str expected) ∷ ("actual_router_id", str router.router_id) ∷ []),
    )
    ∷ (is_blank router.display_name, router_error "display_name is required")
    ∷ (
      is_blank router.fallback_public_model_id,
      router_error "fallback_public_model_id is required",
    )
    ∷ (is_blank router.strategy_type, router_error "strategy_type is required")
    ∷ (
      not (json_object router.strategy_config),
      router_error "strategy_config must be a JSON object",
    )
    ∷ (not router.active, router_error "inactive router returned by active catalog query")
    ∷ (router.created_at == 0, router_error "created_at is required")
    ∷ (router.updated_at == 0, router_error "updated_at is required")
    ∷ []

pub validate_router : (String → Bool) → RuntimeRouter → String → Option GatewayError
unfolding first_error
validate_router json_object router expected = first_error (router_cases json_object router expected)

abbrev proof_error : String → GatewayError
proof_error = runtime_contract_error "Tinfoil proof"

abbrev pub proof_cases : RuntimeProof → String → String → Cases
proof_cases proof account response =
    (is_blank proof.id, proof_error "id is required")
    ∷ (is_blank proof.account_id, proof_error "account_id is required")
    ∷ (proof.account_id != account, proof_error "returned account_id does not match request")
    ∷ (is_blank proof.api_key_id, proof_error "api_key_id is required")
    ∷ (is_blank proof.provider, proof_error "provider is required")
    ∷ (is_blank proof.public_model_id, proof_error "public_model_id is required")
    ∷ (is_blank proof.upstream_model_id, proof_error "upstream_model_id is required")
    ∷ (is_blank proof.provider_response_id, proof_error "provider_response_id is required")
    ∷ (
      proof.provider_response_id != response,
      proof_error "returned provider_response_id does not match request",
    )
    ∷ (is_blank proof.status, proof_error "status is required")
    ∷ (proof.created_at == 0, proof_error "created_at is required")
    ∷ []

pub validate_proof : RuntimeProof → String → String → Option GatewayError
unfolding first_error
validate_proof proof account response = first_error (proof_cases proof account response)
