-- ===== src/Tests/Metering.antt =====
-- Metering's answers at sample models and keys, and a log line.
use dappnode_nexus_gateway.Common.{
  ◌≡◌, ◌≢◌, refl, String, true, false, [], ◌∷◌, none, some, All, ◌⊎◌, ◌↔◌, string_eq, is_blank,
  is_space,
}
use dappnode_nexus_gateway.Common.Int.{pos}
use dappnode_nexus_gateway.Domain.Error.{
  GatewayError, Error, gateway, Result, ok, as_gateway, Metadata, str, int,
  err_provider_unavailable,
}
use dappnode_nexus_gateway.Domain.Fault.{diagnostic_fields, fault_of}
use dappnode_nexus_gateway.Domain.Fault.Logging.{IsLoggedField, diagnostic_fields-IsLogged}
use dappnode_nexus_gateway.Domain.Account.{is_active, normalize_pii_mode}
use dappnode_nexus_gateway.Metering.Wire.{
  RuntimePublicModel, RuntimeProviderConfig, AuthenticateResponse,
}
use dappnode_nexus_gateway.Metering.Contract.{
  validate_public_model, validate_authenticate_response, first_error,
}
use dappnode_nexus_gateway.Metering.Contract.Conditions.{IsServable}
use dappnode_nexus_gateway.Metering.Contract.Models.{validate_public_model_iff}
use dappnode_nexus_gateway.Metering.Contract.Authentication.{
  IsAuthentic, validate_authenticate_response_iff,
}
use dappnode_nexus_gateway.Metering.Catalog.{authenticate_api_key, auth_context, checked_auth}
use dappnode_nexus_gateway.Metering.Catalog.Laws.{authenticate_api_key-active}

abbrev provider : RuntimeProviderConfig
provider = record {
  id = "p-1";
  provider_name = "first";
  base_url = "https://provider.example";
  api_key_secret_ref = "PROVIDER_KEY";
  organization_ref = none;
  active = true;
}

abbrev model : RuntimePublicModel
model = record {
  id = "m-1";
  public_model_id = "small";
  display_name = "Small";
  description = none;
  provider_model_id = "pm-1";
  upstream_model_name = "small-1";
  service_tier = none;
  provider_config = provider;
  fallback = none;
  supports_chat_completions = some true;
  supports_chat_completions_stream = some true;
  supports_tools = some true;
  supports_parallel_tool_calls = some false;
  supports_structured_output = some false;
  supports_reasoning = some false;
  capabilities = "";
  proof_mode = "none";
  max_context_window = pos 8192;
  max_output_tokens = pos 4096;
  input_price = some (pos 1);
  output_price = some (pos 2);
  cache_read_price = none;
  cache_write_price = none;
  currency = "USD";
  active = true;
  guest_allowed = false;
}

abbrev response : AuthenticateResponse
response = record {
  account = record { id = "a-1"; external_customer_id = none; status = "active"; is_guest = false };
  api_key = record {
    id = "k-1";
    account_id = "a-1";
    name = none;
    key_prefix = "sk";
    active = true;
    pii_mode = "low";
    last_used_at = none;
  };
}

validate_public_model_iff_example :
    (validate_public_model model "small" ≡ none) ↔ IsServable model "small"
validate_public_model_iff_example = validate_public_model_iff model "small"

validate_authenticate_response_iff_example :
    (validate_authenticate_response response ≡ none) ↔ IsAuthentic response
validate_authenticate_response_iff_example = validate_authenticate_response_iff response

abbrev asked : String
asked = "small"

abbrev key : String
key = "key"

abbrev post : String → Result AuthenticateResponse
post sent = ok response

authenticated : authenticate_api_key post key ≡ ok (auth_context response)
unfolding authenticate_api_key checked_auth validate_authenticate_response first_error
    normalize_pii_mode is_blank is_space
authenticated = refl

authenticate_api_key-active_example :
    (key ≢ "")
    × (is_active (auth_context response).account ≡ true)
    × ((auth_context response).api_key.active ≡ true)
    × ((auth_context response).api_key.account_id ≡ (auth_context response).account.id)
    × (((auth_context response).api_key.pii_mode ≡ "off")
        ⊎ ((auth_context response).api_key.pii_mode ≡ "low")
        ⊎ ((auth_context response).api_key.pii_mode ≡ "balanced")
        ⊎ ((auth_context response).api_key.pii_mode ≡ "high"))
authenticate_api_key-active_example =
    authenticate_api_key-active post key (auth_context response) authenticated

abbrev failure : Error
failure = gateway (err_provider_unavailable "first")

diagnostic_fields-IsLogged_example :
    ((as_gateway failure ≡ none)
      × (diagnostic_fields failure ≡ ("fault", str (fault_of failure)) ∷ []))
    ⊎ ((g : GatewayError) × (rest : Metadata) × (as_gateway failure ≡ some g)
        × (diagnostic_fields failure
            ≡ ("fault", str (fault_of failure))
              ∷ ("error_code", str g.code)
              ∷ ("gateway_status", int (pos g.http_status))
              ∷ rest)
        × All IsLoggedField rest)
diagnostic_fields-IsLogged_example = diagnostic_fields-IsLogged failure
