-- ===== src/Metering/Wire.antt =====
-- The JSON that Metering's runtime API returns: runtime_client.go. A pointer field is an `Option`,
-- a time is a number with 0 for Go's zero time, and a raw JSON text is kept as a text.
use dappnode_nexus_gateway.Common.{ℕ, String, Bool, Option}
use dappnode_nexus_gateway.Common.Int.{ℤ}
use dappnode_nexus_gateway.Domain.Model.{ProviderConfig, RouterEntry}

pub record RuntimeAccount : Type 0 where
  pub id : String
  pub external_customer_id : Option String
  pub status : String
  pub is_guest : Bool

pub record RuntimeApiKey : Type 0 where
  pub id : String
  pub account_id : String
  pub name : Option String
  pub key_prefix : String
  pub active : Bool
  pub pii_mode : String
  pub last_used_at : Option ℕ

pub record AuthenticateResponse : Type 0 where
  pub account : RuntimeAccount
  pub api_key : RuntimeApiKey

pub record RuntimeProviderConfig : Type 0 where
  pub id : String
  pub provider_name : String
  pub base_url : String
  pub api_key_secret_ref : String
  pub organization_ref : Option String
  pub active : Bool

pub record RuntimeProviderTarget : Type 0 where
  pub provider_model_id : String
  pub upstream_model_name : String
  pub service_tier : Option String
  pub provider_config : RuntimeProviderConfig

pub record RuntimePublicModel : Type 0 where
  pub id : String
  pub public_model_id : String
  pub display_name : String
  pub description : Option String
  pub provider_model_id : String
  pub upstream_model_name : String
  pub service_tier : Option String
  pub provider_config : RuntimeProviderConfig
  pub fallback : Option RuntimeProviderTarget
  pub supports_chat_completions : Option Bool
  pub supports_chat_completions_stream : Option Bool
  pub supports_tools : Option Bool
  pub supports_parallel_tool_calls : Option Bool
  pub supports_structured_output : Option Bool
  pub supports_reasoning : Option Bool
  pub capabilities : String
  pub proof_mode : String
  pub max_context_window : ℤ
  pub max_output_tokens : ℤ
  pub input_price : Option ℤ
  pub output_price : Option ℤ
  pub cache_read_price : Option ℤ
  pub cache_write_price : Option ℤ
  pub currency : String
  pub active : Bool
  pub guest_allowed : Bool

pub record RuntimeRouter : Type 0 where
  pub id : String
  pub router_id : String
  pub display_name : String
  pub description : Option String
  pub fallback_public_model_id : String
  pub strategy_type : String
  pub strategy_config : String
  pub active : Bool
  pub created_at : ℕ
  pub updated_at : ℕ

pub record RuntimeProof : Type 0 where
  pub id : String
  pub account_id : String
  pub api_key_id : String
  pub provider : String
  pub public_model_id : String
  pub upstream_model_id : String
  pub provider_response_id : String
  pub enclave_host : Option String
  pub config_repo : Option String
  pub digest : Option String
  pub code_fingerprint : Option String
  pub enclave_fingerprint : Option String
  pub tls_public_key : Option String
  pub hpke_public_key : Option String
  pub transport_mode : Option String
  pub sdk_version : Option String
  pub status : String
  pub failure_reason : Option String
  pub verification_evidence : String
  pub created_at : ℕ
  pub verified_at : Option ℕ

unfoldable pub provider_config_to_domain : RuntimeProviderConfig → ProviderConfig
provider_config_to_domain p = record {
  id = p.id;
  provider_name = p.provider_name;
  base_url = p.base_url;
  api_key_secret_ref = p.api_key_secret_ref;
  organization_ref = p.organization_ref;
  active = p.active;
}

unfoldable pub router_to_domain : RuntimeRouter → RouterEntry
router_to_domain r = record {
  id = r.id;
  router_id = r.router_id;
  display_name = r.display_name;
  description = r.description;
  fallback_public_model_id = r.fallback_public_model_id;
  strategy_type = r.strategy_type;
  strategy_config = r.strategy_config;
  active = r.active;
  created_at = r.created_at;
  updated_at = r.updated_at;
}
