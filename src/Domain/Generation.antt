-- ===== src/Domain/Generation.antt =====
-- pkg/domain/generation.go, usage.go and tee.go: a generation's request summary and its result.
use dappnode_nexus_gateway.Common.{String, Bool, Option, ℕ, List}
use dappnode_nexus_gateway.Common.Int.{ℤ}
use dappnode_nexus_gateway.Domain.Model.{RoutingCategoryScore, Float32}

pub record InputItem : Type 0 where
  pub role : Option String
  pub content : Option String

pub record ToolDefinition : Type 0 where
  pub name : String

pub record GenerateRequest : Type 0 where
  pub public_model_id : String
  pub requested_model_id : String
  pub router_id : Option String
  pub routed_public_model_id : Option String
  pub matched_category : Option String
  pub routing_score : Option Float32
  pub routing_category_scores : List RoutingCategoryScore
  pub decision_reason : Option String
  pub fallback_used : Option Bool
  pub input : List InputItem
  pub tools : List ToolDefinition
  pub stream : Bool
  pub max_output_tokens : Option ℤ
  pub estimated_input_tokens : Option ℤ
  pub service_tier : Option String
  pub parallel_tool_calls : Option Bool
  pub structured_output : Bool

pub record Usage : Type 0 where
  pub prompt_tokens : ℤ
  pub completion_tokens : ℤ
  pub total_tokens : ℤ
  pub cache_creation_tokens : ℤ
  pub cache_read_tokens : ℤ

-- The evidence fields travel together: they are only stored.
pub record TinfoilProof : Type 0 where
  pub id : String
  pub account_id : String
  pub api_key_id : String
  pub provider : String
  pub public_model_id : String
  pub upstream_model_id : String
  pub provider_response_id : String
  pub enclave_host : Option String
  pub config_repo : Option String
  pub digest : Option String
  pub code_fingerprint : Option String
  pub enclave_fingerprint : Option String
  pub tls_public_key : Option String
  pub hpke_public_key : Option String
  pub transport_mode : Option String
  pub sdk_version : Option String
  pub status : String
  pub failure_reason : Option String
  pub verification_evidence : String
  pub created_at : ℕ
  pub verified_at : Option ℕ

pub record GenerateResult : Type 0 where
  pub id : String
  pub public_model_id : String
  pub provider_name : String
  pub provider_model_id : String
  pub finish_reason : Option String
  pub usage : Option Usage
  pub tinfoil_proof : Option TinfoilProof
