-- ===== src/Domain/Model.antt =====
-- pkg/domain/model.go and router.go: public models, their providers, and routers.
-- A price is the integer of 10⁻⁸ currency units that the source's decimal stands for. A JSON text
-- that is only passed on is a text.
use dappnode_nexus_gateway.Common.{
  String, Bool, false, ◌&&◌, Option, if◌then◌else◌, ◌==◌, ◌!=◌, string_eq, ℕ, List,
}
use dappnode_nexus_gateway.Common.Int.{ℤ}

pub record ProviderConfig : Type 0 where
  pub id : String
  pub provider_name : String
  pub base_url : String
  pub api_key_secret_ref : String
  pub organization_ref : Option String
  pub active : Bool

pub record ProviderTarget : Type 0 where
  pub provider_model_id : String
  pub upstream_model_name : String
  pub service_tier : Option String
  pub provider_config : ProviderConfig

pub record PublicModel : Type 0 where
  pub id : String
  pub public_model_id : String
  pub display_name : String
  pub description : Option String
  pub provider_model_id : String
  pub upstream_model_name : String
  pub service_tier : Option String
  pub provider_config : ProviderConfig
  pub fallback : Option ProviderTarget
  pub supports_chat_completions : Bool
  pub capabilities : String
  pub proof_mode : String
  pub max_context_window : ℤ
  pub max_output_tokens : ℤ
  pub input_price : ℤ
  pub output_price : ℤ
  pub cache_read_price : Option ℤ
  pub cache_write_price : Option ℤ
  pub currency : String
  pub active : Bool
  pub guest_allowed : Bool

abbrev pub proof_mode_none : String
proof_mode_none = "none"

abbrev pub proof_mode_tinfoil : String
proof_mode_tinfoil = "tinfoil_attested_transport"

unfoldable pub effective_proof_mode : PublicModel → String
effective_proof_mode m =
    if m.proof_mode != "" && m.proof_mode != proof_mode_none then m.proof_mode else proof_mode_none

unfoldable pub supports_endpoint : PublicModel → String → Bool
supports_endpoint m endpoint =
    if m.provider_config.provider_name == "typesafe"
    then endpoint == "systemone"
    else if endpoint == "chat_completions"
    then m.supports_chat_completions
    else false

pub record RouterEntry : Type 0 where
  pub id : String
  pub router_id : String
  pub display_name : String
  pub description : Option String
  pub fallback_public_model_id : String
  pub strategy_type : String
  pub strategy_config : String
  pub active : Bool
  pub created_at : ℕ
  pub updated_at : ℕ

-- A `float32` is its bit pattern: scores are only passed on.
abbrev pub Float32 : Type 0
Float32 = ℕ

pub record RoutingCategoryScore : Type 0 where
  pub category : String
  pub score : Float32
  pub threshold : Float32
  pub passed_threshold : Bool
  pub selected : Bool

pub record RouteDecision : Type 0 where
  pub public_model_id : String
  pub category : Option String
  pub score : Option Float32
  pub category_scores : List RoutingCategoryScore
  pub fallback_used : Bool
  pub reason : String
