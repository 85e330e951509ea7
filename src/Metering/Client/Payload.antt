-- ===== src/Metering/Client/Payload.antt =====
-- The bodies that the gateway sends to Metering, client.go: `reserveRequest`, `completeRequest` and
-- `failureRequest`, as `Reserve`, `RecordSuccess` and `RecordFailure` fill them.
use dappnode_nexus_gateway.Common.{
  String, Bool, false, List, [], Option, none, some, if◌then◌else◌, ◌==◌, ◌!=◌, string_eq,
}
use dappnode_nexus_gateway.Common.Int.{ℤ}
use dappnode_nexus_gateway.Domain.Error.{Error, as_gateway}
use dappnode_nexus_gateway.Domain.Account.{AuthContext}
use dappnode_nexus_gateway.Domain.Model.{PublicModel, RoutingCategoryScore, Float32}
use dappnode_nexus_gateway.Domain.Generation.{GenerateRequest, GenerateResult, Usage}

pub record ReserveRequest : Type 0 where
  pub gateway_request_id : String
  pub account_id : String
  pub api_key_id : String
  pub endpoint : String
  pub public_model_id : String
  pub requested_public_model_id : String
  pub router_id : Option String
  pub routed_public_model_id : Option String
  pub matched_category : Option String
  pub routing_score : Option Float32
  pub routing_category_scores : List RoutingCategoryScore
  pub decision_reason : Option String
  pub fallback_used : Option Bool
  pub stream : Bool
  pub max_output_tokens : Option ℤ
  pub estimated_input_tokens : Option ℤ

pub record ReserveResponse : Type 0 where
  pub reservation_id : String
  pub lease_ms : ℤ

pub record CompleteRequest : Type 0 where
  pub provider_name : String
  pub provider_model_id : String
  pub provider_request_id : String
  pub finish_reason : Option String
  pub usage : Option Usage
  pub latency_ms : ℤ

-- `GatewayRequestID` is a field of the source's type that no code fills.
pub record FailureRequest : Type 0 where
  pub reservation_id : String
  pub gateway_request_id : String
  pub account_id : String
  pub api_key_id : String
  pub endpoint : String
  pub public_model_id : String
  pub requested_public_model_id : String
  pub router_id : Option String
  pub routed_public_model_id : Option String
  pub matched_category : Option String
  pub routing_score : Option Float32
  pub routing_category_scores : List RoutingCategoryScore
  pub decision_reason : Option String
  pub fallback_used : Option Bool
  pub provider_name : String
  pub provider_model_id : String
  pub stream : Bool
  pub error_type : String
  pub error_code : String
  pub partial_usage : Option Usage
  pub latency_ms : ℤ

pub data Payload : Type 0 where
  reserving : ReserveRequest → Payload
  completing : CompleteRequest → Payload
  failing : FailureRequest → Payload
  renewing : Payload

unfoldable pub requested_model_id : GenerateRequest → String
requested_model_id req =
    if req.requested_model_id != "" then req.requested_model_id else req.public_model_id

unfoldable pub reservation_id_value : Option String → String
reservation_id_value none = ""
reservation_id_value (some id) = id

unfoldable pub reserve_payload :
    AuthContext → String → GenerateRequest → PublicModel → String → ReserveRequest
unfolding requested_model_id
reserve_payload auth endpoint req model reservation_request_id = record {
  gateway_request_id = reservation_request_id;
  account_id = auth.account.id;
  api_key_id = auth.api_key.id;
  endpoint = endpoint;
  public_model_id = model.public_model_id;
  requested_public_model_id = requested_model_id req;
  router_id = req.router_id;
  routed_public_model_id = req.routed_public_model_id;
  matched_category = req.matched_category;
  routing_score = req.routing_score;
  routing_category_scores = req.routing_category_scores;
  decision_reason = req.decision_reason;
  fallback_used = req.fallback_used;
  stream = req.stream;
  max_output_tokens = req.max_output_tokens;
  estimated_input_tokens = req.estimated_input_tokens;
}

unfoldable pub complete_payload : GenerateResult → PublicModel → ℤ → CompleteRequest
complete_payload resp model latency_ms = record {
  provider_name =
      if resp.provider_name == "" then model.provider_config.provider_name else resp.provider_name;
  provider_model_id =
      if resp.provider_model_id == "" then model.provider_model_id else resp.provider_model_id;
  provider_request_id = resp.id;
  finish_reason = resp.finish_reason;
  usage = resp.usage;
  latency_ms = latency_ms;
}

-- The payload of a failure of which nothing is known yet, and what the account, the request, the
-- model and the error add to it, in this order.
unfoldable pub failure_base : Option String → String → Option Usage → ℤ → FailureRequest
unfolding reservation_id_value
failure_base reservation endpoint partial_usage latency_ms = record {
  reservation_id = reservation_id_value reservation;
  gateway_request_id = "";
  account_id = "";
  api_key_id = "";
  endpoint = endpoint;
  public_model_id = "";
  requested_public_model_id = "";
  router_id = none;
  routed_public_model_id = none;
  matched_category = none;
  routing_score = none;
  routing_category_scores = [];
  decision_reason = none;
  fallback_used = none;
  provider_name = "";
  provider_model_id = "";
  stream = false;
  error_type = "internal_error";
  error_code = "internal_error";
  partial_usage = partial_usage;
  latency_ms = latency_ms;
}

unfoldable pub failure_auth : Option AuthContext → FailureRequest → FailureRequest
failure_auth none p = p
failure_auth (some auth) p = record p { account_id = auth.account.id; api_key_id = auth.api_key.id }

unfoldable pub failure_request : Option GenerateRequest → FailureRequest → FailureRequest
unfolding requested_model_id
failure_request none p = p
failure_request (some req) p = record p {
  public_model_id = req.public_model_id;
  requested_public_model_id = requested_model_id req;
  router_id = req.router_id;
  routed_public_model_id = req.routed_public_model_id;
  matched_category = req.matched_category;
  routing_score = req.routing_score;
  routing_category_scores = req.routing_category_scores;
  decision_reason = req.decision_reason;
  fallback_used = req.fallback_used;
  stream = req.stream;
}

unfoldable pub failure_model : Option PublicModel → FailureRequest → FailureRequest
failure_model none p = p
failure_model (some model) p = record p {
  public_model_id = model.public_model_id;
  provider_name = model.provider_config.provider_name;
  provider_model_id = model.provider_model_id;
}

unfoldable pub failure_error : Error → FailureRequest → FailureRequest
failure_error e p = elim (as_gateway e) [
  | none ↦ p
  | some g ↦ record p { error_type = g.type; error_code = g.code }
]

unfoldable pub failure_payload :
    Option String
    → Option AuthContext
    → String
    → Option GenerateRequest
    → Option PublicModel
    → Error
    → Option Usage
    → ℤ
    → FailureRequest
unfolding failure_base failure_auth failure_request failure_model failure_error
failure_payload reservation auth endpoint req model e partial_usage latency_ms = failure_error e (
    failure_model model (
      failure_request req
        (failure_auth auth (failure_base reservation endpoint partial_usage latency_ms))))
