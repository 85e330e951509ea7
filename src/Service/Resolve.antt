-- ===== src/Service/Resolve.antt =====
-- `resolveModel` of apps/gateway/internal/application/services/generate_service.go: from the model
-- or router that the client names to a public model. Each read of Metering that a request makes is a
-- function of its own: the answers of two reads need not agree.
pub mod Laws
use dappnode_nexus_gateway.Common.{
  ℕ, String, Bool, true, List, [], ◌∷◌, Option, none, some, if◌then◌else◌, ◌==◌, string_eq,
}
use dappnode_nexus_gateway.Domain.Error.{
  Error, gateway, Result, ok, err, with_meta, str, err_unsupported_model, err_internal,
}
use dappnode_nexus_gateway.Domain.Model.{PublicModel, RouterEntry, RouteDecision}
use dappnode_nexus_gateway.Domain.Generation.{GenerateRequest}
use dappnode_nexus_gateway.Service.Checks.{is_unsupported_model_error, is_not_found_error}

pub record Catalog : Type 0 where
  -- The model of a guest's check, the model that the client names, and the one that a router chose.
  pub get_guest_model : String → Result PublicModel
  pub get_public_model : String → Result PublicModel
  pub get_routed_model : String → Result PublicModel
  pub get_router : String → Result RouterEntry
  -- `none` is a nil router client.
  pub route : Option (String → GenerateRequest → Result RouteDecision)

-- The request with the router's decision recorded.
unfoldable pub record_decision : GenerateRequest → RouterEntry → RouteDecision → GenerateRequest
record_decision req router decision = record req {
  public_model_id = decision.public_model_id;
  router_id = some router.router_id;
  routed_public_model_id = some decision.public_model_id;
  matched_category = elim decision.category [ none ↦ req.matched_category | some c ↦ some c ];
  routing_score = decision.score;
  routing_category_scores = elim decision.category_scores [
    | [] ↦ req.routing_category_scores
    | s ∷ ss ↦ s ∷ ss
  ];
  decision_reason = if decision.reason == "" then req.decision_reason else some decision.reason;
  fallback_used = some decision.fallback_used;
}

abbrev pub router_failure : String → String → Error
router_failure cause reason = gateway (
    with_meta (err_internal "an internal error occurred")
      (("dependency", str "router") ∷ ("cause", str cause) ∷ ("reason", str reason) ∷ []))

module _ (catalog : Catalog) where
  open catalog use {get_public_model, get_routed_model, get_router, route}

  -- The model that a router's decision names.
  unfoldable pub resolve_decision :
      GenerateRequest → RouterEntry → RouteDecision → Result (PublicModel × GenerateRequest)
  resolve_decision req router decision =
      if decision.public_model_id == ""
      then err (router_failure "router_empty_model" "router returned an empty public_model_id")
      else elim (get_routed_model decision.public_model_id) [
        | err e ↦
            if is_unsupported_model_error e
            then err (gateway (err_unsupported_model decision.public_model_id))
            else err e
        | ok model ↦ ok (model, record_decision req router decision)
      ]

  -- The name is no model: it may be a router's.
  unfoldable pub resolve_router : String → GenerateRequest → Result (PublicModel × GenerateRequest)
  unfolding resolve_decision
  resolve_router id req = elim (get_router id) [
    | err e ↦ if is_not_found_error e then err (gateway (err_unsupported_model id)) else err e
    | ok router ↦ elim route [
      | none ↦ err (router_failure "router_not_configured" "router client is not configured")
      | some ask ↦ elim (ask router.router_id req) [
        | err e ↦ err e
        | ok decision ↦ resolve_decision req router decision
      ]
    ]
  ]

  -- The request as the client named it.
  unfoldable pub named : GenerateRequest → GenerateRequest
  named req =
      if req.requested_model_id == ""
      then record req { requested_model_id = req.public_model_id }
      else req

  unfoldable pub resolve_model : GenerateRequest → Result (PublicModel × GenerateRequest)
  unfolding resolve_router named
  resolve_model req = elim (get_public_model req.public_model_id) [
    | ok model ↦ ok (model, named req)
    | err e ↦
        if is_unsupported_model_error e
        then resolve_router req.public_model_id (named req)
        else err e
  ]
