-- ===== src/Service/Resolve/Laws.antt =====
-- What a resolved request is.
use dappnode_nexus_gateway.Common.{
  ◌≡◌, refl, sym, subst, ◌≢◌, ◌⊎◌, inl, inr, String, List, [], ◌∷◌, Option, none, some, false,
  arith, eq_iff, ◌==◌, string_eq, if◌then◌else◌, Bool-cases, Option-cases,
}
use dappnode_nexus_gateway.Domain.Error.{Result, Result-cases, ok, err}
use dappnode_nexus_gateway.Domain.Model.{
  PublicModel, RouterEntry, RouteDecision, RoutingCategoryScore,
}
use dappnode_nexus_gateway.Domain.Generation.{GenerateRequest}
use dappnode_nexus_gateway.Service.Checks.{is_unsupported_model_error, is_not_found_error}
use dappnode_nexus_gateway.Service.Resolve.{
  Catalog, record_decision, resolve_decision, resolve_router, resolve_model, named,
}

module _ (catalog : Catalog) where
  open catalog use {get_public_model, get_routed_model, get_router, route}

  -- What the client asked for is kept, as is all that routing does not decide.
  pub record Keeps (req q : GenerateRequest) : Type 0 where
    pub asked :
        q.requested_model_id
        ≡ (if req.requested_model_id == "" then req.public_model_id else req.requested_model_id)
    pub stream : q.stream ≡ req.stream
    pub limit : q.max_output_tokens ≡ req.max_output_tokens
    pub tier : q.service_tier ≡ req.service_tier
    pub input : q.input ≡ req.input
    pub tools : q.tools ≡ req.tools
    pub parallel : q.parallel_tool_calls ≡ req.parallel_tool_calls
    pub structured : q.structured_output ≡ req.structured_output
    pub estimate : q.estimated_input_tokens ≡ req.estimated_input_tokens

  -- The request carries what a router has decided; what the decision leaves open stays.
  pub record IsDecided (req : GenerateRequest) (router : RouterEntry) (d : RouteDecision)
      (q : GenerateRequest) : Type 0 where
    pub chosen : q.public_model_id ≡ d.public_model_id
    pub some_model : d.public_model_id ≢ ""
    pub routed : q.routed_public_model_id ≡ some d.public_model_id
    pub router_id : q.router_id ≡ some router.router_id
    pub category :
        ((d.category ≡ none) × (q.matched_category ≡ req.matched_category))
        ⊎ ((c : String) × (d.category ≡ some c) × (q.matched_category ≡ some c))
    pub score : q.routing_score ≡ d.score
    pub scores :
        ((d.category_scores ≡ []) × (q.routing_category_scores ≡ req.routing_category_scores))
        ⊎ (q.routing_category_scores ≡ d.category_scores)
    pub reason :
        ((d.reason ≡ "") × (q.decision_reason ≡ req.decision_reason))
        ⊎ (q.decision_reason ≡ some d.reason)
    pub fallback : q.fallback_used ≡ some d.fallback_used

  -- The router of that name was asked and decided, and the model of its decision was found.
  abbrev pub IsRouted : GenerateRequest → PublicModel → GenerateRequest → Type 0
  IsRouted req m q =
      (router : RouterEntry) × (get_router req.public_model_id ≡ ok router)
      × (ask : String → GenerateRequest → Result RouteDecision) × (route ≡ some ask)
      × (d : RouteDecision) × (ask router.router_id (named catalog req) ≡ ok d)
      × IsDecided req router d q
      × (get_routed_model d.public_model_id ≡ ok m)

  abbrev pub IsNamed : GenerateRequest → PublicModel → GenerateRequest → Type 0
  IsNamed req m q =
      (get_public_model req.public_model_id ≡ ok m)
      × (q ≡ named catalog req)
      × (q.public_model_id ≡ req.public_model_id)

  abbrev Sound : GenerateRequest → Result (PublicModel × GenerateRequest) → Type 0
  Sound req (err e) = Unit
  Sound req (ok (m, q)) = Keeps req q × (IsNamed req m q ⊎ IsRouted req m q)

  named-Keeps : (req : GenerateRequest) → Keeps req (named catalog req)
  unfolding named
  named-Keeps req = ground arith

  named_model : (req : GenerateRequest) → (named catalog req).public_model_id ≡ req.public_model_id
  unfolding named
  named_model req = ground arith

  module _ (req : GenerateRequest) where
    record_decision-Keeps :
        (router : RouterEntry) (decision : RouteDecision)
        → Keeps req (record_decision (named catalog req) router decision)
    unfolding record_decision
    record_decision-Keeps router decision =
        let k = named-Keeps req in
        record {
          asked = k.asked;
          stream = k.stream;
          limit = k.limit;
          tier = k.tier;
          input = k.input;
          tools = k.tools;
          parallel = k.parallel;
          structured = k.structured;
          estimate = k.estimate;
        }

    category_cases :
        (category kept base : Option String)
        → kept ≡ base
        → let new : Option String = elim category [ none ↦ kept | some c ↦ some c ] in
          ((category ≡ none) × (new ≡ base)) ⊎ ((c : String) × (category ≡ some c) × (new ≡ some c))
    category_cases none kept base e = inl (refl, e)
    category_cases (some c) kept base e = inr (c, refl, refl)

    scores_cases :
        (scores kept base : List RoutingCategoryScore)
        → kept ≡ base
        → let new : List RoutingCategoryScore = elim scores [ [] ↦ kept | s ∷ ss ↦ s ∷ ss ] in
          ((scores ≡ []) × (new ≡ base)) ⊎ (new ≡ scores)
    scores_cases [] kept base e = inl (refl, e)
    scores_cases (s ∷ ss) kept base e = inr refl

    record_decision-IsDecided :
        (router : RouterEntry) (d : RouteDecision)
        → (d.public_model_id == "") ≡ false
        → IsDecided req router d (record_decision (named catalog req) router d)
    unfolding record_decision named
    record_decision-IsDecided router d chosen = record {
      chosen = refl;
      some_model = λ e. cc ((eq_iff d.public_model_id "").1 e);
      routed = refl;
      router_id = refl;
      category =
          category_cases d.category (named catalog req).matched_category req.matched_category
            (ground arith);
      score = refl;
      scores =
          scores_cases d.category_scores (named catalog req).routing_category_scores
            req.routing_category_scores (ground arith);
      reason = elim (Bool-cases (d.reason == "")) [
        | inl empty ↦ rw empty (inl ((eq_iff d.reason "").0 empty, ground arith))
        | inr given ↦ rw given (inr refl)
      ];
      fallback = refl;
    }

    decision-Sound :
        (router : RouterEntry) (ask : String → GenerateRequest → Result RouteDecision)
        (decision : RouteDecision)
        → get_router req.public_model_id ≡ ok router
        → route ≡ some ask
        → ask router.router_id (named catalog req) ≡ ok decision
        → Sound req (resolve_decision catalog (named catalog req) router decision)
    unfolding resolve_decision
    decision-Sound router ask decision found there decided =
        elim (Bool-cases (decision.public_model_id == "")) [
          | inl empty ↦ rw empty tt
          | inr chosen ↦ elim (Result-cases (get_routed_model decision.public_model_id)) [
            | inl (e, failed) ↦ elim (Bool-cases (is_unsupported_model_error e)) [
              | inl unknown ↦ rw (chosen, failed, unknown, resolve_decision) tt
              | inr other ↦ rw (chosen, failed, other, resolve_decision) tt
            ]
            | inr (m, served) ↦
                rw (chosen, served, resolve_decision)
                  (
                    record_decision-Keeps router decision,
                    inr (
                      router,
                      found,
                      ask,
                      there,
                      decision,
                      decided,
                      record_decision-IsDecided router decision chosen,
                      served,
                    ),
                  )
          ]
        ]

    router-Sound : Sound req (resolve_router catalog req.public_model_id (named catalog req))
    unfolding resolve_router
    router-Sound = elim (Result-cases (get_router req.public_model_id)) [
      | inl (e, failed) ↦ elim (Bool-cases (is_not_found_error e)) [
        | inl unknown ↦ rw (failed, unknown, resolve_router) tt
        | inr other ↦ rw (failed, other, resolve_router) tt
      ]
      | inr (router, found) ↦ elim (Option-cases route) [
        | inl missing ↦ rw (found, missing, resolve_router) tt
        | inr (ask, there) ↦ elim (Result-cases (ask router.router_id (named catalog req))) [
          | inl (e, failed) ↦ rw (found, there, failed, resolve_router) tt
          | inr (decision, decided) ↦
              let same : resolve_router catalog req.public_model_id (named catalog req)
                  ≡ resolve_decision catalog (named catalog req) router decision =
                ground (arith, found, there, decided) in
              subst (Sound req) (sym same) (decision-Sound router ask decision found there decided)
        ]
      ]
    ]

    resolve_model-Sound : Sound req (resolve_model catalog req)
    unfolding resolve_model
    resolve_model-Sound = elim (Result-cases (get_public_model req.public_model_id)) [
      | inr (m, served) ↦
          rw (served, resolve_model) (named-Keeps req, inl (served, refl, named_model req))
      | inl (e, failed) ↦ elim (Bool-cases (is_unsupported_model_error e)) [
        | inl unknown ↦ rw (failed, unknown, resolve_model) router-Sound
        | inr other ↦ rw (failed, other, resolve_model) tt
      ]
    ]

    -- A resolved request keeps the name that the client asked for, its streaming flag, output limit,
    -- service tier, input, tools, and the rest that routing does not decide. Either the model is the
    -- one that it names, as Metering answered; or a router of that name was asked, the request carries
    -- what it decided, and the model is the one of the decision, as Metering answered for it.
    pub resolve_model-resolves :
        (m : PublicModel) (q : GenerateRequest)
        → resolve_model catalog req ≡ ok (m, q)
        → Keeps req q × (IsNamed req m q ⊎ IsRouted req m q)
    resolve_model-resolves m q e = subst (Sound req) e resolve_model-Sound

    pub resolve_model-direct :
        (m : PublicModel)
        → get_public_model req.public_model_id ≡ ok m
        → resolve_model catalog req ≡ ok (m, named catalog req)
    unfolding resolve_model
    resolve_model-direct m served = rw (served, resolve_model) refl

    pub named-max_output_tokens : (named catalog req).max_output_tokens ≡ req.max_output_tokens
    named-max_output_tokens = (named-Keeps req).limit
