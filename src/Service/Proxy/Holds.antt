-- ===== src/Service/Proxy/Holds.antt =====
-- The hold under which a request settles (services/proxy.go).
use dappnode_nexus_gateway.Common.{
  refl, subst, inl, inr, String, List, ◌++◌, Option, none, some, All, All-append, Bool-cases,
  if_both, Option-cases,
}
use dappnode_nexus_gateway.Domain.Error.{Error, Result-cases}
use dappnode_nexus_gateway.Domain.Model.{PublicModel, ProviderTarget}
use dappnode_nexus_gateway.Domain.Generation.{GenerateRequest}
use dappnode_nexus_gateway.Service.Checks.{validate_request, with_provider_target}
use dappnode_nexus_gateway.Service.Proxy.{
  Env, Event, attempt_complete, attempt_stream, attempt, fail, tries_fallback, fall_back,
  after_failure, infer,
}
use dappnode_nexus_gateway.Service.Proxy.Events.{IsUnder, EndsUnder, IsOwn, Run}

module _ {Body Answer Stream Mapping : Type 0} (env : Env Body Answer Stream Mapping)
    (endpoint rid : String) (masked : Body) (mapping : Option Mapping) (req : GenerateRequest) where
  abbrev Own : Run Body Answer Stream Mapping → Type 0
  Own o = IsOwn (some rid) o

  attempt_complete-IsOwn :
      (t : PublicModel) → Own (attempt_complete env endpoint rid masked mapping req t)
  unfolding attempt_complete
  attempt_complete-IsOwn t = elim (Result-cases (env.complete masked t)) [
    | inl (e, f) ↦ rw (f, attempt_complete) (record { events = (tt, tt); ends = tt })
    | inr (body, f) ↦ elim (Result-cases (env.observe endpoint body t mapping)) [
      | inl (e, g) ↦ rw (f, g, attempt_complete) (record { events = (tt, tt); ends = tt })
      | inr (a, g) ↦
          rw (f, g, attempt_complete) (record { events = (tt, (refl, (refl, tt))); ends = tt })
    ]
  ]

  attempt_stream-IsOwn :
      (t : PublicModel) → Own (attempt_stream env endpoint rid masked mapping req t)
  unfolding attempt_stream
  attempt_stream-IsOwn t = elim (Result-cases (env.open_stream masked t mapping)) [
    | inl (e, f) ↦ rw (f, attempt_stream) (record { events = (tt, tt); ends = tt })
    | inr (st, f) ↦ rw (f, attempt_stream) (record { events = (tt, tt); ends = refl })
  ]

  attempt-IsOwn : (t : PublicModel) → Own (attempt env endpoint rid masked mapping req t)
  unfolding attempt
  attempt-IsOwn t = elim (Option-cases (validate_request endpoint req t)) [
    | inr (e, f) ↦ rw (f, attempt) (record { events = tt; ends = tt })
    | inl f ↦ elim (Bool-cases (env.registered t.provider_config.provider_name)) [
      | inr g ↦ rw (f, g, attempt) (record { events = tt; ends = tt })
      | inl g ↦
          rw (f, g, attempt)
            (if_both Own req.stream (attempt_stream-IsOwn t) (attempt_complete-IsOwn t))
    ]
  ]

  fail-IsOwn :
      (events : List (Event Body)) (t : PublicModel) (e : Error)
      → All (IsUnder (some rid)) events
      → Own (fail env endpoint rid masked mapping req events t e)
  unfolding fail
  fail-IsOwn events t e h = record {
    events = All-append (IsUnder (some rid)) events _ h (refl, (refl, tt));
    ends = tt;
  }

  fall_back-IsOwn :
      (events : List (Event Body)) (t : PublicModel)
      → All (IsUnder (some rid)) events
      → Own (fall_back env endpoint rid masked mapping req events t)
  unfolding fall_back
  fall_back-IsOwn events t h =
      let a = attempt-IsOwn t in
      let o = attempt env endpoint rid masked mapping req t in
      let all = All-append (IsUnder (some rid)) events o.0 h a.events in
      elim (Result-cases o.1) [
        | inl (e, g) ↦ rw (g, fall_back) (fail-IsOwn (events ++ o.0) t e all)
        | inr (c, g) ↦
            rw (g, fall_back)
              (record { events = all; ends = subst (EndsUnder (some rid)) g a.ends })
      ]

  after_failure-IsOwn :
      (events : List (Event Body)) (model : PublicModel) (o : Option ProviderTarget) (e : Error)
      → All (IsUnder (some rid)) events
      → Own (after_failure env endpoint rid masked mapping req events model o e)
  unfolding after_failure
  after_failure-IsOwn events model none e h = fail-IsOwn events model e h
  after_failure-IsOwn events model (some target) e h =
      if_both Own (tries_fallback env endpoint rid masked mapping req model e target)
        (fall_back-IsOwn events (with_provider_target model target) h) (fail-IsOwn events model e h)

  pub infer-IsOwn : (model : PublicModel) → Own (infer env endpoint rid masked mapping req model)
  unfolding infer
  infer-IsOwn model =
      let a = attempt-IsOwn model in
      let o = attempt env endpoint rid masked mapping req model in
      elim (Result-cases o.1) [
        | inl (e, g) ↦ rw (g, infer) (after_failure-IsOwn o.0 model model.fallback e a.events)
        | inr (c, g) ↦
            rw (g, infer)
              (record { events = a.events; ends = subst (EndsUnder (some rid)) g a.ends })
      ]
