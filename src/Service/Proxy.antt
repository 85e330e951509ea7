-- ===== src/Service/Proxy.antt =====
-- `Proxy` of apps/gateway/internal/application/services/proxy.go: one inference request, from
-- authentication to the provider's answer. The result comes with the events that other parties see,
-- in order: the credit hold, provider calls, accounting, and the end of the lease.
-- What other components do is a field of `Env`; a reading of a context is a field too, one for each
-- place where the source reads it. Log lines and metrics are left out.
pub mod Events
pub mod Attempts
pub mod Holds
pub mod Accounting
pub mod Guests
pub mod Streams
use dappnode_nexus_gateway.Common.{
  ℕ, String, Bool, true, false, not, ◌&&◌, List, [], ◌∷◌, ◌++◌, Option, none, some, if◌then◌else◌,
  ◌==◌, string_eq, is_some,
}
use dappnode_nexus_gateway.Common.Int.{ℤ}
use dappnode_nexus_gateway.Domain.Error.{
  GatewayError, Error, gateway, Result, ok, err, with_meta, str, err_provider_unavailable, Metadata,
}
use dappnode_nexus_gateway.Domain.Fault.{annotate}
use dappnode_nexus_gateway.Domain.Account.{AuthContext}
use dappnode_nexus_gateway.Domain.Model.{PublicModel, ProviderTarget, supports_endpoint}
use dappnode_nexus_gateway.Domain.Generation.{GenerateRequest}
use dappnode_nexus_gateway.Service.Checks.{
  validate_request, should_try_fallback, with_provider_target, client_gone, check_guest_model,
  cap_output, systemone,
}
use dappnode_nexus_gateway.Service.Resolve.{Catalog, resolve_model}

-- Where the client's context is read before the provider's answer is known.
pub data Stage : Type 0 where
  authenticating limiting resolving masking reserving attempted : Stage

-- `Body` is a request body, `Answer` a response body, `Stream` a primed stream, and `Mapping` the
-- placeholders of a masked request.
pub record Env (Body Answer Stream Mapping : Type 0) : Type 0 where
  pub authenticate : String → Result AuthContext
  pub catalog : Catalog
  pub guest_max_output_tokens : ℤ
  pub write_limit : Body → ℤ → Result Body
  pub mask_body : Body → String → String → Result (Body × Option Mapping)
  pub estimate_input_tokens : String → Body → Option ℤ
  pub reserve : AuthContext → String → GenerateRequest → PublicModel → Result String
  pub registered : String → Bool
  pub complete : Body → PublicModel → Result Answer
  pub observe : String → Answer → PublicModel → Option Mapping → Result Answer
  pub open_stream : Body → PublicModel → Option Mapping → Result Stream
  pub sanitize : Error → Option Mapping → Error
  pub gone : Stage → Bool
  -- The cause with which the lease canceled the inference, if it did: when the first attempt has
  -- failed, and when the request has.
  pub lost_after_attempt : Option GatewayError
  pub lost_at_end : Option GatewayError

-- A stream comes with what its `finish` keeps: the hold's ID and the placeholders.
pub data Call (Answer Stream Mapping : Type 0) : Type 0 where
  completed : PublicModel → Answer → Call Answer Stream Mapping
  streaming : PublicModel → Stream → String → Option Mapping → Call Answer Stream Mapping

pub data Event (Body : Type 0) : Type 0 where
  reserved : String → GenerateRequest → PublicModel → Event Body
  called : PublicModel → Body → Event Body
  succeeded : String → PublicModel → Event Body
  failed : Option String → PublicModel → Error → Event Body
  lease_stopped : String → Event Body

module _ {Body Answer Stream Mapping : Type 0} (env : Env Body Answer Stream Mapping) where
  open env use {
    authenticate, catalog, guest_max_output_tokens, write_limit, mask_body, estimate_input_tokens,
    reserve, registered, complete, observe, open_stream, sanitize, gone, lost_after_attempt,
    lost_at_end,
  }

  abbrev pub Outcome : Type 0
  Outcome = List (Event Body) × Result (Call Answer Stream Mapping)

  -- A hold is there: what the rest of the request works with.
  module _ (endpoint rid : String) (masked : Body) (mapping : Option Mapping)
      (req : GenerateRequest) where
    -- Non-streaming: `finish` records the success, then stops the lease.
    unfoldable pub attempt_complete : PublicModel → Outcome
    attempt_complete target = elim (complete masked target) [
      | err e ↦ (called target masked ∷ [], err e)
      | ok body ↦ elim (observe endpoint body target mapping) [
        | err e ↦ (called target masked ∷ [], err e)
        | ok rewritten ↦ (
          called target masked ∷ succeeded rid target ∷ lease_stopped rid ∷ [],
          ok (completed target rewritten),
        )
      ]
    ]

    -- Streaming: `finish` runs when the stream ends, which is after this call.
    unfoldable pub attempt_stream : PublicModel → Outcome
    attempt_stream target = elim (open_stream masked target mapping) [
      | err e ↦ (called target masked ∷ [], err e)
      | ok stream ↦ (called target masked ∷ [], ok (streaming target stream rid mapping))
    ]

    unfoldable pub attempt : PublicModel → Outcome
    attempt target = elim (validate_request endpoint req target) [
      | some e ↦ ([], err (gateway e))
      | none ↦
          if not (registered target.provider_config.provider_name)
          then (
            [],
            err (
                gateway (
                  with_meta (err_provider_unavailable target.provider_config.provider_name)
                    (("fault", str "nexus") ∷ ("cause", str "provider_not_registered") ∷ []))),
          )
          else if req.stream
          then attempt_stream target
          else attempt_complete target
    ]

    -- The end of a request that no provider answered.
    unfoldable pub fail : List (Event Body) → PublicModel → Error → Outcome
    fail events executed e =
        let cause : Error = elim lost_at_end [ none ↦ e | some g ↦ gateway g ] in
        let shown = sanitize cause mapping in
        (events ++ failed (some rid) executed shown ∷ lease_stopped rid ∷ [], err shown)

    -- The first failure may go to the fallback.
    unfoldable pub tries_fallback : PublicModel → Error → ProviderTarget → Bool
    tries_fallback model e target =
        not (gone attempted)
        && should_try_fallback (is_some lost_after_attempt) e (some target)
        && supports_endpoint (with_provider_target model target) endpoint

    unfoldable pub fall_back : List (Event Body) → PublicModel → Outcome
    unfolding attempt fail
    fall_back events executed = elim (attempt executed).1 [
      | ok call ↦ (events ++ (attempt executed).0, ok call)
      | err e ↦ fail (events ++ (attempt executed).0) executed e
    ]

    unfoldable pub after_failure :
        List (Event Body) → PublicModel → Option ProviderTarget → Error → Outcome
    unfolding fall_back fail tries_fallback
    after_failure events model none e = fail events model e
    after_failure events model (some target) e =
        if tries_fallback model e target
        then fall_back events (with_provider_target model target)
        else fail events model e

    unfoldable pub infer : PublicModel → Outcome
    unfolding attempt after_failure
    infer model = elim (attempt model).1 [
      | ok call ↦ ((attempt model).0, ok call)
      | err e ↦ after_failure (attempt model).0 model model.fallback e
    ]

  -- The annotations of `reject`, without and with a model.
  unfoldable pub reject : AuthContext → GenerateRequest → Error → Error
  reject auth req e =
      annotate e
        (("account_id", str auth.account.id) ∷ ("requested_model", str req.public_model_id) ∷ [])

  unfoldable pub reject_model : AuthContext → PublicModel → Error → Error
  reject_model auth model e = annotate e (
      ("account_id", str auth.account.id)
      ∷ ("model", str model.public_model_id)
      ∷ ("provider", str model.provider_config.provider_name)
      ∷ [])

  -- A guest's request is checked and limited; others go on as sent.
  unfoldable pub limit_guest :
      AuthContext → String → Body → GenerateRequest → Result (Body × GenerateRequest)
  limit_guest auth endpoint raw req =
      if auth.account.is_guest
      then elim (check_guest_model catalog.get_guest_model endpoint req.public_model_id) [
        | some e ↦ err e
        | none ↦ cap_output write_limit guest_max_output_tokens raw req
      ]
      else ok (raw, req)

  unfoldable pub resolve : String → GenerateRequest → Result (PublicModel × GenerateRequest)
  resolve endpoint req =
      if endpoint == systemone
      then elim (catalog.get_public_model req.public_model_id) [
        | err e ↦ err e
        | ok model ↦ ok (model, req)
      ]
      else resolve_model catalog req

  unfoldable pub estimated : String → Body → GenerateRequest → GenerateRequest
  estimated endpoint masked req = elim (estimate_input_tokens endpoint masked) [
    | none ↦ req
    | some tokens ↦ record req { estimated_input_tokens = some tokens }
  ]

  -- The hold, and what follows it.
  unfoldable pub hold :
      AuthContext → String → PublicModel → GenerateRequest → Body → Option Mapping → Outcome
  unfolding infer reject_model
  hold auth endpoint model req masked mapping = elim (reserve auth endpoint req model) [
    | err e ↦ ([], err (reject_model auth model (client_gone (gone reserving) e)))
    | ok rid ↦
        let (events, result) = infer endpoint rid masked mapping req model in
        (reserved rid req model ∷ events, result)
  ]

  -- A request for a resolved model.
  unfoldable pub serve : AuthContext → String → PublicModel → GenerateRequest → Body → Outcome
  unfolding hold estimated reject_model
  serve auth endpoint model req raw = elim (validate_request endpoint req model) [
    | some e ↦ (failed none model (gateway e) ∷ [], err (reject_model auth model (gateway e)))
    | none ↦ elim (mask_body raw auth.api_key.pii_mode endpoint) [
      | err e ↦
          let shown = client_gone (gone masking) e in
          (failed none model shown ∷ [], err (reject_model auth model shown))
      | ok (masked, mapping) ↦
          hold auth endpoint model (estimated endpoint masked req) masked mapping
    ]
  ]

  -- A request of an authenticated account.
  unfoldable pub admit : AuthContext → String → Body → GenerateRequest → Outcome
  unfolding limit_guest resolve serve reject
  admit auth endpoint raw req = elim (limit_guest auth endpoint raw req) [
    | err e ↦ ([], err (reject auth req (client_gone (gone limiting) e)))
    | ok (limited, q) ↦ elim (resolve endpoint q) [
      | err e ↦ ([], err (reject auth q (client_gone (gone resolving) e)))
      | ok (model, routed) ↦ serve auth endpoint model routed limited
    ]
  ]

  unfoldable pub proxy : String → Body → GenerateRequest → String → Outcome
  unfolding admit
  proxy endpoint raw req token = elim (authenticate token) [
    | err e ↦ ([], err (client_gone (gone authenticating) e))
    | ok auth ↦ admit auth endpoint raw req
  ]
