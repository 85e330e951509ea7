-- ===== src/Service/Proxy/Accounting.antt =====
-- The accounting of a whole request: `Proxy` of
-- apps/gateway/internal/application/services/proxy.go.
use dappnode_nexus_gateway.Common.{
  ◌+◌, ◌*◌, ◌≤◌, ◌≡◌, refl, some, inl, inr, String, [], ◌∷◌, Option, none, arith, count,
  Option-cases,
}
use dappnode_nexus_gateway.Domain.Error.{Error, Result-cases, err}
use dappnode_nexus_gateway.Domain.Account.{AuthContext}
use dappnode_nexus_gateway.Domain.Model.{PublicModel}
use dappnode_nexus_gateway.Domain.Generation.{GenerateRequest}
use dappnode_nexus_gateway.Service.Checks.{validate_request}
use dappnode_nexus_gateway.Service.Proxy.{
  Env, reserved, failed, infer, limit_guest, resolve, hold, serve, admit, proxy,
}
use dappnode_nexus_gateway.Service.Proxy.Events.{
  is_reservation, is_settlement, is_call, is_stop, opens_with_hold, left_open, is_ok, Run, opened,
  IsOwn,
}
use dappnode_nexus_gateway.Service.Proxy.Holds.{infer-IsOwn}
use dappnode_nexus_gateway.Service.Proxy.Attempts.{IsSettled, infer-IsSettled}

module _ {Body Answer Stream Mapping : Type 0} (env : Env Body Answer Stream Mapping) where
  -- A whole request: a hold at most, before every provider call, and settled once.
  pub record IsBalanced (o : Run Body Answer Stream Mapping) : Type 0 where
    pub holds : count is_reservation o.0 ≤ 1
    pub first : count is_call o.0 ≤ 2 * opens_with_hold o.0
    pub held : opens_with_hold o.0 ≤ count is_reservation o.0
    pub answered : is_ok o.1 ≤ count is_call o.0
    pub settled : count is_settlement o.0 + left_open o.1 ≡ count is_reservation o.0
    pub stopped : count is_stop o.0 + left_open o.1 ≡ count is_reservation o.0

  -- Balanced, with every settlement and end of a lease under the hold that the request opens with.
  pub record IsAccounted (o : Run Body Answer Stream Mapping) : Type 0 where
    pub balanced : IsBalanced o
    pub own : IsOwn (opened o.0) o

  IsAccounted-of_hold :
      (endpoint rid : String) (masked : Body) (mapping : Option Mapping) (req : GenerateRequest)
      (model : PublicModel) (o : Run Body Answer Stream Mapping)
      → IsSettled env endpoint rid masked mapping req o
      → IsOwn (some rid) o
      → IsAccounted (reserved rid req model ∷ o.0, o.1)
  IsAccounted-of_hold endpoint rid masked mapping req model o s own = record {
    balanced = omega arith;
    own = record { events = (refl, own.events); ends = own.ends };
  }

  IsAccounted-of_refusal : (e : Error) → IsAccounted ([], err e)
  IsAccounted-of_refusal e = record {
    balanced = omega arith;
    own = record { events = tt; ends = tt };
  }

  IsAccounted-of_failure :
      (model : PublicModel) (e f : Error) → IsAccounted (failed none model e ∷ [], err f)
  IsAccounted-of_failure model e f = record {
    balanced = omega arith;
    own = record { events = (tt, tt); ends = tt };
  }

  hold-IsAccounted :
      (auth : AuthContext) (endpoint : String) (model : PublicModel) (req : GenerateRequest)
      (masked : Body) (mapping : Option Mapping)
      → IsAccounted (hold env auth endpoint model req masked mapping)
  unfolding hold
  hold-IsAccounted auth endpoint model req masked mapping =
      elim (Result-cases (env.reserve auth endpoint req model)) [
        | inl (e, f) ↦ rw (f, hold) (IsAccounted-of_refusal _)
        | inr (rid, f) ↦
            rw (f, hold)
              (IsAccounted-of_hold endpoint rid masked mapping req model
                (infer env endpoint rid masked mapping req model)
                (infer-IsSettled env endpoint rid masked mapping req model)
                (infer-IsOwn env endpoint rid masked mapping req model))
      ]

  serve-IsAccounted :
      (auth : AuthContext) (endpoint : String) (model : PublicModel) (req : GenerateRequest)
      (raw : Body)
      → IsAccounted (serve env auth endpoint model req raw)
  unfolding serve
  serve-IsAccounted auth endpoint model req raw =
      elim (Option-cases (validate_request endpoint req model)) [
        | inr (e, f) ↦ rw (f, serve) (IsAccounted-of_failure model _ _)
        | inl f ↦ elim (Result-cases (env.mask_body raw auth.api_key.pii_mode endpoint)) [
          | inl (e, g) ↦ rw (f, g, serve) (IsAccounted-of_failure model _ _)
          | inr ((masked, mapping), g) ↦
              rw (f, g, serve) (hold-IsAccounted auth endpoint model _ masked mapping)
        ]
      ]

  admit-IsAccounted :
      (auth : AuthContext) (endpoint : String) (raw : Body) (req : GenerateRequest)
      → IsAccounted (admit env auth endpoint raw req)
  unfolding admit
  admit-IsAccounted auth endpoint raw req =
      elim (Result-cases (limit_guest env auth endpoint raw req)) [
        | inl (e, f) ↦ rw (f, admit) (IsAccounted-of_refusal _)
        | inr ((limited, q), f) ↦ elim (Result-cases (resolve env endpoint q)) [
          | inl (e, g) ↦ rw (f, g, admit) (IsAccounted-of_refusal _)
          | inr ((model, routed), g) ↦
              rw (f, g, admit) (serve-IsAccounted auth endpoint model routed limited)
        ]
      ]

  -- However a request ends, it makes at most one credit hold and at most two provider calls; if
  -- a provider is called, the hold is the first event; an answer or a stream is given only if a
  -- provider was called; and there are as many settlements, by a success or a failure, and as
  -- many ends of the lease as holds, except that a result that is a stream still owes one of
  -- each. All of them carry the ID of the hold with which the request opens, also those that the
  -- stream owes.
  pub proxy-IsBalanced :
      (endpoint : String) (raw : Body) (req : GenerateRequest) (token : String)
      → IsAccounted (proxy env endpoint raw req token)
  unfolding proxy
  proxy-IsBalanced endpoint raw req token = elim (Result-cases (env.authenticate token)) [
    | inl (e, f) ↦ rw (f, proxy) (IsAccounted-of_refusal _)
    | inr (auth, f) ↦ rw (f, proxy) (admit-IsAccounted auth endpoint raw req)
  ]
