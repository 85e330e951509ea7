-- ===== src/Service/Proxy/Guests.antt =====
-- What a guest account may use: `Proxy` of services/proxy.go with `checkGuestModel` of
-- services/guest_models.go and `capOutput` of services/output_limit.go.
use dappnode_nexus_gateway.Common.{
  ◌≡◌, ◌≢◌, ◌⊎◌, sym, ap, ◌∙◌, inl, inr, String, true, false, Bool-cases, List, [], ◌∷◌, Option,
  arith, count, All, Option-cases, string_eq,
}
use dappnode_nexus_gateway.Common.Int.{ℤ, pos, ltb_ℤ}
use dappnode_nexus_gateway.Domain.Error.{Result, Result-cases, ok, err}
use dappnode_nexus_gateway.Domain.Account.{AuthContext}
use dappnode_nexus_gateway.Domain.Model.{PublicModel}
use dappnode_nexus_gateway.Domain.Generation.{GenerateRequest}
use dappnode_nexus_gateway.Service.Checks.{
  chat_completions, check_guest_model, cap_output, validate_request,
}
use dappnode_nexus_gateway.Service.Checks.Laws.{
  HasLimit, check_guest_model-allowed, cap_output-HasLimit,
}
use dappnode_nexus_gateway.Service.Resolve.{Catalog, resolve_model, named}
use dappnode_nexus_gateway.Service.Resolve.Laws.{resolve_model-direct, resolve_model-resolves}
use dappnode_nexus_gateway.Service.Proxy.{
  Env, Event, reserved, called, succeeded, failed, lease_stopped, limit_guest, resolve, estimated,
  hold, serve, admit, proxy, infer,
}
use dappnode_nexus_gateway.Service.Proxy.Events.{is_reservation}
use dappnode_nexus_gateway.Service.Proxy.Attempts.{infer-IsSettled}

-- A hold that a guest may have, at an endpoint and an output limit, for the model that the guest named:
-- Metering said that this model is open to guests; the model of the hold is so too, or Metering
-- answered otherwise when it was asked for the named model again.
abbrev pub IsGuestHold : {Body : Type 0} → Catalog → String → String → ℤ → Event Body → Type 0
IsGuestHold catalog endpoint id limit (reserved rid q m) =
    (endpoint ≡ chat_completions)
    × ((c : PublicModel) × (catalog.get_guest_model id ≡ ok c) × (c.guest_allowed ≡ true))
    × ((m.guest_allowed ≡ true) ⊎ (catalog.get_public_model id ≢ catalog.get_guest_model id))
    × HasLimit limit q
IsGuestHold catalog endpoint id limit (called t b) = Unit
IsGuestHold catalog endpoint id limit (succeeded r t) = Unit
IsGuestHold catalog endpoint id limit (failed r t e) = Unit
IsGuestHold catalog endpoint id limit (lease_stopped r) = Unit

module _ {Body : Type 0} (catalog : Catalog) (endpoint id : String) (limit : ℤ) where
  IsGuestHold-of_none :
      (events : List (Event Body))
      → count is_reservation events ≡ 0
      → All (IsGuestHold catalog endpoint id limit) events
  IsGuestHold-of_none [] h = tt
  IsGuestHold-of_none (reserved r q m ∷ es) h = absurd (omega (arith, h))
  IsGuestHold-of_none (called t b ∷ es) h = (tt, IsGuestHold-of_none es h)
  IsGuestHold-of_none (succeeded r t ∷ es) h = (tt, IsGuestHold-of_none es h)
  IsGuestHold-of_none (failed r t e ∷ es) h = (tt, IsGuestHold-of_none es h)
  IsGuestHold-of_none (lease_stopped r ∷ es) h = (tt, IsGuestHold-of_none es h)

module _ {Body Answer Stream Mapping : Type 0} (env : Env Body Answer Stream Mapping) where
  open env use {catalog, guest_max_output_tokens}

  -- What a guest's request is after its check.
  record IsChecked (endpoint id : String) (q : GenerateRequest) : Type 0 where
    chat : endpoint ≡ chat_completions
    same_model : q.public_model_id ≡ id
    model : PublicModel
    found : catalog.get_guest_model id ≡ ok model
    allowed : model.guest_allowed ≡ true
    limited : HasLimit guest_max_output_tokens q

  limit_guest-IsChecked :
      (auth : AuthContext) (endpoint : String) (raw out : Body) (req q : GenerateRequest)
      → ltb_ℤ (pos 0) guest_max_output_tokens ≡ true
      → auth.account.is_guest ≡ true
      → limit_guest env auth endpoint raw req ≡ ok (out, q)
      → IsChecked endpoint req.public_model_id q
  unfolding limit_guest
  limit_guest-IsChecked auth endpoint raw out req q positive guest e =
      elim (Option-cases (check_guest_model catalog.get_guest_model endpoint req.public_model_id)) [
        | inr (x, refused) ↦
            let f : err x ≡ ok (out, q) = rw (guest, refused, limit_guest) at e in cc
        | inl passed ↦
            let f : cap_output env.write_limit guest_max_output_tokens raw req ≡ ok (out, q) =
              rw (guest, passed, limit_guest) at e in
            let (chat, (m, found, allowed)) =
              check_guest_model-allowed catalog.get_guest_model endpoint req.public_model_id
                passed in
            let (limited, same, _, _) =
              cap_output-HasLimit env.write_limit guest_max_output_tokens raw out req q positive
                f in
            record {
              chat = chat;
              same_model = same;
              model = m;
              found = found;
              allowed = allowed;
              limited = limited;
            }
      ]

  resolve-chat :
      (endpoint : String) (q routed : GenerateRequest) (model : PublicModel)
      → endpoint ≡ chat_completions
      → resolve env endpoint q ≡ ok (model, routed)
      → resolve_model catalog q ≡ ok (model, routed)
  unfolding resolve
  resolve-chat endpoint q routed model chat e = rw (chat, resolve) at e

  -- The model of the second answer is open too, or the answers differ.
  still_open :
      (id : String) (q routed : GenerateRequest) (model m : PublicModel)
      → q.public_model_id ≡ id
      → catalog.get_guest_model id ≡ ok m
      → m.guest_allowed ≡ true
      → resolve_model catalog q ≡ ok (model, routed)
      → (model.guest_allowed ≡ true) ⊎ (catalog.get_public_model id ≢ catalog.get_guest_model id)
  still_open id q routed model m named_id found allowed e = elim (Bool-cases model.guest_allowed) [
    | inl opened ↦ inl opened
    | inr shut ↦ inr (λ same.
        let again : catalog.get_public_model q.public_model_id ≡ ok m =
          ap catalog.get_public_model named_id ∙ same ∙ found in
        let direct = resolve_model-direct catalog q m again in
        let both : ◌≡◌ {A = Result (PublicModel × GenerateRequest)} (ok (m, named catalog q))
            (ok (model, routed)) =
          sym direct ∙ e in
        let one : m ≡ model = cc in
        let conflict : true ≡ false =
          sym allowed ∙ ap (λ (x : PublicModel). x.guest_allowed) one ∙ shut in
        cc)
  ]

  estimated-HasLimit :
      (limit : ℤ) (endpoint : String) (masked : Body) (q : GenerateRequest)
      → HasLimit limit q
      → HasLimit limit (estimated env endpoint masked q)
  unfolding estimated
  estimated-HasLimit limit endpoint masked q h =
      elim (Option-cases (env.estimate_input_tokens endpoint masked)) [
        | inl f ↦ rw (f, estimated) h
        | inr (n, f) ↦ rw (f, estimated) h
      ]

  hold-IsGuestHold :
      (id : String) (auth : AuthContext) (endpoint : String) (model : PublicModel)
      (req : GenerateRequest) (masked : Body) (mapping : Option Mapping)
      → endpoint ≡ chat_completions
      → ((c : PublicModel) × (catalog.get_guest_model id ≡ ok c) × (c.guest_allowed ≡ true))
      → (model.guest_allowed ≡ true) ⊎ (catalog.get_public_model id ≢ catalog.get_guest_model id)
      → HasLimit guest_max_output_tokens req
      → All
          (IsGuestHold catalog endpoint id guest_max_output_tokens)
          (hold env auth endpoint model req masked mapping).0
  unfolding hold
  hold-IsGuestHold id auth endpoint model req masked mapping chat checked allowed limited =
      elim (Result-cases (env.reserve auth endpoint req model)) [
        | inl (e, f) ↦ rw (f, hold) tt
        | inr (rid, f) ↦
            rw (f, hold)
              (
                (chat, checked, allowed, limited),
                IsGuestHold-of_none catalog endpoint id guest_max_output_tokens
                    (infer env endpoint rid masked mapping req model).0
                    (infer-IsSettled env endpoint rid masked mapping req model).holds,
              )
      ]

  serve-IsGuestHold :
      (id : String) (auth : AuthContext) (endpoint : String) (model : PublicModel)
      (req : GenerateRequest) (raw : Body)
      → endpoint ≡ chat_completions
      → ((c : PublicModel) × (catalog.get_guest_model id ≡ ok c) × (c.guest_allowed ≡ true))
      → (model.guest_allowed ≡ true) ⊎ (catalog.get_public_model id ≢ catalog.get_guest_model id)
      → HasLimit guest_max_output_tokens req
      → All
          (IsGuestHold catalog endpoint id guest_max_output_tokens)
          (serve env auth endpoint model req raw).0
  unfolding serve
  serve-IsGuestHold id auth endpoint model req raw chat checked allowed limited =
      elim (Option-cases (validate_request endpoint req model)) [
        | inr (e, f) ↦ rw (f, serve) (tt, tt)
        | inl f ↦ elim (Result-cases (env.mask_body raw auth.api_key.pii_mode endpoint)) [
          | inl (e, g) ↦ rw (f, g, serve) (tt, tt)
          | inr ((masked, mapping), g) ↦
              rw (f, g, serve)
                (hold-IsGuestHold id auth endpoint model (estimated env endpoint masked req) masked
                  mapping chat checked allowed
                  (estimated-HasLimit guest_max_output_tokens endpoint masked req limited))
        ]
      ]

  admit-IsGuestHold :
      (auth : AuthContext) (endpoint : String) (raw : Body) (req : GenerateRequest)
      → ltb_ℤ (pos 0) guest_max_output_tokens ≡ true
      → auth.account.is_guest ≡ true
      → All
          (IsGuestHold catalog endpoint req.public_model_id guest_max_output_tokens)
          (admit env auth endpoint raw req).0
  unfolding admit
  admit-IsGuestHold auth endpoint raw req positive guest =
      elim (Result-cases (limit_guest env auth endpoint raw req)) [
        | inl (e, f) ↦ rw (f, admit) tt
        | inr ((limited, q), f) ↦ elim (Result-cases (resolve env endpoint q)) [
          | inl (e, g) ↦ rw (f, g, admit) tt
          | inr ((model, routed), g) ↦
              let checked =
                limit_guest-IsChecked auth endpoint raw limited req q positive guest f in
              let chosen = resolve-chat endpoint q routed model checked.chat g in
              let kept = (resolve_model-resolves catalog q model routed chosen).0.limit in
              let later =
                still_open req.public_model_id q routed model checked.model checked.same_model
                  checked.found checked.allowed chosen in
              rw (f, g, admit)
                (serve-IsGuestHold req.public_model_id auth endpoint model routed limited
                  checked.chat (checked.model, checked.found, checked.allowed) later
                  (rw kept checked.limited))
        ]
      ]

  -- If the guest output limit is positive and a token belongs to a guest account, a credit hold is
  -- made only at the chat completions endpoint, with an output limit that is positive and at most the
  -- guest limit, and when Metering has said that the model named is open to guests; the model of the
  -- hold is open to guests too, unless Metering answered otherwise when asked for the named model again.
  pub proxy-IsGuestHold :
      (endpoint : String) (raw : Body) (req : GenerateRequest) (token : String) (auth : AuthContext)
      → ltb_ℤ (pos 0) guest_max_output_tokens ≡ true
      → env.authenticate token ≡ ok auth
      → auth.account.is_guest ≡ true
      → All
          (IsGuestHold catalog endpoint req.public_model_id guest_max_output_tokens)
          (proxy env endpoint raw req token).0
  unfolding proxy
  proxy-IsGuestHold endpoint raw req token auth positive f guest =
      rw (f, proxy) (admit-IsGuestHold auth endpoint raw req positive guest)
