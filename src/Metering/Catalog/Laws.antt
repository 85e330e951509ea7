-- ===== src/Metering/Catalog/Laws.antt =====
-- What the gateway gets from the catalog, whatever Metering answers.
use dappnode_nexus_gateway.Common.{
  ◌≡◌, subst, ◌≢◌, ◌⊎◌, inl, inr, String, Bool, true, false, List, [], ◌∷◌, Option, none, some,
  ◌==◌, string_eq, any, arith, eq_iff, Bool-cases, Option-cases,
}
use dappnode_nexus_gateway.Domain.Error.{Result, ok, err, Error, gateway, err_invalid_api_key}
use dappnode_nexus_gateway.Domain.Account.{AuthContext, is_active}
use dappnode_nexus_gateway.Domain.Model.{PublicModel, ProviderConfig, ProviderTarget}
use dappnode_nexus_gateway.Metering.Wire.{
  RuntimePublicModel, RuntimeProviderConfig, RuntimeProviderTarget, AuthenticateResponse,
}
use dappnode_nexus_gateway.Metering.Contract.{validate_authenticate_response}
use dappnode_nexus_gateway.Metering.Contract.Conditions.{IsServable}
use dappnode_nexus_gateway.Metering.Contract.Authentication.{
  IsAuthentic, validate_authenticate_response_iff,
}
use dappnode_nexus_gateway.Metering.Catalog.{
  capabilities, authenticate_api_key, auth_context, checked_auth,
}

-- A provider of the catalog.
pub record IsProvider (p : RuntimeProviderConfig) (d : ProviderConfig) : Type 0 where
  pub id : d.id ≡ p.id
  pub provider_name : d.provider_name ≡ p.provider_name
  pub base_url : d.base_url ≡ p.base_url
  pub api_key_secret_ref : d.api_key_secret_ref ≡ p.api_key_secret_ref
  pub organization_ref : d.organization_ref ≡ p.organization_ref
  pub active : d.active ≡ p.active

module _ (json_object : String → Bool) where
  -- A provider target of the catalog, with its provider's configuration.
  pub record IsTarget (t : RuntimeProviderTarget) (d : ProviderTarget) : Type 0 where
    pub provider_model : d.provider_model_id ≡ t.provider_model_id
    pub upstream : d.upstream_model_name ≡ t.upstream_model_name
    pub tier : d.service_tier ≡ t.service_tier
    pub provider : IsProvider t.provider_config d.provider_config

  abbrev pub IsFallback : Option RuntimeProviderTarget → Option ProviderTarget → Type 0
  IsFallback none none = Unit
  IsFallback none (some d) = ⊥
  IsFallback (some t) none = ⊥
  IsFallback (some t) (some d) = IsTarget t d

  -- A domain model that stands for a servable answer: every field of it.
  pub record Converts (m : RuntimePublicModel) (d : PublicModel) : Type 0 where
    pub id : d.id ≡ m.id
    pub public_model_id : d.public_model_id ≡ m.public_model_id
    pub display_name : d.display_name ≡ m.display_name
    pub description : d.description ≡ m.description
    pub provider_model : d.provider_model_id ≡ m.provider_model_id
    pub upstream : d.upstream_model_name ≡ m.upstream_model_name
    pub tier : d.service_tier ≡ m.service_tier
    pub provider : IsProvider m.provider_config d.provider_config
    pub fallback : IsFallback m.fallback d.fallback
    pub chat : m.supports_chat_completions ≡ some d.supports_chat_completions
    pub capabilities : (d.capabilities ≡ m.capabilities) ⊎ (json_object m.capabilities ≡ false)
    pub proof_mode : d.proof_mode ≡ m.proof_mode
    pub window : d.max_context_window ≡ m.max_context_window
    pub max_output : d.max_output_tokens ≡ m.max_output_tokens
    pub input_price : m.input_price ≡ some d.input_price
    pub output_price : m.output_price ≡ some d.output_price
    pub cache_read : d.cache_read_price ≡ m.cache_read_price
    pub cache_write : d.cache_write_price ≡ m.cache_write_price
    pub currency : d.currency ≡ m.currency
    pub active : d.active ≡ m.active
    pub guest_allowed : d.guest_allowed ≡ m.guest_allowed

  abbrev pub IsNew : List String → String → Type 0
  IsNew seen id = any (λ s. s == id) seen ≡ false

  -- The models of a list stand for its answers one by one; each answer is servable, and none has
  -- an ID that is seen before.
  pub Lists : List String → List RuntimePublicModel → List PublicModel → Type 0
  Lists seen [] [] = Unit
  Lists seen (m ∷ ms) (d ∷ ds) =
      IsServable m ""
      × IsNew seen m.public_model_id
      × Converts m d
      × Lists (m.public_model_id ∷ seen) ms ds
  Lists seen _ _ = ⊥

  abbrev Listed :
      List String → List RuntimePublicModel → Option (Result (List PublicModel)) → Type 0
  Listed seen ms none = ⊥
  Listed seen ms (some (err e)) = Unit
  Listed seen ms (some (ok ds)) = Lists seen ms ds

abbrev HasMode : String → Type 0
HasMode mode = (mode ≡ "off") ⊎ (mode ≡ "low") ⊎ (mode ≡ "balanced") ⊎ (mode ≡ "high")

abbrev IsActiveAuth : AuthContext → Type 0
IsActiveAuth a =
    (is_active a.account ≡ true)
    × (a.api_key.active ≡ true)
    × (a.api_key.account_id ≡ a.account.id)
    × HasMode a.api_key.pii_mode

auth_context-IsActiveAuth :
    (r : AuthenticateResponse) → IsAuthentic r → IsActiveAuth (auth_context r)
unfolding auth_context
auth_context-IsActiveAuth r v =
    ((eq_iff r.account.status "active").1 v.account_active, v.key_active, v.owner, v.pii_mode)

checked_auth-IsActiveAuth :
    (r : Result AuthenticateResponse) (a : AuthContext) → checked_auth r ≡ ok a → IsActiveAuth a
unfolding checked_auth
checked_auth-IsActiveAuth (err x) a e = cc
checked_auth-IsActiveAuth (ok r) a e = elim (Option-cases (validate_authenticate_response r)) [
  | inr (x, refused) ↦ let f : err (gateway x) ≡ ok a = rw (refused, checked_auth) at e in cc
  | inl valid ↦
      let f : ok (auth_context r) ≡ ok a = rw (valid, checked_auth) at e in
      let same : auth_context r ≡ a = cc in
      subst IsActiveAuth same
        (auth_context-IsActiveAuth r ((validate_authenticate_response_iff r).0 valid))
]

-- If a key authenticates, it is not empty, the account returned is active and owns the returned
-- key, which is active too, and the key has one of the four PII modes.
pub authenticate_api_key-active :
    (post : String → Result AuthenticateResponse) (key : String) (a : AuthContext)
    → authenticate_api_key post key ≡ ok a
    → (key ≢ "")
      × (is_active a.account ≡ true)
      × (a.api_key.active ≡ true)
      × (a.api_key.account_id ≡ a.account.id)
      × ((a.api_key.pii_mode ≡ "off")
          ⊎ (a.api_key.pii_mode ≡ "low")
          ⊎ (a.api_key.pii_mode ≡ "balanced")
          ⊎ (a.api_key.pii_mode ≡ "high"))
unfolding authenticate_api_key
authenticate_api_key-active post key a e = elim (Bool-cases (key == "")) [
  | inl empty ↦
      let f : err (gateway (err_invalid_api_key "missing API key")) ≡ ok a =
        rw (empty, authenticate_api_key) at e in
      cc
  | inr sent ↦
      let f : checked_auth (post key) ≡ ok a = unfold authenticate_api_key in (rw sent at e) in
      let h = checked_auth-IsActiveAuth (post key) a f in
      (ground (arith, eq_iff key "", sent), h.0, h.1, h.2, h.3)
]
