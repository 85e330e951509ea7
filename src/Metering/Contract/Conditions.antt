-- ===== src/Metering/Contract/Conditions.antt =====
-- When the cases of a `validate…` function of runtime_client.go all pass, and what single ones say.
use dappnode_nexus_gateway.Common.{
  ℕ, suc, ◌≡◌, refl, ◌≢◌, ◌⊎◌, inl, inr, String, Bool, true, false, not, ◌&&◌, [], ◌∷◌, Option,
  none, some, ◌==◌, ◌!=◌, string_eq, nat_eq, is_blank, is_none, All, arith, eq_iff, Bool-cases,
}
use dappnode_nexus_gateway.Common.Int.{ℤ, pos, leb_ℤ}
use dappnode_nexus_gateway.Domain.Error.{GatewayError}
use dappnode_nexus_gateway.Metering.Wire.{RuntimePublicModel, RuntimeProviderTarget}
use dappnode_nexus_gateway.Metering.Contract.{Cases, first_error, is_negative}

abbrev pub Pass : Bool × GatewayError → Type 0
Pass c = c.0 ≡ false

pub first_error-none : (cases : Cases) → first_error cases ≡ none → All Pass cases
unfolding first_error
first_error-none [] h = tt
first_error-none ((test, e) ∷ cases) h = elim (Bool-cases test) [
  | inl fails ↦ absurd (ground arith)
  | inr passes ↦ (passes, first_error-none cases (ground arith))
]

pub none_of_Pass : (cases : Cases) → All Pass cases → first_error cases ≡ none
unfolding first_error
none_of_Pass [] _ = refl
none_of_Pass ((test, e) ∷ cases) (passes, h) = rw passes (none_of_Pass cases h)

abbrev pub IsText : String → Type 0
IsText s = is_blank s ≡ false

-- A provider the gateway can call.
pub record IsTarget (t : RuntimeProviderTarget) : Type 0 where
  pub model_id : IsText t.provider_model_id
  pub model_name : IsText t.upstream_model_name
  pub id : IsText t.provider_config.id
  pub name : IsText t.provider_config.provider_name
  pub url : IsText t.provider_config.base_url
  pub key : IsText t.provider_config.api_key_secret_ref
  pub active : t.provider_config.active ≡ true

abbrev pub IsPrice : Option ℤ → Type 0
IsPrice p = (n : ℕ) × (p ≡ some (pos n))

abbrev pub IsPositive : ℤ → Type 0
IsPositive n = (k : ℕ) × (n ≡ pos (suc k))

abbrev pub IsStated : Option Bool → Type 0
IsStated b = (v : Bool) × (b ≡ some v)

-- A fallback that is there is a target, and another one than the primary.
abbrev pub IsFallback : RuntimePublicModel → Option RuntimeProviderTarget → Type 0
IsFallback m none = Unit
IsFallback m (some t) =
    IsTarget t
    × ((t.provider_model_id ≢ m.provider_model_id) ⊎ (t.provider_config.id ≢ m.provider_config.id))

-- A model that the gateway can serve: `expected` is the ID asked for, "" where a list was.
pub record IsServable (m : RuntimePublicModel) (expected : String) : Type 0 where
  pub id : IsText m.id
  pub public_id : IsText m.public_model_id
  pub asked : (expected ≡ "") ⊎ (m.public_model_id ≡ expected)
  pub name : IsText m.display_name
  pub target : IsTarget (record {
    provider_model_id = m.provider_model_id;
    upstream_model_name = m.upstream_model_name;
    service_tier = m.service_tier;
    provider_config = m.provider_config;
  })
  pub active : m.active ≡ true
  pub chat : IsStated m.supports_chat_completions
  pub stream : IsStated m.supports_chat_completions_stream
  pub tools : IsStated m.supports_tools
  pub parallel : IsStated m.supports_parallel_tool_calls
  pub structured : IsStated m.supports_structured_output
  pub reasoning : IsStated m.supports_reasoning
  pub proof : (m.proof_mode ≡ "none") ⊎ (m.proof_mode ≡ "tinfoil_attested_transport")
  pub context : IsPositive m.max_context_window
  pub output : IsPositive m.max_output_tokens
  pub input_price : IsPrice m.input_price
  pub output_price : IsPrice m.output_price
  pub cache_read : (m.cache_read_price ≡ none) ⊎ IsPrice m.cache_read_price
  pub cache_write : (m.cache_write_price ≡ none) ⊎ IsPrice m.cache_write_price
  pub currency : IsText m.currency
  pub fallback : IsFallback m m.fallback

pub IsStated-of : (b : Option Bool) → is_none b ≡ false → IsStated b
IsStated-of none h = cc
IsStated-of (some v) h = (v, refl)

pub IsPositive-of : (n : ℤ) → leb_ℤ n (pos 0) ≡ false → IsPositive n
IsPositive-of (pos ℕ.zero) h = absurd (ground arith)
IsPositive-of (pos (suc k)) h = (k, refl)
IsPositive-of (ℤ.negsuc k) h = absurd (ground arith)

pub IsPrice-of : (p : Option ℤ) → is_none p ≡ false → is_negative p ≡ false → IsPrice p
IsPrice-of none h _ = cc
IsPrice-of (some (pos n)) h _ = (n, refl)
IsPrice-of (some (ℤ.negsuc n)) _ h = absurd (ground arith)

pub optional-IsPrice : (p : Option ℤ) → is_negative p ≡ false → (p ≡ none) ⊎ IsPrice p
optional-IsPrice none h = inl refl
optional-IsPrice (some n) h = inr (IsPrice-of (some n) refl h)

pub differs : (a b c d : String) → ((a == b) && (c == d)) ≡ false → (a ≢ b) ⊎ (c ≢ d)
differs a b c d h = elim (Bool-cases (a == b)) [
  | inl same ↦
      let other : (c == d) ≡ false = ground (arith, h, same) in
      inr (λ e. cc ((eq_iff c d).1 e, other))
  | inr other ↦ inl (λ e. cc ((eq_iff a b).1 e))
]

pub asked_of : (a e : String) → ((e != "") && (a != e)) ≡ false → (e ≡ "") ⊎ (a ≡ e)
asked_of a e h = ground (arith, eq_iff e "", eq_iff a e)

pub not-false : (b : Bool) → not b ≡ false → b ≡ true
not-false true h = refl
not-false false h = cc

pub proof_of :
    (p : String)
    → ((p != "none") && (p != "tinfoil_attested_transport")) ≡ false
    → (p ≡ "none") ⊎ (p ≡ "tinfoil_attested_transport")
proof_of p h = ground (arith, eq_iff p "none", eq_iff p "tinfoil_attested_transport")

pub no_price : (p : Option ℤ) → IsPrice p → (is_none p ≡ false) × (is_negative p ≡ false)
no_price none (n, e) = cc
no_price (some (pos k)) _ = (refl, ground arith)
no_price (some (ℤ.negsuc k)) (n, e) = cc

pub no_optional_price : (p : Option ℤ) → (p ≡ none) ⊎ IsPrice p → is_negative p ≡ false
no_optional_price p (inl e) = rw e
no_optional_price p (inr h) = (no_price p h).1

pub not_none : (b : Option Bool) → IsStated b → is_none b ≡ false
not_none b (v, e) = rw e

pub not_nonpositive : (n : ℤ) → IsPositive n → leb_ℤ n (pos 0) ≡ false
not_nonpositive n (k, e) = rw e (ground arith)
