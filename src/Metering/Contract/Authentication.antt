-- ===== src/Metering/Contract/Authentication.antt =====
-- What an answer is that passes `validateAuthenticateResponse` of runtime_client.go.
use dappnode_nexus_gateway.Common.{
  ◌≡◌, refl, ap, ◌⊎◌, inl, inr, ◌↔◌, String, true, false, not, none, ◌==◌, ◌!=◌, string_eq, nat_eq,
  is_blank, is_none, arith, eq_iff,
}
use dappnode_nexus_gateway.Domain.Account.{normalize_pii_mode}
use dappnode_nexus_gateway.Metering.Wire.{AuthenticateResponse}
use dappnode_nexus_gateway.Metering.Contract.{
  first_error, authenticate_cases, validate_authenticate_response,
}
use dappnode_nexus_gateway.Metering.Contract.Conditions.{
  first_error-none, none_of_Pass, IsText, not-false,
}

-- An authenticated key and account that the gateway accepts.
pub record IsAuthentic (r : AuthenticateResponse) : Type 0 where
  pub account : IsText r.account.id
  pub key : IsText r.api_key.id
  pub owner : r.api_key.account_id ≡ r.account.id
  pub account_active : r.account.status ≡ "active"
  pub key_active : r.api_key.active ≡ true
  pub pii_mode :
      (r.api_key.pii_mode ≡ "off")
      ⊎ (r.api_key.pii_mode ≡ "low")
      ⊎ (r.api_key.pii_mode ≡ "balanced")
      ⊎ (r.api_key.pii_mode ≡ "high")

pii_mode_of :
    (p : String)
    → (p == "") ≡ false
    → is_none (normalize_pii_mode p) ≡ false
    → (p ≡ "off") ⊎ (p ≡ "low") ⊎ (p ≡ "balanced") ⊎ (p ≡ "high")
unfolding normalize_pii_mode
pii_mode_of p h k =
    ground (arith, eq_iff p "off", eq_iff p "low", eq_iff p "balanced", eq_iff p "high")

Pass_of_pii_mode :
    (p : String)
    → (p ≡ "off") ⊎ (p ≡ "low") ⊎ (p ≡ "balanced") ⊎ (p ≡ "high")
    → ((p == "") ≡ false) × (is_none (normalize_pii_mode p) ≡ false)
unfolding normalize_pii_mode
Pass_of_pii_mode p (inl e) = rw e (refl, refl)
Pass_of_pii_mode p (inr (inl e)) = rw e (refl, refl)
Pass_of_pii_mode p (inr (inr (inl e))) = rw e (refl, refl)
Pass_of_pii_mode p (inr (inr (inr e))) = rw e (refl, refl)

same_of : (a b : String) → (a != b) ≡ false → a ≡ b
same_of a b h = ground (arith, eq_iff a b)

differ_false : (a b : String) → a ≡ b → (a != b) ≡ false
differ_false a b e = ground (arith, eq_iff a b)

-- An authentication answer passes exactly if its account and key are named, the key belongs to the
-- account, both are active, and the PII mode is one of the four.
pub validate_authenticate_response_iff :
    (r : AuthenticateResponse) → (validate_authenticate_response r ≡ none) ↔ IsAuthentic r
unfolding validate_authenticate_response
validate_authenticate_response_iff r = (to, from)
  where
    to : first_error (authenticate_cases r) ≡ none → IsAuthentic r
    to e =
        let h = first_error-none (authenticate_cases r) e in
        record {
          account = h.0;
          key = h.1.0;
          owner = same_of r.api_key.account_id r.account.id h.1.1.1.0;
          account_active = same_of r.account.status "active" h.1.1.1.1.0;
          key_active = not-false r.api_key.active h.1.1.1.1.1.0;
          pii_mode = pii_mode_of r.api_key.pii_mode h.1.1.1.1.1.1.0 h.1.1.1.1.1.1.1.0;
        }

    from : IsAuthentic r → first_error (authenticate_cases r) ≡ none
    from v =
        let owner : is_blank r.api_key.account_id ≡ false = rw (v.owner) v.account in
        let mode = Pass_of_pii_mode r.api_key.pii_mode v.pii_mode in
        none_of_Pass (authenticate_cases r) (
          v.account,
          (
            v.key,
            (
              owner,
              (
                differ_false r.api_key.account_id r.account.id v.owner,
                (
                  differ_false r.account.status "active" v.account_active,
                  (ap not v.key_active, (mode.0, (mode.1, tt))),
                ),
              ),
            ),
          ),
        )
