-- ===== src/Service/Pii/Request/Steps.antt =====
-- Steps of the masking of a request: what a step keeps of the masker, and how steps compose.
use dappnode_nexus_gateway.Common.{
  ◌≡◌, refl, sym, ap, ◌∙◌, true, List, [], ◌++◌, some, string_eq, All, All-append,
}
use dappnode_nexus_gateway.Common.Bytes.{Bytes, bytes_eq, find}
use dappnode_nexus_gateway.Domain.Error.{ok, err}
use dappnode_nexus_gateway.Domain.Pii.{PiiMapping, new_pii_mapping}
use dappnode_nexus_gateway.Domain.Pii.Mask.{unmask}
use dappnode_nexus_gateway.Domain.Pii.Names.{is_plain}
use dappnode_nexus_gateway.Domain.Pii.Roundtrip.{token_all}
use dappnode_nexus_gateway.Domain.Pii.Texts.{token_all-append}
use dappnode_nexus_gateway.Service.Pii.Masker.{Masker, Masking, and_then}
use dappnode_nexus_gateway.Service.Pii.Request.{Step}

abbrev pub ArePlainTypes : List (Bytes × Bytes) → Type 0
ArePlainTypes values = All (λ (v : Bytes × Bytes). is_plain v.0 ≡ true) values

-- Restoring the first text gives the second, also when more values get placeholders.
abbrev pub IsBack : PiiMapping → Bytes → Bytes → Type 0
IsBack m w t =
    (later : List (Bytes × Bytes)) → ArePlainTypes later → unmask w (token_all later m) ≡ t

pub record IsMasker (s : Masker) : Type 0 where
  pub past : List (Bytes × Bytes)
  pub plain : ArePlainTypes past
  pub values : s.mapping ≡ token_all past new_pii_mapping
  pub cached : (t w : Bytes) → find t s.cache ≡ some w → IsBack s.mapping w t

pub record Grows (m n : PiiMapping) : Type 0 where
  pub later : List (Bytes × Bytes)
  pub plain : ArePlainTypes later
  pub values : n ≡ token_all later m

pub Grows-refl : (m : PiiMapping) → Grows m m
unfolding token_all
Grows-refl m = record { later = []; plain = tt; values = refl }

pub Grows-trans : (m n p : PiiMapping) → Grows m n → Grows n p → Grows m p
Grows-trans m n p f g = record {
  later = f.later ++ g.later;
  plain = All-append (λ (v : Bytes × Bytes). is_plain v.0 ≡ true) f.later g.later f.plain g.plain;
  values = g.values ∙ ap (token_all g.later) f.values ∙ sym (token_all-append f.later g.later m);
}

pub IsBack-Grows : (m n : PiiMapping) (w t : Bytes) → Grows m n → IsBack m w t → IsBack n w t
IsBack-Grows m n w t g back later plain =
    ap (λ p. unmask w (token_all later p)) g.values
    ∙ ap (unmask w) (sym (token_all-append g.later later m))
    ∙ back (g.later ++ later)
        (All-append (λ (v : Bytes × Bytes). is_plain v.0 ≡ true) g.later later g.plain plain)

-- What holds of a step's result, unless it ended the request.
unfoldable pub Yields : {A : Type 0} → (Masker → A → Type 0) → Masking A → Type 0
Yields P (err e) = Unit
Yields P (ok (q, a)) = P q a

pub and_then-Yields :
    {A B : Type 0} (P : Masker → A → Type 0) (Q : Masker → B → Type 0) (r : Masking A)
    (f : Masker → A → Masking B)
    → Yields P r
    → ((q : Masker) (a : A) → P q a → Yields Q (f q a))
    → Yields Q (and_then r f)
unfolding Yields
and_then-Yields P Q (err e) f h next = tt
and_then-Yields P Q (ok (q, a)) f h next = next q a h

-- A step made the second value of the first.
pub record Masks {A : Type 0} (R : PiiMapping → A → A → Type 0) (s : Masker) (v : A) (q : Masker)
    (w : A) : Type 0 where
  pub sound : IsMasker q
  pub grows : Grows s.mapping q.mapping
  pub related : R q.mapping w v

abbrev pub Works : {A : Type 0} → (A → Type 0) → (PiiMapping → A → A → Type 0) → Step A → Type 0
Works {A} T R f = (s : Masker) (v : A) → IsMasker s → T v → Yields (Masks R s v) (f s v)

-- What follows a step.
pub Yields-Grows :
    {A : Type 0} (R : PiiMapping → A → A → Type 0) (s q : Masker) (v : A) (r : Masking A)
    → Grows s.mapping q.mapping
    → Yields (Masks R q v) r
    → Yields (Masks R s v) r
unfolding Yields
Yields-Grows R s q v (err e) g h = tt
Yields-Grows R s q v (ok (p, w)) g h = record {
  sound = h.sound;
  grows = Grows-trans s.mapping q.mapping p.mapping g h.grows;
  related = h.related;
}
