-- ===== src/Domain/Pii/Tokens.antt =====
-- The placeholders of pkg/domain/pii.go are told apart by their type and number; what its maps hold.
use dappnode_nexus_gateway.Common.{
  ℕ, zero, suc, ◌+◌, ◌*◌, ◌-◌, ◌/◌, ◌%◌, ◌≤◌, ◌<◌, ◌≡◌, ◌≢◌, inl, inr, refl, sym, subst, ap, ◌∙◌,
  true, false, List, [], ◌∷◌, ◌++◌, some, nat_eq, All, All-append, arith, Bool-cases, ltb,
}
use dappnode_nexus_gateway.Common.Bytes.{
  Bytes, bytes_eq, bytes_beq, bytes_beq_iff, find, put, digits_from, digits,
}
use dappnode_nexus_gateway.Domain.Pii.{numbered, bracketed}

-- The decimal digits of a number name it.
value_from : ℕ → Bytes → ℕ
value_from n [] = n
value_from n (d ∷ ds) = value_from (10 * n + (d - 48)) ds

value_from-append :
    (n d : ℕ) (ds : Bytes) → value_from n (ds ++ d ∷ []) ≡ 10 * value_from n ds + (d - 48)
unfolding value_from
value_from-append n d [] = refl
value_from-append n d (e ∷ ds) = value_from-append (10 * n + (e - 48)) d ds

value_from-digits_from : (fuel n : ℕ) → n < fuel → value_from 0 (digits_from fuel n) ≡ n
unfolding digits_from value_from
value_from-digits_from zero n h = absurd (omega (arith, h))
value_from-digits_from (suc fuel) n h = elim (Bool-cases (ltb n 10)) [
  | inl f ↦ rw (f, digits_from) (omega arith)
  | inr f ↦
      let ih = value_from-digits_from fuel (n / 10) (ground (arith, h, f)) in
      rw (f, digits_from, value_from-append) (ground (arith, ih))
]

digits-injective : (n k : ℕ) → digits n ≡ digits k → n ≡ k
unfolding digits
digits-injective n k h =
    sym (value_from-digits_from (suc n) n (omega arith))
    ∙ ap (value_from 0) h
    ∙ value_from-digits_from (suc k) k (omega arith)

abbrev pub IsDigit : ℕ → Type 0
IsDigit d = (48 ≤ d) × (d ≤ 57)

pub digits_from-IsDigit : (fuel n : ℕ) → All IsDigit (digits_from fuel n)
unfolding digits_from
digits_from-IsDigit zero n = tt
digits_from-IsDigit (suc fuel) n = elim (Bool-cases (ltb n 10)) [
  | inl f ↦ rw (f, digits_from) ((omega arith, ground (arith, f)), tt)
  | inr f ↦
      rw (f, digits_from)
        (All-append IsDigit (digits_from fuel (n / 10)) ((48 + n % 10) ∷ [])
          (digits_from-IsDigit fuel (n / 10)) ((omega arith, omega arith), tt))
]

-- The first, and the last, of a byte splits a string in one way.
pub split_first :
    (c : ℕ) (xs ys us vs : Bytes)
    → All (λ (x : ℕ). x ≢ c) xs
    → All (λ (y : ℕ). y ≢ c) ys
    → xs ++ c ∷ us ≡ ys ++ c ∷ vs
    → (xs ≡ ys) × (us ≡ vs)
split_first c [] [] us vs h k e = (refl, cc)
split_first c [] (y ∷ ys) us vs h (k, ks) e = let same : y ≡ c = cc in absurd (k same)
split_first c (x ∷ xs) [] us vs (h, hs) k e = let same : x ≡ c = cc in absurd (h same)
split_first c (x ∷ xs) (y ∷ ys) us vs (h, hs) (k, ks) e =
    let rest : xs ++ c ∷ us ≡ ys ++ c ∷ vs = cc in
    let head : x ≡ y = cc in
    let r = split_first c xs ys us vs hs ks rest in let tail : xs ≡ ys = r.0 in (cc, r.1)

without : (c : ℕ) (xs ys : Bytes) → All (λ (x : ℕ). x ≢ c) (xs ++ c ∷ ys) → c ≢ c
without c [] ys (h, hs) e = h refl
without c (x ∷ xs) ys (h, hs) e = without c xs ys hs refl

split_last :
    (c : ℕ) (xs ys us vs : Bytes)
    → All (λ (x : ℕ). x ≢ c) us
    → All (λ (y : ℕ). y ≢ c) vs
    → xs ++ c ∷ us ≡ ys ++ c ∷ vs
    → (xs ≡ ys) × (us ≡ vs)
split_last c [] [] us vs h k e = (refl, cc)
split_last c [] (y ∷ ys) us vs h k e =
    let tail : us ≡ ys ++ c ∷ vs = cc in
    absurd (without c ys vs (subst (All (λ (x : ℕ). x ≢ c)) tail h) refl)
split_last c (x ∷ xs) [] us vs h k e =
    let tail : vs ≡ xs ++ c ∷ us = cc in
    absurd (without c xs us (subst (All (λ (x : ℕ). x ≢ c)) tail k) refl)
split_last c (x ∷ xs) (y ∷ ys) us vs h k e =
    let rest : xs ++ c ∷ us ≡ ys ++ c ∷ vs = cc in
    let head : x ≡ y = cc in
    let r = split_last c xs ys us vs h k rest in let tail : xs ≡ ys = r.0 in (cc, r.1)

digits_only : (ds : Bytes) → All IsDigit ds → All (λ (d : ℕ). d ≢ 95) ds
digits_only [] h = tt
digits_only (d ∷ ds) (h, hs) = (λ e. absurd (omega (arith, h, e)), digits_only ds hs)

-- A placeholder tells its type and its number.
pub bracketed-injective :
    (t u : Bytes) (n k : ℕ)
    → bracketed (numbered t n) ≡ bracketed (numbered u k)
    → (t ≡ u) × (n ≡ k)
unfolding digits
bracketed-injective t u n k e =
    let inner : numbered t n ++ 93 ∷ [] ≡ numbered u k ++ 93 ∷ [] = cc in
    let whole = (split_last 93 (numbered t n) (numbered u k) [] [] tt tt inner).0 in
    let parts =
      split_last 95 t u (digits n) (digits k)
        (digits_only (digits n) (digits_from-IsDigit (suc n) n))
        (digits_only (digits k) (digits_from-IsDigit (suc k) k)) whole in
    (parts.0, digits-injective n k parts.1)

same_bytes : (k : Bytes) → bytes_beq k k ≡ true
same_bytes k = (bytes_beq_iff k k).1 refl

pub other_bytes : (k j : Bytes) → k ≢ j → bytes_beq k j ≡ false
other_bytes k j h = elim (Bool-cases (bytes_beq k j)) [
  | inl f ↦ absurd (h ((bytes_beq_iff k j).0 f))
  | inr f ↦ f
]

pub differ : (k j : Bytes) → bytes_beq k j ≡ false → k ≢ j
differ k j f e =
    let same : bytes_beq k j ≡ true = (bytes_beq_iff k j).1 e in absurd (ground (arith, f, same))

pub find-put {ℓ} :
    {A : Type ℓ} (k : Bytes) (v : A) (entries : List (Bytes × A))
    → find k (put k v entries) ≡ some v
unfolding find put
find-put k v [] = rw (same_bytes k) refl
find-put k v ((j, w) ∷ entries) = elim (Bool-cases (bytes_beq j k)) [
  | inl f ↦ rw (f, same_bytes k) refl
  | inr f ↦ rw (f, f) (find-put k v entries)
]

pub find-put_other {ℓ} :
    {A : Type ℓ} (k j : Bytes) (v : A) (entries : List (Bytes × A))
    → k ≢ j
    → find j (put k v entries) ≡ find j entries
unfolding find put
find-put_other k j v [] h = rw (other_bytes k j h) refl
find-put_other k j v ((i, w) ∷ entries) h = elim (Bool-cases (bytes_beq i k)) [
  | inl f ↦
      let same : i ≡ k = (bytes_beq_iff i k).0 f in
      rw (f, other_bytes k j h, same, other_bytes k j h) refl
  | inr f ↦ rw (f, find-put_other k j v entries h) refl
]
