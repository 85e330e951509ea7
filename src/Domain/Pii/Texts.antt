-- ===== src/Domain/Pii/Texts.antt =====
-- The spans that `ApplyMask` of pkg/domain/pii.go masks in a text, and what lies between them.

use dappnode_nexus_gateway.Common.{
  ℕ, zero, suc, ◌+◌, ◌-◌, ◌≤◌, ◌≡◌, refl, sym, subst, ap, ◌∙◌, true, List, [], ◌∷◌, ◌++◌, some,
  nat_eq, All, arith, Bool-cases, ltb, leb, length, take, drop, take-append-drop, inl, inr, ◌||◌,
}
use dappnode_nexus_gateway.Common.Bytes.{Bytes, bytes_eq, bytes_beq, bytes_beq_iff, find}
use dappnode_nexus_gateway.Domain.Pii.Names.{is_plain, IsNamed, token-IsNamed}
use dappnode_nexus_gateway.Domain.Pii.Values.{IsClean}
use dappnode_nexus_gateway.Domain.Pii.Roundtrip.{token_all}
use dappnode_nexus_gateway.Domain.Pii.Mask.{
  PiiEntity, earlier, sort_stable, keep_spans, replace_spans,
}
use dappnode_nexus_gateway.Domain.Pii.{PiiMapping, token}

-- The spans that are masked.
abbrev pub masked_spans : Bytes → List PiiEntity → List PiiEntity
unfolding keep_spans sort_stable
masked_spans text entities = keep_spans (length text) 0 (sort_stable earlier entities)

-- The bytes of a text from a cursor on that lie outside spans.
unfoldable pub gaps : Bytes → ℕ → List PiiEntity → Bytes
gaps text cursor [] = drop cursor text
gaps text cursor (e ∷ kept) = take (e.start - cursor) (drop cursor text) ++ gaps text e.end kept

-- Spans in order.
unfoldable pub AreOrdered : ℕ → List PiiEntity → Type 0
AreOrdered cursor [] = Unit
AreOrdered cursor (e ∷ kept) = (cursor ≤ e.start) × (e.start ≤ e.end) × AreOrdered e.end kept

pub keep_spans-AreOrdered :
    (size last : ℕ) (entities : List PiiEntity) → AreOrdered last (keep_spans size last entities)
unfolding keep_spans AreOrdered
keep_spans-AreOrdered size last [] = tt
keep_spans-AreOrdered size last (e ∷ entities) =
    elim (Bool-cases (ltb size e.end || leb e.end e.start)) [
      | inl f ↦ rw f (keep_spans-AreOrdered size last entities)
      | inr f ↦ elim (Bool-cases (ltb e.start last)) [
        | inl g ↦ rw (f, g) (keep_spans-AreOrdered size last entities)
        | inr g ↦
            rw (f, g)
              (ground (arith, g), ground (arith, f), keep_spans-AreOrdered size e.end entities)
      ]
    ]

module _ (P : PiiEntity → Type 0) where
  pub All-keep_spans :
      (size last : ℕ) (entities : List PiiEntity)
      → All P entities
      → All P (keep_spans size last entities)
  unfolding keep_spans
  All-keep_spans size last [] h = tt
  All-keep_spans size last (e ∷ entities) (p, h) =
      elim (Bool-cases (ltb size e.end || leb e.end e.start)) [
        | inl f ↦ rw f (All-keep_spans size last entities h)
        | inr f ↦ elim (Bool-cases (ltb e.start last)) [
          | inl g ↦ rw (f, g) (All-keep_spans size last entities h)
          | inr g ↦ rw (f, g) (p, All-keep_spans size e.end entities h)
        ]
      ]

drop-nil : (a : ℕ) → ◌≡◌ {A = Bytes} (drop a []) []
drop-nil zero = refl
drop-nil (suc a) = refl

drop-drop : (a b : ℕ) (s : Bytes) → drop a (drop b s) ≡ drop (b + a) s
drop-drop a zero s = ap (λ n. drop n s) (omega arith)
drop-drop a (suc b) [] = drop-nil a ∙ sym (drop-nil (suc b + a))
drop-drop a (suc b) (c ∷ s) =
    let size : suc (b + a) ≡ suc b + a = omega arith in
    drop-drop a b s ∙ ap (λ n. drop n (c ∷ s)) size

split_at :
    (text : Bytes) (a b : ℕ) → a ≤ b → take (b - a) (drop a text) ++ drop b text ≡ drop a text
split_at text a b h =
    let size : a + (b - a) ≡ b = omega (arith, h) in
    ap (λ s. take (b - a) (drop a text) ++ s)
      (ap (λ n. drop n text) (sym size) ∙ sym (drop-drop (b - a) a text))
    ∙ take-append-drop (b - a) (drop a text)

-- A text is what lies before a span, the span, and what follows.
pub split_span :
    (text : Bytes) (cursor start end : ℕ)
    → cursor ≤ start
    → start ≤ end
    → take (start - cursor) (drop cursor text)
        ++ (take (end - start) (drop start text) ++ drop end text)
      ≡ drop cursor text
split_span text cursor start end h k =
    ap (λ s. take (start - cursor) (drop cursor text) ++ s) (split_at text start end k)
    ∙ split_at text cursor start h

-- The values that spans mask.
unfoldable pub masked_values : Bytes → List PiiEntity → List (Bytes × Bytes)
masked_values text [] = []
masked_values text (e ∷ kept) =
    (e.type, take (e.end - e.start) (drop e.start text)) ∷ masked_values text kept

pub replace_spans-token_all :
    (text : Bytes) (cursor : ℕ) (kept : List PiiEntity) (m : PiiMapping)
    → (replace_spans text cursor kept m).0 ≡ token_all (masked_values text kept) m
unfolding replace_spans token_all masked_values
replace_spans-token_all text cursor [] m = refl
replace_spans-token_all text cursor (e ∷ kept) m =
    replace_spans-token_all text e.end kept
      (token e.type (take (e.end - e.start) (drop e.start text)) m).0

pub token_all-append :
    (xs ys : List (Bytes × Bytes)) (m : PiiMapping)
    → token_all (xs ++ ys) m ≡ token_all ys (token_all xs m)
unfolding token_all
token_all-append [] ys m = refl
token_all-append ((t, o) ∷ xs) ys m = token_all-append xs ys (token t o m).0

pub IsClean-of_plain : (t : Bytes) → is_plain t ≡ true → IsClean t
IsClean-of_plain [] h = tt
IsClean-of_plain (c ∷ t) h =
    (λ e. absurd (ground (arith, h, e)), IsClean-of_plain t (ground (arith, h)))

pub All-IsClean_of_plain :
    (values : List (Bytes × Bytes))
    → All (λ (v : Bytes × Bytes). is_plain v.0 ≡ true) values
    → All (λ (v : Bytes × Bytes). IsClean v.0) values
All-IsClean_of_plain [] h = tt
All-IsClean_of_plain ((t, o) ∷ values) (p, h) =
    (IsClean-of_plain t p, All-IsClean_of_plain values h)

pub masked_values-plain :
    (text : Bytes) (kept : List PiiEntity)
    → All (λ (e : PiiEntity). is_plain e.type ≡ true) kept
    → All (λ (v : Bytes × Bytes). is_plain v.0 ≡ true) (masked_values text kept)
unfolding masked_values
masked_values-plain text [] h = tt
masked_values-plain text (e ∷ kept) (p, h) = (p, masked_values-plain text kept h)

pub token_all-IsNamed :
    (values : List (Bytes × Bytes)) (m : PiiMapping)
    → All (λ (v : Bytes × Bytes). is_plain v.0 ≡ true) values
    → IsNamed m
    → IsNamed (token_all values m)
unfolding token_all
token_all-IsNamed [] m h v = v
token_all-IsNamed ((t, o) ∷ values) m (p, h) v =
    token_all-IsNamed values (token t o m).0 h (token-IsNamed t o m p v)

pub All-find :
    (P : Bytes → Type 0) (k v : Bytes) (entries : List (Bytes × Bytes))
    → All (λ (e : Bytes × Bytes). P e.0) entries
    → find k entries ≡ some v
    → P k
unfolding find
All-find P k v [] h f = absurd (ground (arith, f))
All-find P k v ((j, w) ∷ entries) (p, h) f = elim (Bool-cases (bytes_beq j k)) [
  | inl same ↦ subst P ((bytes_beq_iff j k).0 same) p
  | inr other ↦ All-find P k v entries h (ground (arith, f, other))
]
