-- ===== src/Domain/Pii/Restoring.antt =====
-- Masking a text and restoring it: `ApplyMask` and `Unmask` of pkg/domain/pii.go.
use mathlib.Core.List.{append-nil, append_assoc}
use dappnode_nexus_gateway.Common.{
  ℕ, suc, ◌-◌, ◌≡◌, refl, sym, ap, ◌∙◌, true, List, [], ◌∷◌, ◌++◌, Option, none, some, ◌==◌, nat_eq,
  All, All-append, arith, Bool-cases, length, take, drop, inl, inr,
}
use dappnode_nexus_gateway.Common.Bytes.{Bytes, bytes_eq, find}
use dappnode_nexus_gateway.Domain.Pii.Names.{
  is_plain, IsNamed, IsName, IsPlaceholder, token-IsNamed, new_pii_mapping-IsNamed,
}
use dappnode_nexus_gateway.Domain.Pii.Places.{
  is_silent, last_of, bare_aliases-IsName, unmask_from-silent, unmask_from-token, All-sort_stable,
}
use dappnode_nexus_gateway.Domain.Pii.Values.{
  IsSoundMapping, token-IsSound, new_pii_mapping-IsSound,
}
use dappnode_nexus_gateway.Domain.Pii.Roundtrip.{
  token_all, token_all-IsSound, find-token, original_of-found,
}
use dappnode_nexus_gateway.Domain.Pii.Mask.{
  PiiEntity, earlier, sort_stable, keep_spans, replace_spans, apply_mask, bare_aliases_by_length,
  unmask_from, unmask,
}
use dappnode_nexus_gateway.Domain.Pii.{PiiMapping, new_pii_mapping, bracketed, original_of, token}
use dappnode_nexus_gateway.Domain.Pii.Texts.{
  masked_spans, gaps, AreOrdered, keep_spans-AreOrdered, All-keep_spans, split_span, masked_values,
  replace_spans-token_all, token_all-append, IsClean-of_plain, All-IsClean_of_plain,
  masked_values-plain, token_all-IsNamed, All-find,
}

abbrev ArePlain : List PiiEntity → Type 0
ArePlain kept = All (λ (e : PiiEntity). is_plain e.type ≡ true) kept

abbrev ArePlainValues : List (Bytes × Bytes) → Type 0
ArePlainValues values = All (λ (v : Bytes × Bytes). is_plain v.0 ≡ true) values

-- A mapping after a placeholder was given, with what the theorem needs of it.
record Knows (tok o : Bytes) (f : PiiMapping) : Type 0 where
  placeholder : IsPlaceholder tok
  known : original_of tok f ≡ some o

token-Knows :
    (t o : Bytes) (m : PiiMapping) (values : List (Bytes × Bytes))
    → IsSoundMapping m
    → IsNamed m
    → is_plain t ≡ true
    → ArePlainValues values
    → Knows (token t o m).1 o (token_all values (token t o m).0)
token-Knows t o m values sound named plain h =
    let last = token_all values (token t o m).0 in
    let found =
      find-token m values t o sound (IsClean-of_plain t plain) (All-IsClean_of_plain values h) in
    let all_named = token_all-IsNamed values (token t o m).0 h (token-IsNamed t o m plain named) in
    record {
      placeholder =
          All-find IsPlaceholder (token t o m).1 o last.token_to_original all_named.names found;
      known = original_of-found (token t o m).1 o last found;
    }

-- The text before a placeholder, the placeholder and what is restored behind it.
restore_span :
    (f : PiiMapping) (aliases : List Bytes) (before : Option ℕ) (gap tok o rest after : Bytes)
    → All IsName aliases
    → is_silent gap ≡ true
    → Knows tok o f
    → ((b : Option ℕ) → unmask_from f aliases 0 b rest ≡ after)
    → unmask_from f aliases 0 before (gap ++ (tok ++ rest)) ≡ gap ++ (o ++ after)
restore_span f aliases before gap tok o rest after names silent knows h =
    let (x, shape, name) = knows.placeholder in
    let known : original_of (bracketed x) f ≡ some o =
      ap (λ k. original_of k f) (sym shape) ∙ knows.known in
    let at = last_of before gap in
    ap (λ k. unmask_from f aliases 0 before (gap ++ (k ++ rest))) shape
    ∙ unmask_from-silent f aliases before gap (bracketed x ++ rest) names silent refl
    ∙ ap (λ s. gap ++ s)
        (unmask_from-token f aliases at x o rest name.unbracketed known
          ∙ ap (λ s. o ++ s) (h (last_of (some 91) (x ++ 93 ∷ []))))

restore_rest :
    (f : PiiMapping) (aliases : List Bytes) (before : Option ℕ) (gap : Bytes)
    → All IsName aliases
    → is_silent gap ≡ true
    → unmask_from f aliases 0 before gap ≡ gap
unfolding unmask_from
restore_rest f aliases before gap names silent =
    ap (unmask_from f aliases 0 before) (sym (append-nil gap))
    ∙ unmask_from-silent f aliases before gap [] names silent refl
    ∙ append-nil gap

silent_left : (xs ys : Bytes) → is_silent (xs ++ ys) ≡ true → is_silent xs ≡ true
silent_left [] ys h = refl
silent_left (c ∷ xs) ys h = ground (arith, h, silent_left xs ys (ground (arith, h)))

silent_right : (xs ys : Bytes) → is_silent (xs ++ ys) ≡ true → is_silent ys ≡ true
silent_right [] ys h = h
silent_right (c ∷ xs) ys h = silent_right xs ys (ground (arith, h))

module _ (text : Bytes) (later : List (Bytes × Bytes)) (later_plain : ArePlainValues later)
    (aliases : List Bytes) (names : All IsName aliases) where
  -- From a cursor on, with the mapping at the cursor.
  restores :
      (cursor : ℕ) (kept : List PiiEntity) (m : PiiMapping) (before : Option ℕ)
      → IsSoundMapping m
      → IsNamed m
      → AreOrdered cursor kept
      → ArePlain kept
      → is_silent (gaps text cursor kept) ≡ true
      → unmask_from
          (token_all (masked_values text kept ++ later) m)
          aliases
          0
          before
          (replace_spans text cursor kept m).1
        ≡ drop cursor text
  unfolding replace_spans gaps AreOrdered masked_values token_all
  restores cursor [] m before sound named ordered plain silent =
      restore_rest (token_all later m) aliases before (drop cursor text) names silent
  restores cursor (e ∷ kept) m before sound named (le, len, ordered) (p, plain) silent =
      let o = take (e.end - e.start) (drop e.start text) in
      let gap = take (e.start - cursor) (drop cursor text) in
      let n = (token e.type o m).0 in
      let values = masked_values text kept ++ later in
      let knows = token-Knows e.type o m values sound named p (
        All-append (λ (v : Bytes × Bytes). is_plain v.0 ≡ true) (masked_values text kept) later
          (masked_values-plain text kept plain) later_plain) in
      ap (unmask_from (token_all values n) aliases 0 before)
        (append_assoc gap (token e.type o m).1 (replace_spans text e.end kept n).1)
      ∙ restore_span (token_all values n) aliases before gap (token e.type o m).1 o
          (replace_spans text e.end kept n).1 (drop e.end text) names
          (silent_left gap (gaps text e.end kept) silent) knows
          (λ b.
            restores e.end kept n b (token-IsSound e.type o m (IsClean-of_plain e.type p) sound)
              (token-IsNamed e.type o m p named) ordered plain
              (silent_right gap (gaps text e.end kept) silent))
      ∙ split_span text cursor e.start e.end le len

-- Without a placeholder, nothing was masked.
empty_text :
    (text : Bytes) (kept : List PiiEntity) (m : PiiMapping) (later : List (Bytes × Bytes))
    → IsSoundMapping m
    → ArePlain kept
    → ArePlainValues later
    → length (token_all (masked_values text kept ++ later) m).token_to_original ≡ 0
    → (replace_spans text 0 kept m).1 ≡ text
unfolding replace_spans masked_values token_all find
empty_text text [] m later sound plain h size = refl
empty_text text (e ∷ kept) m later sound (p, plain) h size =
    let o = take (e.end - e.start) (drop e.start text) in
    let values = masked_values text kept ++ later in
    let found = find-token m values e.type o sound (IsClean-of_plain e.type p) (
      All-IsClean_of_plain values (
        All-append (λ (v : Bytes × Bytes). is_plain v.0 ≡ true) (masked_values text kept) later
          (masked_values-plain text kept plain) h)) in
    absurd (
      omega (
        arith,
        nothing_found (token e.type o m).1 o
            (token_all values (token e.type o m).0).token_to_original found size,
      ))
  where
    nothing_found :
        (k v : Bytes) (entries : List (Bytes × Bytes))
        → find k entries ≡ some v
        → length entries ≡ 0
        → suc (length entries) ≡ 0
    nothing_found k v [] f z = absurd (ground (arith, f))
    nothing_found k v (x ∷ entries) f z = absurd (omega (arith, z))

-- Masking a text and restoring it gives the text back, whatever other values got placeholders before
-- and get them after; if no type has a `[`, a `]` or a `|`, and outside the spans that are masked the
-- text has neither `[` nor `_`.
pub unmask-apply_mask :
    (past later : List (Bytes × Bytes)) (text : Bytes) (entities : List PiiEntity)
    → All (λ (v : Bytes × Bytes). is_plain v.0 ≡ true) past
    → All (λ (e : PiiEntity). is_plain e.type ≡ true) entities
    → All (λ (v : Bytes × Bytes). is_plain v.0 ≡ true) later
    → is_silent (gaps text 0 (masked_spans text entities)) ≡ true
    → unmask
        (apply_mask text entities (token_all past new_pii_mapping)).1
        (token_all later (apply_mask text entities (token_all past new_pii_mapping)).0)
      ≡ text
unfolding apply_mask unmask keep_spans sort_stable
unmask-apply_mask past later text entities before plain after silent =
    let m = token_all past new_pii_mapping in
    let kept = masked_spans text entities in
    let f = token_all (masked_values text kept ++ later) m in
    let same : token_all later (replace_spans text 0 kept m).0 ≡ f =
      ap (token_all later) (replace_spans-token_all text 0 kept m)
      ∙ sym (token_all-append (masked_values text kept) later m) in
    let kept_plain =
      All-keep_spans (λ (e : PiiEntity). is_plain e.type ≡ true) (length text) 0
        (sort_stable earlier entities)
        (All-sort_stable earlier (λ (e : PiiEntity). is_plain e.type ≡ true) entities plain) in
    let sound =
      token_all-IsSound past new_pii_mapping (All-IsClean_of_plain past before)
        new_pii_mapping-IsSound in
    let named = token_all-IsNamed past new_pii_mapping before new_pii_mapping-IsNamed in
    let all_named =
      token_all-IsNamed (masked_values text kept ++ later) m
        (All-append (λ (v : Bytes × Bytes). is_plain v.0 ≡ true) (masked_values text kept) later
          (masked_values-plain text kept kept_plain) after)
        named in
    ap (unmask (replace_spans text 0 kept m).1) same
    ∙ elim (Bool-cases (length f.token_to_original == 0)) [
      | inl e ↦
          rw (e, unmask) (empty_text text kept m later sound kept_plain after (ground (arith, e)))
      | inr e ↦
          rw (e, unmask)
            (restores text later after (bare_aliases_by_length f) (bare_aliases-IsName f all_named)
              0 kept m none sound named
              (keep_spans-AreOrdered (length text) 0 (sort_stable earlier entities)) kept_plain
              silent)
    ]
