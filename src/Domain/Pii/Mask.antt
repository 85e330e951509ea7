-- ===== src/Domain/Pii/Mask.antt =====
-- Masking and restoring texts: `ApplyMask` and `Unmask` of pkg/domain/pii.go. The
-- mapping is not nil. A text is a list of bytes; the types of entities are ASCII texts, so that
-- `strings.EqualFold` compares aliases by their ASCII letters.
use Prim.Native.Nat.{◌-◌}
use dappnode_nexus_gateway.Common.{
  ℕ, zero, suc, Bool, true, false, not, ◌&&◌, ◌||◌, List, [], ◌∷◌, ◌++◌, Option, none, some,
  if◌then◌else◌, ◌==◌, nat_eq, leb, ltb, length, take, drop, filter, map, same_folded,
}
use dappnode_nexus_gateway.Common.Bytes.{Bytes, bytes_eq, byte_less, trim}
use dappnode_nexus_gateway.Domain.Pii.{PiiMapping, token, original_of, is_bracket}

-- `PIIEntity`, without its score. An entity that starts before the text, which `ApplyMask` skips, does
-- not occur.
pub record PiiEntity : Type 0 where
  pub type : Bytes
  pub start : ℕ
  pub end : ℕ

-- `sort.SliceStable`, as insertion behind what is not after an item.
module _ {ℓ} {A : Type ℓ} (less : A → A → Bool) where
  unfoldable pub insert : A → List A → List A
  insert x [] = x ∷ []
  insert x (y ∷ ys) = let rest = insert x ys in if less y x then y ∷ rest else x ∷ y ∷ ys

  unfoldable pub sort_stable : List A → List A
  unfolding insert
  sort_stable [] = []
  sort_stable (x ∷ xs) = insert x (sort_stable xs)

abbrev pub earlier : PiiEntity → PiiEntity → Bool
earlier a b = if a.start == b.start then ltb b.end a.end else ltb a.start b.start

-- The spans that are valid and do not start before the last one kept ended.
unfoldable pub keep_spans : ℕ → ℕ → List PiiEntity → List PiiEntity
keep_spans size last [] = []
keep_spans size last (e ∷ entities) =
    let skipped = keep_spans size last entities in
    let kept = keep_spans size e.end entities in
    if ltb size e.end || leb e.end e.start
    then skipped
    else if ltb e.start last
    then skipped
    else e ∷ kept

-- The text from a cursor on, with the spans replaced.
unfoldable pub replace_spans : Bytes → ℕ → List PiiEntity → PiiMapping → PiiMapping × Bytes
replace_spans text cursor [] m = (m, drop cursor text)
replace_spans text cursor (e ∷ kept) m =
    let (n, tok) = token e.type (take (e.end - e.start) (drop e.start text)) m in
    let (last, rest) = replace_spans text e.end kept n in
    (last, take (e.start - cursor) (drop cursor text) ++ tok ++ rest)

unfoldable pub apply_mask : Bytes → List PiiEntity → PiiMapping → PiiMapping × Bytes
unfolding keep_spans replace_spans sort_stable
apply_mask text entities m =
    replace_spans text 0 (keep_spans (length text) 0 (sort_stable earlier entities)) m

abbrev pub longer : Bytes → Bytes → Bool
unfolding byte_less
longer a b = if length a == length b then byte_less a b else ltb (length b) (length a)

unfoldable pub starts_bracketed : Bytes → Bool
starts_bracketed [] = false
starts_bracketed (c ∷ s) = c == b'['

unfoldable pub bare_aliases_by_length : PiiMapping → List Bytes
bare_aliases_by_length m = sort_stable longer (
    map (λ (e : Bytes × Bytes). trim is_bracket e.0) m.token_to_original
    ++ filter (λ (alias : Bytes). not (starts_bracketed alias))
        (map (λ (e : Bytes × Bytes). e.0) m.token_aliases))

unfoldable pub match_bare_alias : PiiMapping → Bytes → List Bytes → Option (Bytes × Bytes)
match_bare_alias m text [] = none
match_bare_alias m text (alias ∷ aliases) =
    let rest = match_bare_alias m text aliases in
    if ltb (length text) (length alias) || not (same_folded (take (length alias) text) alias)
    then rest
    else elim (original_of alias m) [ none ↦ rest | some original ↦ some (alias, original) ]

-- Whether a byte, or the end of the text, bounds a word.
abbrev pub is_boundary : Option ℕ → Bool
is_boundary none = true
is_boundary (some c) = not (
    (leb b'A' c && leb c b'Z')
    || (leb b'a' c && leb c b'z')
    || (leb b'0' c && leb c b'9')
    || c == b'_')

abbrev pub head : Bytes → Option ℕ
head [] = none
head (c ∷ s) = some c

-- The bytes up to the first `]` and it, `none` if there is none.
unfoldable pub cut_bracket : Bytes → Option Bytes
cut_bracket [] = none
cut_bracket (c ∷ s) =
    let rest = cut_bracket s in
    if c == b']' then some (c ∷ []) else elim rest [ none ↦ none | some tok ↦ some (c ∷ tok) ]

-- What a place of a text is: the rest of it as it is, a token or a bare alias with what it stands
-- for, or a byte.
pub data Place : Type 0 where
  unterminated : Place
  restored : Bytes → Bytes → Place
  plain : Place

abbrev pub place : PiiMapping → List Bytes → Option ℕ → ℕ → Bytes → Place
place m aliases before c s =
    if c == b'['
    then elim (cut_bracket (c ∷ s)) [
      | none ↦ unterminated
      | some tok ↦ elim (original_of tok m) [ none ↦ restored tok tok | some v ↦ restored tok v ]
    ]
    else if is_boundary before
    then elim (match_bare_alias m (c ∷ s) aliases) [
      | none ↦ plain
      | some (alias, v) ↦
          if is_boundary (head (drop (length alias) (c ∷ s))) then restored alias v else plain
    ]
    else plain

-- The loop of `Unmask`: `skip` bytes belong to the last placeholder. A placeholder is never empty.
unfoldable pub unmask_from : PiiMapping → List Bytes → ℕ → Option ℕ → Bytes → Bytes
unmask_from m aliases skip before [] = []
unmask_from m aliases (suc skip) before (c ∷ s) = unmask_from m aliases skip (some c) s
unmask_from m aliases zero before (c ∷ s) = elim (place m aliases before c s) [
  | unterminated ↦ c ∷ s
  | restored tok v ↦ v ++ unmask_from m aliases (length tok - 1) (some c) s
  | plain ↦ c ∷ unmask_from m aliases 0 (some c) s
]

unfoldable pub unmask : Bytes → PiiMapping → Bytes
unmask text m =
    if length m.token_to_original == 0
    then text
    else unmask_from m (bare_aliases_by_length m) 0 none text
