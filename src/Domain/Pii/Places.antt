-- ===== src/Domain/Pii/Places.antt =====
-- What `Unmask` of pkg/domain/pii.go finds at the places of a masked text.
use dappnode_nexus_gateway.Common.{
  ℕ, ◌-◌, ◌≡◌, inl, inr, refl, sym, subst, ap, ◌∙◌, Bool, true, false, not, ◌||◌, List, [], ◌∷◌,
  ◌++◌, Option, none, some, if◌then◌else◌, ◌==◌, nat_eq, all, filter, map, All, All-append, arith,
  Bool-cases, ltb, length, take, fold_case, same_folded,
}
use dappnode_nexus_gateway.Common.Bytes.{Bytes, bytes_eq, trim}
use dappnode_nexus_gateway.Domain.Pii.Names.{
  no_bracket, has_mark, IsName, IsAliasName, IsPlaceholder, IsNamed, trim-bracketed,
}
use dappnode_nexus_gateway.Domain.Pii.Mask.{
  insert, sort_stable, longer, starts_bracketed, bare_aliases_by_length, match_bare_alias,
  cut_bracket, restored, plain, place, unmask_from,
}
use dappnode_nexus_gateway.Domain.Pii.{PiiMapping, original_of, bracketed, is_bracket}

module _ {A : Type 0} (less : A → A → Bool) (P : A → Type 0) where
  All-insert : (x : A) (xs : List A) → P x → All P xs → All P (insert less x xs)
  unfolding insert
  All-insert x [] p h = (p, tt)
  All-insert x (y ∷ ys) p (q, h) = elim (Bool-cases (less y x)) [
    | inl f ↦ rw f (q, All-insert x ys p h)
    | inr f ↦ rw f (p, (q, h))
  ]

  pub All-sort_stable : (xs : List A) → All P xs → All P (sort_stable less xs)
  unfolding sort_stable
  All-sort_stable [] h = tt
  All-sort_stable (x ∷ xs) (p, h) = All-insert x (sort_stable less xs) p (All-sort_stable xs h)

All-trimmed :
    (entries : List (Bytes × Bytes))
    → All (λ (e : Bytes × Bytes). IsPlaceholder e.0) entries
    → All IsName (map (λ (e : Bytes × Bytes). trim is_bracket e.0) entries)
All-trimmed [] h = tt
All-trimmed ((k, v) ∷ entries) ((x, shape, name), h) = (
  subst IsName (sym (ap (trim is_bracket) shape ∙ trim-bracketed x name.unbracketed)) name,
  All-trimmed entries h,
)

All-unbracketed :
    (entries : List (Bytes × Bytes))
    → All (λ (e : Bytes × Bytes). IsAliasName e.0) entries
    → All IsName (
        filter
          (λ (alias : Bytes). not (starts_bracketed alias))
          (map (λ (e : Bytes × Bytes). e.0) entries))
All-unbracketed [] h = tt
All-unbracketed ((k, v) ∷ entries) (inl f, h) = rw f (All-unbracketed entries h)
All-unbracketed ((k, v) ∷ entries) (inr name, h) = elim (Bool-cases (starts_bracketed k)) [
  | inl f ↦ rw f (All-unbracketed entries h)
  | inr f ↦ rw f (name, All-unbracketed entries h)
]

pub bare_aliases-IsName : (m : PiiMapping) → IsNamed m → All IsName (bare_aliases_by_length m)
unfolding bare_aliases_by_length
bare_aliases-IsName m v =
    let trimmed = map (λ (e : Bytes × Bytes). trim is_bracket e.0) m.token_to_original in
    let aliases =
      filter (λ (alias : Bytes). not (starts_bracketed alias))
        (map (λ (e : Bytes × Bytes). e.0) m.token_aliases) in
    All-sort_stable longer IsName (trimmed ++ aliases) (
      All-append IsName trimmed aliases (All-trimmed m.token_to_original v.names)
        (All-unbracketed m.token_aliases v.aliases.named))

-- A text whose first `[` comes before its first `_`, if it has one.
abbrev pub is_quiet : Bytes → Bool
is_quiet [] = true
is_quiet (c ∷ s) = if c == 91 then true else if c == 95 then false else is_quiet s

-- No name without brackets stands at the front of such a text.
quiet_apart :
    (alias text : Bytes)
    → no_bracket alias ≡ true
    → has_mark alias ≡ true
    → is_quiet text ≡ true
    → (ltb (length text) (length alias) || not (same_folded (take (length alias) text) alias))
      ≡ true
unfolding same_folded fold_case
quiet_apart [] text u v q = absurd (ground (arith, v))
quiet_apart (a ∷ alias) [] u v q = ground arith
quiet_apart (a ∷ alias) (c ∷ text) u v q = elim (Bool-cases (a == 95)) [
  | inl f ↦ ground (arith, f, q)
  | inr f ↦ elim (Bool-cases (c == 91)) [
    | inl g ↦ ground (arith, f, g, u)
    | inr g ↦
        let ih =
          quiet_apart alias text (ground (arith, u)) (ground (arith, v, f))
            (ground (arith, q, g)) in
        ground (arith, ih)
  ]
]

match_bare_alias-none :
    (m : PiiMapping) (text : Bytes) (aliases : List Bytes)
    → All IsName aliases
    → is_quiet text ≡ true
    → match_bare_alias m text aliases ≡ none
unfolding match_bare_alias
match_bare_alias-none m text [] h q = refl
match_bare_alias-none m text (alias ∷ aliases) (name, h) q =
    rw (quiet_apart alias text name.unbracketed name.marked q)
      (match_bare_alias-none m text aliases h q)

-- Bytes that are neither `[` nor `_`.
abbrev pub is_silent : Bytes → Bool
is_silent s = all (λ c. not (c == 91 || c == 95)) s

is_quiet-append :
    (gap rest : Bytes) → is_silent gap ≡ true → is_quiet rest ≡ true → is_quiet (gap ++ rest) ≡ true
is_quiet-append [] rest h q = q
is_quiet-append (c ∷ gap) rest h q =
    ground (arith, h, is_quiet-append gap rest (ground (arith, h)) q)

pub match_bare_alias-silent :
    (m : PiiMapping) (aliases : List Bytes) (before : Option ℕ) (c : ℕ) (s : Bytes)
    → All IsName aliases
    → is_silent (c ∷ []) ≡ true
    → is_quiet s ≡ true
    → place m aliases before c s ≡ plain
match_bare_alias-silent m aliases before c s h silent q =
    let none_found : match_bare_alias m (c ∷ s) aliases ≡ none =
      match_bare_alias-none m (c ∷ s) aliases h (ground (arith, silent, q)) in
    ground (arith, silent, none_found)

-- The byte before what follows a text.
pub last_of : Option ℕ → Bytes → Option ℕ
last_of before [] = before
last_of before (c ∷ s) = last_of (some c) s

-- A silent part of a text stays.
pub unmask_from-silent :
    (m : PiiMapping) (aliases : List Bytes) (before : Option ℕ) (gap rest : Bytes)
    → All IsName aliases
    → is_silent gap ≡ true
    → is_quiet rest ≡ true
    → unmask_from m aliases 0 before (gap ++ rest)
      ≡ gap ++ unmask_from m aliases 0 (last_of before gap) rest
unfolding unmask_from last_of
unmask_from-silent m aliases before [] rest h silent q = refl
unmask_from-silent m aliases before (c ∷ gap) rest h silent q =
    let later : is_silent gap ≡ true = ground (arith, silent) in
    let here =
      match_bare_alias-silent m aliases before c (gap ++ rest) h (ground (arith, silent))
        (is_quiet-append gap rest later q) in
    rw (here, unmask_from) (ap (◌∷◌ c) (unmask_from-silent m aliases (some c) gap rest h later q))

unmask_from-skip :
    (m : PiiMapping) (aliases : List Bytes) (before : Option ℕ) (w rest : Bytes)
    → unmask_from m aliases (length w) before (w ++ rest)
      ≡ unmask_from m aliases 0 (last_of before w) rest
unfolding unmask_from last_of
unmask_from-skip m aliases before [] rest = refl
unmask_from-skip m aliases before (c ∷ w) rest = unmask_from-skip m aliases (some c) w rest

cut_bracket-name :
    (x rest : Bytes)
    → no_bracket x ≡ true
    → cut_bracket ((x ++ 93 ∷ []) ++ rest) ≡ some (x ++ 93 ∷ [])
unfolding cut_bracket
cut_bracket-name [] rest h = refl
cut_bracket-name (c ∷ x) rest h = ground (arith, h, cut_bracket-name x rest (ground (arith, h)))

-- A placeholder gives its value.
pub unmask_from-token :
    (m : PiiMapping) (aliases : List Bytes) (before : Option ℕ) (x o rest : Bytes)
    → no_bracket x ≡ true
    → original_of (bracketed x) m ≡ some o
    → unmask_from m aliases 0 before (bracketed x ++ rest)
      ≡ o ++ unmask_from m aliases 0 (last_of (some 91) (x ++ 93 ∷ [])) rest
unfolding unmask_from cut_bracket
unmask_from-token m aliases before x o rest h known =
    let found : cut_bracket (bracketed x ++ rest) ≡ some (bracketed x) =
      ground (arith, cut_bracket-name x rest h) in
    let here : place m aliases before 91 ((x ++ 93 ∷ []) ++ rest) ≡ restored (bracketed x) o =
      ground (arith, found, known) in
    let size : length (bracketed x) - 1 ≡ length (x ++ 93 ∷ []) = omega arith in
    rw (here, unmask_from)
      (ap (λ n. o ++ unmask_from m aliases n (some 91) ((x ++ 93 ∷ []) ++ rest)) size
        ∙ ap (λ s. o ++ s) (unmask_from-skip m aliases (some 91) (x ++ 93 ∷ []) rest))
