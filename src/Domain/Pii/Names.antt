-- ===== src/Domain/Pii/Names.antt =====
-- The names that stand for placeholders in pkg/domain/pii.go: every alias without brackets has a `_`.
use mathlib.Core.List.{reverse, reverse_aux, reverse-append, reverse-reverse}
use dappnode_nexus_gateway.Common.{
  ℕ, suc, ◌≡◌, ◌⊎◌, inl, inr, refl, sym, subst, ap, ◌∙◌, Bool, true, false, not, ◌||◌, List, [],
  ◌∷◌, ◌++◌, Option, none, some, ◌==◌, nat_eq, all, any, any-append, All, arith, if_both,
  Bool-cases,
}
use dappnode_nexus_gateway.Common.Bytes.{
  Bytes, bytes_eq, bytes_beq, find, put, trim, drop_while, digits,
}
use dappnode_nexus_gateway.Domain.Pii.Tokens.{IsDigit, digits_from-IsDigit}
use dappnode_nexus_gateway.Domain.Pii.Values.{register_token_aliases-IsAliased}
use dappnode_nexus_gateway.Domain.Pii.Mask.{starts_bracketed}
use dappnode_nexus_gateway.Domain.Pii.{
  PiiMapping, new_pii_mapping, numbered, bracketed, placeholder_type_alias, is_bracket, next_index,
  next_token, pii_key, assign, issue, token, register_token_alias, register_token_aliases,
}

-- A type that has none of `[`, `]` and `|`.
abbrev pub plain_byte : ℕ → Bool
plain_byte c = not (is_bracket c || c == 124)

abbrev pub is_plain : Bytes → Bool
is_plain t = all plain_byte t

abbrev pub no_bracket : Bytes → Bool
no_bracket s = all (λ c. not (is_bracket c)) s

abbrev pub has_mark : Bytes → Bool
has_mark s = any (λ c. c == 95) s

-- A name without brackets that has a `_`.
pub record IsName (x : Bytes) : Type 0 where
  pub unbracketed : no_bracket x ≡ true
  pub marked : has_mark x ≡ true

all-append :
    (p : ℕ → Bool) (xs ys : Bytes) → all p xs ≡ true → all p ys ≡ true → all p (xs ++ ys) ≡ true
all-append p [] ys h k = k
all-append p (x ∷ xs) ys h k = ground (arith, h, all-append p xs ys (ground (arith, h)) k)

any-right : (p : ℕ → Bool) (xs ys : Bytes) → any p ys ≡ true → any p (xs ++ ys) ≡ true
any-right p xs ys h = any-append p xs ys ∙ ground (arith, h)

no_bracket_of_plain : (t : Bytes) → is_plain t ≡ true → no_bracket t ≡ true
no_bracket_of_plain [] h = refl
no_bracket_of_plain (c ∷ t) h = ground (arith, h, no_bracket_of_plain t (ground (arith, h)))

no_bracket_of_digits : (ds : Bytes) → All IsDigit ds → no_bracket ds ≡ true
no_bracket_of_digits [] h = refl
no_bracket_of_digits (d ∷ ds) (h, hs) = ground (arith, h, no_bracket_of_digits ds hs)

numbered-IsName : (t : Bytes) (n : ℕ) → is_plain t ≡ true → IsName (numbered t n)
unfolding digits
numbered-IsName t n h = record {
  unbracketed =
      all-append (λ c. not (is_bracket c)) t (95 ∷ digits n) (no_bracket_of_plain t h)
        (no_bracket_of_digits (digits n) (digits_from-IsDigit (suc n) n));
  marked = any-right (λ c. c == 95) t (95 ∷ digits n) refl;
}

placeholder_type_alias-is_plain :
    (t : Bytes) → is_plain t ≡ true → is_plain (placeholder_type_alias t) ≡ true
unfolding placeholder_type_alias
placeholder_type_alias-is_plain t h = ground (arith, h)

drop_while_none : (p : ℕ → Bool) (s : Bytes) → all (λ c. not (p c)) s ≡ true → drop_while p s ≡ s
unfolding drop_while
drop_while_none p [] h = refl
drop_while_none p (c ∷ s) h = ground (arith, h)

all-reverse_aux :
    (p : ℕ → Bool) (s t : Bytes) → all p s ≡ true → all p t ≡ true → all p (reverse_aux s t) ≡ true
all-reverse_aux p [] t h k = k
all-reverse_aux p (c ∷ s) t h k =
    all-reverse_aux p s (c ∷ t) (ground (arith, h)) (ground (arith, h, k))

drop_while_bracket :
    (c : ℕ) (x : Bytes) → is_bracket c ≡ false → drop_while is_bracket (c ∷ x) ≡ c ∷ x
unfolding drop_while
drop_while_bracket c x h = rw h refl

pub trim-bracketed : (x : Bytes) → no_bracket x ≡ true → trim is_bracket (bracketed x) ≡ x
unfolding trim drop_while
trim-bracketed [] h = refl
trim-bracketed (c ∷ x) h =
    let p = λ (s : Bytes). reverse (drop_while is_bracket (reverse s)) in
    let back = λ (s : Bytes). reverse (drop_while is_bracket s) in
    ap p (drop_while_bracket c (x ++ 93 ∷ []) (ground (arith, h)))
    ∙ ap back (reverse-append (c ∷ x) (93 ∷ []))
    ∙ ap reverse (
        drop_while_none is_bracket (reverse (c ∷ x))
          (all-reverse_aux (λ d. not (is_bracket d)) (c ∷ x) [] h refl))
    ∙ reverse-reverse (c ∷ x)

-- A key of the aliases: in brackets, or a name.
abbrev pub IsAliasName : Bytes → Type 0
IsAliasName k = (starts_bracketed k ≡ true) ⊎ IsName k

-- A placeholder in brackets, with a name inside.
abbrev pub IsPlaceholder : Bytes → Type 0
IsPlaceholder k = (x : Bytes) × (k ≡ bracketed x) × IsName x

-- The aliases of a mapping.
pub record HasAliases (m : PiiMapping) : Type 0 where
  pub named : All (λ (e : Bytes × Bytes). IsAliasName e.0) m.token_aliases

pub record IsNamed (m : PiiMapping) : Type 0 where
  pub names : All (λ (e : Bytes × Bytes). IsPlaceholder e.0) m.token_to_original
  pub aliases : HasAliases m

All-put :
    (P : Bytes → Type 0) (k v : Bytes) (entries : List (Bytes × Bytes))
    → P k
    → All (λ (e : Bytes × Bytes). P e.0) entries
    → All (λ (e : Bytes × Bytes). P e.0) (put k v entries)
unfolding put
All-put P k v [] p h = (p, tt)
All-put P k v ((j, w) ∷ entries) p (q, h) = elim (Bool-cases (bytes_beq j k)) [
  | inl f ↦ rw f (p, h)
  | inr f ↦ rw f (q, All-put P k v entries p h)
]

register_token_alias_cases :
    (alias canonical : Bytes) (m : PiiMapping)
    → ((register_token_alias alias canonical m).token_aliases ≡ m.token_aliases)
      ⊎ ((register_token_alias alias canonical m).token_aliases
          ≡ put alias canonical m.token_aliases)
unfolding register_token_alias
register_token_alias_cases alias canonical m = ground arith

register_token_alias-HasAliases :
    (alias canonical : Bytes) (m : PiiMapping)
    → IsAliasName alias
    → HasAliases m
    → HasAliases (register_token_alias alias canonical m)
register_token_alias-HasAliases alias canonical m named h =
    elim (register_token_alias_cases alias canonical m) [
      | inl e ↦ record {
        named = subst (All (λ (e : Bytes × Bytes). IsAliasName e.0)) (sym e) h.named;
      }
      | inr e ↦ record {
        named =
            subst (All (λ (e : Bytes × Bytes). IsAliasName e.0)) (sym e)
              (All-put IsAliasName alias canonical m.token_aliases named h.named);
      }
    ]

register_token_aliases-HasAliases :
    (t : Bytes) (index : ℕ) (m : PiiMapping)
    → is_plain t ≡ true
    → HasAliases m
    → HasAliases (register_token_aliases (bracketed (numbered t index)) t index m)
unfolding register_token_aliases starts_bracketed
register_token_aliases-HasAliases t index m plain h =
    let canonical = bracketed (numbered t index) in
    let short = numbered (placeholder_type_alias t) index in
    let name = numbered-IsName t index plain in
    let short_name =
      numbered-IsName (placeholder_type_alias t) index (placeholder_type_alias-is_plain t plain) in
    let bare_name : IsName (trim is_bracket canonical) =
      subst IsName (sym (trim-bracketed (numbered t index) name.unbracketed)) name in
    let bare =
      register_token_alias-HasAliases (trim is_bracket canonical) canonical m (inr bare_name) h in
    let n = register_token_alias (trim is_bracket canonical) canonical m in
    let long = register_token_alias-HasAliases (bracketed short) canonical n (inl refl) bare in
    let k = register_token_alias (bracketed short) canonical n in
    if_both HasAliases _ (register_token_alias-HasAliases short canonical k (inr short_name) long)
      bare

issue-IsNamed :
    (t o : Bytes) (m : PiiMapping) (known : Option Bytes)
    → is_plain t ≡ true
    → IsNamed m
    → IsNamed (issue t o m known).0
unfolding issue
issue-IsNamed t o m (some tok) plain v = v
issue-IsNamed t o m none plain v =
    let index = next_index t m in
    let a = register_token_aliases-IsAliased (next_token t m) t index (assign t o m) in
    record {
      names = subst (All (λ (e : Bytes × Bytes). IsPlaceholder e.0)) (sym a.originals) (
          All-put IsPlaceholder (next_token t m) o m.token_to_original
            (numbered t index, refl, numbered-IsName t index plain) v.names);
      aliases =
          register_token_aliases-HasAliases t index (assign t o m) plain
            (record { named = v.aliases.named });
    }

pub token-IsNamed :
    (t o : Bytes) (m : PiiMapping) → is_plain t ≡ true → IsNamed m → IsNamed (token t o m).0
unfolding token
token-IsNamed t o m = issue-IsNamed t o m (find (pii_key t o) m.original_to_token)

pub new_pii_mapping-IsNamed : IsNamed new_pii_mapping
new_pii_mapping-IsNamed = record { names = tt; aliases = record { named = tt } }
