-- ===== src/Domain/Pii/Values.antt =====
-- A placeholder of pkg/domain/pii.go's `PIIMapping` keeps its value.
use dappnode_nexus_gateway.Common.{
  ℕ, suc, ◌≤◌, ◌<◌, ◌≡◌, ◌≢◌, inl, inr, sym, subst, ap, ◌∙◌, List, ◌∷◌, ◌++◌, Option, none, some,
  nat_eq, All, arith, if_both, Bool-cases,
}
use dappnode_nexus_gateway.Common.Bytes.{
  Bytes, bytes_eq, bytes_beq, bytes_beq, bytes_beq_iff, find, put, trim,
}
use dappnode_nexus_gateway.Domain.Pii.Tokens.{
  split_first, bracketed-injective, find-put, find-put_other, differ,
}
use dappnode_nexus_gateway.Domain.Pii.{
  PiiMapping, new_pii_mapping, numbered, bracketed, placeholder_type_alias, is_bracket, next_index,
  next_token, pii_key, assign, issue, token, register_token_alias, register_token_aliases,
}

-- The clean types: no `|`, which joins a type and a value in a key.
abbrev pub IsClean : Bytes → Type 0
IsClean t = All (λ (c : ℕ). c ≢ 124) t

-- What aliases are registered changes nothing else.
pub record IsAliased (m n : PiiMapping) : Type 0 where
  pub originals : n.token_to_original ≡ m.token_to_original
  pub tokens : n.original_to_token ≡ m.original_to_token
  counts : n.counters ≡ m.counters

register_token_alias-IsAliased :
    (alias canonical : Bytes) (m : PiiMapping)
    → IsAliased m (register_token_alias alias canonical m)
unfolding register_token_alias
register_token_alias-IsAliased alias canonical m = ground arith

IsAliased-trans : (m n k : PiiMapping) → IsAliased m n → IsAliased n k → IsAliased m k
IsAliased-trans m n k a b = record {
  originals = b.originals ∙ a.originals;
  tokens = b.tokens ∙ a.tokens;
  counts = b.counts ∙ a.counts;
}

pub register_token_aliases-IsAliased :
    (canonical t : Bytes) (index : ℕ) (m : PiiMapping)
    → IsAliased m (register_token_aliases canonical t index m)
unfolding register_token_aliases
register_token_aliases-IsAliased canonical t index m =
    let bare = register_token_alias (trim is_bracket canonical) canonical m in
    let long =
      register_token_alias (bracketed (numbered (placeholder_type_alias t) index)) canonical bare in
    let a = register_token_alias-IsAliased (trim is_bracket canonical) canonical m in
    let b =
      register_token_alias-IsAliased (bracketed (numbered (placeholder_type_alias t) index))
        canonical bare in
    let c =
      register_token_alias-IsAliased (numbered (placeholder_type_alias t) index) canonical long in
    if_both (IsAliased m) _ (IsAliased-trans m bare _ a (IsAliased-trans bare long _ b c)) a

-- The number of the next placeholder of a type.
abbrev after : Option ℕ → ℕ
after none = 1
after (some n) = suc n

abbrev next_in : Bytes → List (Bytes × ℕ) → ℕ
next_in t counts = after (find t counts)

-- What the maps hold of the placeholders given so far.
pub record IsSound (originals tokens : List (Bytes × Bytes)) (counts : List (Bytes × ℕ))
    : Type 0 where
  pub assigned :
      (t o tok : Bytes)
      → IsClean t
      → find (t ++ 124 ∷ o) tokens ≡ some tok
      → find tok originals ≡ some o
  numbered_below :
      (tok o : Bytes)
      → find tok originals ≡ some o
      → (t : Bytes) × (n : ℕ) × (tok ≡ bracketed (numbered t n)) × (n < next_in t counts)

abbrev pub IsSoundMapping : PiiMapping → Type 0
IsSoundMapping m = IsSound m.token_to_original m.original_to_token m.counters

pub new_pii_mapping-IsSound : IsSoundMapping new_pii_mapping
unfolding find
new_pii_mapping-IsSound = record {
  assigned = λ t o tok clean h. absurd (ground (arith, h));
  numbered_below = λ tok o h. absurd (ground (arith, h));
}

aliased-IsSound : (m n : PiiMapping) → IsAliased m n → IsSoundMapping m → IsSoundMapping n
aliased-IsSound m n a v =
    subst (λ os. IsSound os n.original_to_token n.counters) (sym a.originals)
      (subst (λ ts. IsSound m.token_to_original ts n.counters) (sym a.tokens)
        (subst (λ cs. IsSound m.token_to_original m.original_to_token cs) (sym a.counts) v))

next_in-put_same :
    (t : Bytes) (n : ℕ) (counts : List (Bytes × ℕ)) → next_in t (put t n counts) ≡ suc n
next_in-put_same t n counts = ap after (find-put t n counts)

next_in-put :
    (t u : Bytes) (counts : List (Bytes × ℕ))
    → next_in u counts ≤ next_in u (put t (next_in t counts) counts)
next_in-put t u counts = elim (Bool-cases (bytes_beq t u)) [
  | inl f ↦
      subst (λ x. next_in x counts ≤ next_in x (put t (next_in t counts) counts))
        ((bytes_beq_iff t u).0 f) (omega (arith, next_in-put_same t (next_in t counts) counts))
  | inr f ↦
      let same : next_in u (put t (next_in t counts) counts) ≡ next_in u counts =
        ap after (find-put_other t u (next_in t counts) counts (differ t u f)) in
      omega (arith, same)
]

-- The token of the next number is new.
fresh :
    (originals tokens : List (Bytes × Bytes)) (counts : List (Bytes × ℕ))
    → IsSound originals tokens counts
    → (t tok o : Bytes) → find tok originals ≡ some o
    → bracketed (numbered t (next_in t counts)) ≢ tok
fresh originals tokens counts v t tok o h e =
    let (u, n, shape, below) = v.numbered_below tok o h in
    let same = bracketed-injective t u (next_in t counts) n (e ∙ shape) in
    let index : next_in t counts ≡ next_in u counts = ap (λ x. next_in x counts) same.0 in
    absurd (omega (arith, below, same.1, index))

assign-IsSound :
    (originals tokens : List (Bytes × Bytes)) (counts : List (Bytes × ℕ)) (t o : Bytes)
    → IsClean t
    → IsSound originals tokens counts
    → IsSound
        (put (bracketed (numbered t (next_in t counts))) o originals)
        (put (t ++ 124 ∷ o) (bracketed (numbered t (next_in t counts))) tokens)
        (put t (next_in t counts) counts)
assign-IsSound originals tokens counts t o clean v = record {
  assigned = λ u p tok c h. elim (Bool-cases (bytes_beq (t ++ 124 ∷ o) (u ++ 124 ∷ p))) [
    | inl f ↦
        let parts =
          split_first 124 t u o p clean c ((bytes_beq_iff (t ++ 124 ∷ o) (u ++ 124 ∷ p)).0 f) in
        let keys = (bytes_beq_iff (t ++ 124 ∷ o) (u ++ 124 ∷ p)).0 f in
        let found : some new ≡ some tok =
          sym (find-put (t ++ 124 ∷ o) new tokens)
          ∙ ap (λ k. find k (put (t ++ 124 ∷ o) new tokens)) keys
          ∙ h in
        let given : new ≡ tok = cc in
        subst (λ x. find x (put new o originals) ≡ some p) given
          (find-put new o originals ∙ ap some parts.1)
    | inr f ↦
        let old : find (u ++ 124 ∷ p) tokens ≡ some tok =
          sym (find-put_other (t ++ 124 ∷ o) (u ++ 124 ∷ p) new tokens (differ _ _ f)) ∙ h in
        let kept = v.assigned u p tok c old in
        find-put_other new tok o originals (fresh originals tokens counts v t tok p kept) ∙ kept
  ];
  numbered_below = λ tok p h. elim (Bool-cases (bytes_beq new tok)) [
    | inl f ↦ (
      t,
      next_in t counts,
      sym ((bytes_beq_iff new tok).0 f),
      omega (arith, next_in-put_same t (next_in t counts) counts),
    )
    | inr f ↦
        let (u, n, shape, below) =
          v.numbered_below tok p
            (sym (find-put_other new tok o originals (differ new tok f)) ∙ h) in
        (u, n, shape, omega (arith, below, next_in-put t u counts))
  ];
}
  where
    new : Bytes
    new = bracketed (numbered t (next_in t counts))

issue-IsSound :
    (t o : Bytes) (m : PiiMapping) (known : Option Bytes)
    → IsClean t
    → IsSoundMapping m
    → IsSoundMapping (issue t o m known).0
unfolding issue
issue-IsSound t o m (some tok) clean v = v
issue-IsSound t o m none clean v =
    aliased-IsSound (assign t o m) (issue t o m none).0
      (register_token_aliases-IsAliased (next_token t m) t (next_index t m) (assign t o m))
      (assign-IsSound m.token_to_original m.original_to_token m.counters t o clean v)

pub token-IsSound :
    (t o : Bytes) (m : PiiMapping) → IsClean t → IsSoundMapping m → IsSoundMapping (token t o m).0
unfolding token
token-IsSound t o m = issue-IsSound t o m (find (pii_key t o) m.original_to_token)
