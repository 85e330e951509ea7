-- ===== src/Domain/Pii.antt =====
-- The mapping of personal data to placeholders: `PIIMapping` of pkg/domain/pii.go. A Go string is
-- the list of its bytes here, and a map a list of its entries; letters are ASCII ones in the types of
-- entities, as in the detector's.
pub mod Tokens
pub mod Values
pub mod Roundtrip
pub mod Mask
pub mod Names
pub mod Places
pub mod Texts
pub mod Restoring
use mathlib.Core.List.{reverse}
use dappnode_nexus_gateway.Common.{
  ℕ, zero, suc, ◌+◌, ◌-◌, ◌/◌, ◌%◌, ◌≡◌, ◌↔◌, refl, Bool, true, false, not, ◌&&◌, ◌||◌, String,
  List, [], ◌∷◌, ◌++◌, Option, none, some, if◌then◌else◌, ◌==◌, ◌!=◌, nat_eq, Eq, nat_beq,
  nat_beq_iff, leb, ltb, codes, is_some, length, arith, ap,
}
use dappnode_nexus_gateway.Common.Bytes.{
  Bytes, bytes_eq, find, put, digits, trim, trim_space_bytes, drop_first,
}

-- The loop of `normalizePlaceholderToken`: what is written of the bytes left, where something is
-- written already, and where the last of it is a separator.
unfoldable pub normal_from : Bool → Bool → Bytes → Option Bytes
normal_from written separated [] = some []
normal_from written separated (c ∷ s) =
    let rest = normal_from true false s in
    let after = normal_from true true s in
    let same = normal_from written separated s in
    if leb b'a' c && leb c b'z'
    then elim rest [ none ↦ none | some t ↦ some ((c - 32) ∷ t) ]
    else if (leb b'A' c && leb c b'Z') || (leb b'0' c && leb c b'9')
    then elim rest [ none ↦ none | some t ↦ some (c ∷ t) ]
    else if c == b'_' || c == b'-' || c == b' '
    then (if written && not separated
        then elim after [ none ↦ none | some t ↦ some (b'_' ∷ t) ]
        else same)
    else none

unfoldable pub normalize_placeholder_token : Bytes → Bytes
normalize_placeholder_token token =
    let inner =
      trim_space_bytes
        (reverse (drop_first b']' (reverse (drop_first b'[' (trim_space_bytes token))))) in
    elim (normal_from false false inner) [ none ↦ [] | some out ↦ trim (λ c. c == b'_') out ]

pub record PiiMapping : Type 0 where
  pub token_to_original : List (Bytes × Bytes)
  pub token_aliases : List (Bytes × Bytes)
  pub normalized_token_aliases : List (Bytes × Bytes)
  pub original_to_token : List (Bytes × Bytes)
  pub counters : List (Bytes × ℕ)

abbrev pub new_pii_mapping : PiiMapping
new_pii_mapping = record {
  token_to_original = [];
  token_aliases = [];
  normalized_token_aliases = [];
  original_to_token = [];
  counters = [];
}

-- A name, a separator and a number.
abbrev pub numbered : Bytes → ℕ → Bytes
numbered name index = name ++ b'_' ∷ digits index

abbrev pub bracketed : Bytes → Bytes
bracketed name = b'[' ∷ (name ++ b']' ∷ [])

unfoldable pub placeholder_type_alias : Bytes → Bytes
placeholder_type_alias t =
    if t == codes "EMAIL_ADDRESS"
    then codes "EMAIL"
    else if t == codes "PHONE_NUMBER"
    then codes "PHONE"
    else if t == codes "CREDIT_CARD"
    then codes "CARD"
    else if t == codes "IBAN_CODE"
    then codes "IBAN"
    else if t == codes "IP_ADDRESS"
    then codes "IP"
    else if t == codes "US_SSN"
    then codes "SSN"
    else if t == codes "US_DRIVER_LICENSE"
    then codes "DRIVER_LICENSE"
    else t

-- Whether a name already stands for another token.
abbrev taken : Bytes → Option Bytes → Bool
taken canonical none = false
taken canonical (some existing) = existing != canonical

unfoldable pub register_token_alias : Bytes → Bytes → PiiMapping → PiiMapping
register_token_alias alias canonical m =
    let normalized = normalize_placeholder_token alias in
    let aliased = record m { token_aliases = put alias canonical m.token_aliases } in
    if alias == [] || alias == canonical
    then m
    else if taken canonical (find alias m.token_aliases)
    then m
    else if normalized == []
    then aliased
    else if taken canonical (find normalized m.normalized_token_aliases)
    then aliased
    else record aliased {
      normalized_token_aliases = put normalized canonical m.normalized_token_aliases;
    }

abbrev pub is_bracket : ℕ → Bool
is_bracket c = c == b'[' || c == b']'

unfoldable pub register_token_aliases : Bytes → Bytes → ℕ → PiiMapping → PiiMapping
register_token_aliases canonical entity_type index m =
    let short = placeholder_type_alias entity_type in
    let bare = register_token_alias (trim is_bracket canonical) canonical m in
    if short != [] && short != entity_type
    then register_token_alias (numbered short index) canonical
        (register_token_alias (bracketed (numbered short index)) canonical bare)
    else bare

abbrev pub next_index : Bytes → PiiMapping → ℕ
next_index entity_type m = elim (find entity_type m.counters) [ none ↦ 1 | some n ↦ suc n ]

-- The key of a type and a value.
abbrev pub pii_key : Bytes → Bytes → Bytes
pii_key entity_type original = entity_type ++ b'|' ∷ original

abbrev pub next_token : Bytes → PiiMapping → Bytes
next_token entity_type m = bracketed (numbered entity_type (next_index entity_type m))

-- The mapping with a new placeholder, before its aliases.
abbrev pub assign : Bytes → Bytes → PiiMapping → PiiMapping
assign entity_type original m = record m {
  counters = put entity_type (next_index entity_type m) m.counters;
  original_to_token =
      put (pii_key entity_type original) (next_token entity_type m) m.original_to_token;
  token_to_original = put (next_token entity_type m) original m.token_to_original;
}

-- The placeholder that a value has already, or a new one.
unfoldable pub issue : Bytes → Bytes → PiiMapping → Option Bytes → PiiMapping × Bytes
issue entity_type original m (some tok) = (m, tok)
issue entity_type original m none = (
  register_token_aliases (next_token entity_type m) entity_type (next_index entity_type m)
      (assign entity_type original m),
  next_token entity_type m,
)

-- `Token` of a mapping that is not nil: the mapping after it, and what it gives.
unfoldable pub token : Bytes → Bytes → PiiMapping → PiiMapping × Bytes
unfolding issue
token entity_type original m =
    issue entity_type original m (find (pii_key entity_type original) m.original_to_token)

-- `Original`.
unfoldable pub original_of : Bytes → PiiMapping → Option Bytes
original_of token m = elim (find token m.token_to_original) [
  | some v ↦ some v
  | none ↦ elim (find token m.token_aliases) [
    | some canonical ↦ find canonical m.token_to_original
    | none ↦ elim (find (normalize_placeholder_token token) m.normalized_token_aliases) [
      | some canonical ↦ find canonical m.token_to_original
      | none ↦ none
    ]
  ]
]
