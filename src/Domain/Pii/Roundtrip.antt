-- ===== src/Domain/Pii/Roundtrip.antt =====
-- Masking and restoring one value: `Token` and `Original` of pkg/domain/pii.go.
use dappnode_nexus_gateway.Common.{
  ◌≡◌, ◌≢◌, refl, sym, ap, ◌∙◌, List, [], ◌∷◌, Option, none, some, nat_eq, All,
}
use dappnode_nexus_gateway.Common.Bytes.{Bytes, bytes_eq, find}
use dappnode_nexus_gateway.Domain.Pii.Tokens.{find-put, find-put_other}
use dappnode_nexus_gateway.Domain.Pii.{
  PiiMapping, new_pii_mapping, next_index, next_token, pii_key, assign, issue, token, original_of,
}
use dappnode_nexus_gateway.Domain.Pii.Values.{
  IsClean, IsSoundMapping, token-IsSound, new_pii_mapping-IsSound, register_token_aliases-IsAliased,
}

-- A mapping after values of some types got placeholders.
unfoldable pub token_all : List (Bytes × Bytes) → PiiMapping → PiiMapping
token_all [] m = m
token_all ((t, o) ∷ values) m = token_all values (token t o m).0

pub token_all-IsSound :
    (values : List (Bytes × Bytes)) (m : PiiMapping)
    → All (λ (value : Bytes × Bytes). IsClean value.0) values
    → IsSoundMapping m
    → IsSoundMapping (token_all values m)
unfolding token_all
token_all-IsSound [] m clean v = v
token_all-IsSound ((t, o) ∷ values) m (c, clean) v =
    token_all-IsSound values (token t o m).0 clean (token-IsSound t o m c v)

-- A value that has a placeholder keeps it.
issue-keeps :
    (t o key tok : Bytes) (m : PiiMapping) (known : Option Bytes)
    → find (pii_key t o) m.original_to_token ≡ known
    → find key m.original_to_token ≡ some tok
    → find key (issue t o m known).0.original_to_token ≡ some tok
unfolding issue
issue-keeps t o key tok m (some old) e h = h
issue-keeps t o key tok m none e h =
    let a = register_token_aliases-IsAliased (next_token t m) t (next_index t m) (assign t o m) in
    let new : pii_key t o ≢ key = λ same.
      let clash : some tok ≡ none = sym h ∙ ap (λ k. find k m.original_to_token) (sym same) ∙ e in
      cc in
    ap (find key) a.tokens
    ∙ find-put_other (pii_key t o) key (next_token t m) m.original_to_token new
    ∙ h

token_all-keeps :
    (values : List (Bytes × Bytes)) (key tok : Bytes) (m : PiiMapping)
    → find key m.original_to_token ≡ some tok
    → find key (token_all values m).original_to_token ≡ some tok
unfolding token_all token
token_all-keeps [] key tok m h = h
token_all-keeps ((t, o) ∷ values) key tok m h =
    token_all-keeps values key tok (token t o m).0
      (issue-keeps t o key tok m (find (pii_key t o) m.original_to_token) refl h)

issue-stores :
    (t o : Bytes) (m : PiiMapping) (known : Option Bytes)
    → find (pii_key t o) m.original_to_token ≡ known
    → find (pii_key t o) (issue t o m known).0.original_to_token ≡ some (issue t o m known).1
unfolding issue
issue-stores t o m (some old) e = e
issue-stores t o m none e =
    let a = register_token_aliases-IsAliased (next_token t m) t (next_index t m) (assign t o m) in
    ap (find (pii_key t o)) a.tokens ∙ find-put (pii_key t o) (next_token t m) m.original_to_token

pub original_of-found :
    (tok o : Bytes) (m : PiiMapping)
    → find tok m.token_to_original ≡ some o
    → original_of tok m ≡ some o
unfolding original_of
original_of-found tok o m h = rw (h, original_of) refl

issue-known :
    (t o tok : Bytes) (m : PiiMapping)
    → find (pii_key t o) m.original_to_token ≡ some tok
    → (token t o m).1 ≡ tok
unfolding token issue
issue-known t o tok m h = rw h refl

-- A sound mapping, and the placeholder that a value gets in it.
module _ (m : PiiMapping) (values : List (Bytes × Bytes)) (t o : Bytes) (sound : IsSoundMapping m)
    (clean : IsClean t) (all_clean : All (λ (value : Bytes × Bytes). IsClean value.0) values) where
  kept_key :
      find (pii_key t o) (token_all values (token t o m).0).original_to_token ≡ some (token t o m).1
  unfolding token
  kept_key =
      token_all-keeps values (pii_key t o) (token t o m).1 (token t o m).0
        (issue-stores t o m (find (pii_key t o) m.original_to_token) refl)

  -- After other values, the placeholder still stands for the value.
  pub find-token :
      find (token t o m).1 (token_all values (token t o m).0).token_to_original ≡ some o
  find-token =
      (token_all-IsSound values (token t o m).0 all_clean
          (token-IsSound t o m clean sound)).assigned
        t o (token t o m).1 clean kept_key

-- Whatever other values get placeholders before and after: the placeholder that a value of a type got
-- still stands for that value, and the value gets the same placeholder again; if no type has a `|`.
pub original_of-token :
    (past later : List (Bytes × Bytes)) (t o : Bytes)
    → All (λ (value : Bytes × Bytes). IsClean value.0) past
    → IsClean t
    → All (λ (value : Bytes × Bytes). IsClean value.0) later
    → (original_of
          (token t o (token_all past new_pii_mapping)).1
          (token_all later (token t o (token_all past new_pii_mapping)).0)
        ≡ some o)
      × ((token t o (token_all later (token t o (token_all past new_pii_mapping)).0)).1
          ≡ (token t o (token_all past new_pii_mapping)).1)
original_of-token past later t o before clean after =
    let m = token_all past new_pii_mapping in
    let sound = token_all-IsSound past new_pii_mapping before new_pii_mapping-IsSound in
    let last = token_all later (token t o m).0 in
    (
      original_of-found (token t o m).1 o last (find-token m later t o sound clean after),
      issue-known t o (token t o m).1 last (kept_key m later t o sound clean after),
    )
