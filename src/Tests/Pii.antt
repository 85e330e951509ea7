-- ===== src/Tests/Pii.antt =====
-- Personal data at a sample text.
use dappnode_nexus_gateway.Common.{
  List, ◌≡◌, refl, [], ◌∷◌, some, codes, arith, fold_case, same_folded,
}
use dappnode_nexus_gateway.Common.Bytes.{
  byte_less, Bytes, find, put, digits, digits_from, trim, drop_while, trim_space_bytes, drop_space,
  space_before, space_behind, space_back, space_at, drop_first,
}
use dappnode_nexus_gateway.Domain.Pii.{
  PiiMapping, new_pii_mapping, token, issue, original_of, register_token_alias,
  register_token_aliases, placeholder_type_alias, normalize_placeholder_token, normal_from,
}
use dappnode_nexus_gateway.Domain.Pii.Texts.{gaps}
use dappnode_nexus_gateway.Domain.Pii.Restoring.{unmask-apply_mask}
use dappnode_nexus_gateway.Domain.Pii.Roundtrip.{token_all, original_of-token}
use dappnode_nexus_gateway.Domain.Pii.Mask.{
  PiiEntity, apply_mask, unmask, unmask_from, keep_spans, replace_spans, sort_stable, insert,
  bare_aliases_by_length, match_bare_alias, cut_bracket, starts_bracketed,
}

abbrev email : Bytes
email = codes "EMAIL_ADDRESS"

abbrev ann : Bytes
ann = codes "ann@dappnode.io"

abbrev host : Bytes
host = codes "10.0.0.2"

original_of-token_example :
    (original_of (token (codes "IP") host (token_all [] new_pii_mapping)).1 (
        token_all
          (((codes "IP"), codes "10.0.0.1") ∷ [])
          (token (codes "IP") host (token_all [] new_pii_mapping)).0)
      ≡ some host)
    × ((token (codes "IP") host (
          token_all
            (((codes "IP"), codes "10.0.0.1") ∷ [])
            (token (codes "IP") host (token_all [] new_pii_mapping)).0)).1
        ≡ (token (codes "IP") host (token_all [] new_pii_mapping)).1)
original_of-token_example =
    original_of-token [] (((codes "IP"), codes "10.0.0.1") ∷ []) (codes "IP") host tt
      (λ e. absurd (omega (arith, e)), (λ e. absurd (omega (arith, e)), tt))
      ((λ e. absurd (omega (arith, e)), (λ e. absurd (omega (arith, e)), tt)), tt)

masked : PiiMapping × Bytes
masked =
    apply_mask (codes "mail ann@dappnode.io now")
      (record { type = email; start = 5; end = 20 } ∷ []) new_pii_mapping

-- The name of an address is masked.
masked_computed : masked.1 ≡ codes "mail [EMAIL_ADDRESS_1] now"
unfolding masked apply_mask keep_spans replace_spans sort_stable insert token issue find put digits
    digits_from
masked_computed = refl

-- A model's rewrites of a placeholder are restored too.
restored_computed :
    unmask (codes "mail email_1, [email address 1]!") masked.0
    ≡ codes "mail ann@dappnode.io, ann@dappnode.io!"
unfolding masked apply_mask keep_spans replace_spans sort_stable insert token issue find put digits
    digits_from unmask unmask_from bare_aliases_by_length match_bare_alias cut_bracket byte_less
    starts_bracketed original_of register_token_alias register_token_aliases placeholder_type_alias
    normalize_placeholder_token normal_from trim drop_while trim_space_bytes drop_space space_before
    space_behind space_back space_at drop_first fold_case same_folded
restored_computed = refl

abbrev mail : Bytes
mail = codes "mail ann@dappnode.io now"

abbrev found : List PiiEntity
found = record { type = email; start = 5; end = 20 } ∷ []

unmask-apply_mask_example :
    unmask (apply_mask mail found (token_all [] new_pii_mapping)).1 (
      token_all
        ((email, codes "bob@x.io") ∷ [])
        (apply_mask mail found (token_all [] new_pii_mapping)).0)
    ≡ mail
unfolding gaps keep_spans sort_stable insert
unmask-apply_mask_example =
    unmask-apply_mask [] ((email, codes "bob@x.io") ∷ []) mail found tt (refl, tt) (refl, tt) refl
