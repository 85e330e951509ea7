-- ===== src/Service/Pii/Masker.antt =====
-- Masking a request: `maskBody` and `requestPIIMasker` of services/pii.go. What the analyzer finds in
-- a text is an argument; it is asked once for each text, since its answers are kept in `cache`. Counts
-- for the log are left out.
use dappnode_nexus_gateway.Common.{
  Bool, false, ◌||◌, List, [], ◌∷◌, Option, none, some, if◌then◌else◌, ◌!=◌, string_eq, nat_eq,
}
use dappnode_nexus_gateway.Common.Bytes.{Bytes, bytes_eq, find, put}
use dappnode_nexus_gateway.Common.Json.{
  Json, null, boolean, number, text, array, object, Items, no_items, item, Fields, no_fields, field,
}
use dappnode_nexus_gateway.Domain.Error.{Result, ok, err}
use dappnode_nexus_gateway.Domain.Pii.{PiiMapping, new_pii_mapping}
use dappnode_nexus_gateway.Domain.Pii.Mask.{PiiEntity, apply_mask}

pub record Masker : Type 0 where
  pub mapping : PiiMapping
  pub cache : List (Bytes × Bytes)

abbrev pub new_masker : Masker
new_masker = record { mapping = new_pii_mapping; cache = [] }

-- The analyzer, and encoding/json on texts: the value that a text is, with nothing after it, and the
-- text of a value.
pub record Analyzer : Type 0 where
  pub analyze : Bytes → Result (List PiiEntity)
  pub decode_value : Bytes → Option Json
  pub encode_value : Json → Result Bytes

-- A step of the masker gives a value, or ends the request.
abbrev pub Masking : Type 0 → Type 0
Masking A = Result (Masker × A)

abbrev pub and_then : {A B : Type 0} → Masking A → (Masker → A → Masking B) → Masking B
and_then (err e) f = err e
and_then (ok (s, a)) f = f s a

module _ (analyzer : Analyzer) where
  -- A text that is not in the cache.
  unfoldable pub mask_new : Masker → Bytes → Masking Bytes
  mask_new s t = elim (analyzer.analyze t) [
    | err e ↦ err e
    | ok entities ↦
        let (m, masked) = apply_mask t entities s.mapping in
        ok (record { mapping = m; cache = put t masked s.cache }, masked)
  ]

  unfoldable pub mask_text : Masker → Bytes → Masking Bytes
  unfolding mask_new
  mask_text s [] = ok (s, [])
  mask_text s (c ∷ t) = elim (find (c ∷ t) s.cache) [
    | some masked ↦ ok (s, masked)
    | none ↦ mask_new s (c ∷ t)
  ]

  -- `maskAnyWithChanged`: the value with its texts masked, and whether any changed.
  unfoldable mutual
    pub mask_any : Masker → Json → Masking (Json × Bool)
    mask_any s null = ok (s, (null, false))
    mask_any s (boolean b) = ok (s, (boolean b, false))
    mask_any s (number n) = ok (s, (number n, false))
    mask_any s (text t) = and_then (mask_text s t) (λ q masked. ok (q, (text masked, masked != t)))
    mask_any s (array xs) = and_then (mask_items s xs) (λ q r. ok (q, (array r.0, r.1)))
    mask_any s (object fs) = and_then (mask_fields s fs) (λ q r. ok (q, (object r.0, r.1)))

    pub mask_items : Masker → Items → Masking (Items × Bool)
    mask_items s no_items = ok (s, (no_items, false))
    mask_items s (item x xs) =
        and_then (mask_any s x)
          (λ q r. and_then (mask_items q xs) (λ p rest. ok (p, (item r.0 rest.0, r.1 || rest.1))))

    pub mask_fields : Masker → Fields → Masking (Fields × Bool)
    mask_fields s no_fields = ok (s, (no_fields, false))
    mask_fields s (field k v fs) =
        and_then (mask_any s v) (λ q r.
          and_then (mask_fields q fs) (λ p rest. ok (p, (field k r.0 rest.0, r.1 || rest.1))))

  -- A text that is JSON has its texts masked, and stays as sent if none changes.
  unfoldable pub mask_value : Masker → Bytes → Json → Masking Bytes
  unfolding mask_any
  mask_value s raw v = and_then (mask_any s v) (λ q r.
      if r.1
      then elim (analyzer.encode_value r.0) [ err e ↦ err e | ok out ↦ ok (q, out) ]
      else ok (q, raw))

  unfoldable pub mask_json_aware_string : Masker → Bytes → Masking Bytes
  unfolding mask_text mask_value
  mask_json_aware_string s [] = ok (s, [])
  mask_json_aware_string s (c ∷ raw) = elim (analyzer.decode_value (c ∷ raw)) [
    | none ↦ mask_text s (c ∷ raw)
    | some v ↦ mask_value s (c ∷ raw) v
  ]
