-- ===== src/Service/Pii/Request/Restored.antt =====
-- What `maskBody` of services/pii.go makes of a request, and what restoring gives.
use dappnode_nexus_gateway.Common.{
  String, ◌≡◌, sym, ap, ◌∙◌, true, Option, none, some, nat_eq, string_eq, ◌⊎◌, length,
}
use dappnode_nexus_gateway.Common.Bytes.{Bytes, bytes_eq}
use dappnode_nexus_gateway.Common.Json.{
  Json, null, boolean, number, text, array, object, Items, no_items, item, Fields, no_fields, field,
}
use dappnode_nexus_gateway.Domain.Error.{Error, gateway, err_client_canceled, Result, ok, err}
use dappnode_nexus_gateway.Domain.Pii.{PiiMapping}
use dappnode_nexus_gateway.Domain.Pii.Mask.{unmask}
use dappnode_nexus_gateway.Service.Pii.Masker.{Masker, new_masker, Analyzer, Masking}
use dappnode_nexus_gateway.Service.Pii.Request.Shape.{IsShaped, AreShaped, HaveShape}
use dappnode_nexus_gateway.Service.Pii.Request.{mask_fields_of, Filter, filter_failed}
use dappnode_nexus_gateway.Service.Pii.Request.Messages.{compared}

-- Equal texts make equal values.
mutual
  unfolding IsShaped

  pub same_value : (x v : Json) → IsShaped (λ w t. w ≡ t) x v → x ≡ v
  same_value null v e = sym e
  same_value (boolean b) v e = sym e
  same_value (number n) v e = sym e
  same_value (text w) v (t, (e, p)) = ap text p ∙ sym e
  same_value (array ws) v (xs, (e, h)) = ap array (same_items ws xs h) ∙ sym e
  same_value (object gs) v (fs, (e, h)) = ap object (same_fields gs fs h) ∙ sym e

  same_items : (ws xs : Items) → AreShaped (λ w t. w ≡ t) ws xs → ws ≡ xs
  same_items no_items xs e = sym e
  same_items (item w ws) xs (y, (ys, (e, (h, hs)))) =
      ap (λ i. item i ws) (same_value w y h) ∙ ap (item y) (same_items ws ys hs) ∙ sym e

  same_fields : (gs fs : Fields) → HaveShape (λ w t. w ≡ t) gs fs → gs ≡ fs
  same_fields no_fields fs e = sym e
  same_fields (field k w gs) fs (y, (ys, (e, (h, hs)))) =
      ap (λ i. field k i gs) (same_value w y h) ∙ ap (field k y) (same_fields gs ys hs) ∙ sym e

-- A text as sent; or a text that restores to it; or the text of JSON that restores to the JSON sent.
abbrev pub IsShownAs : Analyzer → PiiMapping → Bytes → Bytes → Type 0
IsShownAs analyzer m w t =
    (w ≡ t)
    ⊎ ((unmask w m ≡ t)
        ⊎ ((v : Json) × ((x : Json) × ((analyzer.decode_value t ≡ some v)
                × ((analyzer.encode_value x ≡ ok w) × IsShaped (λ a b. unmask a m ≡ b) x v)))))

-- A text as sent, or the JSON sent, written again.
abbrev pub IsSameText : Analyzer → Bytes → Bytes → Type 0
IsSameText analyzer w t =
    (w ≡ t) ⊎ ((v : Json) × ((analyzer.decode_value t ≡ some v) × (analyzer.encode_value v ≡ ok w)))

-- What the walk over the request's texts comes to, with an analyzer that has seen none of them.
abbrev pub walk : Filter → String → Fields → Masking Fields
walk filter endpoint body = mask_fields_of filter.analyzer endpoint new_masker body

-- What becomes of a request that is to be masked: it is not sent, because the client left or with an
-- error that names the filter; it is sent as it came, because the walk failed and the filter may fail,
-- or the walk was done and gave no placeholder; or it is sent masked.
pub IsMaskedRequest : Filter → String → Bytes → Fields → Result (Bytes × Option PiiMapping) → Type 0
IsMaskedRequest filter endpoint raw body (err e) =
    ((e ≡ gateway err_client_canceled) × (filter.gone ≡ true))
    ⊎ ((e ≡ filter_failed "pii_filter_failed") ⊎ (e ≡ filter_failed "pii_filter_timeout"))
IsMaskedRequest filter endpoint raw body (ok (out, none)) =
    (out ≡ raw)
    × (((filter.fail_open ≡ true) × ((e : Error) × (walk filter endpoint body ≡ err e)))
        ⊎ ((q : Masker) × ((masked : Fields) × ((walk filter endpoint body ≡ ok (q, masked))
                × ((length q.mapping.token_to_original ≡ 0)
                    × HaveShape (IsSameText filter.analyzer) masked (compared endpoint body))))))
IsMaskedRequest filter endpoint raw body (ok (out, some m)) =
    (masked : Fields) × ((filter.encode masked ≡ some out)
      × HaveShape (IsShownAs filter.analyzer m) masked (compared endpoint body))
