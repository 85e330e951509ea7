-- ===== src/Service/Pii/Request/Values.antt =====
-- The steps of the masking of a request that go into its texts, JSON in texts included.
use dappnode_nexus_gateway.Common.{
  Bool, ◌≡◌, refl, [], ◌∷◌, some, if◌then◌else◌, Bool-cases, inl, inr, nat_eq, Option-cases,
}
use dappnode_nexus_gateway.Common.Bytes.{Bytes, bytes_eq}
use dappnode_nexus_gateway.Common.Json.{
  Json, null, boolean, number, text, array, object, Items, no_items, item, Fields, no_fields, field,
}
use dappnode_nexus_gateway.Domain.Error.{ok, err, Result-cases}
use dappnode_nexus_gateway.Domain.Pii.{PiiMapping}
use dappnode_nexus_gateway.Service.Pii.Masker.{
  Masker, Analyzer, Masking, mask_text, mask_any, mask_value, mask_json_aware_string,
}
use dappnode_nexus_gateway.Service.Pii.Request.Shape.{
  IsShaped, IsShaped-map, AllTexts, AllItems, AllFields,
}
use dappnode_nexus_gateway.Service.Pii.Request.Steps.{
  IsBack, IsMasker, Grows-refl, Yields, and_then-Yields, Masks, Works,
}
use dappnode_nexus_gateway.Service.Pii.Request.Texts.{
  IsMaskable, IsMaskableJson, IsRestored, mask_text-Works, value_works,
}
use dappnode_nexus_gateway.Service.Pii.Request.{Step, mask_whole}

module _ (analyzer : Analyzer) where
  abbrev pub Shaped : PiiMapping → Json → Json → Type 0
  Shaped m = IsShaped (IsRestored analyzer m)

  weaker :
      (T : Bytes → Type 0) (R : PiiMapping → Bytes → Bytes → Type 0) (f : Step Bytes)
      → ((m : PiiMapping) (w t : Bytes) → R m w t → IsRestored analyzer m w t)
      → (s : Masker) (t : Bytes) → Yields (Masks R s t) (f s t)
      → Yields (Masks (IsRestored analyzer) s t) (f s t)
  unfolding Yields
  weaker T R f up s t h = by_result (f s t) h
    where
      by_result :
          (r : Masking Bytes) → Yields (Masks R s t) r → Yields (Masks (IsRestored analyzer) s t) r
      by_result (err e) h = tt
      by_result (ok (q, w)) h = record {
        sound = h.sound;
        grows = h.grows;
        related = up q.mapping w t h.related;
      }

  pub text-Works : Works (IsMaskableJson analyzer) (IsRestored analyzer) (mask_text analyzer)
  text-Works s t sound (h, inner) =
      weaker (IsMaskable analyzer) IsBack (mask_text analyzer) (λ m w u b. inr (inl b)) s t
        (mask_text-Works analyzer s t sound h)

  value_kept :
      (s : Masker) (raw : Bytes) (v : Json)
      → IsMasker s
      → analyzer.decode_value raw ≡ some v
      → AllTexts (IsMaskable analyzer) v
      → Yields (Masks (IsRestored analyzer) s raw) (mask_value analyzer s raw v)
  unfolding Yields mask_value
  value_kept s raw v sound decoded h =
      and_then-Yields (λ q (r : Json × Bool). Masks (λ m. IsShaped (IsBack m)) s v q r.0)
        (Masks (IsRestored analyzer) s raw) (mask_any analyzer s v)
        (λ q r.
          if r.1
          then elim (analyzer.encode_value r.0) [ err e ↦ err e | ok out ↦ ok (q, out) ]
          else ok (q, raw))
        (value_works analyzer v s sound h)
        (λ q r good. elim (Bool-cases r.1) [
          | inl changed ↦ elim (Result-cases (analyzer.encode_value r.0)) [
            | inl (e, f) ↦ rw (changed, f, Yields) tt
            | inr (out, f) ↦
                rw (changed, f, Yields)
                  (record {
                    sound = good.sound;
                    grows = good.grows;
                    related = inr (inr (v, (r.0, (decoded, (f, good.related)))));
                  })
          ]
          | inr same ↦
              rw (same, Yields)
                (record { sound = good.sound; grows = good.grows; related = inl refl })
        ])

  pub json_text-Works :
      Works (IsMaskableJson analyzer) (IsRestored analyzer) (mask_json_aware_string analyzer)
  unfolding Yields mask_json_aware_string
  json_text-Works s [] sound h = record {
    sound = sound;
    grows = Grows-refl s.mapping;
    related = inl refl;
  }
  json_text-Works s (c ∷ t) sound (h, inner) = elim (Option-cases (analyzer.decode_value (c ∷ t))) [
    | inl f ↦ rw (f, mask_json_aware_string) (text-Works s (c ∷ t) sound (h, inner))
    | inr (v, f) ↦ rw (f, mask_json_aware_string) (value_kept s (c ∷ t) v sound f (inner v f))
  ]

  mutual
    unfolding AllTexts

    plainly : (v : Json) → AllTexts (IsMaskableJson analyzer) v → AllTexts (IsMaskable analyzer) v
    plainly null h = h
    plainly (boolean b) h = h
    plainly (number n) h = h
    plainly (text t) (h, inner) = h
    plainly (array xs) h = plainly_items xs h
    plainly (object fs) h = plainly_fields fs h

    plainly_items :
        (xs : Items) → AllItems (IsMaskableJson analyzer) xs → AllItems (IsMaskable analyzer) xs
    plainly_items no_items h = h
    plainly_items (item x xs) (p, h) = (plainly x p, plainly_items xs h)

    plainly_fields :
        (fs : Fields) → AllFields (IsMaskableJson analyzer) fs → AllFields (IsMaskable analyzer) fs
    plainly_fields no_fields h = h
    plainly_fields (field k v fs) (p, h) = (plainly v p, plainly_fields fs h)

  pub whole-Works : Works (AllTexts (IsMaskableJson analyzer)) Shaped (mask_whole analyzer)
  unfolding Yields
  whole-Works s v sound h =
      and_then-Yields (λ q (r : Json × Bool). Masks (λ m. IsShaped (IsBack m)) s v q r.0)
        (Masks Shaped s v) (mask_any analyzer s v) (λ q r. ok (q, r.0))
        (value_works analyzer v s sound (plainly v h))
        (λ q r good. record {
          sound = good.sound;
          grows = good.grows;
          related =
              IsShaped-map (IsBack q.mapping) (IsRestored analyzer q.mapping)
                (λ a b back. inr (inl back)) r.0 v good.related;
        })
