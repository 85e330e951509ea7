-- ===== src/Service/Pii/Request/Texts.antt =====
-- Masking one text of a request, and one value: `maskText`, `maskAnyWithChanged` and
-- `maskJSONAwareString` of services/pii.go.
use dappnode_nexus_gateway.Common.{
  Bool, ◌≡◌, refl, sym, ap, ◌∙◌, subst, true, List, [], ◌∷◌, ◌++◌, some, ◌==◌, Bool-cases, inl, inr,
  nat_eq, ◌||◌, ◌!=◌, ◌⊎◌, length, arith, All, All-append, Option-cases,
}
use dappnode_nexus_gateway.Common.Bytes.{Bytes, bytes_eq, bytes_beq, bytes_beq_iff, find, put}
use dappnode_nexus_gateway.Common.Json.{
  Json, null, boolean, number, text, array, object, Items, no_items, item, Fields, no_fields, field,
}
use dappnode_nexus_gateway.Domain.Error.{ok, Result-cases}
use dappnode_nexus_gateway.Domain.Pii.{PiiMapping, new_pii_mapping}
use dappnode_nexus_gateway.Domain.Pii.Mask.{
  PiiEntity, apply_mask, unmask, unmask_from, keep_spans, sort_stable, earlier,
}
use dappnode_nexus_gateway.Domain.Pii.Names.{is_plain}
use dappnode_nexus_gateway.Domain.Pii.Places.{is_silent, All-sort_stable}
use dappnode_nexus_gateway.Domain.Pii.Restoring.{unmask-apply_mask}
use dappnode_nexus_gateway.Domain.Pii.Roundtrip.{token_all}
use dappnode_nexus_gateway.Domain.Pii.Texts.{
  token_all-append, gaps, masked_spans, masked_values, replace_spans-token_all, masked_values-plain,
  All-keep_spans,
}
use dappnode_nexus_gateway.Domain.Pii.Tokens.{find-put, find-put_other, differ}
use dappnode_nexus_gateway.Service.Pii.Masker.{
  Masker, Analyzer, Masking, and_then, mask_new, mask_text, mask_any, mask_items, mask_fields,
}
use dappnode_nexus_gateway.Service.Pii.Request.Shape.{
  IsShaped, AreShaped, HaveShape, IsShaped-map, AllTexts, AllItems, AllFields,
}
use dappnode_nexus_gateway.Service.Pii.Request.Steps.{
  IsBack, IsBack-Grows, IsMasker, Grows, Grows-refl, Grows-trans, Yields, and_then-Yields, Masks,
  Works,
}

module _ (analyzer : Analyzer) where
  -- What the analyzer finds in a text: types without brackets and bars, and nothing like a placeholder
  -- outside of it.
  abbrev pub IsMaskable : Bytes → Type 0
  IsMaskable t =
      (entities : List PiiEntity)
      → analyzer.analyze t ≡ ok entities
      → All (λ (e : PiiEntity). is_plain e.type ≡ true) entities
        × (is_silent (gaps t 0 (masked_spans t entities)) ≡ true)

  -- The same of a text, and of the texts of the JSON in it.
  abbrev pub IsMaskableJson : Bytes → Type 0
  IsMaskableJson t =
      IsMaskable t × ((v : Json) → analyzer.decode_value t ≡ some v → AllTexts IsMaskable v)

  -- A text as it was sent, a text that restores to it, or the text of JSON that restores to the JSON
  -- sent.
  abbrev pub IsRestored : PiiMapping → Bytes → Bytes → Type 0
  IsRestored m w t =
      (w ≡ t)
      ⊎ (IsBack m w t
          ⊎ ((v : Json) × ((x : Json) × ((analyzer.decode_value t ≡ some v)
                  × ((analyzer.encode_value x ≡ ok w) × IsShaped (IsBack m) x v)))))

  pub IsRestored-grows :
      (m n : PiiMapping) (w t : Bytes) → Grows m n → IsRestored m w t → IsRestored n w t
  IsRestored-grows m n w t g (inl e) = inl e
  IsRestored-grows m n w t g (inr (inl back)) = inr (inl (IsBack-Grows m n w t g back))
  IsRestored-grows m n w t g (inr (inr (v, (x, (d, (e, h)))))) = inr (
      inr (
        v,
        (x, (d, (e, IsShaped-map (IsBack m) (IsBack n) (λ a b. IsBack-Grows m n a b g) x v h))),
      ))

  masked-Grows :
      (m : PiiMapping) (t : Bytes) (entities : List PiiEntity)
      → All (λ (e : PiiEntity). is_plain e.type ≡ true) entities
      → Grows m (apply_mask t entities m).0
  unfolding apply_mask keep_spans sort_stable
  masked-Grows m t entities h =
      let kept = masked_spans t entities in
      record {
        later = masked_values t kept;
        plain = masked_values-plain t kept (
            All-keep_spans (λ (e : PiiEntity). is_plain e.type ≡ true) (length t) 0
              (sort_stable earlier entities)
              (All-sort_stable earlier (λ (e : PiiEntity). is_plain e.type ≡ true) entities h));
        values = replace_spans-token_all t 0 kept m;
      }

  mask_new-Works :
      (s : Masker) (t : Bytes)
      → IsMasker s
      → IsMaskable t
      → Yields (Masks IsBack s t) (mask_new analyzer s t)
  unfolding mask_new Yields
  mask_new-Works s t sound h = elim (Result-cases (analyzer.analyze t)) [
    | inl (e, f) ↦ rw (f, mask_new) tt
    | inr (entities, f) ↦
        let (plain, silent) = h entities f in
        let out = apply_mask t entities s.mapping in
        let grows = masked-Grows s.mapping t entities plain in
        let back : IsBack out.0 out.1 t = λ later l.
          subst
            (λ m.
              unmask (apply_mask t entities m).1 (token_all later (apply_mask t entities m).0) ≡ t)
            (sym sound.values)
            (unmask-apply_mask sound.past later t entities sound.plain plain l silent) in
        rw (f, mask_new)
          (record {
            sound = record {
              past = sound.past ++ grows.later;
              plain =
                  All-append (λ (v : Bytes × Bytes). is_plain v.0 ≡ true) sound.past grows.later
                    sound.plain grows.plain;
              values =
                  grows.values
                  ∙ ap (token_all grows.later) sound.values
                  ∙ sym (token_all-append sound.past grows.later new_pii_mapping);
              cached = λ k w found. elim (Bool-cases (bytes_beq t k)) [
                | inl same ↦
                    let e : t ≡ k = (bytes_beq_iff t k).0 same in
                    let first : some out.1 ≡ some w =
                      sym (find-put t out.1 s.cache)
                      ∙ ap (λ j. find j (put t out.1 s.cache)) e
                      ∙ found in
                    let value : out.1 ≡ w = ground (arith, first) in
                    subst (λ j. IsBack out.0 w j) e (subst (λ x. IsBack out.0 x t) value back)
                | inr other ↦ IsBack-Grows s.mapping out.0 w k grows (
                    sound.cached k w
                      (sym (find-put_other t k out.1 s.cache (differ t k other)) ∙ found))
              ];
            };
            grows = grows;
            related = back;
          })
  ]

  empty-IsBack : (m : PiiMapping) → IsBack m [] []
  unfolding unmask unmask_from
  empty-IsBack m later h = elim (Bool-cases (length (token_all later m).token_to_original == 0)) [
    | inl e ↦ rw (e, unmask) refl
    | inr e ↦ rw (e, unmask) refl
  ]

  pub mask_text-Works : Works IsMaskable IsBack (mask_text analyzer)
  unfolding mask_text Yields
  mask_text-Works s [] sound h = record {
    sound = sound;
    grows = Grows-refl s.mapping;
    related = empty-IsBack s.mapping;
  }
  mask_text-Works s (c ∷ t) sound h = elim (Option-cases (find (c ∷ t) s.cache)) [
    | inl f ↦ rw (f, mask_text) (mask_new-Works s (c ∷ t) sound h)
    | inr (w, f) ↦
        rw (f, mask_text)
          (record {
            sound = sound;
            grows = Grows-refl s.mapping;
            related = sound.cached (c ∷ t) w f;
          })
  ]

  -- A masked value, without the flag whether a text of it changed.
  abbrev MasksFirst :
      {A : Type 0} → (PiiMapping → A → A → Type 0) → Masker → A → Masker → A × Bool → Type 0
  MasksFirst R s v q r = Masks R s v q r.0

  joined :
      {A B C : Type 0} (R : PiiMapping → A → A → Type 0) (S : PiiMapping → B → B → Type 0)
      (V : PiiMapping → C → C → Type 0) (join : A → B → C) (s : Masker) (x : A) (y : B)
      (first : Masking (A × Bool)) (second : Masker → Masking (B × Bool))
      → ((m n : PiiMapping) (w t : A) → Grows m n → R m w t → R n w t)
      → ((m : PiiMapping) (a : A) (b : B) → R m a x → S m b y → V m (join a b) (join x y))
      → Yields (MasksFirst R s x) first
      → ((q : Masker) → IsMasker q → Yields (MasksFirst S q y) (second q))
      → Yields
          (MasksFirst V s (join x y))
          (and_then first (λ q a. and_then (second q) (λ p b. ok (p, (join a.0 b.0, a.1 || b.1)))))
  unfolding Yields
  joined R S V join s x y first second grow both h next =
      and_then-Yields (MasksFirst R s x) (MasksFirst V s (join x y)) first
        (λ q a. and_then (second q) (λ p b. ok (p, (join a.0 b.0, a.1 || b.1)))) h
        (λ q a r.
          and_then-Yields (MasksFirst S q y) (MasksFirst V s (join x y)) (second q)
            (λ p b. ok (p, (join a.0 b.0, a.1 || b.1))) (next q r.sound)
            (λ p b rest. record {
              sound = rest.sound;
              grows = Grows-trans s.mapping q.mapping p.mapping r.grows rest.grows;
              related =
                  both p.mapping a.0 b.0 (grow q.mapping p.mapping a.0 x rest.grows r.related)
                    rest.related;
            }))

  IsShaped-Grows :
      (m n : PiiMapping) (w v : Json)
      → Grows m n
      → IsShaped (IsBack m) w v
      → IsShaped (IsBack n) w v
  IsShaped-Grows m n w v g = IsShaped-map (IsBack m) (IsBack n) (λ a b. IsBack-Grows m n a b g) w v

  mutual
    unfolding mask_any Yields AllTexts IsShaped

    pub value_works :
        (v : Json) (s : Masker)
        → IsMasker s
        → AllTexts IsMaskable v
        → Yields (MasksFirst (λ m. IsShaped (IsBack m)) s v) (mask_any analyzer s v)
    value_works null s sound h = record {
      sound = sound;
      grows = Grows-refl s.mapping;
      related = refl;
    }
    value_works (boolean b) s sound h = record {
      sound = sound;
      grows = Grows-refl s.mapping;
      related = refl;
    }
    value_works (number n) s sound h = record {
      sound = sound;
      grows = Grows-refl s.mapping;
      related = refl;
    }
    value_works (text t) s sound h =
        and_then-Yields (Masks IsBack s t) (MasksFirst (λ m. IsShaped (IsBack m)) s (text t))
          (mask_text analyzer s t) (λ q masked. ok (q, (text masked, masked != t)))
          (mask_text-Works s t sound h)
          (λ q w r. record { sound = r.sound; grows = r.grows; related = (t, (refl, r.related)) })
    value_works (array xs) s sound h =
        and_then-Yields (MasksFirst (λ m. AreShaped (IsBack m)) s xs)
          (MasksFirst (λ m. IsShaped (IsBack m)) s (array xs)) (mask_items analyzer s xs)
          (λ q r. ok (q, (array r.0, r.1))) (items_work xs s sound h)
          (λ q w r. record { sound = r.sound; grows = r.grows; related = (xs, (refl, r.related)) })
    value_works (object fs) s sound h =
        and_then-Yields (MasksFirst (λ m. HaveShape (IsBack m)) s fs)
          (MasksFirst (λ m. IsShaped (IsBack m)) s (object fs)) (mask_fields analyzer s fs)
          (λ q r. ok (q, (object r.0, r.1))) (fields_work fs s sound h)
          (λ q w r. record { sound = r.sound; grows = r.grows; related = (fs, (refl, r.related)) })

    items_work :
        (xs : Items) (s : Masker)
        → IsMasker s
        → AllItems IsMaskable xs
        → Yields (MasksFirst (λ m. AreShaped (IsBack m)) s xs) (mask_items analyzer s xs)
    items_work no_items s sound h = record {
      sound = sound;
      grows = Grows-refl s.mapping;
      related = refl;
    }
    items_work (item x xs) s sound (p, h) =
        joined (λ m. IsShaped (IsBack m)) (λ m. AreShaped (IsBack m)) (λ m. AreShaped (IsBack m))
          item s x xs (mask_any analyzer s x) (λ q. mask_items analyzer q xs) IsShaped-Grows
          (λ m a b f g. (x, (xs, (refl, (f, g))))) (value_works x s sound p)
          (λ q good. items_work xs q good h)

    fields_work :
        (fs : Fields) (s : Masker)
        → IsMasker s
        → AllFields IsMaskable fs
        → Yields (MasksFirst (λ m. HaveShape (IsBack m)) s fs) (mask_fields analyzer s fs)
    fields_work no_fields s sound h = record {
      sound = sound;
      grows = Grows-refl s.mapping;
      related = refl;
    }
    fields_work (field k v fs) s sound (p, h) =
        joined (λ m. IsShaped (IsBack m)) (λ m. HaveShape (IsBack m)) (λ m. HaveShape (IsBack m))
          (field k) s v fs (mask_any analyzer s v) (λ q. mask_fields analyzer q fs) IsShaped-Grows
          (λ m a b f g. (v, (fs, (refl, (f, g))))) (value_works v s sound p)
          (λ q good. fields_work fs q good h)
