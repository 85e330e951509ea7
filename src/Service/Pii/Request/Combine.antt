-- ===== src/Service/Pii/Request/Combine.antt =====
-- The ways in which a request's masking goes into a value: `at_text` and its like.
use dappnode_nexus_gateway.Common.{
  String, ◌≡◌, refl, sym, ◌∙◌, false, List, [], ◌∷◌, some, ◌==◌, string_eq, inl, inr, All,
  Option-cases,
}
use dappnode_nexus_gateway.Common.Bytes.{Bytes, bytes_eq}
use dappnode_nexus_gateway.Common.Json.{
  Json, null, boolean, number, text, array, object, Items, no_items, item, Fields, no_fields, field,
  get, set,
}
use dappnode_nexus_gateway.Domain.Error.{ok}
use dappnode_nexus_gateway.Domain.Pii.{PiiMapping}
use dappnode_nexus_gateway.Service.Pii.Masker.{Masker, and_then}
use dappnode_nexus_gateway.Service.Pii.Request.Shape.{
  IsShaped, IsShaped-refl, AreShaped, HaveShape, IsShaped-map, HaveShape-map, HaveShape-refl,
  HaveShape-set, get-set_other, AllTexts, AllItems, AllFields, AllFields-get,
}
use dappnode_nexus_gateway.Service.Pii.Request.{
  Step, at_text, at_object, at_array, each, each_value, at_fields, mask_content,
}
use dappnode_nexus_gateway.Service.Pii.Request.Steps.{
  IsMasker, Grows, Grows-refl, Grows-trans, Yields, and_then-Yields, Yields-Grows, Masks, Works,
}

-- Steps on values whose texts have `T`, that relate each text by `L` to the text in its place.
module _ (L : PiiMapping → Bytes → Bytes → Type 0)
    (grow : (m n : PiiMapping) (w t : Bytes) → Grows m n → L m w t → L n w t)
    (reflexive : (m : PiiMapping) (t : Bytes) → L m t t) (T : Bytes → Type 0) where
  abbrev Shaped : PiiMapping → Json → Json → Type 0
  Shaped m = IsShaped (L m)

  stays : (s : Masker) (v : Json) → IsMasker s → Masks Shaped s v s v
  stays s v sound = record {
    sound = sound;
    grows = Grows-refl s.mapping;
    related = IsShaped-refl (L s.mapping) (reflexive s.mapping) v;
  }

  pub at_text-Works : (f : Step Bytes) → Works T L f → Works (AllTexts T) Shaped (at_text f)
  unfolding Yields AllTexts IsShaped
  at_text-Works f works s (text t) sound h =
      and_then-Yields (Masks L s t) (Masks Shaped s (text t)) (f s t) (λ q w. ok (q, text w))
        (works s t sound h)
        (λ q w r. record { sound = r.sound; grows = r.grows; related = (t, (refl, r.related)) })
  at_text-Works f works s null sound h = stays s null sound
  at_text-Works f works s (boolean b) sound h = stays s (boolean b) sound
  at_text-Works f works s (number n) sound h = stays s (number n) sound
  at_text-Works f works s (array xs) sound h = stays s (array xs) sound
  at_text-Works f works s (object fs) sound h = stays s (object fs) sound

  pub at_object-Works :
      (f : Step Fields)
      → Works (AllFields T) (λ m. HaveShape (L m)) f
      → Works (AllTexts T) Shaped (at_object f)
  unfolding Yields AllTexts IsShaped
  at_object-Works f works s (object fs) sound h =
      and_then-Yields (Masks (λ m. HaveShape (L m)) s fs) (Masks Shaped s (object fs)) (f s fs)
        (λ q w. ok (q, object w)) (works s fs sound h)
        (λ q w r. record { sound = r.sound; grows = r.grows; related = (fs, (refl, r.related)) })
  at_object-Works f works s (text t) sound h = stays s (text t) sound
  at_object-Works f works s null sound h = stays s null sound
  at_object-Works f works s (boolean b) sound h = stays s (boolean b) sound
  at_object-Works f works s (number n) sound h = stays s (number n) sound
  at_object-Works f works s (array xs) sound h = stays s (array xs) sound

  pub at_array-Works :
      (f : Step Items)
      → Works (AllItems T) (λ m. AreShaped (L m)) f
      → Works (AllTexts T) Shaped (at_array f)
  unfolding Yields AllTexts IsShaped
  at_array-Works f works s (array xs) sound h =
      and_then-Yields (Masks (λ m. AreShaped (L m)) s xs) (Masks Shaped s (array xs)) (f s xs)
        (λ q w. ok (q, array w)) (works s xs sound h)
        (λ q w r. record { sound = r.sound; grows = r.grows; related = (xs, (refl, r.related)) })
  at_array-Works f works s (text t) sound h = stays s (text t) sound
  at_array-Works f works s null sound h = stays s null sound
  at_array-Works f works s (boolean b) sound h = stays s (boolean b) sound
  at_array-Works f works s (number n) sound h = stays s (number n) sound
  at_array-Works f works s (object fs) sound h = stays s (object fs) sound

  pub each-Works :
      (f : Step Json)
      → Works (AllTexts T) Shaped f
      → Works (AllItems T) (λ m. AreShaped (L m)) (each f)
  unfolding each Yields AllTexts IsShaped
  each-Works f works s no_items sound h = record {
    sound = sound;
    grows = Grows-refl s.mapping;
    related = refl;
  }
  each-Works f works s (item x xs) sound (p, h) =
      and_then-Yields (Masks Shaped s x) (Masks (λ m. AreShaped (L m)) s (item x xs)) (f s x)
        (λ q y. and_then (each f q xs) (λ p ys. ok (p, item y ys))) (works s x sound p)
        (λ q y r.
          and_then-Yields (Masks (λ m. AreShaped (L m)) q xs)
            (Masks (λ m. AreShaped (L m)) s (item x xs)) (each f q xs) (λ p ys. ok (p, item y ys))
            (each-Works f works q xs r.sound h)
            (λ p ys rest. record {
              sound = rest.sound;
              grows = Grows-trans s.mapping q.mapping p.mapping r.grows rest.grows;
              related = (
                x,
                (
                  xs,
                  (
                    refl,
                    (
                      IsShaped-map (L q.mapping) (L p.mapping)
                          (λ w t. grow q.mapping p.mapping w t rest.grows) y x r.related,
                      rest.related,
                    ),
                  ),
                ),
              );
            }))

  pub each_value-Works :
      (f : Step Json)
      → Works (AllTexts T) Shaped f
      → Works (AllFields T) (λ m. HaveShape (L m)) (each_value f)
  unfolding each_value Yields AllTexts IsShaped
  each_value-Works f works s no_fields sound h = record {
    sound = sound;
    grows = Grows-refl s.mapping;
    related = refl;
  }
  each_value-Works f works s (field k x xs) sound (p, h) =
      and_then-Yields (Masks Shaped s x) (Masks (λ m. HaveShape (L m)) s (field k x xs)) (f s x)
        (λ q y. and_then (each_value f q xs) (λ p ys. ok (p, field k y ys))) (works s x sound p)
        (λ q y r.
          and_then-Yields (Masks (λ m. HaveShape (L m)) q xs)
            (Masks (λ m. HaveShape (L m)) s (field k x xs)) (each_value f q xs)
            (λ p ys. ok (p, field k y ys)) (each_value-Works f works q xs r.sound h)
            (λ p ys rest. record {
              sound = rest.sound;
              grows = Grows-trans s.mapping q.mapping p.mapping r.grows rest.grows;
              related = (
                x,
                (
                  xs,
                  (
                    refl,
                    (
                      IsShaped-map (L q.mapping) (L p.mapping)
                          (λ w t. grow q.mapping p.mapping w t rest.grows) y x r.related,
                      rest.related,
                    ),
                  ),
                ),
              );
            }))

  -- Steps that do what they should, on fields that differ.
  unfoldable pub AreSteps : List (String × Step Json) → Type 0
  AreSteps [] = Unit
  AreSteps ((k, f) ∷ steps) =
      Works (AllTexts T) Shaped f
      × (All (λ (e : String × Step Json). (e.0 == k) ≡ false) steps × AreSteps steps)

  abbrev Untouched : Fields → Fields → List (String × Step Json) → Type 0
  Untouched gs fs steps = All (λ (e : String × Step Json). get e.0 gs ≡ get e.0 fs) steps

  Untouched-by_set :
      (k : String) (w : Json) (gs fs : Fields) (steps : List (String × Step Json))
      → All (λ (e : String × Step Json). (e.0 == k) ≡ false) steps
      → Untouched gs fs steps
      → Untouched (set k w gs) fs steps
  Untouched-by_set k w gs fs [] h u = tt
  Untouched-by_set k w gs fs ((j, f) ∷ steps) (n, h) (e, u) =
      (get-set_other j k w gs n ∙ e, Untouched-by_set k w gs fs steps h u)

  Untouched-at_start : (fs : Fields) (steps : List (String × Step Json)) → Untouched fs fs steps
  Untouched-at_start fs [] = tt
  Untouched-at_start fs ((j, f) ∷ steps) = (refl, Untouched-at_start fs steps)

  run_fields :
      (steps : List (String × Step Json)) (s : Masker) (gs fs : Fields)
      → AreSteps steps
      → IsMasker s
      → AllFields T fs
      → HaveShape (L s.mapping) gs fs
      → Untouched gs fs steps
      → Yields (Masks (λ m. HaveShape (L m)) s fs) (at_fields steps s gs)
  unfolding at_fields Yields AreSteps
  run_fields [] s gs fs ok_steps sound h shape u = record {
    sound = sound;
    grows = Grows-refl s.mapping;
    related = shape;
  }
  run_fields ((k, f) ∷ steps) s gs fs (works, (other, ok_steps)) sound h shape (e, u) =
      elim (Option-cases (get k gs)) [
        | inl g ↦ rw (g, at_fields) (run_fields steps s gs fs ok_steps sound h shape u)
        | inr (v, g) ↦
            let there : get k fs ≡ some v = sym e ∙ g in
            rw (g, at_fields)
              (and_then-Yields (Masks Shaped s v) (Masks (λ m. HaveShape (L m)) s fs) (f s v)
                (λ q w. at_fields steps q (set k w gs))
                (works s v sound (AllFields-get T k v fs h there))
                (λ q w r.
                  Yields-Grows (λ m. HaveShape (L m)) s q fs (at_fields steps q (set k w gs))
                    r.grows
                    (run_fields steps q (set k w gs) fs ok_steps r.sound h
                      (HaveShape-set (L q.mapping) k w v gs fs
                        (HaveShape-map (L s.mapping) (L q.mapping)
                          (λ a t. grow s.mapping q.mapping a t r.grows) gs fs shape)
                        there r.related)
                      (Untouched-by_set k w gs fs steps other u))))
      ]

  pub at_fields-Works :
      (steps : List (String × Step Json))
      → AreSteps steps
      → Works (AllFields T) (λ m. HaveShape (L m)) (at_fields steps)
  at_fields-Works steps ok_steps s fs sound h =
      run_fields steps s fs fs ok_steps sound h
        (HaveShape-refl (L s.mapping) (reflexive s.mapping) fs) (Untouched-at_start fs steps)

  pub mask_content-Works :
      (f : Step Bytes) → Works T L f → Works (AllTexts T) Shaped (mask_content f)
  unfolding mask_content AreSteps Yields
  mask_content-Works f works s (text t) sound h = at_text-Works f works s (text t) sound h
  mask_content-Works f works s (array xs) sound h =
      let part = at_fields (("text", at_text f) ∷ []) in
      at_array-Works (each (at_object part))
        (each-Works (at_object part) (
          at_object-Works part
            (at_fields-Works (("text", at_text f) ∷ []) (at_text-Works f works, (tt, tt)))))
        s (array xs) sound h
  mask_content-Works f works s null sound h = stays s null sound
  mask_content-Works f works s (boolean b) sound h = stays s (boolean b) sound
  mask_content-Works f works s (number n) sound h = stays s (number n) sound
  mask_content-Works f works s (object fs) sound h = stays s (object fs) sound
