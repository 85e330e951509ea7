-- ===== src/Service/Pii/Request/Shape.antt =====
-- JSON values of one shape: what they have in common when only texts differ.
use dappnode_nexus_gateway.Common.{
  String, ◌≡◌, refl, sym, ap, ◌∙◌, subst, false, some, ◌==◌, string_eq, eq_iff, Bool-cases, inl,
  inr, arith,
}
use dappnode_nexus_gateway.Common.Bytes.{Bytes}
use dappnode_nexus_gateway.Common.Json.{
  Json, null, boolean, number, text, array, object, Items, no_items, item, Fields, no_fields, field,
  get, set,
}

-- The first value is the second with other texts, each related to the one in its place by `P`.
unfoldable mutual
  pub IsShaped : (Bytes → Bytes → Type 0) → Json → Json → Type 0
  IsShaped P null v = v ≡ null
  IsShaped P (boolean b) v = v ≡ boolean b
  IsShaped P (number n) v = v ≡ number n
  IsShaped P (text w) v = (t : Bytes) × ((v ≡ text t) × P w t)
  IsShaped P (array ws) v = (xs : Items) × ((v ≡ array xs) × AreShaped P ws xs)
  IsShaped P (object gs) v = (fs : Fields) × ((v ≡ object fs) × HaveShape P gs fs)

  pub AreShaped : (Bytes → Bytes → Type 0) → Items → Items → Type 0
  AreShaped P no_items xs = xs ≡ no_items
  AreShaped P (item w ws) xs =
      (y : Json) × ((ys : Items) × ((xs ≡ item y ys) × (IsShaped P w y × AreShaped P ws ys)))

  pub HaveShape : (Bytes → Bytes → Type 0) → Fields → Fields → Type 0
  HaveShape P no_fields fs = fs ≡ no_fields
  HaveShape P (field k w gs) fs =
      (y : Json) × ((ys : Fields) × ((fs ≡ field k y ys) × (IsShaped P w y × HaveShape P gs ys)))

-- All texts of a value.
unfoldable mutual
  pub AllTexts : (Bytes → Type 0) → Json → Type 0
  AllTexts P null = Unit
  AllTexts P (boolean b) = Unit
  AllTexts P (number n) = Unit
  AllTexts P (text t) = P t
  AllTexts P (array xs) = AllItems P xs
  AllTexts P (object fs) = AllFields P fs

  pub AllItems : (Bytes → Type 0) → Items → Type 0
  AllItems P no_items = Unit
  AllItems P (item x xs) = AllTexts P x × AllItems P xs

  pub AllFields : (Bytes → Type 0) → Fields → Type 0
  AllFields P no_fields = Unit
  AllFields P (field k v fs) = AllTexts P v × AllFields P fs

module _ (P : Bytes → Bytes → Type 0) (Q : Bytes → Bytes → Type 0)
    (f : (w t : Bytes) → P w t → Q w t) where
  mutual
    unfolding IsShaped

    pub IsShaped-map : (w v : Json) → IsShaped P w v → IsShaped Q w v
    IsShaped-map null v h = h
    IsShaped-map (boolean b) v h = h
    IsShaped-map (number n) v h = h
    IsShaped-map (text w) v (t, (e, p)) = (t, (e, f w t p))
    IsShaped-map (array ws) v (xs, (e, h)) = (xs, (e, AreShaped-map ws xs h))
    IsShaped-map (object gs) v (fs, (e, h)) = (fs, (e, HaveShape-map gs fs h))

    pub AreShaped-map : (ws xs : Items) → AreShaped P ws xs → AreShaped Q ws xs
    AreShaped-map no_items xs h = h
    AreShaped-map (item w ws) xs (y, (ys, (e, (h, hs)))) =
        (y, (ys, (e, (IsShaped-map w y h, AreShaped-map ws ys hs))))

    pub HaveShape-map : (gs fs : Fields) → HaveShape P gs fs → HaveShape Q gs fs
    HaveShape-map no_fields fs h = h
    HaveShape-map (field k w gs) fs (y, (ys, (e, (h, hs)))) =
        (y, (ys, (e, (IsShaped-map w y h, HaveShape-map gs ys hs))))

module _ (P : Bytes → Bytes → Type 0) (reflexive : (t : Bytes) → P t t) where
  mutual
    unfolding IsShaped

    pub IsShaped-refl : (v : Json) → IsShaped P v v
    IsShaped-refl null = refl
    IsShaped-refl (boolean b) = refl
    IsShaped-refl (number n) = refl
    IsShaped-refl (text t) = (t, (refl, reflexive t))
    IsShaped-refl (array xs) = (xs, (refl, AreShaped-refl xs))
    IsShaped-refl (object fs) = (fs, (refl, HaveShape-refl fs))

    pub AreShaped-refl : (xs : Items) → AreShaped P xs xs
    AreShaped-refl no_items = refl
    AreShaped-refl (item x xs) = (x, (xs, (refl, (IsShaped-refl x, AreShaped-refl xs))))

    pub HaveShape-refl : (fs : Fields) → HaveShape P fs fs
    HaveShape-refl no_fields = refl
    HaveShape-refl (field k v fs) = (v, (fs, (refl, (IsShaped-refl v, HaveShape-refl fs))))

-- A field that is set to what is related to the field of the second value.
pub HaveShape-set :
    (P : Bytes → Bytes → Type 0) (k : String) (w v : Json) (gs fs : Fields)
    → HaveShape P gs fs
    → get k fs ≡ some v
    → IsShaped P w v
    → HaveShape P (set k w gs) fs
unfolding IsShaped get set
HaveShape-set P k w v no_fields fs e f h =
    let none_there : get k no_fields ≡ some v = subst (λ x. get k x ≡ some v) e f in
    absurd (ground (arith, none_there))
HaveShape-set P k w v (field j u gs) fs (y, (ys, (e, (s, hs)))) f h =
    let at : get k (field j y ys) ≡ some v = subst (λ x. get k x ≡ some v) e f in
    elim (Bool-cases (j == k)) [
      | inl same ↦
          let here : y ≡ v = ground (arith, at, same) in
          rw same (
            y,
            (
              ys,
              (
                e ∙ ap (λ i. field i y ys) ((eq_iff j k).0 same),
                (subst (IsShaped P w) (sym here) h, hs),
              ),
            ),
          )
      | inr other ↦
          rw other (y, (ys, (e, (s, HaveShape-set P k w v gs ys hs (ground (arith, at, other)) h))))
    ]

pub get-set_other :
    (j k : String) (w : Json) (fs : Fields) → (j == k) ≡ false → get j (set k w fs) ≡ get j fs
unfolding get set
get-set_other j k w no_fields h = ground (arith, eq_iff j k, eq_iff k j, h)
get-set_other j k w (field i v fs) h =
    ground (arith, eq_iff i k, eq_iff i j, eq_iff j k, h, get-set_other j k w fs h)

-- The texts of a field's value.
pub AllFields-get :
    (P : Bytes → Type 0) (k : String) (v : Json) (fs : Fields)
    → AllFields P fs
    → get k fs ≡ some v
    → AllTexts P v
unfolding AllTexts get
AllFields-get P k v no_fields h f = absurd (ground (arith, f))
AllFields-get P k v (field j u fs) (p, h) f = elim (Bool-cases (j == k)) [
  | inl same ↦ let here : u ≡ v = ground (arith, f, same) in subst (AllTexts P) here p
  | inr other ↦ AllFields-get P k v fs h (ground (arith, f, other))
]

pub AllFields-set :
    (P : Bytes → Type 0) (k : String) (v : Json) (fs : Fields)
    → AllTexts P v
    → AllFields P fs
    → AllFields P (set k v fs)
unfolding AllTexts set
AllFields-set P k v no_fields p h = (p, h)
AllFields-set P k v (field j u fs) p (q, h) = elim (Bool-cases (j == k)) [
  | inl same ↦ rw (same, set) (p, h)
  | inr other ↦ rw (other, set) (q, AllFields-set P k v fs p h)
]
