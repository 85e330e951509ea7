-- ===== src/Service/Pii/Unmasker/Silent.antt =====
-- What `unmasker` of services/pii.go holds back is given once, and so a restored stream ends.
use dappnode_nexus_gateway.Common.{
  ℕ, ◌+◌, ◌*◌, ◌≤◌, ◌≡◌, refl, sym, subst, ap, String, Bool, true, false, List, [], ◌∷◌, Option,
  none, ◌==◌, string_eq, length, map, arith, Option-cases, Bool-cases, inl, inr, All, Any,
}
use dappnode_nexus_gateway.Common.Bytes.{find, erase}
use dappnode_nexus_gateway.Common.Json.{Fields}
use dappnode_nexus_gateway.Domain.Pii.Mask.{sort_stable, insert}
use dappnode_nexus_gateway.Domain.Generation.{TinfoilProof}
use dappnode_nexus_gateway.Service.Chunk.{Codec}
use dappnode_nexus_gateway.Service.Stream.{new_proxy_stream, prime, run_ops}
use dappnode_nexus_gateway.Service.Stream.Progress.{steps, EndGiven, asks, run_ops-ends}
use dappnode_nexus_gateway.Service.Pii.Unmasker.{HeldChoice, Unmasker, release, sort_strings}
use dappnode_nexus_gateway.Service.Pii.Unmasker.Events.{
  tail_choice, release_all, held_event, unmasker,
}

module _ {A : Type 0} (less : A → A → Bool) (P : A → Type 0) where
  Any-insert_here : (x : A) (xs : List A) → P x → Any P (insert less x xs)
  unfolding insert
  Any-insert_here x [] p = inl p
  Any-insert_here x (y ∷ ys) p = elim (Bool-cases (less y x)) [
    | inl f ↦ rw f (inr (Any-insert_here x ys p))
    | inr f ↦ rw f (inl p)
  ]

  Any-insert_there : (x : A) (xs : List A) → Any P xs → Any P (insert less x xs)
  unfolding insert
  Any-insert_there x (y ∷ ys) (inl p) = elim (Bool-cases (less y x)) [
    | inl f ↦ rw f (inl p)
    | inr f ↦ rw f (inr (inl p))
  ]
  Any-insert_there x (y ∷ ys) (inr h) = elim (Bool-cases (less y x)) [
    | inl f ↦ rw f (inr (Any-insert_there x ys h))
    | inr f ↦ rw f (inr (inr h))
  ]
  Any-insert_there x [] h = absurd h

  Any-sort_stable : (xs : List A) → Any P xs → Any P (sort_stable less xs)
  unfolding sort_stable
  Any-sort_stable (x ∷ xs) (inl p) = Any-insert_here x (sort_stable less xs) p
  Any-sort_stable (x ∷ xs) (inr h) = Any-insert_there x (sort_stable less xs) (Any-sort_stable xs h)
  Any-sort_stable [] h = absurd h

among_rest :
    (j k : String) (keys : List String)
    → (j == k) ≡ false
    → Any (λ (i : String). j ≡ i) (k ∷ keys)
    → Any (λ (i : String). j ≡ i) keys
among_rest j k keys f (inr h) = h
among_rest j k keys f (inl e) =
    let same : (j == k) ≡ true = (string_eq.is_same_iff j k).1 e in absurd (ground (arith, f, same))

module _ {A : Type 0} where
  -- Every key of the entries is in a list.
  AreAmong : List String → List (String × A) → Type 0
  AreAmong keys entries = All (λ (e : String × A). Any (λ (k : String). e.0 ≡ k) keys) entries

  AreAmong-later :
      (k : String) (keys : List String) (entries : List (String × A))
      → AreAmong keys entries
      → AreAmong (k ∷ keys) entries
  unfolding AreAmong
  AreAmong-later k keys [] h = tt
  AreAmong-later k keys (e ∷ entries) (p, h) = (inr p, AreAmong-later k keys entries h)

  map-AreAmong :
      (entries : List (String × A)) → AreAmong (map (λ (e : String × A). e.0) entries) entries
  unfolding AreAmong
  map-AreAmong [] = tt
  map-AreAmong (e ∷ entries) = (
    inl refl,
    AreAmong-later e.0 (map (λ (e : String × A). e.0) entries) entries (map-AreAmong entries),
  )

  sorted-AreAmong :
      (keys : List String) (entries : List (String × A))
      → AreAmong keys entries
      → AreAmong (sort_strings keys) entries
  unfolding AreAmong sort_strings
  sorted-AreAmong keys [] h = tt
  sorted-AreAmong keys (e ∷ entries) (p, h) =
      (Any-sort_stable _ (λ (k : String). e.0 ≡ k) keys p, sorted-AreAmong keys entries h)

  erase-AreAmong :
      (k : String) (keys : List String) (entries : List (String × A))
      → AreAmong (k ∷ keys) entries
      → AreAmong keys (erase k entries)
  unfolding AreAmong erase
  erase-AreAmong k keys [] h = tt
  erase-AreAmong k keys ((j, v) ∷ entries) (p, h) = elim (Bool-cases (j == k)) [
    | inl f ↦ rw f (erase-AreAmong k keys entries h)
    | inr f ↦ rw f (among_rest j k keys f p, erase-AreAmong k keys entries h)
  ]

  erase_missing :
      (k : String) (entries : List (String × A)) → find k entries ≡ none → erase k entries ≡ entries
  unfolding find erase
  erase_missing k [] h = refl
  erase_missing k ((j, v) ∷ entries) h = elim (Bool-cases (j == k)) [
    | inl f ↦ absurd (ground (arith, f, h))
    | inr f ↦ rw f (ap (◌∷◌ (j, v)) (erase_missing k entries (ground (arith, f, h))))
  ]

  none_among : (entries : List (String × A)) → AreAmong [] entries → entries ≡ []
  unfolding AreAmong
  none_among [] h = refl
  none_among (e ∷ entries) (p, h) = absurd p

release-erase :
    (codec : Codec) (u : Unmasker) (index : String) (choice : Fields)
    → (release codec u index choice).0.held ≡ erase index u.held
unfolding release
release-erase codec u index choice = elim (Option-cases (find index u.held)) [
  | inl f ↦ rw (f, release) (sym (erase_missing index u.held f))
  | inr (held, f) ↦ rw (f, release) refl
]

release_all-empties :
    (codec : Codec) (indexes : List String) (u : Unmasker)
    → AreAmong indexes u.held
    → (release_all codec u indexes).0.held ≡ []
unfolding release_all
release_all-empties codec [] u h = none_among u.held h
release_all-empties codec (index ∷ indexes) u h =
    release_all-empties codec indexes (release codec u index (tail_choice index)).0 (
      subst (AreAmong indexes) (sym (release-erase codec u index (tail_choice index)))
        (erase-AreAmong index indexes u.held h))

empty-held_event :
    (codec : Codec) (u : Unmasker) (id model : String)
    → u.held ≡ []
    → (held_event codec u id model).1 ≡ none
unfolding held_event release_all sort_stable sort_strings
empty-held_event codec u id model h = rw (h, held_event) refl

-- What `tail` gives, it gives once.
pub held_event-silent :
    (codec : Codec) (u : Unmasker) (id model : String)
    → (held_event codec (held_event codec u id model).0 id model).1 ≡ none
unfolding held_event
held_event-silent codec u id model =
    empty-held_event codec (held_event codec u id model).0 id model (
      release_all-empties codec (sort_strings (map (λ (e : String × HeldChoice). e.0) u.held)) u (
        sorted-AreAmong (map (λ (e : String × HeldChoice). e.0) u.held) u.held
          (map-AreAmong u.held)))

-- A client of a primed stream, with personal data restored or not, that asks for a line three times
-- as often as the provider sends one, and three times more, is given the end, and one outcome is
-- reported.
pub unmasker-ends :
    (codec : Codec) (lines : List String) (scan_error : Option String) (public_name : String)
    (proof : Option TinfoilProof) (hide_usage : Bool) (unmask : Option Unmasker) (n : ℕ)
    → 3 * length lines + 3 ≤ n
    → let primed =
        (prime codec
          (unmasker codec)
          (new_proxy_stream lines scan_error public_name proof hide_usage unmask)).0 in
      Any EndGiven (steps codec (unmasker codec) primed n)
      × (length (run_ops codec (unmasker codec) primed (asks n)).reported ≡ 1)
unfolding unmasker
unmasker-ends codec lines scan_error public_name proof hide_usage unmask n h =
    run_ops-ends codec (unmasker codec) (held_event-silent codec) lines scan_error public_name proof
      hide_usage unmask n h
