-- ===== src/Service/Models/Staleness.antt =====
-- How old a list of models may be: `Execute` of services/list_models_service.go.
use dappnode_nexus_gateway.Common.{
  ℕ, ◌+◌, ◌<◌, ◌≡◌, ◌⊎◌, inl, inr, refl, subst, ap, ◌∙◌, Bool, true, List, [], ◌∷◌, Option, none,
  some, ltb, map, All, Any, arith, Bool-cases, Option-cases,
}
use dappnode_nexus_gateway.Domain.Error.{Error, Result, ok, err, Result-cases}
use dappnode_nexus_gateway.Service.Models.{
  CatalogEntry, catalog_cache_ttl, catalog_failed, Listing, Reads, nothing_listed, from_cache,
  listed, refresh, execute, execute_all,
}

module _ {Rate : Type 0} (is_positive : Rate → Bool) (fallback : Rate) where
  -- The entries that the catalog gave to a call.
  abbrev pub Gave : List (CatalogEntry Rate) → Reads Rate → Type 0
  Gave entries c = listed is_positive fallback c ≡ ok entries

  -- A call of the past that stored the entries, less than the time to live before an instant.
  abbrev pub GaveBefore : List (CatalogEntry Rate) → ℕ → Reads Rate → Type 0
  GaveBefore entries now p = Gave entries p × (now < p.stored + catalog_cache_ttl)

  -- What a call gives: the failure of its own look-up; or entries of its own look-up, or of a call of
  -- the past that were young enough at one of its two looks.
  abbrev pub IsRecent : List (Reads Rate) → Reads Rate → Result (List (CatalogEntry Rate)) → Type 0
  IsRecent past c (err e) = (e ≡ catalog_failed) × (listed is_positive fallback c ≡ err e)
  IsRecent past c (ok entries) =
      Gave entries c
      ⊎ (Any (GaveBefore entries c.first) past ⊎ Any (GaveBefore entries c.second) past)

  unfoldable pub AreRecent :
      List (Reads Rate) → List (Reads Rate) → List (Result (List (CatalogEntry Rate))) → Type 0
  AreRecent past [] [] = Unit
  AreRecent past [] (r ∷ rs) = ⊥
  AreRecent past (c ∷ calls) [] = ⊥
  AreRecent past (c ∷ calls) (r ∷ rs) = IsRecent past c r × AreRecent (c ∷ past) calls rs

  -- What is cached was stored by a call of the past.
  abbrev Stored : List (CatalogEntry Rate) → ℕ → Reads Rate → Type 0
  Stored entries expires p = Gave entries p × (expires ≡ p.stored + catalog_cache_ttl)

  IsListing : List (Reads Rate) → Option (List (CatalogEntry Rate)) → ℕ → Type 0
  IsListing past none expires = Unit
  IsListing past (some entries) expires = Any (Stored entries expires) past

  young :
      (past : List (Reads Rate)) (entries : List (CatalogEntry Rate)) (expires now : ℕ)
      → Any (Stored entries expires) past
      → now < expires
      → Any (GaveBefore entries now) past
  young (p ∷ past) entries expires now (inl (gave, e)) h = inl (gave, omega (arith, e, h))
  young (p ∷ past) entries expires now (inr rest) h = inr (young past entries expires now rest h)
  young [] entries expires now h k = absurd h

  cached-GaveBefore :
      (past : List (Reads Rate)) (s : Listing Rate) (cached : Option (List (CatalogEntry Rate)))
      (now : ℕ) (entries : List (CatalogEntry Rate))
      → s.cached ≡ cached
      → IsListing past cached s.expires_at
      → from_cache now s ≡ some entries
      → Any (GaveBefore entries now) past
  unfolding from_cache IsListing
  cached-GaveBefore past s none now entries e h f = absurd (ground (arith, e, f))
  cached-GaveBefore past s (some old) now entries e h f = elim (Bool-cases (ltb now s.expires_at)) [
    | inr late ↦ absurd (ground (arith, e, f, late))
    | inl early ↦
        let same : old ≡ entries = ground (arith, e, f, early) in
        young past entries s.expires_at now (subst (λ es. Any (Stored es s.expires_at) past) same h)
          (ground (arith, early))
  ]

  longer_past :
      (past : List (Reads Rate)) (c : Reads Rate) (cached : Option (List (CatalogEntry Rate)))
      (expires : ℕ)
      → IsListing past cached expires
      → IsListing (c ∷ past) cached expires
  unfolding IsListing
  longer_past past c none expires h = tt
  longer_past past c (some entries) expires h = inr h

  listed-failed :
      (c : Reads Rate) (e : Error) → listed is_positive fallback c ≡ err e → e ≡ catalog_failed
  unfolding listed
  listed-failed c e h = elim (Result-cases c.models) [
    | inl (f, m) ↦ ground (arith, h, m)
    | inr (models, m) ↦ elim (Result-cases c.routers) [
      | inl (f, r) ↦ ground (arith, h, m, r)
      | inr (routers, r) ↦ absurd (ground (arith, h, m, r))
    ]
  ]

  -- One call.
  AfterCall :
      List (Reads Rate) → Reads Rate → Listing Rate × Result (List (CatalogEntry Rate)) → Type 0
  AfterCall past c (q, r) = IsListing (c ∷ past) q.cached q.expires_at × IsRecent past c r

  execute-AfterCall :
      (past : List (Reads Rate)) (c : Reads Rate) (s : Listing Rate)
      → IsListing past s.cached s.expires_at
      → AfterCall past c (execute is_positive fallback c s)
  unfolding execute refresh AfterCall IsListing
  execute-AfterCall past c s h = elim (Option-cases (from_cache c.first s)) [
    | inr (entries, f) ↦
        rw (f, execute)
          (
            longer_past past c s.cached s.expires_at h,
            inr (inl (cached-GaveBefore past s s.cached c.first entries refl h f)),
          )
    | inl f ↦ elim (Option-cases (from_cache c.second s)) [
      | inr (entries, g) ↦
          rw (f, g, execute)
            (
              longer_past past c s.cached s.expires_at h,
              inr (inr (cached-GaveBefore past s s.cached c.second entries refl h g)),
            )
      | inl g ↦ elim (Result-cases (listed is_positive fallback c)) [
        | inl (e, l) ↦
            rw (f, g, l, execute, refresh)
              (longer_past past c s.cached s.expires_at h, (listed-failed c e l, l))
        | inr (entries, l) ↦ rw (f, g, l, execute, refresh) (inl (l, refl), inl l)
      ]
    ]
  ]

  all-AreRecent :
      (calls past : List (Reads Rate)) (s : Listing Rate)
      → IsListing past s.cached s.expires_at
      → AreRecent past calls (execute_all is_positive fallback calls s).1
  unfolding execute_all AreRecent AfterCall
  all-AreRecent [] past s h = tt
  all-AreRecent (c ∷ calls) past s h =
      let (listing, recent) = execute-AfterCall past c s h in
      (recent, all-AreRecent calls (c ∷ past) (execute is_positive fallback c s).0 listing)

  -- Every call of the list of models gives entries that the catalog gave to it, or gave to a call
  -- before it that stored them less than 60 seconds before one of its looks at the clock; or it fails
  -- with its own look-up, as an internal error.
  pub execute_all-AreRecent :
      (calls : List (Reads Rate))
      → AreRecent [] calls (execute_all is_positive fallback calls nothing_listed).1
  unfolding IsListing
  execute_all-AreRecent calls = all-AreRecent calls [] nothing_listed tt

  abbrev listing : List (CatalogEntry Rate) → ℕ → Listing Rate
  listing entries expires = record { cached = some entries; expires_at = expires }

  one_cached :
      (d : Reads Rate) (entries : List (CatalogEntry Rate)) (expires : ℕ)
      → d.first < expires
      → execute is_positive fallback d (listing entries expires)
        ≡ (listing entries expires, ok entries)
  unfolding execute from_cache
  one_cached d entries expires early =
      let f : ltb d.first expires ≡ true = ground (arith, early) in rw (f, execute, from_cache) refl

  all_cached :
      (calls : List (Reads Rate)) (entries : List (CatalogEntry Rate)) (expires : ℕ)
      → All (λ (d : Reads Rate). d.first < expires) calls
      → execute_all is_positive fallback calls (listing entries expires)
        ≡ (listing entries expires, map (λ d. ok entries) calls)
  unfolding execute_all
  all_cached [] entries expires h = refl
  all_cached (d ∷ calls) entries expires (early, h) =
      ap
        (λ (q : Listing Rate × Result (List (CatalogEntry Rate))).
          let (last, rs) = execute_all is_positive fallback calls q.0 in (last, q.1 ∷ rs))
        (one_cached d entries expires early)
      ∙ ap
          (λ (out : Listing Rate × List (Result (List (CatalogEntry Rate)))).
            (out.0, ok entries ∷ out.1))
          (all_cached calls entries expires h)

  -- After a look-up that succeeded, the catalog is not asked for 60 seconds: calls that look into the
  -- cache within them all get its entries, whatever the catalog would give them, and leave the cache as
  -- it is.
  pub execute_all-refresh :
      (c : Reads Rate) (s : Listing Rate) (entries : List (CatalogEntry Rate))
      (calls : List (Reads Rate))
      → listed is_positive fallback c ≡ ok entries
      → All (λ (d : Reads Rate). d.first < c.stored + catalog_cache_ttl) calls
      → execute_all is_positive fallback calls (refresh is_positive fallback c s).0
        ≡ ((refresh is_positive fallback c s).0, map (λ d. ok entries) calls)
  unfolding refresh
  execute_all-refresh c s entries calls l h =
      rw (l, refresh) (all_cached calls entries (c.stored + catalog_cache_ttl) h)
