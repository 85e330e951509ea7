-- ===== src/Service/Models.antt =====
-- The list of models and its cache: `ListModelsService` of services/list_models_service.go, one caller
-- after the other. A rate is an argument, with a test whether it is positive; times are nanoseconds.
pub mod Staleness
use dappnode_nexus_gateway.Common.{
  ℕ, ◌+◌, ◌*◌, String, Bool, List, [], ◌∷◌, ◌++◌, Option, none, some, if◌then◌else◌, ltb, map,
}
use dappnode_nexus_gateway.Domain.Error.{Error, gateway, Result, ok, err, err_internal}
use dappnode_nexus_gateway.Domain.Model.{PublicModel, RouterEntry}

-- `ModelCatalogEntry`.
pub data CatalogEntry (Rate : Type 0) : Type 0 where
  public_model : PublicModel → Rate → CatalogEntry Rate
  router : RouterEntry → Rate → CatalogEntry Rate

abbrev pub catalog_cache_ttl : ℕ
catalog_cache_ttl = 60 * 1000000000

abbrev pub catalog_failed : Error
catalog_failed = gateway (err_internal "an internal error occurred")

-- `cached` and `expiresAt`.
pub record Listing (Rate : Type 0) : Type 0 where
  pub cached : Option (List (CatalogEntry Rate))
  pub expires_at : ℕ

-- What a call reads: the clock, at its two looks into the cache and when it stores; the catalog and
-- the rate.
pub record Reads (Rate : Type 0) : Type 0 where
  pub first : ℕ
  pub second : ℕ
  pub stored : ℕ
  pub models : Result (List PublicModel)
  pub routers : Result (List RouterEntry)
  pub rate : Result Rate

abbrev pub nothing_listed : {Rate : Type 0} → Listing Rate
nothing_listed = record { cached = none; expires_at = 0 }

unfoldable pub from_cache : {Rate : Type 0} → ℕ → Listing Rate → Option (List (CatalogEntry Rate))
from_cache now s = elim s.cached [
  | none ↦ none
  | some entries ↦ if ltb now s.expires_at then some entries else none
]

module _ {Rate : Type 0} (is_positive : Rate → Bool) (fallback : Rate) where
  abbrev pub rate_of : Result Rate → Rate
  rate_of (err e) = fallback
  rate_of (ok rate) = if is_positive rate then rate else fallback

  abbrev pub entries_of : List PublicModel → List RouterEntry → Rate → List (CatalogEntry Rate)
  entries_of models routers rate =
      map (λ m. public_model m rate) models ++ map (λ r. router r rate) routers

  -- What the catalog gives to a call.
  unfoldable pub listed : Reads Rate → Result (List (CatalogEntry Rate))
  listed c = elim c.models [
    | err e ↦ err catalog_failed
    | ok models ↦ elim c.routers [
      | err e ↦ err catalog_failed
      | ok routers ↦ ok (entries_of models routers (rate_of c.rate))
    ]
  ]

  unfoldable pub refresh :
      Reads Rate → Listing Rate → Listing Rate × Result (List (CatalogEntry Rate))
  unfolding listed
  refresh c s = elim (listed c) [
    | err e ↦ (s, err e)
    | ok entries ↦
        (record { cached = some entries; expires_at = c.stored + catalog_cache_ttl }, ok entries)
  ]

  -- `Execute`.
  unfoldable pub execute :
      Reads Rate → Listing Rate → Listing Rate × Result (List (CatalogEntry Rate))
  unfolding from_cache refresh
  execute c s = elim (from_cache c.first s) [
    | some entries ↦ (s, ok entries)
    | none ↦ elim (from_cache c.second s) [ some entries ↦ (s, ok entries) | none ↦ refresh c s ]
  ]

  -- Calls after one another, with what each gives.
  unfoldable pub execute_all :
      List (Reads Rate) → Listing Rate → Listing Rate × List (Result (List (CatalogEntry Rate)))
  unfolding execute
  execute_all [] s = (s, [])
  execute_all (c ∷ calls) s =
      let (q, r) = execute c s in let (last, rs) = execute_all calls q in (last, r ∷ rs)
