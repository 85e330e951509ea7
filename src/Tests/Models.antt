-- ===== src/Tests/Models.antt =====
-- The list of models, asked for three times.
use dappnode_nexus_gateway.Common.{ℕ, ◌+◌, ◌≡◌, refl, Bool, [], ◌∷◌, map, arith, ltb}
use dappnode_nexus_gateway.Domain.Error.{ok, err, plain}
use dappnode_nexus_gateway.Service.Models.{Reads, nothing_listed, listed, refresh, execute_all}
use dappnode_nexus_gateway.Service.Models.Staleness.{
  AreRecent, execute_all-AreRecent, execute_all-refresh,
}

-- Rates are hundredths.
abbrev is_positive : ℕ → Bool
is_positive rate = ltb 0 rate

abbrev at : ℕ → Reads ℕ
at t = record {
  first = t;
  second = t;
  stored = t + 5;
  models = ok [];
  routers = ok [];
  rate = ok 110;
}

abbrev failing : Reads ℕ
failing = record (at 20) { models = err (plain "down") }

execute_all-AreRecent_example :
    AreRecent is_positive 108 []
      (failing ∷ at 30 ∷ failing ∷ [])
      (execute_all is_positive 108 (failing ∷ at 30 ∷ failing ∷ []) nothing_listed).1
execute_all-AreRecent_example =
    execute_all-AreRecent is_positive 108 (failing ∷ at 30 ∷ failing ∷ [])

execute_all-refresh_example :
    execute_all is_positive 108
      (failing ∷ at 40 ∷ [])
      (refresh is_positive 108 (at 30) nothing_listed).0
    ≡ ((refresh is_positive 108 (at 30) nothing_listed).0, map (λ d. ok []) (failing ∷ at 40 ∷ []))
unfolding listed
execute_all-refresh_example =
    execute_all-refresh is_positive 108 (at 30) nothing_listed [] (failing ∷ at 40 ∷ []) refl
      (omega arith, (omega arith, tt))
