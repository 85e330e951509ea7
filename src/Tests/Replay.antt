-- ===== src/Tests/Replay.antt =====
-- The replay cache at sample requests.
use dappnode_nexus_gateway.Common.{ℕ, ◌≤◌, ◌≡◌, refl, String, List, [], ◌∷◌, arith, length, min}
use dappnode_nexus_gateway.Common.Int.{pos}
use dappnode_nexus_gateway.Confidential.Replay.{
  ReplayKey, new_cache, check_and_store, check_all, answers, admit, purge, purge_from, remove_front,
  store, account_count, set_account, release_account, delete_account, replay_ttl, replay_capacity,
  replay_account_capacity, accepted, duplicate, capacity_reached,
}
use dappnode_nexus_gateway.Confidential.Replay.Invariant.{
  Distinct, account_keys, check_all-new_cache-bounded,
}
use dappnode_nexus_gateway.Confidential.Replay.NoReplay.{check_and_store_once}
use dappnode_nexus_gateway.Confidential.Replay.Refinement.{spec_answers, answers-new_cache}

abbrev first : ReplayKey
first = record { account_id = "a"; request_id = "x" }

abbrev second_key : ReplayKey
second_key = record { account_id = "b"; request_id = "y" }

abbrev past : List (ReplayKey × ℕ)
past = (second_key, 5) ∷ []

first_accepted : (check_and_store (check_all (new_cache 180 2) past) "a" "x" 10).1 ≡ accepted
unfolding new_cache check_and_store check_all admit purge purge_from store set_account account_count
first_accepted = refl

check_and_store_once_example :
    (check_and_store
      (check_all
        (check_and_store (check_all (new_cache 180 2) past) "a" "x" 10).0
        ((second_key, 60) ∷ []))
      "a"
      "x"
      189).1
    ≡ duplicate
check_and_store_once_example =
    check_and_store_once 180 2 past first 10 ((second_key, 60) ∷ []) 189 first_accepted
      (omega arith, tt) (omega arith)

answers-new_cache_example :
    answers
      (new_cache 180 1)
      ((first, 10) ∷ (first, 20) ∷ (second_key, 30) ∷ (second_key, 190) ∷ [])
    ≡ spec_answers 180 1
        (min 1 replay_account_capacity)
        []
        ((first, 10) ∷ (first, 20) ∷ (second_key, 30) ∷ (second_key, 190) ∷ [])
answers-new_cache_example =
    answers-new_cache 180 1 0
      ((first, 10) ∷ (first, 20) ∷ (second_key, 30) ∷ (second_key, 190) ∷ [])
      (omega arith, (omega arith, (omega arith, (omega arith, tt))))

-- The four answers themselves.
answers_computed :
    answers
      (new_cache 180 1)
      ((first, 10) ∷ (first, 20) ∷ (second_key, 30) ∷ (second_key, 190) ∷ [])
    ≡ accepted ∷ duplicate ∷ capacity_reached ∷ accepted ∷ []
unfolding answers new_cache check_and_store admit purge purge_from remove_front store set_account
    account_count release_account delete_account
answers_computed = refl

check_all-new_cache-bounded_example :
    let c = check_all (new_cache replay_ttl replay_capacity) ((first, 10) ∷ past) in
    (length c.entries ≤ replay_capacity)
    × ((a : String) → account_keys a c.entries ≤ min replay_capacity replay_account_capacity)
    × Distinct c.entries
    × ((a : String) → account_count a c.accounts ≡ pos (account_keys a c.entries))
check_all-new_cache-bounded_example =
    check_all-new_cache-bounded replay_ttl replay_capacity ((first, 10) ∷ past)
