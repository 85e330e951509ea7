-- ===== src/Confidential/Replay.antt =====
-- The replay cache: `confidentialReplayCache` and `checkAndStore` of
-- apps/gateway/internal/adapters/http/handlers/confidential_chat_completions_handler.go.
-- Times are nanoseconds from a fixed origin. A Go map used as a set is a list of its keys, and the
-- map of counters is an association list; `container/list` is a list, its front first.
pub mod Maps
pub mod Invariant
pub mod NoReplay
pub mod Refinement
use dappnode_nexus_gateway.Common.{
  ℕ, ◌+◌, ◌*◌, String, Bool, ◌&&◌, List, [], ◌∷◌, ◌++◌, min, ltb, leb, if◌then◌else◌, ◌==◌,
  string_eq, length, any, filter, not,
}
use dappnode_nexus_gateway.Common.Int.{ℤ, pos, suc_ℤ, pred_ℤ, leb_ℤ, int_eq}

abbrev pub second : ℕ
second = 1_000_000_000

abbrev pub replay_ttl : ℕ
replay_ttl = 180 * second

abbrev pub replay_capacity : ℕ
replay_capacity = 100_000

abbrev pub replay_account_capacity : ℕ
replay_account_capacity = 10_000

pub data ReplayResult : Type 0 where
  accepted duplicate capacity_reached account_capacity_reached : ReplayResult

pub record ReplayKey : Type 0 where
  pub account_id : String
  pub request_id : String

pub record ReplayEntry : Type 0 where
  pub key : ReplayKey
  pub expires_at : ℕ

pub record ReplayCache : Type 0 where
  pub ttl : ℕ
  pub capacity : ℕ
  pub account_capacity : ℕ
  pub entries : List ReplayKey
  pub accounts : List (String × ℤ)
  pub expirations : List ReplayEntry

abbrev pub same_key : ReplayKey → ReplayKey → Bool
same_key j k = (j.account_id == k.account_id) && (j.request_id == k.request_id)

-- `delete(c.entries, key)`, and `c.entries[key] = struct{}{}`.
abbrev pub delete_key : ReplayKey → List ReplayKey → List ReplayKey
delete_key k = filter (λ j. not (same_key j k))

abbrev pub store_key : ReplayKey → List ReplayKey → List ReplayKey
store_key k entries = if any (λ j. same_key j k) entries then entries else entries ++ k ∷ []

-- `c.accounts[id]`, 0 where the key is missing.
unfoldable pub account_count : String → List (String × ℤ) → ℤ
account_count a [] = pos 0
account_count a ((b, n) ∷ m) = if b == a then n else account_count a m

unfoldable pub set_account : String → ℤ → List (String × ℤ) → List (String × ℤ)
set_account a n [] = (a, n) ∷ []
set_account a n ((b, k) ∷ m) = if b == a then (a, n) ∷ m else (b, k) ∷ set_account a n m

unfoldable pub delete_account : String → List (String × ℤ) → List (String × ℤ)
delete_account a [] = []
delete_account a ((b, k) ∷ m) = if b == a then delete_account a m else (b, k) ∷ delete_account a m

-- `c.accounts[id]--`, and the delete of a counter that reached 0.
unfoldable pub release_account : String → List (String × ℤ) → List (String × ℤ)
release_account a m =
    let lowered = set_account a (pred_ℤ (account_count a m)) m in
    if account_count a lowered == pos 0 then delete_account a lowered else lowered

unfoldable pub new_cache : ℕ → ℕ → ReplayCache
new_cache ttl capacity = record {
  ttl = ttl;
  capacity = capacity;
  account_capacity = min capacity replay_account_capacity;
  entries = [];
  accounts = [];
  expirations = [];
}

-- One round of the loop that removes expired entries from the front.
unfoldable pub remove_front : ReplayCache → ReplayEntry → List ReplayEntry → ReplayCache
remove_front c entry rest = record c {
  entries = delete_key entry.key c.entries;
  accounts = release_account entry.key.account_id c.accounts;
  expirations = rest;
}

-- The loop, over the list that it walks.
unfoldable pub purge_from : ReplayCache → List ReplayEntry → ℕ → ReplayCache
purge_from c [] now = c
purge_from c (entry ∷ rest) now =
    let removed = purge_from (remove_front c entry rest) rest now in
    if ltb now entry.expires_at then c else removed

unfoldable pub purge : ReplayCache → ℕ → ReplayCache
unfolding purge_from
purge c now = purge_from c c.expirations now

unfoldable pub store : ReplayCache → ReplayKey → ℕ → ReplayCache
store c key now = record c {
  entries = store_key key c.entries;
  accounts =
      set_account key.account_id (suc_ℤ (account_count key.account_id c.accounts)) c.accounts;
  expirations = c.expirations ++ record { key = key; expires_at = now + c.ttl } ∷ [];
}

-- The decision, once expired entries are gone.
unfoldable pub admit : ReplayCache → ReplayKey → ℕ → ReplayCache × ReplayResult
admit c key now =
    if any (λ j. same_key j key) c.entries
    then (c, duplicate)
    else if leb_ℤ (pos c.account_capacity) (account_count key.account_id c.accounts)
    then (c, account_capacity_reached)
    else if leb c.capacity (length c.entries)
    then (c, capacity_reached)
    else (store c key now, accepted)

-- `now` is the clock's reading under the lock.
unfoldable pub check_and_store : ReplayCache → String → String → ℕ → ReplayCache × ReplayResult
check_and_store c account_id request_id now =
    admit (purge c now) (record { account_id = account_id; request_id = request_id }) now

-- A sequence of calls, oldest first, each with its key and clock reading: the cache after them, and
-- their answers.
unfoldable pub check_all : ReplayCache → List (ReplayKey × ℕ) → ReplayCache
check_all c [] = c
check_all c ((key, now) ∷ calls) =
    check_all (check_and_store c key.account_id key.request_id now).0 calls

unfoldable pub answers : ReplayCache → List (ReplayKey × ℕ) → List ReplayResult
answers c [] = []
answers c ((key, now) ∷ calls) =
    let (c', result) = check_and_store c key.account_id key.request_id now in
    result ∷ answers c' calls
