-- ===== src/Confidential/Replay/NoReplay.antt =====
-- A request that the replay cache accepted is not accepted again while its entry lives.
use dappnode_nexus_gateway.Common.{
  ℕ, ◌+◌, ◌≤◌, ◌<◌, ◌≡◌, refl, subst, String, true, List, [], ◌∷◌, ltb, arith, Any, Any-append_left,
  Any-append_right, string_eq, inl, inr, Bool-cases, All,
}
use dappnode_nexus_gateway.Confidential.Replay.{
  ReplayCache, ReplayKey, ReplayEntry, purge_from, purge, remove_front, check_and_store, store,
  accepted, duplicate, check_all, new_cache,
}
use dappnode_nexus_gateway.Confidential.Replay.Maps.{has_key, admit_cases, same_key_refl}
use dappnode_nexus_gateway.Confidential.Replay.Invariant.{
  Inv, keys, purge-Inv, check_all-Inv, new_cache-Inv, check_and_store-Inv, remove_front_expirations,
  check_all_limits, purge_from_limits,
}

-- An entry for the request that lives until `until` at least.
abbrev Keeps : ReplayKey → ℕ → ReplayEntry → Type 0
Keeps k until e = (e.key ≡ k) × (until ≤ e.expires_at)

abbrev pub Holds : ReplayKey → ℕ → ReplayCache → Type 0
Holds k until c = Any (Keeps k until) c.expirations

module _ (k : ReplayKey) (until now : ℕ) (before : now < until) where
  purge_from-Holds :
      (c : ReplayCache) (es : List ReplayEntry)
      → c.expirations ≡ es
      → Any (Keeps k until) es
      → Holds k until (purge_from c es now)
  unfolding purge_from
  purge_from-Holds c [] same h = absurd h
  purge_from-Holds c (e ∷ rest) same h = elim (Bool-cases (ltb now e.expires_at)) [
    | inl live ↦ rw (live, same) h
    | inr expired ↦ elim h [
      | inl (_, late) ↦ absurd (ground arith)
      | inr held ↦
          rw expired
            (purge_from-Holds (remove_front c e rest) rest (remove_front_expirations c e rest) held)
    ]
  ]

  check_and_store-Holds :
      (c : ReplayCache) (a r : String)
      → Holds k until c
      → Holds k until (check_and_store c a r now).0
  unfolding check_and_store purge store
  check_and_store-Holds c a r h =
      let held = purge_from-Holds c c.expirations refl h in
      admit_cases (λ p. Holds k until p.0) (purge_from c c.expirations now) _ now (λ _. held)
        (λ _ _. held) (λ _ _ _. held) λ _ _ _. Any-append_left (Keeps k until) _ _ held

check_all-Holds :
    (k : ReplayKey) (until : ℕ) (c : ReplayCache) (calls : List (ReplayKey × ℕ))
    → All (λ call. call.1 < until) calls
    → Holds k until c
    → Holds k until (check_all c calls)
unfolding check_all
check_all-Holds k until c [] _ h = h
check_all-Holds k until c ((j, now) ∷ calls) (early, later) h =
    check_all-Holds k until (check_and_store c j.account_id j.request_id now).0 calls later
      (check_and_store-Holds k until now early c j.account_id j.request_id h)

has_key-keys :
    (k : ReplayKey) (until : ℕ) (es : List ReplayEntry)
    → Any (Keeps k until) es
    → has_key k (keys es) ≡ true
has_key-keys k until [] h = absurd h
has_key-keys k until (e ∷ es) (inl (same, _)) = rw (same, same_key_refl k)
has_key-keys k until (e ∷ es) (inr h) = ground (arith, has_key-keys k until es h)

-- A held request is a duplicate.
duplicate_of_Holds :
    (k : ReplayKey) (until now : ℕ) (c : ReplayCache)
    → Inv c
    → now < until
    → Holds k until c
    → (check_and_store c k.account_id k.request_id now).1 ≡ duplicate
unfolding check_and_store purge
duplicate_of_Holds k until now c v early h =
    let held = purge_from-Holds k until now early c c.expirations refl h in
    let v' = purge-Inv c now v in
    let seen : has_key k (purge_from c c.expirations now).entries ≡ true =
      rw (v'.same) (has_key-keys k until (purge_from c c.expirations now).expirations held) in
    admit_cases (λ p. p.1 ≡ duplicate) (purge_from c c.expirations now) k now (λ _. refl)
      (λ f _. cc) (λ f _ _. cc) (λ f _ _. cc)

-- An accepted request is held for the cache's time to live.
pub Holds-of_accepted :
    (c : ReplayCache) (k : ReplayKey) (now : ℕ)
    → (check_and_store c k.account_id k.request_id now).1 ≡ accepted
    → Holds k (now + c.ttl) (check_and_store c k.account_id k.request_id now).0
unfolding check_and_store purge store
Holds-of_accepted c k now =
    let p = purge_from_limits c c.expirations now in
    admit_cases (λ p. p.1 ≡ accepted → Holds k (now + c.ttl) p.0) (purge_from c c.expirations now) k
      now (λ _ e. cc) (λ _ _ e. cc) (λ _ _ _ e. cc)
      λ _ _ _ _.
        Any-append_right (Keeps k (now + c.ttl)) (purge_from c c.expirations now).expirations _
          (inl (refl, omega (arith, p.2)))

-- After any history of a cache, a request accepted at time t is answered "duplicate" at every time
-- before t + ttl, whatever calls come in between, as long as their clock readings lie before
-- t + ttl too (they may come in any order).
pub check_and_store_once :
    (ttl capacity : ℕ) (past : List (ReplayKey × ℕ)) (k : ReplayKey) (t : ℕ)
    (calls : List (ReplayKey × ℕ)) (t' : ℕ)
    → (check_and_store (check_all (new_cache ttl capacity) past) k.account_id k.request_id t).1
      ≡ accepted
    → All (λ call. call.1 < t + ttl) calls
    → t' < t + ttl
    → (check_and_store
        (check_all
          (check_and_store (check_all (new_cache ttl capacity) past) k.account_id k.request_id t).0
          calls)
        k.account_id
        k.request_id
        t').1
      ≡ duplicate
unfolding new_cache
check_and_store_once ttl capacity past k t calls t' first early soon =
    let start = new_cache ttl capacity in
    let c = check_all start past in
    let v = check_all-Inv start past (new_cache-Inv ttl capacity) in
    let same : c.ttl ≡ ttl = (check_all_limits start past).2 in
    duplicate_of_Holds k (t + ttl) t' _
      (check_all-Inv _ calls (check_and_store-Inv c k.account_id k.request_id t v)) soon
      (check_all-Holds k (t + ttl) _ calls early (
        subst (λ n. Holds k (t + n) (check_and_store c k.account_id k.request_id t).0) same
          (Holds-of_accepted c k t first)))
