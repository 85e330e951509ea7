-- ===== src/Confidential/Replay/Invariant.antt =====
-- What holds of the replay cache after every call.
use dappnode_nexus_gateway.Common.{
  ℕ, ◌+◌, ◌≤◌, ◌<◌, ◌≡◌, refl, ◌∙◌, String, false, List, [], ◌∷◌, ◌++◌, map, min, ltb, arith,
  eq_iff, length, length-append, count, count-append, any-append, ◌==◌, string_eq, subst,
  Bool-cases, inl, inr,
}
use dappnode_nexus_gateway.Common.Int.{pos, suc_ℤ}
use mathlib.Core.List.{map-append}
use dappnode_nexus_gateway.Confidential.Replay.{
  ReplayCache, ReplayKey, ReplayEntry, account_count, same_key, delete_key, new_cache, remove_front,
  purge_from, purge, store, admit, check_and_store, check_all, replay_account_capacity,
}
use dappnode_nexus_gateway.Confidential.Replay.Maps.{
  has_key, admit_cases, same_key_iff, delete_key_front, account_count-release_account,
  account_count-set_account,
}

abbrev pub Distinct : List ReplayKey → Type 0
Distinct [] = Unit
Distinct (k ∷ ks) = (has_key k ks ≡ false) × Distinct ks

abbrev pub keys : List ReplayEntry → List ReplayKey
keys = map (λ e. e.key)

abbrev pub account_keys : String → List ReplayKey → ℕ
account_keys a = count (λ k. k.account_id == a)

pub record Inv (c : ReplayCache) : Type 0 where
  pub same : c.entries ≡ keys c.expirations
  pub distinct : Distinct c.entries
  pub counted : (a : String) → account_count a c.accounts ≡ pos (account_keys a c.entries)
  pub bounded : length c.entries ≤ c.capacity
  pub account_bounded : (a : String) → account_keys a c.entries ≤ c.account_capacity

pub new_cache-Inv : (ttl capacity : ℕ) → Inv (new_cache ttl capacity)
unfolding new_cache account_count
new_cache-Inv ttl capacity = record {
  same = refl;
  distinct = tt;
  counted = λ a. refl;
  bounded = omega arith;
  account_bounded = λ a. omega arith;
}

pub remove_front_expirations :
    (c : ReplayCache) (e : ReplayEntry) (rest : List ReplayEntry)
    → (remove_front c e rest).expirations ≡ rest
unfolding remove_front
remove_front_expirations c e rest = refl

module _ (c : ReplayCache) (e : ReplayEntry) (rest : List ReplayEntry) where
  remove_front-Inv : Inv c → c.expirations ≡ e ∷ rest → Inv (remove_front c e rest)
  unfolding remove_front
  remove_front-Inv v h =
      let listed : c.entries ≡ e.key ∷ keys rest = ground (arith, v.same) in
      let (fresh, distinct) = subst Distinct listed v.distinct in
      let left : delete_key e.key c.entries ≡ keys rest =
        rw listed (delete_key_front e.key (keys rest) fresh) in
      record {
        same = left;
        distinct = rw left distinct;
        counted = λ a. ground (
          arith,
          left,
          listed,
          v.counted a,
          v.counted e.key.account_id,
          eq_iff e.key.account_id a,
          eq_iff e.key.account_id e.key.account_id,
          account_count-release_account a e.key.account_id c.accounts,
        );
        bounded = ground (arith, left, listed, v.bounded);
        account_bounded = λ a. ground (arith, left, listed, v.account_bounded a);
      }

pub purge_from-Inv :
    (c : ReplayCache) (es : List ReplayEntry) (now : ℕ)
    → Inv c
    → c.expirations ≡ es
    → Inv (purge_from c es now)
unfolding purge_from
purge_from-Inv c [] now v h = v
purge_from-Inv c (e ∷ rest) now v h = elim (Bool-cases (ltb now e.expires_at)) [
  | inl live ↦ rw live v
  | inr expired ↦ rw expired (
      purge_from-Inv (remove_front c e rest) rest now (remove_front-Inv c e rest v h)
        (remove_front_expirations c e rest))
]

pub purge-Inv : (c : ReplayCache) (now : ℕ) → Inv c → Inv (purge c now)
unfolding purge
purge-Inv c now v = purge_from-Inv c c.expirations now v refl

Distinct-append :
    (ks : List ReplayKey) (k : ReplayKey)
    → Distinct ks
    → has_key k ks ≡ false
    → Distinct (ks ++ k ∷ [])
Distinct-append [] k d h = (refl, tt)
Distinct-append (j ∷ ks) k (fresh, d) h = (
  ground (arith, any-append (λ i. same_key i j) ks (k ∷ []), same_key_iff j k, same_key_iff k j),
  Distinct-append ks k d (ground (arith, h)),
)

module _ (c : ReplayCache) (k : ReplayKey) (now : ℕ) where
  pub store-Inv :
      Inv c
      → has_key k c.entries ≡ false
      → length c.entries < c.capacity
      → account_keys k.account_id c.entries < c.account_capacity
      → Inv (store c k now)
  unfolding store
  store-Inv v fresh room account_room = record {
    same = ground (
      arith,
      v.same,
      fresh,
      map-append (λ (e : ReplayEntry). e.key) c.expirations
          (record { key = k; expires_at = now + c.ttl } ∷ []),
    );
    distinct = rw fresh (Distinct-append c.entries k v.distinct fresh);
    counted = λ a. ground (
      arith,
      fresh,
      v.counted a,
      v.counted k.account_id,
      eq_iff k.account_id a,
      eq_iff k.account_id k.account_id,
      count-append (λ (j : ReplayKey). j.account_id == a) c.entries (k ∷ []),
      account_count-set_account a k.account_id (suc_ℤ (account_count k.account_id c.accounts))
          c.accounts,
    );
    bounded = rw fresh (omega (arith, length-append c.entries (k ∷ [])));
    account_bounded = λ a. ground (
      arith,
      fresh,
      v.account_bounded a,
      eq_iff k.account_id a,
      count-append (λ (j : ReplayKey). j.account_id == a) c.entries (k ∷ []),
    );
  }

  pub admit-Inv : Inv c → Inv (admit c k now).0
  admit-Inv v =
      admit_cases (λ r. Inv r.0) c k now (λ _. v) (λ _ _. v) (λ _ _ _. v)
        λ fresh room fits. store-Inv v fresh (ground arith) (ground (arith, v.counted k.account_id))

pub check_and_store-Inv :
    (c : ReplayCache) (a r : String) (now : ℕ) → Inv c → Inv (check_and_store c a r now).0
unfolding check_and_store
check_and_store-Inv c a r now v = admit-Inv (purge c now) _ now (purge-Inv c now v)

pub check_all-Inv :
    (c : ReplayCache) (calls : List (ReplayKey × ℕ)) → Inv c → Inv (check_all c calls)
unfolding check_all
check_all-Inv c [] v = v
check_all-Inv c ((k, now) ∷ calls) v =
    check_all-Inv (check_and_store c k.account_id k.request_id now).0 calls
      (check_and_store-Inv c k.account_id k.request_id now v)

pub purge_from_limits :
    (c : ReplayCache) (es : List ReplayEntry) (now : ℕ)
    → ((purge_from c es now).capacity ≡ c.capacity)
      × ((purge_from c es now).account_capacity ≡ c.account_capacity)
      × ((purge_from c es now).ttl ≡ c.ttl)
unfolding purge_from remove_front
purge_from_limits c [] now = (refl, refl, refl)
purge_from_limits c (e ∷ rest) now =
    ground (arith, purge_from_limits (remove_front c e rest) rest now)

pub admit_limits :
    (c : ReplayCache) (k : ReplayKey) (now : ℕ)
    → ((admit c k now).0.capacity ≡ c.capacity)
      × ((admit c k now).0.account_capacity ≡ c.account_capacity)
      × ((admit c k now).0.ttl ≡ c.ttl)
unfolding admit store
admit_limits c k now = ground arith

-- No call changes the limits.
pub check_and_store_limits :
    (c : ReplayCache) (k : ReplayKey) (now : ℕ)
    → ((check_and_store c k.account_id k.request_id now).0.capacity ≡ c.capacity)
      × ((check_and_store c k.account_id k.request_id now).0.account_capacity ≡ c.account_capacity)
      × ((check_and_store c k.account_id k.request_id now).0.ttl ≡ c.ttl)
unfolding check_and_store purge
check_and_store_limits c k now =
    let p = purge_from_limits c c.expirations now in
    let q = admit_limits (purge_from c c.expirations now) k now in (q.0 ∙ p.0, q.1 ∙ p.1, q.2 ∙ p.2)

pub check_all_limits :
    (c : ReplayCache) (calls : List (ReplayKey × ℕ))
    → ((check_all c calls).capacity ≡ c.capacity)
      × ((check_all c calls).account_capacity ≡ c.account_capacity)
      × ((check_all c calls).ttl ≡ c.ttl)
unfolding check_all
check_all_limits c [] = (refl, refl, refl)
check_all_limits c ((k, now) ∷ calls) =
    let p = check_and_store_limits c k now in
    let q = check_all_limits (check_and_store c k.account_id k.request_id now).0 calls in
    (q.0 ∙ p.0, q.1 ∙ p.1, q.2 ∙ p.2)

-- Whatever calls reach a fresh cache, at whatever times, it holds at most `capacity` request IDs,
-- at most min(capacity, 10000) of any one account, no ID twice, and its per-account counters equal
-- the number of IDs that it holds for the account.
pub check_all-new_cache-bounded :
    (ttl capacity : ℕ) (calls : List (ReplayKey × ℕ))
    → let c = check_all (new_cache ttl capacity) calls in
      (length c.entries ≤ capacity)
      × ((a : String) → account_keys a c.entries ≤ min capacity replay_account_capacity)
      × Distinct c.entries
      × ((a : String) → account_count a c.accounts ≡ pos (account_keys a c.entries))
unfolding new_cache
check_all-new_cache-bounded ttl capacity calls =
    let v = check_all-Inv (new_cache ttl capacity) calls (new_cache-Inv ttl capacity) in
    let q = check_all_limits (new_cache ttl capacity) calls in
    (rw (q.0) at v.bounded, λ a. rw (q.1) at (v.account_bounded a), v.distinct, v.counted)
