-- ===== src/Confidential/Replay/Refinement.antt =====
-- The replay cache against a record of every accepted request that forgets nothing: under a clock
-- that does not go back the two give the same answers.
use dappnode_nexus_gateway.Common.{
  ℕ, ◌+◌, ◌≤◌, ◌<◌, ◌≡◌, refl, sym, ap, ◌∙◌, Bool, List, [], ◌∷◌, ◌++◌, ltb, leb, arith, filter,
  length, string_eq, if◌then◌else◌, inl, inr, Bool-cases, All, All-append, min,
}
use dappnode_nexus_gateway.Common.Int.{pos, leb_ℤ}
use mathlib.Core.Path.{ap₂}
use dappnode_nexus_gateway.Confidential.Replay.{
  ReplayCache, ReplayKey, ReplayEntry, ReplayResult, purge_from, purge, remove_front, admit,
  check_and_store, store, accepted, duplicate, capacity_reached, account_capacity_reached,
  new_cache, answers, account_count, replay_account_capacity,
}
use dappnode_nexus_gateway.Confidential.Replay.Maps.{has_key, admit_cases}
use dappnode_nexus_gateway.Confidential.Replay.Invariant.{
  Inv, keys, account_keys, purge-Inv, new_cache-Inv, store-Inv, remove_front_expirations,
  purge_from_limits,
}

abbrev live : ℕ → List ReplayEntry → List ReplayEntry
live now = filter (λ e. ltb now e.expires_at)

-- The specification: `seen` holds every accepted request; those that have not expired count.
module _ (ttl capacity account_capacity : ℕ) where
  spec_check : List ReplayEntry → ReplayKey → ℕ → List ReplayEntry × ReplayResult
  spec_check seen k now =
      if has_key k (keys (live now seen))
      then (seen, duplicate)
      else if leb account_capacity (account_keys k.account_id (keys (live now seen)))
      then (seen, account_capacity_reached)
      else if leb capacity (length (keys (live now seen)))
      then (seen, capacity_reached)
      else (seen ++ record { key = k; expires_at = now + ttl } ∷ [], accepted)

  pub spec_answers : List ReplayEntry → List (ReplayKey × ℕ) → List ReplayResult
  spec_answers seen [] = []
  spec_answers seen ((k, now) ∷ calls) =
      let (seen', result) = spec_check seen k now in result ∷ spec_answers seen' calls

-- The clock readings do not go back.
abbrev pub IsMonotone : ℕ → List (ReplayKey × ℕ) → Type 0
IsMonotone last [] = Unit
IsMonotone last ((k, now) ∷ calls) = (last ≤ now) × IsMonotone now calls

-- Entries expire in order.
abbrev IsSorted : List ReplayEntry → Type 0
IsSorted [] = Unit
IsSorted (e ∷ es) = All (λ d. e.expires_at ≤ d.expires_at) es × IsSorted es

live-All :
    (now : ℕ) (e : ReplayEntry) (es : List ReplayEntry)
    → now < e.expires_at
    → All (λ d. e.expires_at ≤ d.expires_at) es
    → live now es ≡ es
live-All now e [] h _ = refl
live-All now e (d ∷ es) h (p, q) = ground (arith, live-All now e es h q)

purge_from-live :
    (c : ReplayCache) (es : List ReplayEntry) (now : ℕ)
    → c.expirations ≡ es
    → IsSorted es
    → (purge_from c es now).expirations ≡ live now es
unfolding purge_from
purge_from-live c [] now same _ = same
purge_from-live c (e ∷ rest) now same (first, sorted) = elim (Bool-cases (ltb now e.expires_at)) [
  | inl h ↦ rw h (same ∙ ap (◌∷◌ e) (sym (live-All now e rest (ground arith) first)))
  | inr h ↦
      rw h (
        purge_from-live (remove_front c e rest) rest now (remove_front_expirations c e rest) sorted)
]

live-live : (now t : ℕ) (es : List ReplayEntry) → now ≤ t → live t (live now es) ≡ live t es
live-live now t [] h = refl
live-live now t (e ∷ es) h = ground (arith, live-live now t es h)

live-append : (t : ℕ) (xs ys : List ReplayEntry) → live t (xs ++ ys) ≡ live t xs ++ live t ys
live-append t [] ys = refl
live-append t (e ∷ xs) ys = ground (arith, live-append t xs ys)

All-live :
    (now : ℕ) (P : ReplayEntry → Type 0) (es : List ReplayEntry) → All P es → All P (live now es)
All-live now P [] h = tt
All-live now P (e ∷ es) (p, h) = ground (arith, All-live now P es h)

IsSorted-live : (now : ℕ) (es : List ReplayEntry) → IsSorted es → IsSorted (live now es)
IsSorted-live now [] _ = tt
IsSorted-live now (e ∷ es) (p, h) =
    ground (arith, IsSorted-live now es h, All-live now (λ d. e.expires_at ≤ d.expires_at) es p)

IsSorted-append :
    (es : List ReplayEntry) (e : ReplayEntry)
    → All (λ d. d.expires_at ≤ e.expires_at) es
    → IsSorted es
    → IsSorted (es ++ e ∷ [])
IsSorted-append [] e _ _ = (tt, tt)
IsSorted-append (d ∷ es) e (p, ps) (first, sorted) = (
  All-append (λ x. d.expires_at ≤ x.expires_at) es (e ∷ []) first (p, tt),
  IsSorted-append es e ps sorted,
)

All-le :
    (a b : ℕ) (es : List ReplayEntry)
    → a ≤ b
    → All (λ d. d.expires_at ≤ a) es
    → All (λ d. d.expires_at ≤ b) es
All-le a b [] h _ = tt
All-le a b (e ∷ es) h (p, ps) = (omega arith, All-le a b es h ps)

-- The cache after the calls up to `last`, against what the specification has seen.
record Agrees (ttl capacity account_capacity last : ℕ) (c : ReplayCache) (seen : List ReplayEntry)
    : Type 0 where
  valid : Inv c
  ttl_same : c.ttl ≡ ttl
  capacity_same : c.capacity ≡ capacity
  account_same : c.account_capacity ≡ account_capacity
  sorted : IsSorted c.expirations
  recent : All (λ e. e.expires_at ≤ last + ttl) c.expirations
  same_live : (t : ℕ) → last ≤ t → live t c.expirations ≡ live t seen

purge-live :
    (c : ReplayCache) (now : ℕ)
    → IsSorted c.expirations
    → (purge c now).expirations ≡ live now c.expirations
unfolding purge
purge-live c now sorted = purge_from-live c c.expirations now refl sorted

module _ (ttl capacity account_capacity : ℕ) where
  purge-Agrees :
      (last now : ℕ) (c : ReplayCache) (seen : List ReplayEntry)
      → last ≤ now
      → Agrees ttl capacity account_capacity last c seen
      → Agrees ttl capacity account_capacity now (purge c now) seen
  unfolding purge
  purge-Agrees last now c seen h g =
      let p = purge_from_limits c c.expirations now in
      let kept = purge_from-live c c.expirations now refl g.sorted in
      record {
        valid = unfold purge in (purge-Inv c now g.valid);
        ttl_same = p.2 ∙ g.ttl_same;
        capacity_same = p.0 ∙ g.capacity_same;
        account_same = p.1 ∙ g.account_same;
        sorted = rw kept (IsSorted-live now c.expirations g.sorted);
        recent = rw kept (
            All-live now (λ e. e.expires_at ≤ now + ttl) c.expirations
              (All-le (last + ttl) (now + ttl) c.expirations (omega arith) g.recent));
        same_live = λ t le.
            ap (live t) kept ∙ live-live now t c.expirations le ∙ g.same_live t (omega arith);
      }

  module _ (now : ℕ) (k : ReplayKey) (c : ReplayCache) (seen : List ReplayEntry)
      (g : Agrees ttl capacity account_capacity now c seen) where
    store-Agrees :
        Inv (store c k now)
        → Agrees ttl capacity account_capacity now
            (store c k now)
            (seen ++ record { key = k; expires_at = now + ttl } ∷ [])
    unfolding store
    store-Agrees v = record {
      valid = v;
      ttl_same = g.ttl_same;
      capacity_same = g.capacity_same;
      account_same = g.account_same;
      sorted =
          IsSorted-append c.expirations (record { key = k; expires_at = now + c.ttl })
            (All-le (now + ttl) (now + c.ttl) c.expirations (omega (arith, g.ttl_same)) g.recent)
            g.sorted;
      recent =
          All-append (λ e. e.expires_at ≤ now + ttl) c.expirations
            (record { key = k; expires_at = now + c.ttl } ∷ []) g.recent
            (omega (arith, g.ttl_same), tt);
      same_live = λ t le.
          live-append t c.expirations (record { key = k; expires_at = now + c.ttl } ∷ [])
          ∙ ground (
            arith,
            g.ttl_same,
            g.same_live t le,
            live-append t seen (record { key = k; expires_at = now + ttl } ∷ []),
          );
    }

    abbrev Matches : ReplayCache × ReplayResult → Type 0
    Matches p =
        (p.1 ≡ (spec_check ttl capacity account_capacity seen k now).1)
        × Agrees ttl capacity account_capacity now p.0
            (spec_check ttl capacity account_capacity seen k now).0

    module _ (e : c.entries ≡ keys (live now seen)) where
      -- What the counter says, in the specification's terms.
      counter_test :
          {b : Bool}
          → leb_ℤ (pos c.account_capacity) (account_count k.account_id c.accounts) ≡ b
          → leb account_capacity (account_keys k.account_id c.entries) ≡ b
      counter_test h = ground (arith, h, g.valid.counted k.account_id, g.account_same)

      capacity_test :
          {b : Bool} → leb c.capacity (length c.entries) ≡ b → leb capacity (length c.entries) ≡ b
      capacity_test h = ground (arith, h, g.capacity_same)

      admit-Matches : Matches (admit c k now)
      unfolding spec_check
      admit-Matches =
          admit_cases Matches c k now (λ f. rw (← e, f) (refl, g))
            (λ f full. rw (← e, f, counter_test full) (refl, g))
            (λ f room full. rw (← e, f, counter_test room, capacity_test full) (refl, g))
            λ f room fits.
              rw (← e, f, counter_test room, capacity_test fits)
                (
                  refl,
                  store-Agrees (
                      store-Inv c k now g.valid f (ground (arith, fits))
                        (ground (arith, room, g.valid.counted k.account_id))),
                )

  check_and_store-Matches :
      (last now : ℕ) (k : ReplayKey) (c : ReplayCache) (seen : List ReplayEntry)
      → last ≤ now
      → Agrees ttl capacity account_capacity last c seen
      → ((check_and_store c k.account_id k.request_id now).1
          ≡ (spec_check ttl capacity account_capacity seen k now).1)
        × Agrees ttl capacity account_capacity now
            (check_and_store c k.account_id k.request_id now).0
            (spec_check ttl capacity account_capacity seen k now).0
  unfolding check_and_store
  check_and_store-Matches last now k c seen h g =
      let g' = purge-Agrees last now c seen h g in
      admit-Matches now k (purge c now) seen g'
        (g'.valid.same ∙ ap keys (purge-live c now g.sorted ∙ g.same_live now h))

  answers-Agrees :
      (last : ℕ) (c : ReplayCache) (seen : List ReplayEntry) (calls : List (ReplayKey × ℕ))
      → Agrees ttl capacity account_capacity last c seen
      → IsMonotone last calls
      → answers c calls ≡ spec_answers ttl capacity account_capacity seen calls
  unfolding answers spec_answers
  answers-Agrees last c seen [] g _ = refl
  answers-Agrees last c seen ((k, now) ∷ calls) g (h, later) =
      let (same, g') = check_and_store-Matches last now k c seen h g in
      ap₂ ◌∷◌ same (
        answers-Agrees now (check_and_store c k.account_id k.request_id now).0
          (spec_check ttl capacity account_capacity seen k now).0 calls g' later)

-- Under a clock that does not go back, a fresh cache answers every sequence of calls as the
-- specification does that keeps every accepted request for ever and counts those accepted less than
-- `ttl` ago: "duplicate" exactly if the request is among those, else the account's limit, else the
-- whole limit, else "accepted".
pub answers-new_cache :
    (ttl capacity last : ℕ) (calls : List (ReplayKey × ℕ))
    → IsMonotone last calls
    → answers (new_cache ttl capacity) calls
      ≡ spec_answers ttl capacity (min capacity replay_account_capacity) [] calls
unfolding new_cache
answers-new_cache ttl capacity last calls m =
    answers-Agrees ttl capacity (min capacity replay_account_capacity) last (new_cache ttl capacity)
      [] calls
      (record {
        valid = new_cache-Inv ttl capacity;
        ttl_same = refl;
        capacity_same = refl;
        account_same = refl;
        sorted = tt;
        recent = tt;
        same_live = λ t le. refl;
      })
      m
