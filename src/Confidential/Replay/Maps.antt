-- ===== src/Confidential/Replay/Maps.antt =====
-- The laws of the replay cache's two maps.
use dappnode_nexus_gateway.Common.{
  ℕ, ◌≡◌, refl, String, Bool, true, false, List, [], ◌∷◌, arith, eq_iff, any, ◌==◌, string_eq,
  if◌then◌else◌, ◌↔◌, leb, length, Bool-cases, inl, inr,
}
use dappnode_nexus_gateway.Common.Int.{ℤ, pos, pred_ℤ, leb_ℤ, int_beq_iff}
use dappnode_nexus_gateway.Confidential.Replay.{
  ReplayKey, same_key, delete_key, account_count, set_account, delete_account, release_account,
  ReplayCache, ReplayResult, admit, store, accepted, duplicate, capacity_reached,
  account_capacity_reached,
}

pub same_key_iff : (j k : ReplayKey) → (same_key j k ≡ true) ↔ (j ≡ k)
same_key_iff j k =
    ground (arith, eq_iff j.account_id k.account_id, eq_iff j.request_id k.request_id)

pub same_key_refl : (k : ReplayKey) → same_key k k ≡ true
same_key_refl k = (same_key_iff k k).1 refl

abbrev pub has_key : ReplayKey → List ReplayKey → Bool
has_key k = any (λ j. same_key j k)

pub delete_key_absent :
    (k : ReplayKey) (ks : List ReplayKey) → has_key k ks ≡ false → delete_key k ks ≡ ks
delete_key_absent k [] h = refl
delete_key_absent k (j ∷ ks) h = ground (arith, delete_key_absent k ks)

pub delete_key_front :
    (k : ReplayKey) (ks : List ReplayKey) → has_key k ks ≡ false → delete_key k (k ∷ ks) ≡ ks
delete_key_front k ks h = ground (arith, same_key_refl k, delete_key_absent k ks h)

pub account_count-set_account :
    (a b : String) (n : ℤ) (m : List (String × ℤ))
    → account_count a (set_account b n m) ≡ (if b == a then n else account_count a m)
unfolding account_count set_account
account_count-set_account a b n [] = refl
account_count-set_account a b n ((i, k) ∷ m) =
    ground (arith, eq_iff b a, eq_iff i a, eq_iff i b, account_count-set_account a b n m)

pub account_count-delete_account :
    (a b : String) (m : List (String × ℤ))
    → account_count a (delete_account b m) ≡ (if b == a then pos 0 else account_count a m)
unfolding account_count delete_account
account_count-delete_account a b [] = ground arith
account_count-delete_account a b ((i, k) ∷ m) =
    ground (arith, eq_iff b a, eq_iff i a, eq_iff i b, account_count-delete_account a b m)

-- The counter of one account goes down by one, and the others stay.
pub account_count-release_account :
    (a b : String) (m : List (String × ℤ))
    → account_count a (release_account b m)
      ≡ (if b == a then pred_ℤ (account_count b m) else account_count a m)
unfolding release_account
account_count-release_account a b m = ground (
  arith,
  eq_iff b a,
  eq_iff b b,
  account_count-set_account a b (pred_ℤ (account_count b m)) m,
  account_count-set_account b b (pred_ℤ (account_count b m)) m,
  account_count-delete_account a b (set_account b (pred_ℤ (account_count b m)) m),
  int_beq_iff (pred_ℤ (account_count b m)) (pos 0),
)

-- The four ways a call can be decided, each with the tests that lead to it.
pub admit_cases {ℓ} :
    (P : ReplayCache × ReplayResult → Type ℓ) (c : ReplayCache) (k : ReplayKey) (now : ℕ)
    → (has_key k c.entries ≡ true → P (c, duplicate))
    → (has_key k c.entries ≡ false
        → leb_ℤ (pos c.account_capacity) (account_count k.account_id c.accounts) ≡ true
        → P (c, account_capacity_reached))
    → (has_key k c.entries ≡ false
        → leb_ℤ (pos c.account_capacity) (account_count k.account_id c.accounts) ≡ false
        → leb c.capacity (length c.entries) ≡ true
        → P (c, capacity_reached))
    → (has_key k c.entries ≡ false
        → leb_ℤ (pos c.account_capacity) (account_count k.account_id c.accounts) ≡ false
        → leb c.capacity (length c.entries) ≡ false
        → P (store c k now, accepted))
    → P (admit c k now)
unfolding admit
admit_cases P c k now seen full all_full fits = elim (Bool-cases (has_key k c.entries)) [
  | inl s ↦ rw s (seen s)
  | inr f ↦
      elim (Bool-cases (leb_ℤ (pos c.account_capacity) (account_count k.account_id c.accounts))) [
        | inl g ↦ rw (f, g) (full f g)
        | inr g ↦ elim (Bool-cases (leb c.capacity (length c.entries))) [
          | inl h ↦ rw (f, g, h) (all_full f g h)
          | inr h ↦ rw (f, g, h) (fits f g h)
        ]
      ]
]
