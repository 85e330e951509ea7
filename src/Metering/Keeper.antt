-- ===== src/Metering/Keeper.antt =====
-- The keeper of a credit hold: `KeepReservation` and `rejectedByMetering` of reservation_lease.go.
-- Times are nanoseconds. One round of its loop is a record of what the loop reads: the clock, how
-- the wait ends, Metering's answer, and whether the context is still live when the hold is lost.
use dappnode_nexus_gateway.Common.{
  ℕ, ◌/◌, ◌≤◌, ◌≡◌, refl, sym, subst, ap, ◌∙◌, ◌⊎◌, ◌<◌, ◌≢◌, eq_iff, inl, inr, String, Bool, true,
  false, ◌&&◌, List, [], ◌∷◌, Option, none, some, if◌then◌else◌, ◌==◌, string_eq, min, max, leb,
  ltb, Bool-cases, Option-cases, arith,
}
use dappnode_nexus_gateway.Common.Int.{ℤ, pos, pos_part, ltb_ℤ, leb_ℤ}
use dappnode_nexus_gateway.Domain.Error.{
  Error, GatewayError, Meta, int, str, other, Result, Result-cases, ok, err, as_gateway, meta_get,
}
use dappnode_nexus_gateway.Metering.Client.Payload.{ReserveResponse}
use dappnode_nexus_gateway.Metering.Client.Reservations.{Lease, new_lease}

abbrev is_client_error : Option Meta → Bool
is_client_error none = false
is_client_error (some (int n)) = leb_ℤ (pos 400) n && ltb_ℤ n (pos 500)
is_client_error (some (str s)) = false
is_client_error (some other) = false

pub rejected_by_metering : Error → Bool
rejected_by_metering e = elim (as_gateway e) [
  | none ↦ false
  | some g ↦ is_client_error (meta_get "metering_status" g.metadata)
]

-- How long a round waits, with `remaining` nanoseconds left of a lease that began with `length`; a
-- tenth of a negative length is below any wait.
pub renewal_wait : ℤ → ℕ → ℕ
renewal_wait length remaining =
    min (max (remaining / 3) (min 1_000_000_000 (pos_part length / 10))) remaining

-- `woken` is the clock when the timer has fired, or `none` if the context ended the wait.
pub record Round : Type 0 where
  pub started : ℕ
  pub woken : Option ℕ
  pub sent : ℕ
  pub answer : Result ReserveResponse
  pub live : Bool

-- What the rounds come to: the lease is still kept, `onLost` was called, or the keeper has ended
-- without calling it.
pub data Kept : Type 0 where
  keeping : Lease → Kept
  lost : Kept
  stopped : Kept

-- `lost()`.
abbrev lose : Bool → Kept
lose live = if live then lost else stopped

-- A renewal that was answered: the lease that is held from then on.
unfoldable pub renew : String → Lease → ℕ → ReserveResponse → Lease
renew id held sent result =
    if result.reservation_id == id && ltb_ℤ (pos 0) result.lease_ms
    then (let renewed = new_lease sent result.lease_ms in
        if ltb held.expires renewed.expires then renewed else held)
    else held

module _ (id : String) where
  pub keep : Lease → List Round → Kept
  unfolding renew rejected_by_metering
  keep held [] = keeping held
  keep held (r ∷ rs) =
      let same = keep held rs in
      if leb held.expires r.started then lose r.live else elim r.woken [
        | none ↦ stopped
        | some now ↦ if leb held.expires now then same else elim r.answer [
          | ok result ↦ keep (renew id held r.sent result) rs
          | err e ↦ if rejected_by_metering e then lose r.live else same
        ]
      ]

-- Metering answered that the hold is gone: with a status from 400 to 499.
abbrev pub IsRejected : Result ReserveResponse → Type 0
IsRejected r =
    (e : Error) × ((r ≡ err e)
      × ((g : GatewayError) × ((as_gateway e ≡ some g)
            × ((n : ℤ) × ((meta_get "metering_status" g.metadata ≡ some (int n))
                  × ((leb_ℤ (pos 400) n ≡ true) × (ltb_ℤ n (pos 500) ≡ true)))))))

-- The lease that is held has expired, or Metering has rejected a renewal that was asked in time.
abbrev pub IsGone : Lease → Round → Type 0
IsGone held r =
    (held.expires ≤ r.started)
    ⊎ ((now : ℕ) × ((r.woken ≡ some now) × ((now < held.expires) × IsRejected r.answer)))

-- What an answer to a renewal that was sent at a time leaves of the lease: a new one, if it is for
-- this hold, of a positive length, and ends later; otherwise the same.
abbrev pub IsAnswered : String → Lease → ℕ → ReserveResponse → Lease → Type 0
IsAnswered id held sent result later =
    ((result.reservation_id ≡ id)
      × ((1 ≤ pos_part result.lease_ms)
          × ((held.expires < (new_lease sent result.lease_ms).expires)
              × (later ≡ new_lease sent result.lease_ms))))
    ⊎ ((later ≡ held)
        × ((result.reservation_id ≢ id)
            ⊎ ((pos_part result.lease_ms ≡ 0)
                ⊎ ((new_lease sent result.lease_ms).expires ≤ held.expires))))

-- A round after which the hold is kept on, with the lease that is held then.
abbrev pub IsNext : String → Lease → Round → Lease → Type 0
IsNext id held r later =
    (r.started < held.expires)
    × ((now : ℕ) × ((r.woken ≡ some now)
          × (((later ≡ held) × (held.expires ≤ now))
              ⊎ ((now < held.expires)
                  × (((later ≡ held) × ((e : Error) × ((r.answer ≡ err e) × ¬ IsRejected r.answer)))
                      ⊎ ((result : ReserveResponse) × ((r.answer ≡ ok result)
                            × IsAnswered id held r.sent result later)))))))

abbrev pub IsKept : String → Lease → List Round → Kept → Type 0
IsKept id held [] k = k ≡ keeping held
IsKept id held (r ∷ rounds) k =
    (IsGone held r × (((r.live ≡ true) × (k ≡ lost)) ⊎ ((r.live ≡ false) × (k ≡ stopped))))
    ⊎ (((r.started < held.expires) × ((r.woken ≡ none) × (k ≡ stopped)))
        ⊎ ((later : Lease) × (IsNext id held r later × IsKept id later rounds k)))

client_error :
    (o : Option Meta)
    → is_client_error o ≡ true
    → (n : ℤ) × ((o ≡ some (int n)) × ((leb_ℤ (pos 400) n ≡ true) × (ltb_ℤ n (pos 500) ≡ true)))
client_error none h = absurd (ground (arith, h))
client_error (some (int n)) h = (n, (refl, (ground (arith, h), ground (arith, h))))
client_error (some (str s)) h = absurd (ground (arith, h))
client_error (some other) h = absurd (ground (arith, h))

rejection_shown :
    (r : Result ReserveResponse) (e : Error)
    → r ≡ err e
    → rejected_by_metering e ≡ true
    → IsRejected r
unfolding rejected_by_metering
rejection_shown r e failed h = elim (Option-cases (as_gateway e)) [
  | inl plain ↦ absurd (ground (arith, h, plain))
  | inr (g, is_gateway) ↦
      let status : is_client_error (meta_get "metering_status" g.metadata) ≡ true =
        ground (arith, h, is_gateway) in
      (e, (failed, (g, (is_gateway, client_error _ status))))
]

error_of : {A : Type 0} → Error → Result A → Error
error_of default (err e) = e
error_of default (ok a) = default

IsRejected-rejected :
    (r : Result ReserveResponse) (e : Error)
    → r ≡ err e
    → IsRejected r
    → rejected_by_metering e ≡ true
unfolding rejected_by_metering error_of
IsRejected-rejected r e failed (f, (same, (g, (is_gateway, (n, (status, (low, high))))))) =
    let as_error : f ≡ e = ap (error_of f) (sym same ∙ failed) in
    let as_gateway_e : as_gateway e ≡ some g =
      subst (λ x. as_gateway x ≡ some g) as_error is_gateway in
    rw (as_gateway_e, status, low, high, rejected_by_metering) refl

renew-IsAnswered :
    (id : String) (held : Lease) (sent : ℕ) (result : ReserveResponse)
    → IsAnswered id held sent result (renew id held sent result)
unfolding renew
renew-IsAnswered id held sent result = elim (Bool-cases (result.reservation_id == id)) [
  | inr foreign ↦
      rw (foreign, renew)
        (inr (refl, inl (ground (arith, foreign, eq_iff result.reservation_id id))))
  | inl same ↦ elim (Bool-cases (ltb_ℤ (pos 0) result.lease_ms)) [
    | inr unleased ↦ rw (same, unleased, renew) (inr (refl, inr (inl (ground (arith, unleased)))))
    | inl leased ↦ elim (Bool-cases (ltb held.expires (new_lease sent result.lease_ms).expires)) [
      | inl longer ↦
          rw (same, leased, longer, renew)
            (inl (
              (eq_iff result.reservation_id id).0 same,
              (ground (arith, leased), (ground (arith, longer), refl)),
            ))
      | inr shorter ↦
          rw (same, leased, shorter, renew) (inr (refl, inr (inr (ground (arith, shorter)))))
    ]
  ]
]

lose_cases :
    (live : Bool) → ((live ≡ true) × (lose live ≡ lost)) ⊎ ((live ≡ false) × (lose live ≡ stopped))
lose_cases true = inl (refl, refl)
lose_cases false = inr (refl, refl)

-- Whatever the rounds: the keeper goes on as long as each round starts before the expiry of the lease
-- that is held then, which is the first one or the last renewal that prolonged it (an answer for this
-- hold with a positive length that ends later), and Metering does not reject a renewal; in the first
-- round that starts later or has a renewal rejected (asked before the expiry and answered with a status
-- from 400 to 499), the loss of the hold is reported if the context is live, and the keeper ends
-- silently if not, as it does if the context ends its wait.
pub keep-IsKept :
    (id : String) (held : Lease) (rounds : List Round) → IsKept id held rounds (keep id held rounds)
unfolding keep
keep-IsKept id held [] = refl
keep-IsKept id held (r ∷ rs) = elim (Bool-cases (leb held.expires r.started)) [
  | inl expired ↦
      by_result (lose r.live) (ground (arith, expired))
        (inl (inl (ground (arith, expired)), lose_cases r.live))
  | inr valid ↦
      let before : r.started < held.expires = ground (arith, valid) in
      elim (Option-cases r.woken) [
        | inl ended ↦
            by_result stopped (ground (arith, valid, ended)) (inr (inl (before, (ended, refl))))
        | inr (now, fired) ↦ elim (Bool-cases (leb held.expires now)) [
          | inl late ↦ by_result (keep id held rs) (ground (arith, valid, fired, late)) (
              inr (
                inr (
                  held,
                  (
                    (before, (now, (fired, inl (refl, ground (arith, late))))),
                    keep-IsKept id held rs,
                  ),
                )))
          | inr early ↦
              let in_time : now < held.expires = ground (arith, early) in
              elim (Result-cases r.answer) [
                | inr (result, answer) ↦
                    let later = renew id held r.sent result in
                    by_result (keep id later rs) (ground (arith, valid, fired, early, answer)) (
                      inr (
                        inr (
                          later,
                          (
                            (
                              before,
                              (
                                now,
                                (
                                  fired,
                                  inr (
                                    in_time,
                                    inr (result, (answer, renew-IsAnswered id held r.sent result)),
                                  ),
                                ),
                              ),
                            ),
                            keep-IsKept id later rs,
                          ),
                        )))
                | inl (e, failed) ↦ elim (Bool-cases (rejected_by_metering e)) [
                  | inl gone ↦
                      by_result (lose r.live) (ground (arith, valid, fired, early, failed, gone)) (
                        inl (
                          inr (now, (fired, (in_time, rejection_shown r.answer e failed gone))),
                          lose_cases r.live,
                        ))
                  | inr transient ↦
                      by_result (keep id held rs)
                        (ground (arith, valid, fired, early, failed, transient))
                        (inr (
                          inr (
                            held,
                            (
                              (
                                before,
                                (
                                  now,
                                  (
                                    fired,
                                    inr (
                                      in_time,
                                      inl (refl, (e, (failed, not_rejected e failed transient))),
                                    ),
                                  ),
                                ),
                              ),
                              keep-IsKept id held rs,
                            ),
                          )))
                ]
              ]
        ]
      ]
]
  where
    by_result :
        (k : Kept)
        → keep id held (r ∷ rs) ≡ k
        → IsKept id held (r ∷ rs) k
        → IsKept id held (r ∷ rs) (keep id held (r ∷ rs))
    by_result k e h = subst (IsKept id held (r ∷ rs)) (sym e) h

    not_rejected :
        (e : Error) → r.answer ≡ err e → rejected_by_metering e ≡ false → ¬ IsRejected r.answer
    not_rejected e failed transient gone =
        absurd (ground (arith, transient, IsRejected-rejected r.answer e failed gone))
