-- ===== src/Metering/Client/Reservations.antt =====
-- Credit holds: `Reserve`, `RecordSuccess` and `RecordFailure` of client.go, `newLease` and
-- `rejectedByMetering` of reservation_lease.go. The unclaimed leases are an association list; times
-- are nanoseconds since year 1, which are more than 2 ^ 63, and a duration is an int64 that wraps.
use Prim.Native.String.{◌++◌}
use dappnode_nexus_gateway.Common.{
  ℕ, ◌+◌, ◌*◌, ◌-◌, ◌%◌, ◌<◌, ◌≤◌, ◌≡◌, ◌≢◌, refl, sym, subst, ltb, false, ◌⊎◌, inl, inr, String,
  true, List, [], ◌∷◌, Option, none, some, if◌then◌else◌, ◌==◌, string_eq, Bool-cases, arith,
  eq_iff,
}
use dappnode_nexus_gateway.Common.Int.{ℤ, pos, negsuc, pos_part, neg_part, ltb_ℤ}
use dappnode_nexus_gateway.Domain.Error.{Error, gateway, Result, Result-cases, ok, err, str}
use dappnode_nexus_gateway.Domain.Account.{AuthContext}
use dappnode_nexus_gateway.Domain.Model.{PublicModel}
use dappnode_nexus_gateway.Domain.Generation.{GenerateRequest, GenerateResult, Usage}
use dappnode_nexus_gateway.Metering.Contract.{metering_internal_error}
use dappnode_nexus_gateway.Metering.Client.{Exchange, request_json}
use dappnode_nexus_gateway.Metering.Client.Payload.{
  ReserveResponse, Payload, reserving, completing, failing, reserve_payload, complete_payload,
  failure_payload,
}

pub record Lease : Type 0 where
  pub expires : ℕ
  pub length : ℤ

abbrev reservations_path : String
reservations_path = "/internal/metering/reservations"

abbrev failures_path : String
failures_path = "/internal/metering/usage-failures"

abbrev millisecond : ℕ
millisecond = 1_000_000

-- An int64 from its 64 bits.
unfoldable signed : ℕ → ℤ
signed w =
    if ltb w 9_223_372_036_854_775_808 then pos w else negsuc (18_446_744_073_709_551_615 - w)

-- The source calls this with a positive number of milliseconds.
unfoldable pub new_lease : ℕ → ℤ → Lease
unfolding signed
new_lease sent ms =
    let length = signed (pos_part ms * millisecond % 18_446_744_073_709_551_616) in
    record { expires = sent + pos_part length - neg_part length; length = length }

abbrev pub Leases : Type 0
Leases = List (String × Lease)

-- `c.reservations.Store(id, lease)`.
unfoldable pub store_lease : String → Lease → Leases → Leases
store_lease id held [] = (id, held) ∷ []
store_lease id held ((j, l) ∷ ls) =
    let rest = store_lease id held ls in if j == id then (id, held) ∷ ls else (j, l) ∷ rest

-- The lease that is stored for a hold.
abbrev pub lease_of : String → Leases → Option Lease
lease_of id [] = none
lease_of id ((j, l) ∷ ls) = if j == id then some l else lease_of id ls

-- What Metering answers to each attempt of a request.
abbrev Server : Type 0 → Type 0
Server Body = String → String → Payload → ℕ → Exchange Body

module _ {Body : Type 0} (server : Server Body) (interrupted : ℕ → Option Error)
    (decode : Body → String ⊎ ReserveResponse) where
  -- The answer to a request for a hold that was sent at time `sent`.
  reserved_from : ℕ → Leases → Option ReserveResponse → Leases × Result String
  reserved_from sent leases none = (
    leases,
    err (
        gateway (
          metering_internal_error (
            ("cause", str "metering_bad_response")
            ∷ ("reason", str "missing reservation_id")
            ∷ []))),
  )
  reserved_from sent leases (some res) =
      if res.reservation_id == ""
      then (
        leases,
        err (
            gateway (
              metering_internal_error (
                ("cause", str "metering_bad_response")
                ∷ ("reason", str "missing reservation_id")
                ∷ []))),
      )
      else if ltb_ℤ (pos 0) res.lease_ms
      then (
        store_lease res.reservation_id (new_lease sent res.lease_ms) leases,
        ok res.reservation_id,
      )
      else (leases, ok res.reservation_id)

  pub reserve :
      Leases
      → ℕ
      → AuthContext
      → String
      → GenerateRequest
      → PublicModel
      → String
      → Leases × Result String
  unfolding reserved_from
  reserve leases sent auth endpoint req model reservation_request_id =
      let payload = reserving (reserve_payload auth endpoint req model reservation_request_id) in
      elim (request_json (server "POST" reservations_path payload) interrupted "POST"
        reservations_path (some decode) 2).1 [
          | err e ↦ (leases, err e)
          | ok res ↦ reserved_from sent leases res
        ]

  -- What Metering answers to a request for a hold, retries included.
  abbrev pub reserve_answer :
      AuthContext
      → String
      → GenerateRequest
      → PublicModel
      → String
      → Result (Option ReserveResponse)
  reserve_answer auth endpoint req model reservation_request_id =
      (request_json
        (server "POST" "/internal/metering/reservations"
          (reserving (reserve_payload auth endpoint req model reservation_request_id)))
        interrupted "POST" "/internal/metering/reservations" (some decode) 2).1

-- A lease of so many milliseconds from `sent`, unless these do not fit Go's durations.
abbrev pub IsLeased : ℕ → ℤ → Lease → Type 0
IsLeased sent ms lease =
    (9_223_372_036_854_775_808 ≤ pos_part ms * 1_000_000)
    ⊎ ((lease.length ≡ pos (pos_part ms * 1_000_000))
        × (lease.expires ≡ sent + pos_part ms * 1_000_000))

-- A hold has the lease it was given, if it was given one, and no other hold's lease has changed.
abbrev pub HasLease : ℕ → Leases → ReserveResponse → Leases → Type 0
HasLease sent leases res later =
    ((pos_part res.lease_ms ≡ 0) × (later ≡ leases))
    ⊎ ((1 ≤ pos_part res.lease_ms)
        × (((lease : Lease) × ((lease_of res.reservation_id later ≡ some lease)
                × IsLeased sent res.lease_ms lease))
            × ((other : String)
                → (other ≡ res.reservation_id) ⊎ (lease_of other later ≡ lease_of other leases))))

-- What a request for a hold comes to, by Metering's answer: its error; an error of its own, if the
-- answer has no ID; or the answer's ID, with its lease.
abbrev pub IsReserved :
    ℕ → Leases → Result (Option ReserveResponse) → Leases × Result String → Type 0
IsReserved sent leases (err e) outcome = outcome ≡ (leases, err e)
IsReserved sent leases (ok none) outcome =
    (outcome.0 ≡ leases) × ((e : Error) × (outcome.1 ≡ err e))
IsReserved sent leases (ok (some res)) outcome =
    ((res.reservation_id ≡ "") × ((outcome.0 ≡ leases) × ((e : Error) × (outcome.1 ≡ err e))))
    ⊎ ((res.reservation_id ≢ "")
        × ((outcome.1 ≡ ok res.reservation_id) × HasLease sent leases res outcome.0))

new_lease-IsLeased : (sent : ℕ) (ms : ℤ) → IsLeased sent ms (new_lease sent ms)
unfolding new_lease signed
new_lease-IsLeased sent ms =
    let n = pos_part ms * 1_000_000 in
    elim (Bool-cases (ltb n 9_223_372_036_854_775_808)) [
      | inr long ↦ inl (ground (arith, long))
      | inl fits ↦
          let small : n < 9_223_372_036_854_775_808 = ground (arith, fits) in
          let same : n % 18_446_744_073_709_551_616 ≡ n = omega (arith, small) in
          inr (rw (same, fits) (refl, omega arith))
    ]

lease_of-store_lease :
    (id : String) (held : Lease) (leases : Leases)
    → lease_of id (store_lease id held leases) ≡ some held
unfolding store_lease
lease_of-store_lease id held [] = rw ((eq_iff id id).1 refl) refl
lease_of-store_lease id held ((j, l) ∷ ls) =
    let same : (id == id) ≡ true = (eq_iff id id).1 refl in
    ground (arith, lease_of-store_lease id held ls, same)

lease_of-store_other :
    (id other : String) (held : Lease) (leases : Leases)
    → (id == other) ≡ false
    → lease_of other (store_lease id held leases) ≡ lease_of other leases
unfolding store_lease
lease_of-store_other id other held [] h = ground (arith, h)
lease_of-store_other id other held ((j, l) ∷ ls) h = elim (Bool-cases (j == id)) [
  | inl same ↦
      let apart : (j == other) ≡ false =
        subst (λ k. (k == other) ≡ false) (sym ((eq_iff j id).0 same)) h in
      rw (same, h, apart) refl
  | inr later ↦ rw (later, lease_of-store_other id other held ls h) refl
]

store_lease-others :
    (id other : String) (held : Lease) (leases : Leases)
    → (other ≡ id) ⊎ (lease_of other (store_lease id held leases) ≡ lease_of other leases)
store_lease-others id other held leases = elim (Bool-cases (id == other)) [
  | inl same ↦ inl (sym ((eq_iff id other).0 same))
  | inr apart ↦ inr (lease_of-store_other id other held leases apart)
]

module _ {Body : Type 0} (server : Server Body) (interrupted : ℕ → Option Error)
    (decode : Body → String ⊎ ReserveResponse) where
  reserved_from-IsReserved :
      (sent : ℕ) (leases : Leases) (res : Option ReserveResponse)
      → IsReserved sent leases (ok res) (reserved_from server interrupted decode sent leases res)
  unfolding reserved_from
  reserved_from-IsReserved sent leases none = (refl, (_, refl))
  reserved_from-IsReserved sent leases (some res) = elim (Bool-cases (res.reservation_id == "")) [
    | inl missing ↦
        rw (missing, reserved_from)
          (inl ((eq_iff res.reservation_id "").0 missing, (refl, (_, refl))))
    | inr named ↦
        let id : res.reservation_id ≢ "" = ground (arith, named, eq_iff res.reservation_id "") in
        elim (Bool-cases (ltb_ℤ (pos 0) res.lease_ms)) [
          | inl leased ↦
              rw (named, leased, reserved_from)
                (inr (
                  id,
                  (
                    refl,
                    inr (
                      ground (arith, leased),
                      (
                        (
                          new_lease sent res.lease_ms,
                          (
                            lease_of-store_lease res.reservation_id _ leases,
                            new_lease-IsLeased sent res.lease_ms,
                          ),
                        ),
                        λ other. store_lease-others res.reservation_id other _ leases,
                      ),
                    ),
                  ),
                ))
          | inr open_ended ↦
              rw (named, open_ended, reserved_from)
                (inr (id, (refl, inl (ground (arith, open_ended), refl))))
        ]
  ]

  -- If Metering's answer to the request for a hold, retries included, is an error, the reservation
  -- fails with it, and if it has no ID, with an error; no lease is stored then. Otherwise the
  -- reservation gives the answer's ID, and exactly if the answer has a lease of a positive number of
  -- milliseconds, a lease is stored under that ID, measured from when the request was sent (unless its
  -- length does not fit Go's durations); no other hold's lease changes.
  pub reserve-IsReserved :
      (leases : Leases) (sent : ℕ) (auth : AuthContext) (endpoint : String) (req : GenerateRequest)
      (model : PublicModel) (reservation_request_id : String)
      → IsReserved sent leases
          (reserve_answer server interrupted decode auth endpoint req model reservation_request_id)
          (reserve server interrupted decode leases sent auth endpoint req model
            reservation_request_id)
  unfolding reserve
  reserve-IsReserved leases sent auth endpoint req model reservation_request_id =
      let payload = reserving (reserve_payload auth endpoint req model reservation_request_id) in
      elim (Result-cases
        (request_json (server "POST" reservations_path payload) interrupted "POST" reservations_path
          (some decode) 2).1) [
            | inl (e, failed) ↦ rw (failed, reserve) refl
            | inr (res, answer) ↦ rw (answer, reserve) (reserved_from-IsReserved sent leases res)
          ]

-- The answers to accounting requests: a success reads a body and drops it, a failure reads none.
module _ {Body : Type 0} (server : Server Body) (interrupted : ℕ → Option Error) where
  pub record_success :
      {A : Type 0}
      → (Body → String ⊎ A)
      → String
      → GenerateResult
      → PublicModel
      → ℤ
      → List (Result (Option A)) × Result (Option A)
  record_success decode reservation resp model latency_ms =
      let path = "/internal/metering/reservations/" ++ reservation ++ "/complete" in
      request_json (server "POST" path (completing (complete_payload resp model latency_ms)))
        interrupted "POST" path (some decode) 2

  abbrev failure_retries : Option String → ℕ
  failure_retries none = 0
  failure_retries (some id) = 2

  pub record_failure :
      Option String
      → Option AuthContext
      → String
      → Option GenerateRequest
      → Option PublicModel
      → Error
      → Option Usage
      → ℤ
      → List (Result (Option String)) × Result (Option String)
  record_failure reservation auth endpoint req model e partial_usage latency_ms =
      let payload =
        failing (failure_payload reservation auth endpoint req model e partial_usage latency_ms) in
      request_json {A = String} (server "POST" failures_path payload) interrupted "POST"
        failures_path none (failure_retries reservation)
