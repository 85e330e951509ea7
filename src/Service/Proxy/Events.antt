-- ===== src/Service/Proxy/Events.antt =====
-- What the events of a request (services/proxy.go) count as in its accounting.
use dappnode_nexus_gateway.Common.{
  ℕ, ◌≡◌, String, Bool, true, false, List, [], ◌∷◌, Option, none, some, All,
}
use dappnode_nexus_gateway.Domain.Error.{Result, ok, err}
use dappnode_nexus_gateway.Service.Proxy.{
  Call, completed, streaming, Event, reserved, called, succeeded, failed, lease_stopped,
}

module _ {Body : Type 0} where
  abbrev pub is_reservation : Event Body → Bool
  is_reservation (reserved r q m) = true
  is_reservation (called t b) = false
  is_reservation (succeeded r t) = false
  is_reservation (failed r t e) = false
  is_reservation (lease_stopped r) = false

  -- A success or a failure recorded under a hold.
  abbrev pub is_settlement : Event Body → Bool
  is_settlement (reserved r q m) = false
  is_settlement (called t b) = false
  is_settlement (succeeded r t) = true
  is_settlement (failed (some r) t e) = true
  is_settlement (failed none t e) = false
  is_settlement (lease_stopped r) = false

  abbrev pub is_call : Event Body → Bool
  is_call (reserved r q m) = false
  is_call (called t b) = true
  is_call (succeeded r t) = false
  is_call (failed r t e) = false
  is_call (lease_stopped r) = false

  abbrev pub is_stop : Event Body → Bool
  is_stop (reserved r q m) = false
  is_stop (called t b) = false
  is_stop (succeeded r t) = false
  is_stop (failed r t e) = false
  is_stop (lease_stopped r) = true

  -- Whether the first event is a hold, as a number.
  abbrev pub opens_with_hold : List (Event Body) → ℕ
  opens_with_hold [] = 0
  opens_with_hold (reserved r q m ∷ es) = 1
  opens_with_hold (called t b ∷ es) = 0
  opens_with_hold (succeeded r t ∷ es) = 0
  opens_with_hold (failed r t e ∷ es) = 0
  opens_with_hold (lease_stopped r ∷ es) = 0

-- The holds that a result leaves to its stream, whose `finish` settles them when it ends.
abbrev pub left_open : {Answer Stream Mapping : Type 0} → Result (Call Answer Stream Mapping) → ℕ
left_open (ok (completed t a)) = 0
left_open (ok (streaming t s r p)) = 1
left_open (err e) = 0

abbrev pub is_ok : {A : Type 0} → Result A → ℕ
is_ok (ok a) = 1
is_ok (err e) = 0

-- The events of a request and its result.
abbrev pub Run : Type 0 → Type 0 → Type 0 → Type 0 → Type 0
Run Body Answer Stream Mapping = List (Event Body) × Result (Call Answer Stream Mapping)

-- The ID of the hold that a request opens with.
abbrev pub opened : {Body : Type 0} → List (Event Body) → Option String
opened [] = none
opened (reserved r q m ∷ es) = some r
opened (called t b ∷ es) = none
opened (succeeded r t ∷ es) = none
opened (failed r t e ∷ es) = none
opened (lease_stopped r ∷ es) = none

-- A hold, a settlement or an end of a lease is one of the hold with the ID given.
abbrev pub IsUnder : {Body : Type 0} → Option String → Event Body → Type 0
IsUnder id (reserved r q m) = id ≡ some r
IsUnder id (called t b) = Unit
IsUnder id (succeeded r t) = id ≡ some r
IsUnder id (failed (some r) t e) = id ≡ some r
IsUnder id (failed none t e) = Unit
IsUnder id (lease_stopped r) = id ≡ some r

-- A stream that is given has this hold to settle.
abbrev pub EndsUnder :
    {Answer Stream Mapping : Type 0} → Option String → Result (Call Answer Stream Mapping) → Type 0
EndsUnder id (ok (completed t a)) = Unit
EndsUnder id (ok (streaming t s r p)) = id ≡ some r
EndsUnder id (err e) = Unit

pub record IsOwn {Body Answer Stream Mapping : Type 0} (id : Option String)
    (o : Run Body Answer Stream Mapping) : Type 0 where
  pub events : All (IsUnder id) o.0
  pub ends : EndsUnder id o.1
