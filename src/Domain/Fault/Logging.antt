-- ===== src/Domain/Fault/Logging.antt =====
-- What the log line of an error shows.
use Prim.Native.Char.{code}
use dappnode_nexus_gateway.Common.{
  ℕ, ◌-◌, ◌≤◌, ◌≡◌, refl, subst, ◌⊎◌, inl, inr, String, Bool, true, false, not, ◌&&◌, List, [], ◌∷◌,
  Option, none, some, arith, All, if◌then◌else◌, leb, ◌==◌, string_eq, Any, Option-cases,
  Bool-cases,
}
use dappnode_nexus_gateway.Common.Int.{pos}
use dappnode_nexus_gateway.Domain.Error.{
  GatewayError, Error, Meta, int, str, other, as_gateway, meta_get, Metadata,
}
use dappnode_nexus_gateway.Domain.Fault.{
  width, byte_length, is_identifier, is_identifier_char, identifier_chars, cut, truncate,
  safe_value, safe_fields, log_safe_meta, diagnostic_fields, fault_of, max_log_value,
  redacted_value,
}

byte_length-cut : (s : String) (n : ℕ) → byte_length (cut s n) ≤ n
unfolding cut
byte_length-cut String.[] n = omega arith
byte_length-cut (String.◌∷◌ c s) n = elim (Bool-cases (leb (width (code c)) n)) [
  | inl fits ↦ rw fits (ground (arith, fits, byte_length-cut s (n - width (code c))))
  | inr full ↦ rw full (omega arith)
]

pub byte_length-truncate : (s : String) (n : ℕ) → byte_length (truncate s n) ≤ n
unfolding truncate
byte_length-truncate s n = ground (arith, byte_length-cut s n)

truncate_fits : (s : String) (n : ℕ) → byte_length s ≤ n → truncate s n ≡ s
unfolding truncate
truncate_fits s n h = ground arith

-- The characters of a plain identifier.
pub record IsPlainChar (r : ℕ) : Type 0 where
  pub listed :
      ((b'a' ≤ r) × (r ≤ b'z'))
      ⊎ (((b'A' ≤ r) × (r ≤ b'Z'))
          ⊎ (((b'0' ≤ r) × (r ≤ b'9'))
              ⊎ ((r ≡ b'-')
                  ⊎ ((r ≡ b'_')
                      ⊎ ((r ≡ b'.') ⊎ ((r ≡ b'/') ⊎ ((r ≡ b':') ⊎ ((r ≡ b'@') ⊎ (r ≡ b'+')))))))))

abbrev pub IsPlainText : String → Type 0
IsPlainText String.[] = Unit
IsPlainText (String.◌∷◌ c s) = IsPlainChar (code c) × IsPlainText s

plain_char : (r : ℕ) → is_identifier_char r ≡ true → IsPlainChar r
plain_char r h = record { listed = ground arith }

both : (a b : Bool) → (a && b) ≡ true → (a ≡ true) × (b ≡ true)
both true b h = (refl, h)
both false b h = absurd (ground (arith, h))

plain_text : (s : String) → identifier_chars s ≡ true → IsPlainText s
plain_text String.[] h = tt
plain_text (String.◌∷◌ c s) h =
    let (this, rest) = both (is_identifier_char (code c)) (identifier_chars s) h in
    (plain_char (code c) this, plain_text s rest)

-- What a logged value may be, by its key's origin: an integer, or a text that is not longer than 128
-- bytes; from outside, of letters, digits and a few signs, or the mark of a redacted value.
abbrev pub IsSafe : Bool → Meta → Type 0
IsSafe external (int n) = Unit
IsSafe external (str s) =
    (byte_length s ≤ 128) × ((external ≡ false) ⊎ (IsPlainText s ⊎ (s ≡ "[redacted]")))
IsSafe external other = ⊥

abbrev IsSafeOption : Bool → Option Meta → Type 0
IsSafeOption external none = Unit
IsSafeOption external (some v) = IsSafe external v

redacted_value_short : byte_length redacted_value ≤ max_log_value
unfolding width
redacted_value_short = omega arith

byte_length_of_is_identifier : (s : String) → is_identifier s ≡ true → byte_length s ≤ max_log_value
unfolding is_identifier
byte_length_of_is_identifier s h = ground arith

identifier_of : (s : String) → is_identifier s ≡ true → identifier_chars s ≡ true
unfolding is_identifier
identifier_of s h = ground arith

IsSafe-text :
    (external : Bool) (s : String)
    → IsSafe external (
        str (
          truncate (if external && not (is_identifier s) then redacted_value else s) max_log_value))
IsSafe-text false s = (byte_length-truncate s max_log_value, inl refl)
IsSafe-text true s = elim (Bool-cases (is_identifier s)) [
  | inl fits ↦
      let short = byte_length_of_is_identifier s fits in
      rw (fits, truncate_fits s max_log_value short)
        (short, inr (inl (plain_text s (identifier_of s fits))))
  | inr free ↦
      rw (free, truncate_fits redacted_value max_log_value redacted_value_short)
        (redacted_value_short, inr (inr refl))
]

safe_value-IsSafe :
    (external : Bool) (o : Option Meta) → IsSafeOption external (safe_value external o)
unfolding safe_value
safe_value-IsSafe external none = tt
safe_value-IsSafe external (some other) = tt
safe_value-IsSafe external (some (int n)) = tt
safe_value-IsSafe external (some (str s)) = elim (Bool-cases (s == "")) [
  | inl empty ↦ rw empty tt
  | inr shown ↦ rw shown (IsSafe-text external s)
]

-- The fields that may be logged, with whether their values come from outside.
abbrev pub IsFromOutside : String → Bool → Type 0
IsFromOutside key external =
    Any (λ k. k ≡ key)
      (if external
        then "metering_code" ∷ "router_code" ∷ "upstream_type" ∷ "upstream_code" ∷ "account_id"
          ∷ "model" ∷ "provider" ∷ "requested_model" ∷ []
        else "dependency" ∷ "cause" ∷ "contract" ∷ "metering_status" ∷ "router_status"
          ∷ "upstream_status" ∷ "compatibility_note" ∷ "retry_reason" ∷ "attempt" ∷ [])

-- A logged field: its key is log-safe, and its value is safe for the key's origin.
abbrev IsLogged : List (String × Bool) → String × Meta → Type 0
IsLogged keys f = Any (λ k. (k.0 ≡ f.0) × IsSafe k.1 f.1) keys

abbrev IsLoggedLater : (k : String × Bool) (keys : List (String × Bool)) (fs : Metadata) → Type 0
IsLoggedLater k keys fs = All (IsLogged keys) fs → All (IsLogged (k ∷ keys)) fs

widen : (k : String × Bool) (keys : List (String × Bool)) (fs : Metadata) → IsLoggedLater k keys fs
widen k keys [] _ = tt
widen k keys (f ∷ fs) (h, hs) = (inr h, widen k keys fs hs)

safe_fields-IsLogged :
    (keys : List (String × Bool)) (m : Metadata) → All (IsLogged keys) (safe_fields keys m)
unfolding safe_fields
safe_fields-IsLogged [] m = tt
safe_fields-IsLogged ((key, external) ∷ keys) m =
    let later = widen (key, external) keys _ (safe_fields-IsLogged keys m) in
    elim (Option-cases (safe_value external (meta_get key m))) [
      | inl e ↦ rw (e, safe_fields) later
      | inr (v, e) ↦
          rw (e, safe_fields)
            (inl (refl, rw e at (safe_value-IsSafe external (meta_get key m))), later)
    ]

-- A field of the log line behind the fixed ones.
abbrev pub IsLoggedField : String × Meta → Type 0
IsLoggedField f = (external : Bool) × (IsFromOutside f.0 external × IsSafe external f.1)

origins : All (λ k. IsFromOutside k.0 k.1) log_safe_meta
origins = (
  inl refl,
  (
    inr (inl refl),
    (
      inr (inr (inl refl)),
      (
        inr (inr (inr (inl refl))),
        (
          inl refl,
          (
            inr (inr (inr (inr (inl refl)))),
            (
              inr (inl refl),
              (
                inr (inr (inr (inr (inr (inl refl))))),
                (
                  inr (inr (inl refl)),
                  (
                    inr (inr (inr (inl refl))),
                    (
                      inr (inr (inr (inr (inr (inr (inl refl)))))),
                      (
                        inr (inr (inr (inr (inr (inr (inr (inl refl))))))),
                        (
                          inr (inr (inr (inr (inr (inr (inr (inr (inl refl)))))))),
                          (
                            inr (inr (inr (inr (inl refl)))),
                            (
                              inr (inr (inr (inr (inr (inl refl))))),
                              (
                                inr (inr (inr (inr (inr (inr (inl refl)))))),
                                (inr (inr (inr (inr (inr (inr (inr (inl refl))))))), tt),
                              ),
                            ),
                          ),
                        ),
                      ),
                    ),
                  ),
                ),
              ),
            ),
          ),
        ),
      ),
    ),
  ),
)

logged_field :
    (keys : List (String × Bool)) (f : String × Meta)
    → All (λ k. IsFromOutside k.0 k.1) keys
    → IsLogged keys f
    → IsLoggedField f
logged_field [] f known h = absurd h
logged_field (k ∷ keys) f (known, later) (inl (same, safe)) =
    (k.1, (subst (λ key. IsFromOutside key k.1) same known, safe))
logged_field (k ∷ keys) f (known, later) (inr h) = logged_field keys f later h

logged_fields : (fs : Metadata) → All (IsLogged log_safe_meta) fs → All IsLoggedField fs
logged_fields [] h = tt
logged_fields (f ∷ fs) (p, h) = (logged_field log_safe_meta f origins p, logged_fields fs h)

-- The log line of a gateway error shows its fault, its code as it is, and its status, and beyond these
-- only the log-safe keys, each with an integer or a text that is at most 128 bytes long; a text that
-- comes from outside consists of letters, digits and -_./:@+, or is "[redacted]". Any other error shows
-- its fault alone.
pub diagnostic_fields-IsLogged :
    (e : Error)
    → ((as_gateway e ≡ none) × (diagnostic_fields e ≡ ("fault", str (fault_of e)) ∷ []))
      ⊎ ((g : GatewayError) × (rest : Metadata) × (as_gateway e ≡ some g)
          × (diagnostic_fields e
              ≡ ("fault", str (fault_of e))
                ∷ ("error_code", str g.code)
                ∷ ("gateway_status", int (pos g.http_status))
                ∷ rest)
          × All IsLoggedField rest)
unfolding diagnostic_fields
diagnostic_fields-IsLogged e = elim (Option-cases (as_gateway e)) [
  | inl plain ↦ inl (plain, rw (plain, diagnostic_fields))
  | inr (g, is_gateway) ↦ inr (
    g,
    safe_fields log_safe_meta g.metadata,
    is_gateway,
    rw (is_gateway, diagnostic_fields),
    logged_fields (safe_fields log_safe_meta g.metadata)
        (safe_fields-IsLogged log_safe_meta g.metadata),
  )
]
