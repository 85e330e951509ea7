-- ===== src/Domain/Fault.antt =====
-- pkg/domain/error_class.go: who has to act on an error, and what of it may be logged.
-- A native text is a sequence of code points, so it is valid UTF-8; `len` counts its bytes.
pub mod Logging
use Prim.Native.Char.{Char, code}
use dappnode_nexus_gateway.Common.{
  ℕ, ◌+◌, ◌-◌, String, Bool, true, false, not, ◌&&◌, ◌||◌, List, [], ◌∷◌, ◌++◌, Option, none, some,
  if◌then◌else◌, leb, ltb, ◌==◌, string_eq, nat_eq,
}
use dappnode_nexus_gateway.Common.Int.{ℤ, pos}
use dappnode_nexus_gateway.Domain.Error.{
  GatewayError, Error, gateway, Meta, int, str, other, as_gateway, meta_get, with_meta, Metadata,
}

-- The map `faultByCode`, read by `lookup`.
abbrev pub fault_by_code : List (String × String)
fault_by_code =
    ("invalid_api_key", "caller")
    ∷ ("confidential_request_limit_exceeded", "caller")
    ∷ ("inactive_api_key", "caller")
    ∷ ("inactive_account", "caller")
    ∷ ("unsupported_model", "caller")
    ∷ ("unsupported_endpoint", "caller")
    ∷ ("unsupported_feature", "caller")
    ∷ ("context_length_exceeded", "caller")
    ∷ ("tool_schema_invalid", "caller")
    ∷ ("tool_message_invalid", "caller")
    ∷ ("invalid_field", "caller")
    ∷ ("unknown_field", "caller")
    ∷ ("insufficient_balance", "caller")
    ∷ ("client_canceled", "caller")
    ∷ ("not_found", "caller")
    ∷ ("forbidden", "caller")
    ∷ ("conflict", "caller")
    ∷ ("already_exists", "caller")
    ∷ ("provider_rate_limited", "provider")
    ∷ ("provider_unavailable", "provider")
    ∷ ("provider_timeout", "provider")
    ∷ ("provider_error", "provider")
    ∷ ("provider_rejected_request", "unclear")
    ∷ ("provider_configuration_error", "nexus")
    ∷ ("internal_error", "nexus")
    ∷ []

unfoldable pub lookup {ℓ} : {A : Type ℓ} → String → List (String × A) → Option A
lookup k [] = none
lookup k ((j, v) ∷ m) = if j == k then some v else lookup k m

abbrev is_fault : String → Bool
is_fault f = f == "caller" || f == "provider" || f == "nexus" || f == "unclear"

-- `gwErr.Metadata["fault"].(string)`, "" where it is missing or no text.
abbrev meta_text : Option Meta → String
meta_text (some (str s)) = s
meta_text (some (int n)) = ""
meta_text (some other) = ""
meta_text none = ""

unfoldable pub fault_of_gateway : GatewayError → String
unfolding lookup meta_get
fault_of_gateway e =
    let fault = meta_text (meta_get "fault" e.metadata) in
    if is_fault fault
    then fault
    else elim (lookup e.code fault_by_code) [ some f ↦ f | none ↦ "nexus" ]

unfoldable pub fault_of : Error → String
unfolding fault_of_gateway
fault_of e = elim (as_gateway e) [ some g ↦ fault_of_gateway g | none ↦ "nexus" ]

abbrev pub max_log_value : ℕ
max_log_value = 128

abbrev pub redacted_value : String
redacted_value = "[redacted]"

-- The key of each log-safe field, and whether its value comes from outside.
abbrev pub log_safe_meta : List (String × Bool)
log_safe_meta =
    ("dependency", false)
    ∷ ("cause", false)
    ∷ ("contract", false)
    ∷ ("metering_status", false)
    ∷ ("metering_code", true)
    ∷ ("router_status", false)
    ∷ ("router_code", true)
    ∷ ("upstream_status", false)
    ∷ ("upstream_type", true)
    ∷ ("upstream_code", true)
    ∷ ("compatibility_note", false)
    ∷ ("retry_reason", false)
    ∷ ("attempt", false)
    ∷ ("account_id", true)
    ∷ ("model", true)
    ∷ ("provider", true)
    ∷ ("requested_model", true)
    ∷ []

-- The bytes of a code point in UTF-8, and of a text.
unfoldable pub width : ℕ → ℕ
width c = if ltb c 0x80 then 1 else if ltb c 0x800 then 2 else if ltb c 0x10000 then 3 else 4

abbrev pub byte_length : String → ℕ
byte_length String.[] = 0
byte_length (String.◌∷◌ c s) = width (code c) + byte_length s

abbrev pub is_identifier_char : ℕ → Bool
is_identifier_char r =
    (leb b'a' r && leb r b'z')
    || (leb b'A' r && leb r b'Z')
    || (leb b'0' r && leb r b'9')
    || r == b'-'
    || r == b'_'
    || r == b'.'
    || r == b'/'
    || r == b':'
    || r == b'@'
    || r == b'+'

abbrev pub identifier_chars : String → Bool
identifier_chars String.[] = true
identifier_chars (String.◌∷◌ c s) = is_identifier_char (code c) && identifier_chars s

unfoldable pub is_identifier : String → Bool
is_identifier s = not (ltb max_log_value (byte_length s)) && identifier_chars s

-- The longest prefix of whole characters within n bytes: `s[:n]`, and the loop that drops a cut
-- character.
unfoldable pub cut : String → ℕ → String
cut String.[] n = String.[]
cut (String.◌∷◌ c s) n =
    if leb (width (code c)) n then String.◌∷◌ c (cut s (n - width (code c))) else String.[]

unfoldable pub truncate : String → ℕ → String
unfolding cut
truncate s n = if leb (byte_length s) n then s else cut s n

-- The value logged for one log-safe key, if any.
unfoldable pub safe_value : Bool → Option Meta → Option Meta
unfolding is_identifier truncate
safe_value external none = none
safe_value external (some other) = none
safe_value external (some (int n)) = some (int n)
safe_value external (some (str s)) =
    if s == ""
    then none
    else some (
        str (
          truncate (if external && not (is_identifier s) then redacted_value else s) max_log_value))

unfoldable pub safe_fields : List (String × Bool) → Metadata → Metadata
unfolding safe_value
safe_fields [] m = []
safe_fields ((key, external) ∷ keys) m = elim (safe_value external (meta_get key m)) [
  | none ↦ safe_fields keys m
  | some v ↦ (key, v) ∷ safe_fields keys m
]

unfoldable pub diagnostic_fields : Error → Metadata
unfolding safe_fields fault_of
diagnostic_fields e = elim (as_gateway e) [
  | none ↦ ("fault", str (fault_of e)) ∷ []
  | some g ↦
      ("fault", str (fault_of e))
      ∷ ("error_code", str g.code)
      ∷ ("gateway_status", int (pos g.http_status))
      ∷ safe_fields log_safe_meta g.metadata
]

-- `UpstreamStatus`: 0 when there was none.
unfoldable pub upstream_status : Error → ℤ
unfolding meta_get
upstream_status e = elim (as_gateway e) [
  | none ↦ pos 0
  | some g ↦ elim (meta_get "upstream_status" g.metadata) [ some (int n) ↦ n | _ ↦ pos 0 ]
]

unfoldable pub annotate : Error → Metadata → Error
annotate e fields = elim (as_gateway e) [ none ↦ e | some g ↦ gateway (with_meta g fields) ]
