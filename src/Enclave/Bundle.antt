-- ===== src/Enclave/Bundle.antt =====
-- The enclave's encrypted configuration: internal/enclavebundle/bundle.go. A Go string is the list
-- of its bytes, and a time the nanoseconds since the zero time, before which none lies. AES-GCM, base64,
-- URLs and encoding/json are arguments.
pub mod Sealing
pub mod Validity
pub mod Roundtrip
use dappnode_nexus_gateway.Common.{
  ℕ, ◌+◌, ◌*◌, String, Bool, true, false, not, ◌&&◌, ◌||◌, List, [], ◌∷◌, ◌++◌, Option, none, some,
  if◌then◌else◌, ◌==◌, ◌!=◌, nat_eq, leb, ltb, length, take, drop, all, any, codes, is_some,
}
use dappnode_nexus_gateway.Common.Bytes.{Bytes, bytes_eq, find, trim_space_bytes}
use mathlib.Core.List.{reverse}

abbrev pub Time : Type 0
Time = ℕ

abbrev pub second : ℕ
second = 1000000000

-- Why a bundle, an envelope or a request is refused.
pub data BundleError : Type 0 where
  bootstrap_schema : ℕ → BundleError
  access_key secret_key session_token credentials_expired : BundleError
  data_key_size : BundleError
  bundle_schema : ℕ → BundleError
  revision_mismatch issued_missing issued_in_future expires_before_issued expired : BundleError
  environment_empty : BundleError
  key_not_allowed : Bytes → BundleError
  value_empty : Bytes → BundleError
  value_invalid : Bytes → BundleError
  environment_too_large metering_token_missing : BundleError
  not_https : Bytes → BundleError
  envelope_schema : ℕ → BundleError
  kms_key_mismatch region_mismatch context_invalid : BundleError
  invalid_size : Bytes → BundleError
  invalid_base64 : Bytes → BundleError
  cipher_failed nonce_failed nonce_size ciphertext_too_large not_authentic : BundleError
  header_not_encoded bundle_not_encoded bundle_not_decoded more_than_one_value : BundleError

pub data Checked (A : Type 0) : Type 0 where
  done : A → Checked A
  refused : BundleError → Checked A

pub record Envelope : Type 0 where
  pub schema_version : ℕ
  pub kms_key_arn : Bytes
  pub aws_region : Bytes
  pub encryption_context : List (Bytes × Bytes)
  pub encrypted_data_key : Bytes
  pub nonce : Bytes
  pub ciphertext : Bytes

pub record SecretBundle : Type 0 where
  pub schema_version : ℕ
  pub source_revision : Bytes
  pub issued_at : Time
  pub expires_at : Option Time
  pub environment : List (Bytes × Bytes)

pub record AwsCredentials : Type 0 where
  pub access_key_id : Bytes
  pub secret_access_key : Bytes
  pub session_token : Bytes
  pub expires_at : Time

pub record BootstrapRequest : Type 0 where
  pub schema_version : ℕ
  pub credentials : AwsCredentials
  pub envelope : Envelope

-- `strings.ContainsAny(s, "\r\n\x00")`.
abbrev pub has_control : Bytes → Bool
has_control s = any (λ (c : ℕ). c == 13 || c == 10 || c == 0) s

abbrev pub is_credential : ℕ → Bytes → Bool
is_credential most s = not (ltb (length s) 16 || ltb most (length s) || has_control s)

unfoldable pub validate_bootstrap_request : BootstrapRequest → Time → Option BundleError
validate_bootstrap_request r now =
    if r.schema_version != 1
    then some (bootstrap_schema r.schema_version)
    else if not (is_credential 128 r.credentials.access_key_id)
    then some access_key
    else if not (is_credential 256 r.credentials.secret_access_key)
    then some secret_key
    else if not (is_credential 16384 r.credentials.session_token)
    then some session_token
    else if r.credentials.expires_at == 0 || leb r.credentials.expires_at (now + 120 * second)
    then some credentials_expired
    else none

abbrev pub encryption_context : Bytes → List (Bytes × Bytes)
encryption_context revision =
    (codes "nexus:bundle-schema", codes "1")
    ∷ (codes "nexus:source-revision", revision)
    ∷ (codes "nexus:workload", codes "dappnode-nexus-gateway")
    ∷ []

-- `allowedEnvironmentKeys`.
abbrev pub allowed_environment_keys : List Bytes
allowed_environment_keys =
    codes "METERING_URL"
    ∷ codes "METERING_TOKEN"
    ∷ codes "ROUTER_URL"
    ∷ codes "LOG_LEVEL"
    ∷ codes "EUR_TO_USD_FALLBACK_RATE"
    ∷ codes "PII_FILTER_ENABLED"
    ∷ codes "PRESIDIO_ANALYZER_URL"
    ∷ codes "PII_FILTER_LANGUAGE"
    ∷ codes "PII_FILTER_SCORE_THRESHOLD"
    ∷ codes "PII_FILTER_TIMEOUT_MS"
    ∷ codes "PII_FILTER_FAIL_OPEN"
    ∷ codes "TINFOIL_PROXY_BASE_URL"
    ∷ codes "TINFOIL_CONFIG_REPO"
    ∷ codes "TINFOIL_ENCLAVE_HOST"
    ∷ codes "TINFOIL_ATTESTATION_BUNDLE_URL"
    ∷ []

abbrev pub is_upper : ℕ → Bool
is_upper c = leb b'A' c && leb c b'Z'

unfoldable pub starts_upper : Bytes → Bool
starts_upper [] = false
starts_upper (c ∷ s) = is_upper c

-- `providerSecretPattern`: `^[A-Z][A-Z0-9_]{0,119}_API_KEY$`.
unfoldable pub is_provider_secret : Bytes → Bool
unfolding starts_upper
is_provider_secret key =
    let name = reverse (drop 8 (reverse key)) in
    (take 8 (reverse key) == reverse (codes "_API_KEY"))
    && starts_upper name
    && leb (length name) 120
    && all (λ (c : ℕ). is_upper c || (leb b'0' c && leb c b'9') || c == b'_') name

abbrev pub is_allowed_key : Bytes → Bool
is_allowed_key key =
    any (λ (k : Bytes). k == key) allowed_environment_keys || is_provider_secret key

-- The entries of the environment that are left, with the size of those before.
unfoldable pub validate_entries : ℕ → List (Bytes × Bytes) → Option BundleError
validate_entries total [] = none
validate_entries total ((key, value) ∷ environment) =
    let size = total + (length key + length value) in
    let rest = validate_entries size environment in
    if not (is_allowed_key key)
    then some (key_not_allowed key)
    else if value == []
    then some (value_empty key)
    else if ltb 8192 (length value) || any (λ (c : ℕ). c == 0) value
    then some (value_invalid key)
    else if ltb 65536 size
    then some environment_too_large
    else rest

abbrev pub validate_environment : List (Bytes × Bytes) → Option BundleError
validate_environment = validate_entries 0

-- A missing entry of a Go map of strings is "".
abbrev pub value_of : Option Bytes → Bytes
value_of none = []
value_of (some v) = v

abbrev pub value_at : Bytes → List (Bytes × Bytes) → Bytes
value_at key environment = value_of (find key environment)

pub record Url : Type 0 where
  pub scheme : Bytes
  pub hostname : Bytes
  pub has_user : Bool
  pub fragment : Bytes

-- AES-GCM with a key: `cipher.AEAD`.
pub record Aead : Type 0 where
  pub nonce_size : ℕ
  pub seal : Bytes → Bytes → Bytes → Bytes
  pub open_sealed : Bytes → Bytes → Bytes → Option Bytes

-- What is authenticated with the bundle.
pub record Header : Type 0 where
  pub schema_version : ℕ
  pub kms_key_arn : Bytes
  pub aws_region : Bytes
  pub encryption_context : List (Bytes × Bytes)

-- The libraries. `decode_bundle` gives the first value and what follows it, and refuses unknown fields.
pub record Tools : Type 0 where
  pub parse_url : Bytes → Option Url
  pub new_gcm : Bytes → Option Aead
  pub random : ℕ → Option Bytes
  pub encoded_size : ℕ → ℕ
  pub encode_base64 : Bytes → Bytes
  pub decode_base64 : Bytes → Option Bytes
  pub marshal_header : Header → Option Bytes
  pub marshal_bundle : SecretBundle → Option Bytes
  pub decode_bundle : Bytes → Option (SecretBundle × Bytes)
  pub at_end : Bytes → Bool

abbrev pub header_of : Envelope → Header
header_of e = record {
  schema_version = e.schema_version;
  kms_key_arn = e.kms_key_arn;
  aws_region = e.aws_region;
  encryption_context = e.encryption_context;
}

-- The values of the context at the keys expected.
unfoldable pub has_context : List (Bytes × Bytes) → List (Bytes × Bytes) → Bool
has_context actual [] = true
has_context actual ((key, value) ∷ expected) =
    value_at key actual == value && has_context actual expected

unfoldable pub validate_envelope_header : Envelope → Bytes → Bytes → Bytes → Option BundleError
unfolding has_context
validate_envelope_header e key region revision =
    if e.schema_version != 1
    then some (envelope_schema e.schema_version)
    else if e.kms_key_arn == [] || e.kms_key_arn != key
    then some kms_key_mismatch
    else if e.aws_region == [] || e.aws_region != region
    then some region_mismatch
    else if length e.encryption_context != 3
    then some context_invalid
    else if not (has_context e.encryption_context (encryption_context revision))
    then some context_invalid
    else none

-- The first check that fails.
abbrev pub or_else : Option BundleError → Option BundleError → Option BundleError
or_else none next = next
or_else (some e) next = some e

abbrev pub validate_expiry : Option Time → Time → Time → Option BundleError
validate_expiry none issued now = none
validate_expiry (some expires) issued now =
    if leb expires issued
    then some expires_before_issued
    else if leb expires now
    then some expired
    else none

module _ (tools : Tools) where
  abbrev pub is_https : Option Url → Bool
  is_https none = false
  is_https (some u) =
      u.scheme == codes "https" && u.hostname != [] && not u.has_user && u.fragment == []

  abbrev pub validate_https_url : Bytes → Bytes → Option BundleError
  validate_https_url name value =
      if is_https (tools.parse_url (trim_space_bytes value)) then none else some (not_https name)

  -- The environment of a bundle that is otherwise valid.
  unfoldable pub validate_urls : List (Bytes × Bytes) → Option BundleError
  validate_urls environment =
      let router = trim_space_bytes (value_at (codes "ROUTER_URL") environment) in
      or_else
        (validate_https_url (codes "METERING_URL") (value_at (codes "METERING_URL") environment))
        (if trim_space_bytes (value_at (codes "METERING_TOKEN") environment) == []
          then some metering_token_missing
          else if router != []
          then validate_https_url (codes "ROUTER_URL") router
          else none)

  unfoldable pub validate_secret_bundle : SecretBundle → Bytes → Time → Option BundleError
  unfolding validate_urls validate_entries
  validate_secret_bundle b revision now =
      if b.schema_version != 1
      then some (bundle_schema b.schema_version)
      else if b.source_revision == [] || b.source_revision != revision
      then some revision_mismatch
      else if b.issued_at == 0
      then some issued_missing
      else if ltb (now + 300 * second) b.issued_at
      then some issued_in_future
      else or_else (validate_expiry b.expires_at b.issued_at now) (
          if length b.environment == 0
          then some environment_empty
          else or_else (validate_environment b.environment) (validate_urls b.environment))
