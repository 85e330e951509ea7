-- ===== src/Enclave/Bundle/Validity.antt =====
-- Which configurations pass: `ValidateSecretBundle` of internal/enclavebundle/bundle.go.
use mathlib.Core.List.{reverse, reverse-append, reverse-reverse}
use dappnode_nexus_gateway.Common.{
  ◌∙◌, ℕ, ◌+◌, ◌*◌, ◌≤◌, ◌<◌, ◌≡◌, ◌≢◌, ◌↔◌, ◌⊎◌, inl, inr, refl, true, false, List, [], ◌∷◌,
  Option, none, some, if◌then◌else◌, ◌==◌, ◌!=◌, nat_eq, nat_beq, nat_beq_iff, ltb, length, any,
  all, Any, ◌++◌, ◌||◌, ◌&&◌, ap, sym, subst, leb, Option-cases, take, drop, take-append-drop,
  any_of_Any, codes, All, arith, Bool-cases,
}
use dappnode_nexus_gateway.Common.Bytes.{
  Bytes, bytes_eq, bytes_beq, bytes_beq_iff, trim_space_bytes,
}
use dappnode_nexus_gateway.Enclave.Bundle.{
  Time, second, BundleError, SecretBundle, Tools, is_allowed_key, validate_entries, value_at, Url,
  is_upper, allowed_environment_keys, starts_upper, is_provider_secret, is_https,
  validate_https_url, validate_urls, validate_expiry, validate_secret_bundle,
}

-- A capital letter, a digit or _.
abbrev pub IsNameChar : ℕ → Type 0
IsNameChar c = ((b'A' ≤ c) × (c ≤ b'Z')) ⊎ (((b'0' ≤ c) × (c ≤ b'9')) ⊎ (c ≡ b'_'))

abbrev pub StartsUpper : Bytes → Type 0
StartsUpper [] = ⊥
StartsUpper (c ∷ s) = (b'A' ≤ c) × (c ≤ b'Z')

-- The name of a provider's API key.
abbrev pub IsSecretName : Bytes → Type 0
IsSecretName key =
    (name : Bytes) × ((key ≡ name ++ codes "_API_KEY")
      × (StartsUpper name × ((length name ≤ 120) × All IsNameChar name)))

-- A key on the list of those that may be set, or a provider's API key.
abbrev pub IsAllowed : Bytes → Type 0
IsAllowed key = Any (λ (k : Bytes). k ≡ key) allowed_environment_keys ⊎ IsSecretName key

-- An HTTPS URL with a host and neither credentials nor a fragment.
abbrev pub IsHttps : Tools → Bytes → Type 0
IsHttps tools value =
    (u : Url) × ((tools.parse_url value ≡ some u)
      × ((u.scheme ≡ codes "https")
          × ((u.hostname ≢ []) × ((u.has_user ≡ false) × (u.fragment ≡ [])))))

-- An entry that may be set, with a value that is not too long.
pub record IsEntry (entry : Bytes × Bytes) : Type 0 where
  pub allowed : IsAllowed entry.0
  pub present : entry.1 ≢ []
  pub short : length entry.1 ≤ 8192
  pub no_zero : any (λ (c : ℕ). c == 0) entry.1 ≡ false

unfoldable pub size_of : List (Bytes × Bytes) → ℕ
size_of [] = 0
size_of ((key, value) ∷ environment) = (length key + length value) + size_of environment

empty_iff : (s : Bytes) → (bytes_beq s [] ≡ true) ↔ (s ≡ [])
empty_iff s = bytes_beq_iff s []

other_than_empty : (s : Bytes) → s ≢ [] → bytes_beq s [] ≡ false
other_than_empty s h = elim (Bool-cases (bytes_beq s [])) [
  | inl e ↦ absurd (h ((empty_iff s).0 e))
  | inr e ↦ e
]

https_iff :
    (tools : Tools) (value : Bytes)
    → (is_https tools (tools.parse_url value) ≡ true) ↔ IsHttps tools value
https_iff tools value = (
  λ h. elim (Option-cases (tools.parse_url value)) [
    | inl unread ↦ absurd (ground (arith, h, unread))
    | inr (u, read) ↦
        let all_hold : is_https tools (some u) ≡ true =
          subst (λ o. is_https tools o ≡ true) read h in
        (
          u,
          (
            read,
            (
              (bytes_beq_iff u.scheme (codes "https")).0 (ground (arith, all_hold)),
              (
                λ e. absurd (ground (arith, all_hold, (empty_iff u.hostname).1 e)),
                (ground (arith, all_hold), (empty_iff u.fragment).0 (ground (arith, all_hold))),
              ),
            ),
          ),
        )
  ],
  λ (u, (read, (scheme, (host, (user, fragment))))).
      let secure : bytes_beq u.scheme (codes "https") ≡ true =
        (bytes_beq_iff u.scheme (codes "https")).1 scheme in
      let named = other_than_empty u.hostname host in
      let bare : bytes_beq u.fragment [] ≡ true = (empty_iff u.fragment).1 fragment in
      rw (read, secure, named, user, bare) refl,
)

IsNameChar-iff :
    (c : ℕ) → ((is_upper c || (leb b'0' c && leb c b'9') || c == b'_') ≡ true) ↔ IsNameChar c
IsNameChar-iff c = (λ h. ground (arith, h), λ h. ground (arith, h))

name_chars_iff :
    (name : Bytes)
    → (all (λ (c : ℕ). is_upper c || (leb b'0' c && leb c b'9') || c == b'_') name ≡ true)
      ↔ All IsNameChar name
name_chars_iff [] = (λ h. tt, λ h. refl)
name_chars_iff (c ∷ s) = (
  λ h.
      let first : (is_upper c || (leb b'0' c && leb c b'9') || c == b'_') ≡ true =
        ground (arith, h) in
      ((IsNameChar-iff c).0 first, (name_chars_iff s).0 (ground (arith, h))),
  λ (first, later). rw ((IsNameChar-iff c).1 first, (name_chars_iff s).1 later) refl,
)

starts_upper_iff : (name : Bytes) → (starts_upper name ≡ true) ↔ StartsUpper name
unfolding starts_upper
starts_upper_iff [] = (λ h. absurd (ground (arith, h)), λ h. absurd h)
starts_upper_iff (c ∷ s) =
    (λ h. (ground (arith, h), ground (arith, h)), λ (low, high). ground (arith, low, high))

-- A key without its last eight bytes, and these.
split_key :
    (key : Bytes)
    → take 8 (reverse key) ≡ reverse (codes "_API_KEY")
    → key ≡ reverse (drop 8 (reverse key)) ++ codes "_API_KEY"
split_key key h =
    sym (reverse-reverse key)
    ∙ ap (λ s. reverse s) (sym (take-append-drop 8 (reverse key)))
    ∙ reverse-append (take 8 (reverse key)) (drop 8 (reverse key))
    ∙ ap (λ s. reverse (drop 8 (reverse key)) ++ reverse s) h

name_of_key : (name : Bytes) → reverse (drop 8 (reverse (name ++ codes "_API_KEY"))) ≡ name
name_of_key name =
    ap (λ s. reverse (drop 8 s)) (reverse-append name (codes "_API_KEY")) ∙ reverse-reverse name

suffix_of_key :
    (name : Bytes) → take 8 (reverse (name ++ codes "_API_KEY")) ≡ reverse (codes "_API_KEY")
suffix_of_key name = ap (λ s. take 8 s) (reverse-append name (codes "_API_KEY"))

secret_iff : (key : Bytes) → (is_provider_secret key ≡ true) ↔ IsSecretName key
unfolding is_provider_secret
secret_iff key = (
  λ h.
      let name = reverse (drop 8 (reverse key)) in
      let suffix : bytes_beq (take 8 (reverse key)) (reverse (codes "_API_KEY")) ≡ true =
        ground (arith, h) in
      (
        name,
        (
          split_key key
              ((bytes_beq_iff (take 8 (reverse key)) (reverse (codes "_API_KEY"))).0 suffix),
          (
            (starts_upper_iff name).0 (ground (arith, h)),
            (ground (arith, h), (name_chars_iff name).0 (ground (arith, h))),
          ),
        ),
      ),
  λ (name, (same, (first, (short, chars)))).
      let suffix : bytes_beq (take 8 (reverse key)) (reverse (codes "_API_KEY")) ≡ true =
        (bytes_beq_iff _ _).1 (ap (λ k. take 8 (reverse k)) same ∙ suffix_of_key name) in
      let named : reverse (drop 8 (reverse key)) ≡ name =
        ap (λ k. reverse (drop 8 (reverse k))) same ∙ name_of_key name in
      let fits : leb (length name) 120 ≡ true = ground (arith, short) in
      rw
        (
          suffix,
          named,
          (starts_upper_iff name).1 first,
          fits,
          (name_chars_iff name).1 chars,
          is_provider_secret,
        )
        refl,
)

Any-of_any :
    (key : Bytes) (keys : List Bytes)
    → any (λ (k : Bytes). k == key) keys ≡ true
    → Any (λ (k : Bytes). k ≡ key) keys
Any-of_any key [] h = absurd (ground (arith, h))
Any-of_any key (k ∷ keys) h = elim (Bool-cases (bytes_beq k key)) [
  | inl same ↦ inl ((bytes_beq_iff k key).0 same)
  | inr apart ↦ inr (Any-of_any key keys (ground (arith, h, apart)))
]

IsAllowed-iff : (key : Bytes) → (is_allowed_key key ≡ true) ↔ IsAllowed key
IsAllowed-iff key = (
  λ h. elim (Bool-cases (any (λ (k : Bytes). k == key) allowed_environment_keys)) [
    | inl listed ↦ inl (Any-of_any key allowed_environment_keys listed)
    | inr unlisted ↦
        let secret : is_provider_secret key ≡ true =
          subst (λ b. (b || is_provider_secret key) ≡ true) unlisted h in
        inr ((secret_iff key).0 secret)
  ],
  λ h. elim h [
    | inl listed ↦
        let found : any (λ (k : Bytes). k == key) allowed_environment_keys ≡ true =
          any_of_Any (λ (k : Bytes). k ≡ key) (λ (k : Bytes). k == key) allowed_environment_keys
            (λ k. (bytes_beq_iff k key).1) listed in
        subst (λ b. (b || is_provider_secret key) ≡ true) (sym found) refl
    | inr secret ↦
        let named = (secret_iff key).1 secret in
        elim (Bool-cases (any (λ (k : Bytes). k == key) allowed_environment_keys)) [
          | inl found ↦ subst (λ b. (b || is_provider_secret key) ≡ true) (sym found) refl
          | inr unlisted ↦ subst (λ b. (b || is_provider_secret key) ≡ true) (sym unlisted) named
        ]
  ],
)

entries_pass :
    (environment : List (Bytes × Bytes)) (total : ℕ)
    → validate_entries total environment ≡ none
    → total ≤ 65536
    → All IsEntry environment × (total + size_of environment ≤ 65536)
unfolding validate_entries size_of
entries_pass [] total h small = (tt, omega (arith, small))
entries_pass ((key, value) ∷ environment) total h small =
    let size = total + (length key + length value) in
    let rest : validate_entries size environment ≡ none = ground (arith, h) in
    let bound : size ≤ 65536 = ground (arith, h) in
    let (all_pass, sum) = entries_pass environment size rest bound in
    (
      (
        record {
          allowed = (IsAllowed-iff key).0 (ground (arith, h));
          present = λ e. absurd (ground (arith, h, (empty_iff value).1 e));
          short = ground (arith, h);
          no_zero = ground (arith, h);
        },
        all_pass,
      ),
      omega (arith, sum),
    )

pass_entries :
    (environment : List (Bytes × Bytes)) (total : ℕ)
    → All IsEntry environment
    → total + size_of environment ≤ 65536
    → validate_entries total environment ≡ none
unfolding validate_entries size_of
pass_entries [] total h sum = refl
pass_entries ((key, value) ∷ environment) total (entry, h) sum =
    let size = total + (length key + length value) in
    let rest = pass_entries environment size h (omega (arith, sum)) in
    let bound : ltb 65536 size ≡ false = ground (arith, sum) in
    let present : bytes_beq value [] ≡ false = elim (Bool-cases (bytes_beq value [])) [
      | inl e ↦ absurd (entry.present ((empty_iff value).0 e))
      | inr e ↦ e
    ] in
    let short : ltb 8192 (length value) ≡ false = ground (arith, entry.short) in
    rw ((IsAllowed-iff key).1 entry.allowed, present, short, entry.no_zero, bound) rest

-- Issued before it expires, and not expired.
abbrev pub IsFresh : Option Time → Time → Time → Type 0
IsFresh none issued now = Unit
IsFresh (some expires) issued now = (issued < expires) × (now < expires)

pub record HasUrls (tools : Tools) (environment : List (Bytes × Bytes)) : Type 0 where
  pub metering : IsHttps tools (trim_space_bytes (value_at (codes "METERING_URL") environment))
  pub token : trim_space_bytes (value_at (codes "METERING_TOKEN") environment) ≢ []
  pub router :
      (trim_space_bytes (value_at (codes "ROUTER_URL") environment) ≡ [])
      ⊎ IsHttps tools
          (trim_space_bytes (trim_space_bytes (value_at (codes "ROUTER_URL") environment)))

pub record IsValidBundle (tools : Tools) (b : SecretBundle) (revision : Bytes) (now : Time)
    : Type 0 where
  pub schema : b.schema_version ≡ 1
  pub built : b.source_revision ≢ []
  pub same_build : b.source_revision ≡ revision
  pub issued : 1 ≤ b.issued_at
  pub not_ahead : b.issued_at ≤ now + 300 * second
  pub fresh : IsFresh b.expires_at b.issued_at now
  pub set : 1 ≤ length b.environment
  pub entries : All IsEntry b.environment
  pub bounded : size_of b.environment ≤ 65536
  pub urls : HasUrls tools b.environment

pub IsFresh-iff :
    (expires : Option Time) (issued now : Time)
    → (validate_expiry expires issued now ≡ none) ↔ IsFresh expires issued now
IsFresh-iff none issued now = (λ h. tt, λ h. refl)
IsFresh-iff (some t) issued now =
    (λ h. (ground (arith, h), ground (arith, h)), λ (before, live). ground (arith, before, live))

router_checked : (tools : Tools) (router : Bytes) → Option BundleError
router_checked tools router =
    if router != [] then validate_https_url tools (codes "ROUTER_URL") router else none

router_iff :
    (tools : Tools) (router : Bytes)
    → (router_checked tools router ≡ none)
      ↔ ((router ≡ []) ⊎ IsHttps tools (trim_space_bytes router))
unfolding router_checked
router_iff tools router = (
  λ h. elim (Bool-cases (bytes_beq router [])) [
    | inl e ↦ inl ((empty_iff router).0 e)
    | inr e ↦ inr ((https_iff tools (trim_space_bytes router)).0 (ground (arith, h, e)))
  ],
  λ h. elim h [
    | inl e ↦ let f : bytes_beq router [] ≡ true = (empty_iff router).1 e in rw f refl
    | inr e ↦ let secure = (https_iff tools (trim_space_bytes router)).1 e in ground (arith, secure)
  ],
)

urls_iff :
    (tools : Tools) (environment : List (Bytes × Bytes))
    → (validate_urls tools environment ≡ none) ↔ HasUrls tools environment
unfolding validate_urls router_checked
urls_iff tools environment =
    let metering = value_at (codes "METERING_URL") environment in
    let token = trim_space_bytes (value_at (codes "METERING_TOKEN") environment) in
    let router = trim_space_bytes (value_at (codes "ROUTER_URL") environment) in
    (
      λ h.
          let last : router_checked tools router ≡ none = ground (arith, h) in
          record {
            metering = (https_iff tools (trim_space_bytes metering)).0 (ground (arith, h));
            token = λ e.
                let f : bytes_beq token [] ≡ true = (empty_iff token).1 e in
                absurd (ground (arith, h, f));
            router = (router_iff tools router).0 last;
          },
      λ h.
          let last : router_checked tools router ≡ none = (router_iff tools router).1 h.router in
          let there = other_than_empty token h.token in
          rw ((https_iff tools (trim_space_bytes metering)).1 h.metering, there) last,
    )

-- A bundle passes exactly if it has the schema and the revision of this build, was issued and not more
-- than five minutes ahead, has not expired and expires after its issue, if ever, and sets an environment
-- of at most 64 KiB: each key is on the list of those allowed or an upper-case name of at most 120
-- bytes before _API_KEY, each value has 1 to 8192 bytes and no zero byte, the URL of Metering and that
-- of the router, if set, are HTTPS URLs with a host and neither credentials nor a fragment, and the
-- token of Metering is not blank.
pub validate_secret_bundle_iff :
    (tools : Tools) (b : SecretBundle) (revision : Bytes) (now : Time)
    → (validate_secret_bundle tools b revision now ≡ none) ↔ IsValidBundle tools b revision now
unfolding validate_secret_bundle
validate_secret_bundle_iff tools b revision now = (
  λ h.
      let fresh : validate_expiry b.expires_at b.issued_at now ≡ none = ground (arith, h) in
      let entries : validate_entries 0 b.environment ≡ none = ground (arith, h) in
      let urls : validate_urls tools b.environment ≡ none = ground (arith, h) in
      let (all_pass, sum) = entries_pass b.environment 0 entries (omega arith) in
      record {
        schema = ground (arith, h);
        built = λ e. absurd (ground (arith, h, (empty_iff b.source_revision).1 e));
        same_build = (bytes_beq_iff b.source_revision revision).0 (ground (arith, h));
        issued = ground (arith, h);
        not_ahead = ground (arith, h);
        fresh = (IsFresh-iff b.expires_at b.issued_at now).0 fresh;
        set = ground (arith, h);
        entries = all_pass;
        bounded = omega (arith, sum);
        urls = (urls_iff tools b.environment).0 urls;
      },
  λ v.
      let schema : nat_beq b.schema_version 1 ≡ true =
        (nat_beq_iff b.schema_version 1).1 v.schema in
      let built = other_than_empty b.source_revision v.built in
      let same : bytes_beq b.source_revision revision ≡ true =
        (bytes_beq_iff b.source_revision revision).1 v.same_build in
      let issued : nat_beq b.issued_at 0 ≡ false = ground (arith, v.issued) in
      let ahead : ltb (now + 300 * second) b.issued_at ≡ false = ground (arith, v.not_ahead) in
      let set : nat_beq (length b.environment) 0 ≡ false = ground (arith, v.set) in
      rw
        (
          schema,
          built,
          same,
          issued,
          ahead,
          (IsFresh-iff b.expires_at b.issued_at now).1 v.fresh,
          set,
          pass_entries b.environment 0 v.entries (omega (arith, v.bounded)),
        )
        ((urls_iff tools b.environment).1 v.urls),
)
