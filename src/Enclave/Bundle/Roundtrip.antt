-- ===== src/Enclave/Bundle/Roundtrip.antt =====
-- A bundle that was encrypted and is decrypted again: internal/enclavebundle/bundle.go.
use dappnode_nexus_gateway.Common.{
  ℕ, ◌+◌, ◌≤◌, ◌≡◌, refl, sym, ap, ◌∙◌, subst, inl, inr, true, false, [], ◌∷◌, Option, none, some,
  nat_eq, nat_beq, nat_beq_iff, ltb, length, codes, arith, Bool-cases,
}
use dappnode_nexus_gateway.Common.Bytes.{Bytes, bytes_eq, bytes_beq, trim_space_bytes}
use dappnode_nexus_gateway.Enclave.Bundle.{
  Time, BundleError, bundle_not_encoded, cipher_failed, nonce_failed, header_not_encoded, Checked,
  done, refused, Envelope, SecretBundle, Aead, Tools, header_of, validate_envelope_header,
  validate_secret_bundle, validate_expiry,
}
use dappnode_nexus_gateway.Enclave.Bundle.Sealing.{
  and_next, passed, expect, new_envelope, sealed, encrypt, decode_bounded, opened, decoded, decrypt,
}
use dappnode_nexus_gateway.Enclave.Bundle.Validity.{validate_secret_bundle_iff, IsFresh-iff}

-- What the libraries promise: base64 and AES-GCM give back what they were given, the sizes of base64
-- grow with the text, random bytes are as many as asked for, and GCM's nonce is short and its ciphertext
-- longer than the plaintext.
pub record IsFaithful (tools : Tools) : Type 0 where
  pub base64 : (s : Bytes) → tools.decode_base64 (tools.encode_base64 s) ≡ some s
  pub base64_size : (s : Bytes) → length (tools.encode_base64 s) ≡ tools.encoded_size (length s)
  pub sizes : (m n : ℕ) → m ≤ n → tools.encoded_size m ≤ tools.encoded_size n
  pub some_size : (n : ℕ) → 1 ≤ n → 1 ≤ tools.encoded_size n
  pub random_size : (n : ℕ) (s : Bytes) → tools.random n ≡ some s → length s ≡ n
  pub gcm :
      (key nonce plaintext aad : Bytes) (aead : Aead)
      → tools.new_gcm key ≡ some aead
      → aead.open_sealed nonce (aead.seal nonce plaintext aad) aad ≡ some plaintext
  pub gcm_nonce :
      (key : Bytes) (aead : Aead)
      → tools.new_gcm key ≡ some aead
      → (1 ≤ aead.nonce_size) × (aead.nonce_size ≤ 64)
  pub gcm_size :
      (key nonce plaintext aad : Bytes) (aead : Aead)
      → tools.new_gcm key ≡ some aead
      → length (aead.seal nonce plaintext aad) ≡ length plaintext + 16

done_of : {A : Type 0} → Checked A → A → A
done_of (done a) other = a
done_of (refused e) other = other

done-injective : {A : Type 0} (a b : A) → done a ≡ done b → a ≡ b
unfolding done_of
done-injective a b h = ap (λ r. done_of r a) h

and_next-done :
    {A B : Type 0} (r : Checked A) (f : A → Checked B) (b : B)
    → and_next r f ≡ done b
    → (a : A) × ((r ≡ done a) × (f a ≡ done b))
and_next-done (done a) f b h = (a, (refl, h))
and_next-done (refused e) f b h = absurd (ground (arith, h))

expect-done :
    {A : Type 0} (e : BundleError) (o : Option A) (a : A) → expect e o ≡ done a → o ≡ some a
expect-done e none a h = absurd (ground (arith, h))
expect-done e (some b) a h = ap some (done-injective b a h)

passed-done : (o : Option BundleError) (u : Unit) → passed o ≡ done u → o ≡ none
passed-done none u h = refl
passed-done (some e) u h = absurd (ground (arith, h))

-- How an envelope was made.
record IsMade (tools : Tools) (b : SecretBundle) (data_key key region : Bytes) (now : Time)
    (e : Envelope) : Type 0 where
  plaintext : Bytes
  aead : Aead
  nonce : Bytes
  aad : Bytes
  key_size : length data_key ≡ 32
  valid : validate_secret_bundle tools b b.source_revision now ≡ none
  named :
      validate_envelope_header
        (new_envelope b key region)
        (trim_space_bytes key)
        (trim_space_bytes region)
        b.source_revision
      ≡ none
  marshaled : tools.marshal_bundle b ≡ some plaintext
  gcm : tools.new_gcm data_key ≡ some aead
  chosen : tools.random aead.nonce_size ≡ some nonce
  authenticated : tools.marshal_header (header_of (new_envelope b key region)) ≡ some aad
  short : length (aead.seal nonce plaintext aad) ≤ 131072
  made : e ≡ record (new_envelope b key region) {
    nonce = tools.encode_base64 nonce;
    ciphertext = tools.encode_base64 (aead.seal nonce plaintext aad);
  }

sealed-done :
    (tools : Tools) (e f : Envelope) (nonce ciphertext : Bytes)
    → sealed tools e nonce ciphertext ≡ done f
    → (length ciphertext ≤ 131072)
      × (f ≡ record e {
        nonce = tools.encode_base64 nonce;
        ciphertext = tools.encode_base64 ciphertext;
      })
unfolding sealed
sealed-done tools e f nonce ciphertext h = elim (Bool-cases (ltb 131072 (length ciphertext))) [
  | inl long ↦ absurd (ground (arith, h, long))
  | inr short ↦
      let made : done (record e {
        nonce = tools.encode_base64 nonce;
        ciphertext = tools.encode_base64 ciphertext;
      })
          ≡ done f =
        ground (arith, h, short) in
      (ground (arith, short), sym (done-injective _ f made))
]

encrypt-IsMade :
    (tools : Tools) (b : SecretBundle) (data_key key region : Bytes) (now : Time) (e : Envelope)
    → encrypt tools b data_key key region now ≡ done e
    → IsMade tools b data_key key region now e
unfolding encrypt
encrypt-IsMade tools b data_key key region now e h =
    let new = new_envelope b key region in
    elim (Bool-cases (nat_beq (length data_key) 32)) [
      | inr other ↦ absurd (ground (arith, h, other))
      | inl size ↦
          let chain = and_next-done _ _ e (rw size at h) in
          let (u, (valid, c1)) = chain in
          let (v, (named, c2)) = and_next-done _ _ e c1 in
          let (plaintext, (marshaled, c3)) = and_next-done _ _ e c2 in
          let (aead, (gcm, c4)) = and_next-done _ _ e c3 in
          let (nonce, (chosen, c5)) = and_next-done _ _ e c4 in
          let (aad, (authenticated, c6)) = and_next-done _ _ e c5 in
          let (short, made) = sealed-done tools new e nonce (aead.seal nonce plaintext aad) c6 in
          record {
            plaintext = plaintext;
            aead = aead;
            nonce = nonce;
            aad = aad;
            key_size = (nat_beq_iff (length data_key) 32).0 size;
            valid = passed-done _ u valid;
            named = passed-done _ v named;
            marshaled = expect-done bundle_not_encoded _ plaintext marshaled;
            gcm = expect-done cipher_failed _ aead gcm;
            chosen = expect-done nonce_failed _ nonce chosen;
            authenticated = expect-done header_not_encoded _ aad authenticated;
            short = short;
            made = made;
          }
    ]

not_empty : (s : Bytes) → 1 ≤ length s → bytes_beq s [] ≡ false
not_empty [] h = absurd (omega (arith, h))
not_empty (c ∷ s) h = refl

decode_bounded-encoded :
    (tools : Tools) (name s : Bytes) (maximum : ℕ)
    → IsFaithful tools
    → 1 ≤ length s
    → length s ≤ maximum
    → decode_bounded tools name (tools.encode_base64 s) maximum ≡ done s
unfolding decode_bounded
decode_bounded-encoded tools name s maximum faithful some_bytes small =
    let size = faithful.base64_size s in
    let positive = faithful.some_size (length s) some_bytes in
    let fits = faithful.sizes (length s) maximum small in
    let written = not_empty (tools.encode_base64 s) (omega (arith, size, positive)) in
    let short : ltb (tools.encoded_size maximum) (length (tools.encode_base64 s)) ≡ false =
      ground (arith, size, fits) in
    let bounded : ltb maximum (length s) ≡ false = ground (arith, small) in
    rw (written, short, faithful.base64 s, not_empty s some_bytes, bounded, decode_bounded) refl

-- The header is checked without the nonce and the ciphertext.
named_header :
    (e : Envelope) (nonce ciphertext key region revision : Bytes)
    → validate_envelope_header
        (record e { nonce = nonce; ciphertext = ciphertext })
        key
        region
        revision
      ≡ validate_envelope_header e key region revision
unfolding validate_envelope_header
named_header e nonce ciphertext key region revision = refl

-- A bundle that was valid is valid later, unless it expired.
valid_later :
    (tools : Tools) (b : SecretBundle) (revision : Bytes) (now later : Time)
    → now ≤ later
    → validate_expiry b.expires_at b.issued_at later ≡ none
    → validate_secret_bundle tools b revision now ≡ none
    → validate_secret_bundle tools b revision later ≡ none
valid_later tools b revision now later le fresh h =
    let v = (validate_secret_bundle_iff tools b revision now).0 h in
    (validate_secret_bundle_iff tools b revision later).1 (record {
      schema = v.schema;
      built = v.built;
      same_build = v.same_build;
      issued = v.issued;
      not_ahead = omega (arith, v.not_ahead, le);
      fresh = (IsFresh-iff b.expires_at b.issued_at later).0 fresh;
      set = v.set;
      entries = v.entries;
      bounded = v.bounded;
      urls = v.urls;
    })

-- What was encrypted is decrypted with the same key to the same bundle, by a build of the bundle's
-- revision that expects the key and region named, at any later time before the bundle expires; if the
-- bundle's JSON decodes to it, with nothing behind it, and base64, AES-GCM and the random bytes are what
-- they promise.
pub decrypt-encrypt :
    (tools : Tools) (b : SecretBundle) (data_key key region : Bytes) (now later : Time)
    (e : Envelope)
    → IsFaithful tools
    → ((p : Bytes)
        → tools.marshal_bundle b ≡ some p
        → (rest : Bytes) × ((tools.decode_bundle p ≡ some (b, rest)) × (tools.at_end rest ≡ true)))
    → now ≤ later
    → validate_expiry b.expires_at b.issued_at later ≡ none
    → encrypt tools b data_key key region now ≡ done e
    → decrypt tools e data_key
        (trim_space_bytes key)
        (trim_space_bytes region)
        b.source_revision
        later
      ≡ done b
unfolding decrypt opened decoded
decrypt-encrypt tools b data_key key region now later e faithful json le fresh h =
    let m = encrypt-IsMade tools b data_key key region now e h in
    let (rest, (read, at_end)) = json m.plaintext m.marshaled in
    let size : nat_beq (length data_key) 32 ≡ true =
      (nat_beq_iff (length data_key) 32).1 m.key_size in
    let (some_nonce, short_nonce) = faithful.gcm_nonce data_key m.aead m.gcm in
    let nonce_size = faithful.random_size m.aead.nonce_size m.nonce m.chosen in
    let same_size : nat_beq (length m.nonce) m.aead.nonce_size ≡ true =
      (nat_beq_iff (length m.nonce) m.aead.nonce_size).1 nonce_size in
    let sealed_bytes = m.aead.seal m.nonce m.plaintext m.aad in
    let sealed_size = faithful.gcm_size data_key m.nonce m.plaintext m.aad m.aead m.gcm in
    let nonce =
      decode_bounded-encoded tools (codes "nonce") m.nonce 64 faithful
        (omega (arith, nonce_size, some_nonce)) (omega (arith, nonce_size, short_nonce)) in
    let ciphertext =
      decode_bounded-encoded tools (codes "ciphertext") sealed_bytes 131072 faithful
        (omega (arith, sealed_size)) m.short in
    let named_again : validate_envelope_header
          (record (new_envelope b key region) {
            nonce = tools.encode_base64 m.nonce;
            ciphertext = tools.encode_base64 sealed_bytes;
          })
          (trim_space_bytes key) (trim_space_bytes region) b.source_revision
        ≡ none =
      named_header (new_envelope b key region) (tools.encode_base64 m.nonce)
        (tools.encode_base64 sealed_bytes) (trim_space_bytes key) (trim_space_bytes region)
        b.source_revision
      ∙ m.named in
    let opens = faithful.gcm data_key m.nonce m.plaintext m.aad m.aead m.gcm in
    let valid = valid_later tools b b.source_revision now later le fresh m.valid in
    subst
      (λ f.
        decrypt tools f data_key (trim_space_bytes key) (trim_space_bytes region) b.source_revision
          later
        ≡ done b)
      (sym m.made)
      (rw
        (
          size, named_again, nonce, ciphertext, m.gcm, same_size, m.authenticated, opens, read,
          at_end, valid,
        )
        refl)
