-- ===== src/Enclave/Bundle/Sealing.antt =====
-- `Encrypt`, `Decrypt` and `ValidateEnvelope` of internal/enclavebundle/bundle.go. The time and the
-- random bytes are arguments.
use dappnode_nexus_gateway.Common.{
  ℕ, ◌||◌, [], ◌∷◌, Option, none, some, if◌then◌else◌, ◌==◌, ◌!=◌, nat_eq, ltb, length, codes,
}
use dappnode_nexus_gateway.Common.Bytes.{Bytes, bytes_eq, trim_space_bytes}
use dappnode_nexus_gateway.Enclave.Bundle.{
  Time, BundleError, data_key_size, invalid_size, invalid_base64, cipher_failed, nonce_failed,
  nonce_size, ciphertext_too_large, not_authentic, header_not_encoded, bundle_not_encoded,
  bundle_not_decoded, more_than_one_value, Checked, done, refused, Envelope, SecretBundle,
  encryption_context, Aead, Tools, header_of, validate_envelope_header, validate_secret_bundle,
}

abbrev pub and_next : {A B : Type 0} → Checked A → (A → Checked B) → Checked B
and_next (refused e) f = refused e
and_next (done a) f = f a

-- A check, as the value `tt` where it passes.
abbrev pub passed : Option BundleError → Checked Unit
passed none = done tt
passed (some e) = refused e

abbrev pub expect : {A : Type 0} → BundleError → Option A → Checked A
expect e none = refused e
expect e (some a) = done a

-- The envelope of `Encrypt` before the bundle is sealed.
abbrev pub new_envelope : SecretBundle → Bytes → Bytes → Envelope
new_envelope b key region = record {
  schema_version = 1;
  kms_key_arn = trim_space_bytes key;
  aws_region = trim_space_bytes region;
  encryption_context = encryption_context b.source_revision;
  encrypted_data_key = [];
  nonce = [];
  ciphertext = [];
}

module _ (tools : Tools) where
  unfoldable pub decode_bounded : Bytes → Bytes → ℕ → Checked Bytes
  decode_bounded name encoded maximum =
      if encoded == [] || ltb (tools.encoded_size maximum) (length encoded)
      then refused (invalid_size name)
      else elim (tools.decode_base64 encoded) [
        | none ↦ refused (invalid_base64 name)
        | some decoded ↦
            if decoded == [] || ltb maximum (length decoded)
            then refused (invalid_base64 name)
            else done decoded
      ]

  unfoldable pub sealed : Envelope → Bytes → Bytes → Checked Envelope
  sealed e nonce ciphertext =
      if ltb 131072 (length ciphertext)
      then refused ciphertext_too_large
      else done (record e {
        nonce = tools.encode_base64 nonce;
        ciphertext = tools.encode_base64 ciphertext;
      })

  unfoldable pub encrypt : SecretBundle → Bytes → Bytes → Bytes → Time → Checked Envelope
  unfolding sealed validate_secret_bundle validate_envelope_header
  encrypt b data_key key region now =
      let e = new_envelope b key region in
      if length data_key != 32
      then refused data_key_size
      else and_next (passed (validate_secret_bundle tools b b.source_revision now)) (λ _.
        and_next (passed (validate_envelope_header e e.kms_key_arn e.aws_region b.source_revision))
          (λ _. and_next (expect bundle_not_encoded (tools.marshal_bundle b)) (λ plaintext.
            and_next (expect cipher_failed (tools.new_gcm data_key)) (λ aead.
              and_next (expect nonce_failed (tools.random aead.nonce_size)) (λ nonce.
                and_next (expect header_not_encoded (tools.marshal_header (header_of e)))
                  (λ aad. sealed e nonce (aead.seal nonce plaintext aad)))))))

  -- The bundle in what was decrypted.
  unfoldable pub decoded : Bytes → Bytes → Time → Checked SecretBundle
  unfolding validate_secret_bundle
  decoded plaintext revision now =
      and_next (expect bundle_not_decoded (tools.decode_bundle plaintext)) (λ r.
        if tools.at_end r.1
        then and_next (passed (validate_secret_bundle tools r.0 revision now)) (λ _. done r.0)
        else refused more_than_one_value)

  unfoldable pub opened : Envelope → Aead → Bytes → Bytes → Checked Bytes
  opened e aead nonce ciphertext =
      if length nonce != aead.nonce_size
      then refused nonce_size
      else and_next (expect header_not_encoded (tools.marshal_header (header_of e)))
          (λ aad. expect not_authentic (aead.open_sealed nonce ciphertext aad))

  unfoldable pub decrypt : Envelope → Bytes → Bytes → Bytes → Bytes → Time → Checked SecretBundle
  unfolding decode_bounded opened decoded validate_envelope_header
  decrypt e data_key key region revision now =
      if length data_key != 32
      then refused data_key_size
      else and_next (passed (validate_envelope_header e key region revision)) (λ _.
        and_next (decode_bounded (codes "nonce") e.nonce 64) (λ nonce.
          and_next (decode_bounded (codes "ciphertext") e.ciphertext 131072) (λ ciphertext.
            and_next (expect cipher_failed (tools.new_gcm data_key)) (λ aead.
              and_next (opened e aead nonce ciphertext)
                (λ plaintext. decoded plaintext revision now)))))

  unfoldable pub decode_encrypted_data_key : Envelope → Checked Bytes
  unfolding decode_bounded
  decode_encrypted_data_key e =
      decode_bounded (codes "encrypted_data_key") e.encrypted_data_key 16384

  unfoldable pub validate_envelope : Envelope → Bytes → Bytes → Bytes → Checked Unit
  unfolding decode_encrypted_data_key decode_bounded validate_envelope_header
  validate_envelope e key region revision =
      and_next (passed (validate_envelope_header e key region revision)) (λ _.
        and_next (decode_encrypted_data_key e) (λ _.
          and_next (decode_bounded (codes "nonce") e.nonce 64) (λ _.
            and_next (decode_bounded (codes "ciphertext") e.ciphertext 131072) (λ _. done tt))))

-- `Clear`, of a buffer that is not used again.
unfoldable pub clear : Bytes → Bytes
clear [] = []
clear (c ∷ s) = 0 ∷ clear s
