-- ===== src/Tests/Enclave.antt =====
-- A configuration of the enclave, with concrete libraries.
use dappnode_nexus_gateway.Common.{
  ℕ, zero, suc, ◌+◌, ◌≤◌, ◌≡◌, ◌↔◌, refl, sym, subst, ap, ◌∙◌, [], ◌∷◌, Option, none, some, true,
  false, codes, length, drop, arith, string_eq,
}
use dappnode_nexus_gateway.Common.Bytes.{
  Bytes, find, trim_space_bytes, drop_space, space_before, space_behind, space_back, space_at,
  bytes_eq,
}
use dappnode_nexus_gateway.Enclave.Bundle.{
  SecretBundle, Envelope, Aead, Tools, validate_entries, validate_urls, validate_secret_bundle,
  has_context, is_provider_secret, starts_upper, validate_envelope_header, done,
}
use dappnode_nexus_gateway.Enclave.Bundle.Sealing.{new_envelope, sealed, encrypt, decrypt}
use dappnode_nexus_gateway.Enclave.Bundle.Validity.{IsValidBundle, validate_secret_bundle_iff}
use dappnode_nexus_gateway.Enclave.Bundle.Roundtrip.{IsFaithful, decrypt-encrypt}

abbrev bundle : SecretBundle
bundle = record {
  schema_version = 1;
  source_revision = codes "abc";
  issued_at = 1000;
  expires_at = some 9000;
  environment =
      (codes "METERING_URL", codes "https://m")
      ∷ (codes "METERING_TOKEN", codes "t")
      ∷ (codes "OPENAI_API_KEY", codes "k")
      ∷ [];
}

fill : ℕ → Bytes
fill zero = []
fill (suc n) = 7 ∷ fill n

length-fill : (n : ℕ) → length (fill n) ≡ n
unfolding fill
length-fill zero = refl
length-fill (suc n) = ap suc (length-fill n)

-- A tag of 16 bytes before the text.
abbrev tag : Bytes → Bytes
tag p = 0 ∷ 0 ∷ 0 ∷ 0 ∷ 0 ∷ 0 ∷ 0 ∷ 0 ∷ 0 ∷ 0 ∷ 0 ∷ 0 ∷ 0 ∷ 0 ∷ 0 ∷ 0 ∷ p

abbrev gcm : Aead
gcm = record {
  nonce_size = 12;
  seal = λ nonce plaintext aad. tag plaintext;
  open_sealed = λ nonce ciphertext aad. some (drop 16 ciphertext);
}

abbrev tools : Tools
tools = record {
  parse_url = λ s.
      some
        (record { scheme = codes "https"; hostname = codes "m"; has_user = false; fragment = [] });
  new_gcm = λ key. some gcm;
  random = λ n. some (fill n);
  encoded_size = λ n. n;
  encode_base64 = λ s. s;
  decode_base64 = λ s. some s;
  marshal_header = λ header. some [];
  marshal_bundle = λ b. some (1 ∷ []);
  decode_bundle = λ p. some (bundle, []);
  at_end = λ rest. true;
}

some_in : {A : Type 0} → Option A → A → A
some_in none other = other
some_in (some a) other = a

some-injective : {A : Type 0} (a b : A) → some a ≡ some b → a ≡ b
unfolding some_in
some-injective a b h = ap (λ o. some_in o a) h

tools-IsFaithful : IsFaithful tools
tools-IsFaithful = record {
  base64 = λ s. refl;
  base64_size = λ s. refl;
  sizes = λ m n h. h;
  some_size = λ n h. h;
  random_size = λ n s h. ap length (some-injective s (fill n) (sym h)) ∙ length-fill n;
  gcm = λ key nonce plaintext aad aead h.
      subst (λ (a : Aead). a.open_sealed nonce (a.seal nonce plaintext aad) aad ≡ some plaintext)
        (some-injective gcm aead h) refl;
  gcm_nonce = λ key aead h.
      subst (λ (a : Aead). (1 ≤ a.nonce_size) × (a.nonce_size ≤ 64)) (some-injective gcm aead h)
        (omega arith, omega arith);
  gcm_size = λ key nonce plaintext aad aead h.
      subst (λ (a : Aead). length (a.seal nonce plaintext aad) ≡ length plaintext + 16)
        (some-injective gcm aead h) (omega arith);
}

abbrev data_key : Bytes
unfolding fill
data_key = fill 32

abbrev envelope : Envelope
unfolding fill
envelope = record (new_envelope bundle (codes "arn") (codes "eu")) {
  nonce = fill 12;
  ciphertext = tag (1 ∷ []);
}

validate_secret_bundle_iff_example :
    (validate_secret_bundle tools bundle (codes "abc") 2000 ≡ none)
    ↔ IsValidBundle tools bundle (codes "abc") 2000
validate_secret_bundle_iff_example = validate_secret_bundle_iff tools bundle (codes "abc") 2000

-- The sample bundle is valid.
valid_computed : validate_secret_bundle tools bundle (codes "abc") 2000 ≡ none
unfolding validate_secret_bundle validate_urls validate_entries is_provider_secret starts_upper find
    trim_space_bytes drop_space space_before space_behind space_back space_at
valid_computed = refl

encrypted : encrypt tools bundle data_key (codes "arn") (codes "eu") 2000 ≡ done envelope
unfolding encrypt sealed validate_secret_bundle validate_urls validate_entries is_provider_secret
    starts_upper has_context validate_envelope_header fill find trim_space_bytes drop_space
    space_before space_behind space_back space_at
encrypted = refl

decrypt-encrypt_example :
    decrypt tools envelope data_key
      (trim_space_bytes (codes "arn"))
      (trim_space_bytes (codes "eu"))
      (codes "abc")
      3000
    ≡ done bundle
decrypt-encrypt_example =
    decrypt-encrypt tools bundle data_key (codes "arn") (codes "eu") 2000 3000 envelope
      tools-IsFaithful (λ p h. ([], (refl, refl))) (omega arith) refl encrypted
