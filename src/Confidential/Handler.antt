-- ===== src/Confidential/Handler.antt =====
-- `handleDecrypted` of apps/gateway/internal/adapters/http/handlers/
-- confidential_chat_completions_handler.go. The decoders of encoding/json, time and uuid are fields
-- of `Env`; a time is a number of nanoseconds from an origin before every time that it reads.
pub mod Replays
use mathlib.Core.List.{reverse}
use dappnode_nexus_gateway.Common.{
  ℕ, ◌+◌, ◌*◌, String, Bool, true, false, not, ◌&&◌, ◌||◌, List, [], ◌∷◌, Option, none, some,
  if◌then◌else◌, ◌==◌, ◌!=◌, string_eq, nat_eq, ltb, codes, is_space, trim_space, length,
}
use dappnode_nexus_gateway.Common.Int.{ℤ, pos, int_eq}
use dappnode_nexus_gateway.Domain.Error.{
  GatewayError, Error, gateway, Result, ok, err, with_meta, str, err_invalid_field, err_internal,
  err_conflict, err_provider_unavailable,
}
use dappnode_nexus_gateway.Domain.Account.{AuthContext}
use dappnode_nexus_gateway.Domain.Fault.{byte_length}
use dappnode_nexus_gateway.Handlers.{extract_bearer_token, max_request_body_size}
use dappnode_nexus_gateway.Confidential.Replay.{
  ReplayCache, ReplayResult, ReplayKey, accepted, duplicate, capacity_reached,
  account_capacity_reached, check_and_store, second,
}

abbrev pub confidential_envelope_schema : ℤ
confidential_envelope_schema = pos 1

abbrev pub confidential_envelope_limit : ℕ
confidential_envelope_limit = max_request_body_size + 64 * 1024

abbrev pub confidential_max_age : ℕ
confidential_max_age = 120 * second

abbrev pub confidential_future_skew : ℕ
confidential_future_skew = 30 * second

pub record ConfidentialEnvelope : Type 0 where
  pub schema_version : ℤ
  pub request_id : String
  pub issued_at : String
  pub request : String

-- The code outside: the envelope that a text decodes to with no unknown field and nothing after it,
-- whether a text is valid JSON, the time that a timestamp names, and the canonical form of a UUID.
pub record Env : Type 0 where
  pub authenticate : String → Result AuthContext
  pub decode : String → Option ConfidentialEnvelope
  pub valid_json : String → Bool
  pub parse_time : String → Option ℕ
  pub parse_uuid : String → Option String

-- `body` is `none` if it cannot be read; `now` is the clock when the age is checked, and `locked`
-- when the replay cache is.
pub record Request : Type 0 where
  pub authorization : String
  pub body : Option String
  pub now : ℕ
  pub locked : ℕ

pub data Response : Type 0 where
  rejected : Error → Response
  forwarded : String → Response

abbrev invalid : String → Error
invalid message = gateway (err_invalid_field message)

-- Whether a text starts with `{` and ends, later, with `}`.
unfoldable pub starts_with : ℕ → List ℕ → Bool
starts_with c [] = false
starts_with c (d ∷ ds) = d == c

unfoldable pub is_braced : String → Bool
unfolding starts_with
is_braced s =
    not (ltb (byte_length s) 2)
    && starts_with b'{' (codes s)
    && starts_with b'}' (reverse (codes s))

module _ (env : Env) where
  open env use {authenticate, decode, valid_json, parse_time, parse_uuid}

  unfoldable pub decode_confidential_envelope : String → Result ConfidentialEnvelope
  decode_confidential_envelope body = elim (decode body) [
    | none ↦ err (invalid "invalid confidential request envelope")
    | some envelope ↦
        if envelope.schema_version != confidential_envelope_schema
        then err (invalid "unsupported confidential request schema_version")
        else if not
            (is_braced (trim_space envelope.request) && valid_json (trim_space envelope.request))
        then err (invalid "request must be a JSON object")
        else ok (record envelope { request = trim_space envelope.request })
  ]

  -- The token and its account.
  unfoldable pub authorize : String → Result AuthContext
  authorize authorization = elim (extract_bearer_token authorization) [
    | err e ↦ err e
    | ok token ↦ elim (authenticate token) [
      | err e ↦ err e
      | ok auth ↦
          if auth.account.id == ""
          then err (gateway (err_internal "authentication returned no account"))
          else ok auth
    ]
  ]

  unfoldable pub read_envelope : Option String → Result ConfidentialEnvelope
  read_envelope none = err (invalid "failed to read confidential request")
  read_envelope (some body) =
      if ltb confidential_envelope_limit (byte_length body)
      then err (invalid "confidential request body exceeds the maximum size")
      else decode_confidential_envelope body

  -- The age of the envelope, then its ID; `none` is a request that may reach the replay cache.
  unfoldable pub check_envelope : ℕ → ConfidentialEnvelope → Option Error
  check_envelope now envelope = elim (parse_time envelope.issued_at) [
    | none ↦ some (invalid "issued_at must be an RFC3339 timestamp")
    | some issued ↦
        if ltb (issued + confidential_max_age) now
        then some (invalid "confidential request is stale")
        else if ltb (now + confidential_future_skew) issued
        then some (invalid "confidential request timestamp is in the future")
        else elim (parse_uuid envelope.request_id) [
          | none ↦ some (invalid "request_id must be a canonical UUID")
          | some id ↦
              if id == "00000000-0000-0000-0000-000000000000" || id != envelope.request_id
              then some (invalid "request_id must be a canonical UUID")
              else none
        ]
  ]

  -- The account and the envelope of a request that reaches the replay cache.
  unfoldable pub prepare : Request → Result (AuthContext × ConfidentialEnvelope)
  prepare r = elim (authorize r.authorization) [
    | err e ↦ err e
    | ok auth ↦ elim (read_envelope r.body) [
      | err e ↦ err e
      | ok envelope ↦ elim (check_envelope r.now envelope) [
        | some e ↦ err e
        | none ↦ ok (auth, envelope)
      ]
    ]
  ]

  -- What the handler answers to the replay cache's result.
  unfoldable pub answer : ReplayResult → String → Response
  answer accepted request = forwarded request
  answer duplicate request =
      rejected (gateway (err_conflict "confidential request was already processed"))
  answer account_capacity_reached request = rejected (
      gateway (record {
        http_status = 429;
        type = "rate_limit_error";
        code = "confidential_request_limit_exceeded";
        message = "Account confidential request limit reached; retry after replay entries expire";
        retry_after = "";
        metadata = [];
      }))
  answer capacity_reached request = rejected (
      gateway (
        with_meta (err_provider_unavailable "confidential replay protection") (
          ("fault", str "nexus")
          ∷ ("dependency", str "replay_store")
          ∷ ("cause", str "replay_store_full")
          ∷ [])))

  -- The replay cache decides about a request that passed the checks before it.
  unfoldable pub look_up :
      ReplayCache → Request → Result (AuthContext × ConfidentialEnvelope) → ReplayCache × Response
  look_up c r (err e) = (c, rejected e)
  look_up c r (ok (auth, envelope)) =
      let (d, result) = check_and_store c auth.account.id envelope.request_id r.locked in
      (d, answer result envelope.request)

  unfoldable pub handle_decrypted : ReplayCache → Request → ReplayCache × Response
  handle_decrypted c r = look_up c r (prepare r)

  -- The cache after requests, oldest first.
  unfoldable pub handle_all : ReplayCache → List Request → ReplayCache
  handle_all c [] = c
  handle_all c (r ∷ rs) = handle_all (handle_decrypted c r).0 rs
