-- ===== src/Metering/Client.antt =====
-- Requests to Metering: client.go's `requestJSON`, `requestJSONOnce`, `userFacingMeteringError` and
-- the errors for Metering's failures. The server is a parameter: what comes back from each attempt.
-- Metrics and request headers are left out.
pub mod Payload
pub mod Laws
pub mod Errors
pub mod Reservations
use Prim.Native.Char.{code}
use Prim.Native.String.{◌++◌}
use dappnode_nexus_gateway.Common.{
  ℕ, zero, suc, String, Bool, true, false, not, ◌&&◌, ◌||◌, List, [], ◌∷◌, Option, none, some, ltb,
  leb, if◌then◌else◌, ◌==◌, ◌!=◌, string_eq, nat_eq, ◌⊎◌, inl, inr,
}
use dappnode_nexus_gateway.Common.Int.{pos}
use dappnode_nexus_gateway.Domain.Error.{
  GatewayError, Error, gateway, retryable, canceled, deadline_exceeded, plain, Result, ok, err,
  with_meta, str, int,
}
use dappnode_nexus_gateway.Metering.Contract.{metering_internal_error}

-- `errorResponse`.
pub record ErrorResponse : Type 0 where
  pub type : String
  pub code : String
  pub message : String

-- What one attempt meets: no request could be made, no answer came (with the context's error, if it
-- has ended), or an answer with a status, the error that its body decodes to, and the body.
pub data Exchange (Body : Type 0) : Type 0 where
  unsent : Error → Exchange Body
  unreachable : Option Error → String → Exchange Body
  answered : ℕ → ErrorResponse → Body → Exchange Body

unfoldable pub metering_response_error : ℕ → String → GatewayError
unfolding metering_internal_error
metering_response_error status code =
    let e =
      metering_internal_error
        (("cause", str "metering_error_status") ∷ ("metering_status", int (pos status)) ∷ []) in
    if code != "" then with_meta e (("metering_code", str code) ∷ []) else e

abbrev pub is_retryable_request_error : Error → Bool
is_retryable_request_error (gateway g) = false
is_retryable_request_error canceled = false
is_retryable_request_error deadline_exceeded = false
is_retryable_request_error (retryable e) = true
is_retryable_request_error (plain s) = false

abbrev pub unwrap_retryable_request_error : Error → Error
unwrap_retryable_request_error (gateway g) = gateway g
unwrap_retryable_request_error canceled = canceled
unwrap_retryable_request_error deadline_exceeded = deadline_exceeded
unwrap_retryable_request_error (retryable e) = e
unwrap_retryable_request_error (plain s) = plain s

-- `strings.Cut(path, "?")`, its first part.
unfoldable pub before_query : String → String
before_query String.[] = String.[]
before_query (String.◌∷◌ c s) =
    let rest = before_query s in if code c == b'?' then String.[] else String.◌∷◌ c rest

-- `strings.HasPrefix(s, p)`.
unfoldable pub has_prefix : String → String → Bool
has_prefix s String.[] = true
has_prefix String.[] (String.◌∷◌ d p) = false
has_prefix (String.◌∷◌ c s) (String.◌∷◌ d p) = code c == code d && has_prefix s p

-- The status and type that an error code must come with to be shown to the caller: 0 and "" where
-- no such code is expected.
unfoldable pub wanted_error : String → String → String → ℕ × String
unfolding has_prefix
wanted_error method path code =
    if method == "POST" && path == "/internal/gateway/authenticate"
    then (if code == "invalid_api_key" || code == "inactive_api_key"
        then (401, "authentication_error")
        else if code == "inactive_account"
        then (403, "permission_error")
        else (0, ""))
    else if method == "GET" && has_prefix path "/internal/gateway/models/"
    then (if code == "unsupported_model" then (404, "invalid_request_error") else (0, ""))
    else if method == "GET" && has_prefix path "/internal/gateway/routers/"
    then (if code == "not_found" then (404, "invalid_request_error") else (0, ""))
    else if method == "GET" && path == "/internal/gateway/tinfoil-proofs"
    then (if code == "not_found" then (404, "invalid_request_error") else (0, ""))
    else if method == "POST" && path == "/internal/metering/reservations"
    then (if code == "insufficient_balance"
        then (402, "permission_error")
        else if code == "daily_token_limit_exceeded"
        then (429, "rate_limit_error")
        else (0, ""))
    else (0, "")

unfoldable pub user_facing_metering_error :
    String → String → ℕ → ErrorResponse → Option GatewayError
unfolding wanted_error before_query
user_facing_metering_error method path status envelope =
    let wanted = wanted_error method (before_query path) envelope.code in
    if status != wanted.0 || envelope.type != wanted.1 || envelope.message == ""
    then none
    else some (record {
      http_status = status;
      type = envelope.type;
      code = envelope.code;
      message = envelope.message;
      retry_after = "";
      metadata = [];
    })

abbrev bad_response : String → Error
bad_response reason = retryable (
    gateway (
      metering_internal_error
        (("cause", str "metering_bad_response") ∷ ("reason", str reason) ∷ [])))

-- `out` reads the body: `inl` is the decoder's error text. A nil `out` gives `none`.
module _ {Body A : Type 0} where
  pub read_body : Option (Body → String ⊎ A) → ℕ → Body → Result (Option A)
  read_body none status body = ok none
  read_body (some decode) status body =
      if status == 204 then err (bad_response "missing response body") else elim (decode body) [
        | inl reason ↦ err (bad_response ("invalid response body: " ++ reason))
        | inr a ↦ ok (some a)
      ]

  unfoldable pub request_json_once :
      String → String → Option (Body → String ⊎ A) → Exchange Body → Result (Option A)
  unfolding read_body
  request_json_once method path out (unsent e) = err e
  request_json_once method path out (unreachable (some e) reason) = err e
  request_json_once method path out (unreachable none reason) = err (
      retryable (
        gateway (
          metering_internal_error
            (("cause", str "metering_unreachable") ∷ ("reason", str reason) ∷ []))))
  request_json_once method path out (answered status envelope body) =
      if ltb status 200 || leb 300 status
      then (if leb 500 status
          then err (retryable (gateway (metering_response_error status envelope.code)))
          else elim (user_facing_metering_error method path status envelope) [
            | some g ↦ err (gateway g)
            | none ↦ err (gateway (metering_response_error status envelope.code))
          ])
      else read_body out status body

-- The loop of `requestJSON` with what each attempt gives: `interrupted n` is the context's error if
-- it ends while attempt n waits for its turn. The first part is what the attempts that were made
-- gave, in order.
module _ {A : Type 0} (once : ℕ → Result A) (interrupted : ℕ → Option Error) where
  -- The wait before attempt n: none before the first.
  abbrev wait : ℕ → Option Error
  wait zero = none
  wait (suc n) = interrupted (suc n)

  -- `left` attempts may follow this one.
  pub attempts_from : ℕ → ℕ → List (Result A) × Result A
  attempts_from zero attempt = elim (wait attempt) [
    | some e ↦ ([], err e)
    | none ↦ elim (once attempt) [
      | ok a ↦ (ok a ∷ [], ok a)
      | err e ↦ (err e ∷ [], err (unwrap_retryable_request_error e))
    ]
  ]
  attempts_from (suc left) attempt =
      let later = attempts_from left (suc attempt) in
      elim (wait attempt) [
        | some e ↦ ([], err e)
        | none ↦ elim (once attempt) [
          | ok a ↦ (ok a ∷ [], ok a)
          | err e ↦
              if is_retryable_request_error e
              then (err e ∷ later.0, later.1)
              else (err e ∷ [], err e)
        ]
      ]

-- `requestJSON`: `server n` is what attempt n meets.
module _ {Body A : Type 0} where
  pub request_json :
      (ℕ → Exchange Body)
      → (ℕ → Option Error)
      → String
      → String
      → Option (Body → String ⊎ A)
      → ℕ
      → List (Result (Option A)) × Result (Option A)
  unfolding attempts_from request_json_once
  request_json server interrupted method path out retries =
      attempts_from (λ n. request_json_once method path out (server n)) interrupted retries 0
