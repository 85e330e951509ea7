-- ===== src/Handlers.antt =====
-- What the HTTP handlers share: apps/gateway/internal/adapters/http/handlers/common.go. A response
-- is the error that is written; headers other than Retry-After, and log lines, are left out.
use dappnode_nexus_gateway.Common.{
  ℕ, String, ◌||◌, [], ◌∷◌, Option, none, some, if◌then◌else◌, ◌==◌, string_eq, ltb, is_none,
  cut_prefix,
}
use dappnode_nexus_gateway.Common.Int.{ℤ, pos}
use dappnode_nexus_gateway.Domain.Error.{
  GatewayError, Error, gateway, canceled, deadline_exceeded, retryable, plain, int, str, other,
  meta_get, Result, ok, err, with_meta, err_internal, err_invalid_api_key,
}
use dappnode_nexus_gateway.Domain.Fault.{byte_length}

abbrev pub max_request_body_size : ℕ
max_request_body_size = 10_485_760

-- The JSON of an error response; `upstream_status` is 0 where it is left out.
pub record ErrorDetail : Type 0 where
  pub type : String
  pub code : String
  pub message : String
  pub origin : String
  pub upstream_status : ℤ

pub record ErrorReply : Type 0 where
  pub status : ℕ
  pub retry_after : String
  pub detail : ErrorDetail

unfoldable pub error_detail : GatewayError → ErrorDetail
error_detail e = record {
  type = e.type;
  code = e.code;
  message = e.message;
  origin = if e.type == "provider_error" then "upstream" else "gateway";
  upstream_status = elim (meta_get "upstream_status" e.metadata) [
    | none ↦ pos 0
    | some v ↦ elim v [ int n ↦ n | str s ↦ pos 0 | other ↦ pos 0 ]
  ];
}

-- `err.(*domain.GatewayError)`: the error itself, nothing that it wraps.
abbrev pub direct_gateway : Error → Option GatewayError
direct_gateway (gateway g) = some g
direct_gateway canceled = none
direct_gateway deadline_exceeded = none
direct_gateway (retryable e) = none
direct_gateway (plain s) = none

-- `WriteErrorWithLog`, what the client gets; `WriteError` writes the same.
unfoldable pub write_error : Error → ErrorReply
unfolding error_detail
write_error e =
    let g : GatewayError = elim (direct_gateway e) [
      | some g ↦ g
      | none ↦
          with_meta (err_internal "an internal error occurred")
            (("cause", str "untyped_error") ∷ [])
    ] in
    record { status = g.http_status; retry_after = g.retry_after; detail = error_detail g }

-- The Authorization header, "" where there is none.
unfoldable pub extract_bearer_token : String → Result String
extract_bearer_token auth =
    if auth == ""
    then err (gateway (err_invalid_api_key "missing Authorization header"))
    else if ltb (byte_length auth) 8 || is_none (cut_prefix auth "Bearer ")
    then err
        (gateway (err_invalid_api_key "malformed Authorization header, expected 'Bearer <token>'"))
    else elim (cut_prefix auth "Bearer ") [
      | none ↦ err (gateway (err_invalid_api_key "empty bearer token"))
      | some token ↦
          if token == "" then err (gateway (err_invalid_api_key "empty bearer token")) else ok token
    ]
