-- ===== src/Domain/Error.antt =====
-- pkg/domain/error.go: the gateway's error type, its constructors and its metadata.
-- `map[string]any` is an association list whose values are integers, texts, or anything else.
-- HTTP status codes are native numbers.
use dappnode_nexus_gateway.Common.{
  ℕ, ◌≡◌, refl, String, List, [], ◌∷◌, Option, none, some, if◌then◌else◌, ◌==◌, string_eq, arith,
  eq_iff, ◌⊎◌, inl, inr,
}
use Prim.Native.String.{◌++◌}
use dappnode_nexus_gateway.Common.Int.{ℤ}

pub data Meta : Type 0 where
  int : ℤ → Meta
  str : String → Meta
  other : Meta

abbrev pub Metadata : Type 0
Metadata = List (String × Meta)

pub record GatewayError : Type 0 where
  pub http_status : ℕ
  pub type : String
  pub code : String
  pub message : String
  pub retry_after : String
  pub metadata : Metadata

-- A Go `error`: a gateway error, a context error, an error that marks another as worth a retry
-- (`retryableRequestError`, which unwraps to it), or any other.
pub data Error : Type 0 where
  gateway : GatewayError → Error
  canceled deadline_exceeded : Error
  retryable : Error → Error
  plain : String → Error

-- `errors.As(err, &gwErr)`.
abbrev pub as_gateway : Error → Option GatewayError
as_gateway (gateway e) = some e
as_gateway canceled = none
as_gateway deadline_exceeded = none
as_gateway (retryable e) = as_gateway e
as_gateway (plain s) = none

pub data Result {ℓ} (A : Type ℓ) : Type ℓ where
  ok : A → Result A
  err : Error → Result A

infixl 5 ◌>>=◌
abbrev pub ◌>>=◌ {ℓ κ} : {A : Type ℓ} {B : Type κ} → Result A → (A → Result B) → Result B
ok a >>= f = f a
err e >>= f = err e

pub Result-cases {ℓ} :
    {A : Type ℓ} (r : Result A) → ((e : Error) × (r ≡ err e)) ⊎ ((a : A) × (r ≡ ok a))
Result-cases (err e) = inl (e, refl)
Result-cases (ok a) = inr (a, refl)

unfoldable pub meta_get : String → Metadata → Option Meta
meta_get k [] = none
meta_get k ((j, v) ∷ m) = if j == k then some v else meta_get k m

unfoldable pub meta_set : String → Meta → Metadata → Metadata
meta_set k v [] = (k, v) ∷ []
meta_set k v ((j, w) ∷ m) = if j == k then (k, v) ∷ m else (j, w) ∷ meta_set k v m

unfoldable pub meta_merge : Metadata → Metadata → Metadata
meta_merge m [] = m
meta_merge m ((k, v) ∷ fields) = meta_merge (meta_set k v m) fields

-- The copy that Go makes of the map is what a value is here.
unfoldable pub with_meta : GatewayError → Metadata → GatewayError
with_meta e fields = record e { metadata = meta_merge e.metadata fields }

pub meta_get-meta_set :
    (k j : String) (v : Meta) (m : Metadata)
    → meta_get j (meta_set k v m) ≡ (if k == j then some v else meta_get j m)
unfolding meta_get meta_set
meta_get-meta_set k j v [] = refl
meta_get-meta_set k j v ((i, w) ∷ m) =
    ground (arith, eq_iff k j, eq_iff i k, eq_iff i j, meta_get-meta_set k j v m)

abbrev make : ℕ → String → String → String → GatewayError
make status type code message = record {
  http_status = status;
  type = type;
  code = code;
  message = message;
  retry_after = "";
  metadata = [];
}

abbrev pub err_invalid_api_key : String → GatewayError
err_invalid_api_key msg = make 401 "authentication_error" "invalid_api_key" msg

abbrev pub err_guest_model_not_allowed : String → GatewayError
err_guest_model_not_allowed model =
    make 403 "permission_error" "guest_model_not_allowed"
      ("Guest chat can't use '" ++ model ++ "'. Sign up for free to use every model.")

abbrev pub err_unsupported_model : String → GatewayError
err_unsupported_model model =
    make 404 "invalid_request_error" "unsupported_model"
      ("Model '" ++ model ++ "' is not available")

abbrev pub err_unsupported_endpoint : String → String → GatewayError
err_unsupported_endpoint model endpoint =
    make 422 "invalid_request_error" "unsupported_endpoint"
      ("Model '" ++ model ++ "' does not support endpoint '" ++ endpoint ++ "'")

abbrev pub err_unsupported_feature : String → GatewayError
err_unsupported_feature feature =
    make 422 "invalid_request_error" "unsupported_feature"
      ("Feature '" ++ feature ++ "' is not supported by the selected model")

abbrev pub err_provider_unavailable : String → GatewayError
err_provider_unavailable provider =
    make 503 "provider_error" "provider_unavailable"
      ("Provider '" ++ provider ++ "' is unavailable")

abbrev pub err_provider_timeout : String → GatewayError
err_provider_timeout provider =
    make 504 "provider_error" "provider_timeout" ("Provider '" ++ provider ++ "' timed out")

abbrev pub err_client_canceled : GatewayError
err_client_canceled =
    make 499 "invalid_request_error" "client_canceled" "Client canceled the request"

abbrev pub err_invalid_field : String → GatewayError
err_invalid_field msg = make 400 "invalid_request_error" "invalid_field" msg

abbrev pub err_tool_message_invalid : String → GatewayError
err_tool_message_invalid msg = make 400 "invalid_request_error" "tool_message_invalid" msg

abbrev pub err_internal : String → GatewayError
err_internal msg = make 500 "internal_error" "internal_error" msg

abbrev pub err_provider_error : ℕ → String → GatewayError
err_provider_error status msg = make status "provider_error" "provider_error" msg

abbrev pub err_conflict : String → GatewayError
err_conflict msg = make 409 "invalid_request_error" "conflict" msg

abbrev pub err_not_found : String → String → GatewayError
err_not_found resource id =
    make 404 "invalid_request_error" "not_found" (resource ++ " '" ++ id ++ "' not found")

abbrev pub err_insufficient_balance : GatewayError
err_insufficient_balance =
    make 402 "permission_error" "insufficient_balance" "Account has no spendable balance"
