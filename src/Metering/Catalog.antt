-- ===== src/Metering/Catalog.antt =====
-- The model and router catalog read from Metering: `ListPublicModels`, `GetPublicModel`,
-- `ListRouters`, `GetRouter`, `AuthenticateAPIKey` and the conversions of runtime_client.go, each
-- from the answer that the HTTP call gave. A JSON `null` for a list is `none`. A conversion that
-- reads a nil pointer panics in Go: it gives `none`.
pub mod Laws
use Prim.Native.String.{◌++◌}
use dappnode_nexus_gateway.Common.{
  ℕ, suc, String, Bool, true, false, List, [], ◌∷◌, Option, none, some, if◌then◌else◌, ◌==◌,
  string_eq, any,
}
use dappnode_nexus_gateway.Common.Int.{ℤ, pos}
use dappnode_nexus_gateway.Domain.Error.{
  GatewayError, Error, gateway, Result, ok, err, with_meta, str, int, err_invalid_api_key,
}
use dappnode_nexus_gateway.Domain.Account.{AuthContext}
use dappnode_nexus_gateway.Domain.Model.{PublicModel, ProviderTarget, RouterEntry, proof_mode_none}
use dappnode_nexus_gateway.Metering.Wire.{
  AuthenticateResponse, RuntimePublicModel, RuntimeProviderTarget, RuntimeRouter,
  provider_config_to_domain, router_to_domain,
}
use dappnode_nexus_gateway.Metering.Contract.{
  runtime_contract_error, validate_authenticate_response, validate_public_model, validate_router,
}

abbrev json_bool : Bool → String
json_bool true = "true"
json_bool false = "false"

-- The object that `json.Marshal` writes for the flags, its keys in order.
legacy_capabilities : Bool → Bool → Bool → Bool → Bool → String
legacy_capabilities streaming tools parallel structured reasoning =
    "{\"parallel_tool_calls\":"
    ++ json_bool parallel
    ++ ",\"reasoning\":"
    ++ json_bool reasoning
    ++ ",\"streaming\":"
    ++ json_bool streaming
    ++ ",\"structured_output\":"
    ++ json_bool structured
    ++ ",\"tool_call\":"
    ++ json_bool tools
    ++ "}"

unfoldable pub target_to_domain : RuntimeProviderTarget → ProviderTarget
target_to_domain t = record {
  provider_model_id = t.provider_model_id;
  upstream_model_name = t.upstream_model_name;
  service_tier = t.service_tier;
  provider_config = provider_config_to_domain t.provider_config;
}

-- Reading a pointer: `none` is the panic.
infixl 5 ◌>>=◌
abbrev ◌>>=◌ {ℓ κ} : {A : Type ℓ} {B : Type κ} → Option A → (A → Option B) → Option B
none >>= f = none
some a >>= f = f a

abbrev pub map_option {ℓ κ} : {A : Type ℓ} {B : Type κ} → (A → B) → Option A → Option B
map_option f none = none
map_option f (some a) = some (f a)

-- The domain model, with what its pointers point to.
fill : RuntimePublicModel → Bool → String → ℤ → ℤ → PublicModel
fill m chat described input output = record {
  id = m.id;
  public_model_id = m.public_model_id;
  display_name = m.display_name;
  description = m.description;
  provider_model_id = m.provider_model_id;
  upstream_model_name = m.upstream_model_name;
  service_tier = m.service_tier;
  provider_config = provider_config_to_domain m.provider_config;
  fallback = map_option target_to_domain m.fallback;
  supports_chat_completions = chat;
  capabilities = described;
  proof_mode = if m.proof_mode == "" then proof_mode_none else m.proof_mode;
  max_context_window = m.max_context_window;
  max_output_tokens = m.max_output_tokens;
  input_price = input;
  output_price = output;
  cache_read_price = m.cache_read_price;
  cache_write_price = m.cache_write_price;
  currency = m.currency;
  active = m.active;
  guest_allowed = m.guest_allowed;
}

-- `append(models, m)`, before the models of the rest of the loop.
abbrev pub add_model :
    PublicModel → Option (Result (List PublicModel)) → Option (Result (List PublicModel))
add_model m none = none
add_model m (some (err e)) = some (err e)
add_model m (some (ok ms)) = some (ok (m ∷ ms))

module _ (json_object : String → Bool) where
  capabilities : RuntimePublicModel → Option String
  unfolding legacy_capabilities
  capabilities m = if json_object m.capabilities then some m.capabilities else do
    streaming ← m.supports_chat_completions_stream
    tools ← m.supports_tools
    parallel ← m.supports_parallel_tool_calls
    structured ← m.supports_structured_output
    reasoning ← m.supports_reasoning
    some (legacy_capabilities streaming tools parallel structured reasoning)

  pub model_to_domain : RuntimePublicModel → Option PublicModel
  unfolding capabilities fill
  model_to_domain m = do
    chat ← m.supports_chat_completions
    described ← capabilities m
    input ← m.input_price
    output ← m.output_price
    some (fill m chat described input output)

  -- The loop of `ListPublicModels` from item `i` on, with the IDs seen and the models so far.
  pub list_models_from :
      ℕ → List String → List RuntimePublicModel → Option (Result (List PublicModel))
  list_models_from i seen [] = some (ok [])
  list_models_from i seen (model ∷ rest) =
      let later = list_models_from (suc i) (model.public_model_id ∷ seen) rest in
      elim (validate_public_model model "") [
        | some e ↦ some (err (gateway (with_meta e (("item_index", int (pos i)) ∷ []))))
        | none ↦
            if any (λ id. id == model.public_model_id) seen
            then some (
                err (
                  gateway (
                    with_meta (runtime_contract_error "model list" "duplicate public_model_id")
                      (("public_model_id", str model.public_model_id) ∷ []))))
            else elim (model_to_domain model) [ none ↦ none | some m ↦ add_model m later ]
      ]

  pub list_public_models :
      Result (Option (List RuntimePublicModel)) → Option (Result (List PublicModel))
  list_public_models (err e) = some (err e)
  list_public_models (ok none) =
      some (err (gateway (runtime_contract_error "model list" "response must be a JSON array")))
  list_public_models (ok (some response)) = list_models_from 0 [] response

  pub get_public_model : String → Result RuntimePublicModel → Option (Result PublicModel)
  get_public_model id (err e) = some (err e)
  get_public_model id (ok response) = elim (validate_public_model response id) [
    | some e ↦ some (err (gateway e))
    | none ↦ elim (model_to_domain response) [ none ↦ none | some m ↦ some (ok m) ]
  ]

  list_routers_from : ℕ → List String → List RuntimeRouter → Result (List RouterEntry)
  list_routers_from i seen [] = ok []
  list_routers_from i seen (router ∷ rest) =
      let later = list_routers_from (suc i) (router.router_id ∷ seen) rest in
      elim (validate_router json_object router "") [
        | some e ↦ err (gateway (with_meta e (("item_index", int (pos i)) ∷ [])))
        | none ↦
            if any (λ id. id == router.router_id) seen
            then err (
                gateway (
                  with_meta (runtime_contract_error "router list" "duplicate router_id")
                    (("router_id", str router.router_id) ∷ [])))
            else elim later [ err e ↦ err e | ok rs ↦ ok (router_to_domain router ∷ rs) ]
      ]

  pub list_routers : Result (Option (List RuntimeRouter)) → Result (List RouterEntry)
  unfolding list_routers_from
  list_routers (err e) = err e
  list_routers (ok none) =
      err (gateway (runtime_contract_error "router list" "response must be a JSON array"))
  list_routers (ok (some response)) = list_routers_from 0 [] response

  pub get_router : String → Result RuntimeRouter → Result RouterEntry
  get_router id (err e) = err e
  get_router id (ok response) = elim (validate_router json_object response id) [
    | some e ↦ err (gateway e)
    | none ↦ ok (router_to_domain response)
  ]

unfoldable pub auth_context : AuthenticateResponse → AuthContext
auth_context response = record {
  account = record {
    id = response.account.id;
    external_customer_id = response.account.external_customer_id;
    status = response.account.status;
    is_guest = response.account.is_guest;
  };
  api_key = record {
    id = response.api_key.id;
    account_id = response.api_key.account_id;
    name = response.api_key.name;
    key_prefix = response.api_key.key_prefix;
    active = response.api_key.active;
    pii_mode = response.api_key.pii_mode;
    last_used_at = response.api_key.last_used_at;
  };
}

unfoldable pub checked_auth : Result AuthenticateResponse → Result AuthContext
unfolding auth_context
checked_auth (err e) = err e
checked_auth (ok response) = elim (validate_authenticate_response response) [
  | some e ↦ err (gateway e)
  | none ↦ ok (auth_context response)
]

-- `AuthenticateAPIKey`; `post` sends the key's hash and gives Metering's answer.
unfoldable pub authenticate_api_key :
    (String → Result AuthenticateResponse) → String → Result AuthContext
unfolding checked_auth
authenticate_api_key post raw_key =
    if raw_key == ""
    then err (gateway (err_invalid_api_key "missing API key"))
    else checked_auth (post raw_key)
