-- ===== src/Tests/Samples.antt =====
-- Sample accounts, models and requests.
use dappnode_nexus_gateway.Common.{
  true, false, String, [], none, some, if◌then◌else◌, ◌==◌, string_eq,
}
use dappnode_nexus_gateway.Common.Int.{pos}
use dappnode_nexus_gateway.Domain.Error.{
  gateway, ok, err, err_provider_unavailable, err_unsupported_model,
}
use dappnode_nexus_gateway.Domain.Account.{AuthContext}
use dappnode_nexus_gateway.Domain.Model.{
  PublicModel, ProviderConfig, ProviderTarget, RouterEntry, RouteDecision,
}
use dappnode_nexus_gateway.Domain.Generation.{GenerateRequest}
use dappnode_nexus_gateway.Service.Resolve.{Catalog}
use dappnode_nexus_gateway.Service.Proxy.{Env}

abbrev pub provider : String → ProviderConfig
provider name = record {
  id = name;
  provider_name = name;
  base_url = "https://provider.example";
  api_key_secret_ref = "PROVIDER_KEY";
  organization_ref = none;
  active = true;
}

abbrev pub backup : ProviderTarget
backup = record {
  provider_model_id = "pm-2";
  upstream_model_name = "small-2";
  service_tier = none;
  provider_config = provider "second";
}

abbrev pub model : PublicModel
model = record {
  id = "m-1";
  public_model_id = "small";
  display_name = "Small";
  description = none;
  provider_model_id = "pm-1";
  upstream_model_name = "small-1";
  service_tier = none;
  provider_config = provider "first";
  fallback = some backup;
  supports_chat_completions = true;
  capabilities = "{}";
  proof_mode = "none";
  max_context_window = pos 8192;
  max_output_tokens = pos 4096;
  input_price = pos 1;
  output_price = pos 2;
  cache_read_price = none;
  cache_write_price = none;
  currency = "USD";
  active = true;
  guest_allowed = true;
}

abbrev pub router : RouterEntry
router = record {
  id = "r-1";
  router_id = "auto";
  display_name = "Auto";
  description = none;
  fallback_public_model_id = "small";
  strategy_type = "classifier";
  strategy_config = "{}";
  active = true;
  created_at = 1;
  updated_at = 1;
}

abbrev pub decision : RouteDecision
decision = record {
  public_model_id = "small";
  category = some "code";
  score = none;
  category_scores = [];
  fallback_used = false;
  reason = "";
}

-- A catalog of the model and the router.
abbrev pub catalog : Catalog
catalog = record {
  get_guest_model =
      λ id. if id == "small" then ok model else err (gateway (err_unsupported_model id));
  get_public_model =
      λ id. if id == "small" then ok model else err (gateway (err_unsupported_model id));
  get_routed_model =
      λ id. if id == "small" then ok model else err (gateway (err_unsupported_model id));
  get_router = λ id. if id == "auto" then ok router else err (gateway (err_unsupported_model id));
  route = some (λ id req. ok decision);
}

abbrev pub request : String → GenerateRequest
request id = record {
  public_model_id = id;
  requested_model_id = "";
  router_id = none;
  routed_public_model_id = none;
  matched_category = none;
  routing_score = none;
  routing_category_scores = [];
  decision_reason = none;
  fallback_used = none;
  input = [];
  tools = [];
  stream = false;
  max_output_tokens = some (pos 100_000);
  estimated_input_tokens = none;
  service_tier = none;
  parallel_tool_calls = none;
  structured_output = false;
}

abbrev pub guest : AuthContext
guest = record {
  account = record { id = "a-1"; external_customer_id = none; status = "active"; is_guest = true };
  api_key = record {
    id = "k-1";
    account_id = "a-1";
    name = none;
    key_prefix = "sk";
    active = true;
    pii_mode = "off";
    last_used_at = none;
  };
}

-- The first provider is down, the second answers.
abbrev pub env : Env String String String String
env = record {
  authenticate = λ token. ok guest;
  catalog = catalog;
  guest_max_output_tokens = pos 1024;
  write_limit = λ body limit. ok body;
  mask_body = λ body mode endpoint. ok (body, none);
  estimate_input_tokens = λ endpoint body. some (pos 12);
  reserve = λ auth endpoint req m. ok "reservation";
  registered = λ name. true;
  complete = λ body m.
      if m.provider_config.provider_name == "first"
      then err (gateway (err_provider_unavailable "first"))
      else ok "answer";
  observe = λ endpoint answer m mapping. ok answer;
  open_stream = λ body m mapping. ok "stream";
  sanitize = λ e mapping. e;
  gone = λ stage. false;
  lost_after_attempt = none;
  lost_at_end = none;
}
