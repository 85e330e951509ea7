-- ===== src/Metering/Contract/Models.antt =====
-- What a model is that passes `validateRuntimePublicModel` of runtime_client.go.
use dappnode_nexus_gateway.Common.{
  ◌≡◌, ap, ◌↔◌, String, not, Option, none, some, string_eq, nat_eq, All, arith, eq_iff,
}
use dappnode_nexus_gateway.Metering.Wire.{RuntimePublicModel, RuntimeProviderTarget}
use dappnode_nexus_gateway.Metering.Contract.{
  provider_target_cases, fallback_cases, public_model_cases, validate_public_model,
}
use dappnode_nexus_gateway.Metering.Contract.Conditions.{
  IsServable, Pass, first_error-none, none_of_Pass, IsTarget, IsFallback, IsStated-of,
  IsPositive-of, IsPrice-of, optional-IsPrice, differs, asked_of, not-false, proof_of, no_price,
  no_optional_price, not_none, not_nonpositive,
}

IsTarget-of : (t : RuntimeProviderTarget) → All Pass (provider_target_cases t) → IsTarget t
IsTarget-of t h = record {
  model_id = h.0;
  model_name = h.1.0;
  id = h.1.1.0;
  name = h.1.1.1.0;
  url = h.1.1.1.1.0;
  key = h.1.1.1.1.1.0;
  active = not-false t.provider_config.active h.1.1.1.1.1.1.0;
}

IsFallback-of :
    (m : RuntimePublicModel) (o : Option RuntimeProviderTarget)
    → All Pass (fallback_cases m o)
    → IsFallback m o
IsFallback-of m none h = tt
IsFallback-of m (some t) h = (
  IsTarget-of t
      (h.0, (h.1.0, (h.1.1.0, (h.1.1.1.0, (h.1.1.1.1.0, (h.1.1.1.1.1.0, (h.1.1.1.1.1.1.0, tt))))))),
  differs t.provider_model_id m.provider_model_id t.provider_config.id m.provider_config.id
      h.1.1.1.1.1.1.1.0,
)

IsServable-of_Pass :
    (m : RuntimePublicModel) (expected : String)
    → All Pass (public_model_cases m expected)
    → IsServable m expected
IsServable-of_Pass m expected h = record {
  id = h.0;
  public_id = h.1.0;
  asked = asked_of m.public_model_id expected h.1.1.0;
  name = h.1.1.1.0;
  target = record {
    model_id = h.1.1.1.1.0;
    model_name = h.1.1.1.1.1.0;
    id = h.1.1.1.1.1.1.0;
    name = h.1.1.1.1.1.1.1.0;
    url = h.1.1.1.1.1.1.1.1.0;
    key = h.1.1.1.1.1.1.1.1.1.0;
    active = not-false m.provider_config.active h.1.1.1.1.1.1.1.1.1.1.1.0;
  };
  active = not-false m.active h.1.1.1.1.1.1.1.1.1.1.0;
  chat = IsStated-of m.supports_chat_completions h.1.1.1.1.1.1.1.1.1.1.1.1.0;
  stream = IsStated-of m.supports_chat_completions_stream h.1.1.1.1.1.1.1.1.1.1.1.1.1.0;
  tools = IsStated-of m.supports_tools h.1.1.1.1.1.1.1.1.1.1.1.1.1.1.0;
  parallel = IsStated-of m.supports_parallel_tool_calls h.1.1.1.1.1.1.1.1.1.1.1.1.1.1.1.0;
  structured = IsStated-of m.supports_structured_output h.1.1.1.1.1.1.1.1.1.1.1.1.1.1.1.1.0;
  reasoning = IsStated-of m.supports_reasoning h.1.1.1.1.1.1.1.1.1.1.1.1.1.1.1.1.1.0;
  proof = proof_of m.proof_mode h.1.1.1.1.1.1.1.1.1.1.1.1.1.1.1.1.1.1.0;
  context = IsPositive-of m.max_context_window h.1.1.1.1.1.1.1.1.1.1.1.1.1.1.1.1.1.1.1.0;
  output = IsPositive-of m.max_output_tokens h.1.1.1.1.1.1.1.1.1.1.1.1.1.1.1.1.1.1.1.1.0;
  input_price =
      IsPrice-of m.input_price h.1.1.1.1.1.1.1.1.1.1.1.1.1.1.1.1.1.1.1.1.1.0
        h.1.1.1.1.1.1.1.1.1.1.1.1.1.1.1.1.1.1.1.1.1.1.0;
  output_price =
      IsPrice-of m.output_price h.1.1.1.1.1.1.1.1.1.1.1.1.1.1.1.1.1.1.1.1.1.1.1.0
        h.1.1.1.1.1.1.1.1.1.1.1.1.1.1.1.1.1.1.1.1.1.1.1.1.0;
  cache_read =
      optional-IsPrice m.cache_read_price h.1.1.1.1.1.1.1.1.1.1.1.1.1.1.1.1.1.1.1.1.1.1.1.1.1.0;
  cache_write =
      optional-IsPrice m.cache_write_price h.1.1.1.1.1.1.1.1.1.1.1.1.1.1.1.1.1.1.1.1.1.1.1.1.1.1.0;
  currency = h.1.1.1.1.1.1.1.1.1.1.1.1.1.1.1.1.1.1.1.1.1.1.1.1.1.1.1.0;
  fallback = IsFallback-of m m.fallback h.1.1.1.1.1.1.1.1.1.1.1.1.1.1.1.1.1.1.1.1.1.1.1.1.1.1.1.1;
}

Pass-of_IsFallback :
    (m : RuntimePublicModel) (o : Option RuntimeProviderTarget)
    → IsFallback m o
    → All Pass (fallback_cases m o)
Pass-of_IsFallback m none h = tt
Pass-of_IsFallback m (some t) h = ground (
  arith,
  eq_iff t.provider_model_id m.provider_model_id,
  eq_iff t.provider_config.id m.provider_config.id,
)

module _ (m : RuntimePublicModel) (expected : String) (v : IsServable m expected) where
  Pass-of_IsServable : All Pass (public_model_cases m expected)
  Pass-of_IsServable = (
    v.id,
    (
      v.public_id,
      (
        ground (arith, eq_iff expected "", eq_iff m.public_model_id expected, v.asked),
        (
          v.name,
          (
            v.target.model_id,
            (
              v.target.model_name,
              (
                v.target.id,
                (
                  v.target.name,
                  (
                    v.target.url,
                    (
                      v.target.key,
                      (
                        ap not v.active,
                        (
                          ap not v.target.active,
                          (
                            not_none m.supports_chat_completions v.chat,
                            (
                              not_none m.supports_chat_completions_stream v.stream,
                              (
                                not_none m.supports_tools v.tools,
                                (
                                  not_none m.supports_parallel_tool_calls v.parallel,
                                  (
                                    not_none m.supports_structured_output v.structured,
                                    (
                                      not_none m.supports_reasoning v.reasoning,
                                      (
                                        ground (
                                          arith,
                                          eq_iff m.proof_mode "none",
                                          eq_iff m.proof_mode "tinfoil_attested_transport",
                                          v.proof,
                                        ),
                                        (
                                          not_nonpositive m.max_context_window v.context,
                                          (
                                            not_nonpositive m.max_output_tokens v.output,
                                            (
                                              (no_price m.input_price v.input_price).0,
                                              (
                                                (no_price m.input_price v.input_price).1,
                                                (
                                                  (no_price m.output_price v.output_price).0,
                                                  (
                                                    (no_price m.output_price v.output_price).1,
                                                    (
                                                      no_optional_price m.cache_read_price
                                                          v.cache_read,
                                                      (
                                                        no_optional_price m.cache_write_price
                                                            v.cache_write,
                                                        (
                                                          v.currency,
                                                          Pass-of_IsFallback m m.fallback
                                                            v.fallback,
                                                        ),
                                                      ),
                                                    ),
                                                  ),
                                                ),
                                              ),
                                            ),
                                          ),
                                        ),
                                      ),
                                    ),
                                  ),
                                ),
                              ),
                            ),
                          ),
                        ),
                      ),
                    ),
                  ),
                ),
              ),
            ),
          ),
        ),
      ),
    ),
  )

-- The gateway accepts a model from Metering exactly if it can be served: every name and reference is
-- there, it is the model asked for, it and its provider are active, its capability flags are stated,
-- its limits are positive, no price is negative, its proof mode is known, and a fallback is complete
-- and another target than the primary.
pub validate_public_model_iff :
    (m : RuntimePublicModel) (expected : String)
    → (validate_public_model m expected ≡ none) ↔ IsServable m expected
unfolding validate_public_model
validate_public_model_iff m expected = (
  λ h. IsServable-of_Pass m expected (first_error-none (public_model_cases m expected) h),
  λ v. none_of_Pass (public_model_cases m expected) (Pass-of_IsServable m expected v),
)
