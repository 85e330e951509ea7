-- ===== src/Service/Checks/Laws.antt =====
-- What a request is that passes the checks.
use dappnode_nexus_gateway.Common.{
  ◌≡◌, refl, subst, ◌≢◌, ◌⊎◌, inl, inr, ◌↔◌, String, true, false, none, some, arith, eq_iff,
  equal_fold, string_eq, ◌==◌, Bool-cases, Option-cases,
}
use dappnode_nexus_gateway.Common.Int.{ℤ, pos, ltb_ℤ, leb_ℤ}
use dappnode_nexus_gateway.Domain.Error.{Result, Result-cases, ok, err}
use dappnode_nexus_gateway.Domain.Model.{
  PublicModel, supports_endpoint, effective_proof_mode, proof_mode_tinfoil,
}
use dappnode_nexus_gateway.Domain.Generation.{GenerateRequest}
use dappnode_nexus_gateway.Service.Checks.{
  validate_request, systemone, chat_completions, cap_output, within_limit, check_guest_model,
}

-- The endpoints of a model: SystemOne for Typesafe's, chat completions for others that serve them.
abbrev pub Serves : PublicModel → String → Type 0
Serves model endpoint =
    ((model.provider_config.provider_name ≡ "typesafe") × (endpoint ≡ "systemone"))
    ⊎ ((model.provider_config.provider_name ≢ "typesafe")
        × (endpoint ≡ "chat_completions")
        × (model.supports_chat_completions ≡ true))

supports_endpoint_iff :
    (model : PublicModel) (endpoint : String)
    → (supports_endpoint model endpoint ≡ true) ↔ Serves model endpoint
unfolding supports_endpoint
supports_endpoint_iff model endpoint =
    let name = model.provider_config.provider_name in
    (
      λ h. elim (Bool-cases (name == "typesafe")) [
        | inl own ↦
            inl
              ((eq_iff name "typesafe").0 own, ground (arith, h, own, eq_iff endpoint "systemone"))
        | inr other ↦ inr (
          ground (arith, other, eq_iff name "typesafe"),
          ground (arith, h, other, eq_iff endpoint "chat_completions"),
          ground (arith, h, other),
        )
      ],
      λ h. elim h [
        | inl (own, one) ↦
            ground (arith, own, one, eq_iff name "typesafe", eq_iff endpoint "systemone")
        | inr (other, chat, serves) ↦
            ground (
              arith,
              other,
              chat,
              serves,
              eq_iff name "typesafe",
              eq_iff endpoint "chat_completions",
            )
      ],
    )

attested_iff :
    (model : PublicModel)
    → (effective_proof_mode model ≡ proof_mode_tinfoil)
      ↔ (model.proof_mode ≡ "tinfoil_attested_transport")
unfolding effective_proof_mode
attested_iff model =
    let mode = model.proof_mode in
    (
      λ h. ground (
        arith,
        h,
        eq_iff mode "",
        eq_iff mode "none",
        eq_iff "none" "tinfoil_attested_transport",
      ),
      λ h. ground (
        arith,
        h,
        eq_iff mode "",
        eq_iff mode "none",
        eq_iff "tinfoil_attested_transport" "",
        eq_iff "tinfoil_attested_transport" "none",
      ),
    )

-- A request may go to a model exactly if the model is Typesafe's and the endpoint SystemOne, or it is
-- not, serves chat completions, and that is the endpoint; SystemOne does not stream; a Doubleword model
-- is not given a service tier; and a model in Tinfoil's attested mode is served by Tinfoil.
pub validate_request_iff :
    (endpoint : String) (req : GenerateRequest) (model : PublicModel)
    → (validate_request endpoint req model ≡ none) ↔ (
        Serves model endpoint
        × ((endpoint ≢ "systemone") ⊎ (req.stream ≡ false))
        × ((equal_fold model.provider_config.provider_name "doubleword" ≡ false)
            ⊎ (req.service_tier ≡ none))
        × ((model.proof_mode ≢ "tinfoil_attested_transport")
            ⊎ (equal_fold model.provider_config.provider_name "tinfoil" ≡ true)))
unfolding validate_request
validate_request_iff endpoint req model =
    let serves = supports_endpoint_iff model endpoint in
    let attested = attested_iff model in
    (
      λ h.
          let supported : supports_endpoint model endpoint ≡ true = ground (arith, h) in
          (
            serves.0 supported,
            ground (arith, h, eq_iff endpoint systemone),
            ground (arith, h),
            ground (arith, h, attested, eq_iff (effective_proof_mode model) proof_mode_tinfoil),
          ),
      λ (s, quiet, tier, mode).
          let supported = serves.1 s in
          ground (
            arith,
            supported,
            quiet,
            tier,
            mode,
            attested,
            eq_iff endpoint systemone,
            eq_iff (effective_proof_mode model) proof_mode_tinfoil,
          ),
    )

abbrev pub HasLimit : ℤ → GenerateRequest → Type 0
HasLimit limit req =
    (n : ℤ) × (req.max_output_tokens ≡ some n) × (ltb_ℤ (pos 0) n ≡ true) × (leb_ℤ n limit ≡ true)

leb_ℤ_refl : (n : ℤ) → leb_ℤ n n ≡ true
leb_ℤ_refl n = ground arith

within_limit-HasLimit :
    (limit : ℤ) (req : GenerateRequest)
    → within_limit limit req.max_output_tokens ≡ true
    → HasLimit limit req
within_limit-HasLimit limit req h = elim (Option-cases req.max_output_tokens) [
  | inl missing ↦ absurd (ground (arith, missing, h))
  | inr (n, given) ↦ (n, given, ground (arith, given, h), ground (arith, given, h))
]

-- What leaves for the provider: the body as it came, with a request that was within the limit; or the
-- body in which the limit that the request then has was written.
abbrev pub IsCappedBody :
    {Body : Type 0}
    → (Body → ℤ → Result Body)
    → ℤ
    → Body
    → GenerateRequest
    → Body
    → GenerateRequest
    → Type 0
IsCappedBody write_limit limit raw req out q =
    ((out ≡ raw) × (q ≡ req) × HasLimit limit req)
    ⊎ ((write_limit raw limit ≡ ok out) × (q.max_output_tokens ≡ some limit))

pub cap_output-HasLimit :
    {Body : Type 0} (write_limit : Body → ℤ → Result Body) (limit : ℤ) (raw out : Body)
    (req q : GenerateRequest)
    → ltb_ℤ (pos 0) limit ≡ true
    → cap_output write_limit limit raw req ≡ ok (out, q)
    → HasLimit limit q
      × (q.public_model_id ≡ req.public_model_id)
      × (q.requested_model_id ≡ req.requested_model_id)
      × IsCappedBody write_limit limit raw req out q
unfolding cap_output
cap_output-HasLimit write_limit limit raw out req q positive e =
    elim (Bool-cases (within_limit limit req.max_output_tokens)) [
      | inl within ↦
          let kept : ok (raw, req) ≡ ok (out, q) = rw (within, cap_output) at e in
          let same : req ≡ q = cc in
          let body : out ≡ raw = cc in
          let limited = within_limit-HasLimit limit req within in
          subst
            (λ r.
              HasLimit limit r
              × (r.public_model_id ≡ req.public_model_id)
              × (r.requested_model_id ≡ req.requested_model_id)
              × IsCappedBody write_limit limit raw req out r)
            same (limited, refl, refl, inl (body, refl, limited))
      | inr beyond ↦ elim (Result-cases (write_limit raw limit)) [
        | inl (x, failed) ↦ let f : err x ≡ ok (out, q) = rw (beyond, failed, cap_output) at e in cc
        | inr (rewritten, written) ↦
            let f : ok (rewritten, record req { max_output_tokens = some limit }) ≡ ok (out, q) =
              rw (beyond, written, cap_output) at e in
            let same : record req { max_output_tokens = some limit } ≡ q = cc in
            let body : rewritten ≡ out = cc in
            subst
              (λ r.
                HasLimit limit r
                × (r.public_model_id ≡ req.public_model_id)
                × (r.requested_model_id ≡ req.requested_model_id)
                × IsCappedBody write_limit limit raw req out r)
              same
              (
                (limit, refl, positive, leb_ℤ_refl limit),
                refl,
                refl,
                inr (subst (λ b. write_limit raw limit ≡ ok b) body written, refl),
              )
      ]
    ]

pub check_guest_model-allowed :
    (get : String → Result PublicModel) (endpoint id : String)
    → check_guest_model get endpoint id ≡ none
    → (endpoint ≡ chat_completions)
      × ((m : PublicModel) × (get id ≡ ok m) × (m.guest_allowed ≡ true))
unfolding check_guest_model
check_guest_model-allowed get endpoint id e = elim (Result-cases (get id)) [
  | inl (x, failed) ↦ absurd (ground (arith, failed, e, eq_iff endpoint chat_completions))
  | inr (m, found) ↦ (
    ground (arith, found, e, eq_iff endpoint chat_completions),
    (m, found, ground (arith, found, e, eq_iff endpoint chat_completions)),
  )
]
