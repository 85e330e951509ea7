-- ===== src/Metering/Client/Errors.antt =====
-- Which of Metering's errors a caller of the gateway sees: `userFacingMeteringError` and the error
-- paths of `requestJSONOnce`.
use dappnode_nexus_gateway.Common.{
  ℕ, ◌≡◌, refl, subst, ap, ◌≤◌, ◌⊎◌, inl, inr, String, Bool, true, false, ◌&&◌, ◌||◌, [], Option,
  none, some, arith, eq_iff, ◌==◌, ◌!=◌, string_eq, nat_eq, Bool-cases, Option-cases, ltb, leb,
}
use dappnode_nexus_gateway.Domain.Error.{
  GatewayError, Error, gateway, Result, ok, err, as_gateway, with_meta, Metadata,
}
use dappnode_nexus_gateway.Metering.Contract.{metering_internal_error}
use dappnode_nexus_gateway.Metering.Client.{
  ErrorResponse, answered, before_query, has_prefix, wanted_error, user_facing_metering_error,
  request_json_once, read_body, metering_response_error,
}

-- The errors of Metering that callers see, by request, code, status and type.
abbrev pub IsExpected : String → String → String → ℕ × String → Type 0
IsExpected method path code shown =
    ((method ≡ "POST")
      × (path ≡ "/internal/gateway/authenticate")
      × ((((code ≡ "invalid_api_key") ⊎ (code ≡ "inactive_api_key"))
            × (shown ≡ (401, "authentication_error")))
          ⊎ ((code ≡ "inactive_account") × (shown ≡ (403, "permission_error")))))
    ⊎ ((method ≡ "GET")
        × (has_prefix path "/internal/gateway/models/" ≡ true)
        × (code ≡ "unsupported_model")
        × (shown ≡ (404, "invalid_request_error")))
    ⊎ ((method ≡ "GET")
        × ((has_prefix path "/internal/gateway/routers/" ≡ true)
            ⊎ (path ≡ "/internal/gateway/tinfoil-proofs"))
        × (code ≡ "not_found")
        × (shown ≡ (404, "invalid_request_error")))
    ⊎ ((method ≡ "POST")
        × (path ≡ "/internal/metering/reservations")
        × (((code ≡ "insufficient_balance") × (shown ≡ (402, "permission_error")))
            ⊎ ((code ≡ "daily_token_limit_exceeded") × (shown ≡ (429, "rate_limit_error")))))

request_of : (m a p b : String) → (m == a && p == b) ≡ true → (m ≡ a) × (p ≡ b)
request_of m a p b h = ground (arith, eq_iff m a, eq_iff p b)

method_of : (m a : String) (b : Bool) → (m == a && b) ≡ true → (m ≡ a) × (b ≡ true)
method_of m a b h = ground (arith, eq_iff m a)

code_of : (c a b : String) → (c == a || c == b) ≡ true → (c ≡ a) ⊎ (c ≡ b)
code_of c a b h = ground (arith, eq_iff c a, eq_iff c b)

-- Whatever the request, an error code is not expected, or it is one of the list.
wanted_error-IsExpected :
    (method path code : String)
    → (wanted_error method path code ≡ (0, ""))
      ⊎ IsExpected method path code (wanted_error method path code)
unfolding wanted_error
wanted_error-IsExpected method path code =
    elim (Bool-cases (method == "POST" && path == "/internal/gateway/authenticate")) [
      | inl t ↦
          let (m, p) = request_of method "POST" path "/internal/gateway/authenticate" t in
          elim (Bool-cases (code == "invalid_api_key" || code == "inactive_api_key")) [
            | inl k ↦
                rw (t, k, wanted_error)
                  (inr
                    (inl (m, p, inl (code_of code "invalid_api_key" "inactive_api_key" k, refl))))
            | inr k ↦ elim (Bool-cases (code == "inactive_account")) [
              | inl c ↦
                  rw (t, k, c, wanted_error)
                    (inr (inl (m, p, inr ((eq_iff code "inactive_account").0 c, refl))))
              | inr c ↦ rw (t, k, c, wanted_error) (inl refl)
            ]
          ]
      | inr f1 ↦
          elim (Bool-cases (method == "GET" && has_prefix path "/internal/gateway/models/")) [
            | inl t ↦
                let (m, p) =
                  method_of method "GET" (has_prefix path "/internal/gateway/models/") t in
                elim (Bool-cases (code == "unsupported_model")) [
                  | inl c ↦
                      rw (f1, t, c, wanted_error)
                        (inr (inr (inl (m, p, (eq_iff code "unsupported_model").0 c, refl))))
                  | inr c ↦ rw (f1, t, c, wanted_error) (inl refl)
                ]
            | inr f2 ↦
                elim (Bool-cases
                  (method == "GET" && has_prefix path "/internal/gateway/routers/")) [
                    | inl t ↦
                        let (m, p) =
                          method_of method "GET" (has_prefix path "/internal/gateway/routers/") t in
                        elim (Bool-cases (code == "not_found")) [
                          | inl c ↦
                              rw (f1, f2, t, c, wanted_error)
                                (inr
                                  (inr (inr (inl (m, inl p, (eq_iff code "not_found").0 c, refl)))))
                          | inr c ↦ rw (f1, f2, t, c, wanted_error) (inl refl)
                        ]
                    | inr f3 ↦
                        elim (Bool-cases
                          (method == "GET" && path == "/internal/gateway/tinfoil-proofs")) [
                            | inl t ↦
                                let (m, p) =
                                  request_of method "GET" path "/internal/gateway/tinfoil-proofs"
                                    t in
                                elim (Bool-cases (code == "not_found")) [
                                  | inl c ↦
                                      rw (f1, f2, f3, t, c, wanted_error)
                                        (inr (
                                          inr (
                                            inr (
                                              inl
                                                (m, inr p, (eq_iff code "not_found").0 c, refl)))))
                                  | inr c ↦ rw (f1, f2, f3, t, c, wanted_error) (inl refl)
                                ]
                            | inr f4 ↦
                                elim (Bool-cases
                                  (method == "POST" && path == "/internal/metering/reservations")) [
                                    | inl t ↦
                                        let (m, p) =
                                          request_of method "POST" path
                                            "/internal/metering/reservations" t in
                                        elim (Bool-cases (code == "insufficient_balance")) [
                                          | inl c ↦
                                              rw (f1, f2, f3, f4, t, c, wanted_error)
                                                (inr (
                                                  inr (
                                                    inr (
                                                      inr (
                                                        m,
                                                        p,
                                                        inl (
                                                          (eq_iff code "insufficient_balance").0 c,
                                                          refl,
                                                        ),
                                                      )))))
                                          | inr c ↦
                                              elim (Bool-cases
                                                (code == "daily_token_limit_exceeded")) [
                                                  | inl d ↦
                                                      rw (f1, f2, f3, f4, t, c, d, wanted_error)
                                                        (inr (
                                                          inr (
                                                            inr (
                                                            inr (
                                                            m,
                                                            p,
                                                            inr (
                                                            (eq_iff code
                                                            "daily_token_limit_exceeded").0
                                                            d,
                                                            refl,
                                                            ),
                                                            )))))
                                                  | inr d ↦
                                                      rw (f1, f2, f3, f4, t, c, d, wanted_error)
                                                        (inl refl)
                                                ]
                                        ]
                                    | inr f5 ↦ rw (f1, f2, f3, f4, f5, wanted_error) (inl refl)
                                  ]
                          ]
                  ]
          ]
    ]

-- The error that stands for any failure of Metering.
abbrev pub IsInternal : GatewayError → Type 0
IsInternal g =
    (g.http_status ≡ 500) × (g.code ≡ "internal_error") × (g.message ≡ "an internal error occurred")

metering_response_error-IsInternal :
    (status : ℕ) (code : String) → IsInternal (metering_response_error status code)
unfolding metering_response_error metering_internal_error with_meta
metering_response_error-IsInternal status code = elim (Bool-cases (code == "")) [
  | inl f ↦ rw (f, metering_response_error) (refl, refl, refl)
  | inr f ↦ rw (f, metering_response_error) (refl, refl, refl)
]

-- What a caller may see of a failed request.
abbrev pub IsShown : String → String → ℕ → Error → Type 0
IsShown method path status e =
    (g : GatewayError) × (as_gateway e ≡ some g)
    × (IsInternal g
        ⊎ ((g.http_status ≡ status)
            × (g.metadata ≡ [])
            × IsExpected method (before_query path) g.code (status, g.type)))

passes :
    (status : ℕ) (type message : String) (wanted : ℕ × String)
    → (status != wanted.0 || type != wanted.1 || message == "") ≡ false
    → (wanted.0 ≡ status) × (wanted.1 ≡ type)
passes status type message wanted h = ground (arith, eq_iff type wanted.1)

user_facing_metering_error-IsShown :
    (method path : String) (status : ℕ) (envelope : ErrorResponse) (g : GatewayError)
    → 1 ≤ status
    → user_facing_metering_error method path status envelope ≡ some g
    → IsShown method path status (gateway g)
unfolding user_facing_metering_error
user_facing_metering_error-IsShown method path status envelope g positive h =
    let wanted = wanted_error method (before_query path) envelope.code in
    let shown : GatewayError = record {
      http_status = status;
      type = envelope.type;
      code = envelope.code;
      message = envelope.message;
      retry_after = "";
      metadata = [];
    } in
    elim (Bool-cases (status != wanted.0 || envelope.type != wanted.1 || envelope.message == "")) [
      | inl refused ↦
          let f : ◌≡◌ {A = Option GatewayError} none (some g) =
            rw (refused, user_facing_metering_error) at h in
          cc
      | inr passed ↦
          let f : some shown ≡ some g = rw (passed, user_facing_metering_error) at h in
          let same : shown ≡ g = cc in
          let (s, t) = passes status envelope.type envelope.message wanted passed in
          elim (wanted_error-IsExpected method (before_query path) envelope.code) [
            | inl missing ↦
                let zero_status : wanted.0 ≡ 0 = ap (λ w. w.0) missing in
                absurd (omega (arith, s, zero_status, positive))
            | inr row ↦
                let whole : wanted ≡ (status, envelope.type) = cc in
                subst (λ e. IsShown method path status (gateway e)) same
                  (
                    shown,
                    refl,
                    inr (
                      refl,
                      refl,
                      subst (IsExpected method (before_query path) envelope.code) whole row,
                    ),
                  )
          ]
    ]

-- What a caller may see of a request, failed or not.
abbrev OnlyShown : {A : Type 0} → String → String → ℕ → Result A → Type 0
OnlyShown method path status (ok a) = Unit
OnlyShown method path status (err e) = IsShown method path status e

metering_internal_error-IsInternal :
    (fields : Metadata) → IsInternal (metering_internal_error fields)
unfolding metering_internal_error with_meta
metering_internal_error-IsInternal fields = (refl, refl, refl)

module _ {Body A : Type 0} where
  read_body-OnlyShown :
      (method path : String) (out : Option (Body → String ⊎ A)) (status : ℕ) (body : Body)
      → OnlyShown method path status (read_body out status body)
  unfolding read_body
  read_body-OnlyShown method path none status body = tt
  read_body-OnlyShown method path (some decode) status body = elim (Bool-cases (status == 204)) [
    | inl f ↦ rw (f, read_body) (_, refl, inl (metering_internal_error-IsInternal _))
    | inr f ↦ go (decode body) refl f
  ]
    where
      go :
          (d : String ⊎ A)
          → decode body ≡ d
          → (status == 204) ≡ false
          → OnlyShown method path status (read_body (some decode) status body)
      go (inl reason) e f =
          rw (f, e, read_body) (_, refl, inl (metering_internal_error-IsInternal _))
      go (inr a) e f = rw (f, e, read_body) tt

  request_json_once-OnlyShown :
      (method path : String) (out : Option (Body → String ⊎ A)) (status : ℕ)
      (envelope : ErrorResponse) (body : Body)
      → 1 ≤ status
      → OnlyShown method path status
          (request_json_once method path out (answered status envelope body))
  unfolding request_json_once
  request_json_once-OnlyShown method path out status envelope body positive =
      elim (Bool-cases (ltb status 200 || leb 300 status)) [
        | inr good ↦ rw (good, request_json_once) (read_body-OnlyShown method path out status body)
        | inl bad ↦ elim (Bool-cases (leb 500 status)) [
          | inl down ↦
              rw (bad, down, request_json_once)
                (_, refl, inl (metering_response_error-IsInternal status envelope.code))
          | inr up ↦ elim (Option-cases (user_facing_metering_error method path status envelope)) [
            | inr (g, shown) ↦
                rw (bad, up, shown, request_json_once)
                  (user_facing_metering_error-IsShown method path status envelope g positive shown)
            | inl hidden ↦
                rw (bad, up, hidden, request_json_once)
                  (_, refl, inl (metering_response_error-IsInternal status envelope.code))
          ]
        ]
      ]

  -- When Metering answers an attempt with a positive status, and the attempt fails, its error
  -- is the plain internal error of status 500, or it carries no metadata and has Metering's own
  -- status, with a code and type that are expected of that request.
  pub request_json_once-IsShown :
      (method path : String) (out : Option (Body → String ⊎ A)) (status : ℕ)
      (envelope : ErrorResponse) (body : Body) (e : Error)
      → 1 ≤ status
      → request_json_once method path out (answered status envelope body) ≡ err e
      → IsShown method path status e
  request_json_once-IsShown method path out status envelope body e positive h =
      subst (OnlyShown method path status) h
        (request_json_once-OnlyShown method path out status envelope body positive)
