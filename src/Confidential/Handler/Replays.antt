-- ===== src/Confidential/Handler/Replays.antt =====
-- No envelope is forwarded twice: `handleDecrypted` of confidential_chat_completions_handler.go with
-- the replay cache.
use dappnode_nexus_gateway.Common.{
  ℕ, ◌+◌, ◌≤◌, ◌<◌, ◌≡◌, inl, inr, refl, sym, subst, ap, ◌∙◌, String, List, [], ◌∷◌, none, some,
  All, arith, Option-cases,
}
use dappnode_nexus_gateway.Domain.Error.{gateway, Result, Result-cases, ok, err, err_conflict}
use dappnode_nexus_gateway.Domain.Account.{AuthContext}
use dappnode_nexus_gateway.Confidential.Replay.{
  ReplayCache, ReplayKey, ReplayResult, accepted, duplicate, capacity_reached,
  account_capacity_reached, check_and_store, check_all, new_cache, replay_ttl,
}
use dappnode_nexus_gateway.Confidential.Replay.NoReplay.{check_and_store_once}
use dappnode_nexus_gateway.Confidential.Handler.{
  Env, Request, Response, rejected, forwarded, ConfidentialEnvelope, authorize, read_envelope,
  check_envelope, prepare, answer, look_up, handle_decrypted, handle_all, confidential_max_age,
  confidential_future_skew,
}

module _ (env : Env) where
  open env use {parse_time}

  -- The calls of the replay cache that requests make.
  replay_call :
      Request
      → Result (AuthContext × ConfidentialEnvelope)
      → List (ReplayKey × ℕ)
      → List (ReplayKey × ℕ)
  replay_call r (err e) later = later
  replay_call r (ok (auth, envelope)) later =
      (record { account_id = auth.account.id; request_id = envelope.request_id }, r.locked) ∷ later

  replay_calls : List Request → List (ReplayKey × ℕ)
  replay_calls [] = []
  replay_calls (r ∷ rs) = replay_call r (prepare env r) (replay_calls rs)

  handle_all-check_all :
      (c : ReplayCache) (rs : List Request) → handle_all env c rs ≡ check_all c (replay_calls rs)
  unfolding handle_all check_all replay_calls handle_decrypted replay_call look_up
  handle_all-check_all c [] = refl
  handle_all-check_all c (r ∷ rs) = go (λ d. handle_all-check_all d rs) (prepare env r)
    where
      go :
          ((d : ReplayCache) → handle_all env d rs ≡ check_all d (replay_calls rs))
          → (p : Result (AuthContext × ConfidentialEnvelope))
          → handle_all env (look_up env c r p).0 rs
            ≡ check_all c (replay_call r p (replay_calls rs))
      go ih (err e) = ih c
      go ih (ok (auth, envelope)) =
          ih (check_and_store c auth.account.id envelope.request_id r.locked).0

  All-replay_calls :
      (limit : ℕ) (rs : List Request)
      → All (λ (r : Request). r.locked < limit) rs
      → All (λ (call : ReplayKey × ℕ). call.1 < limit) (replay_calls rs)
  unfolding replay_calls replay_call
  All-replay_calls limit [] h = tt
  All-replay_calls limit (r ∷ rs) (h, hs) = elim (Result-cases (prepare env r)) [
    | inl (e, f) ↦ rw f (All-replay_calls limit rs hs)
    | inr ((auth, envelope), f) ↦ rw f (h, All-replay_calls limit rs hs)
  ]

  -- An envelope that passes was issued within the window about the clock.
  IsTimely : ℕ → ConfidentialEnvelope → Type 0
  IsTimely now envelope =
      (issued : ℕ) × (parse_time envelope.issued_at ≡ some issued)
      × (now ≤ issued + confidential_max_age)
      × (issued ≤ now + confidential_future_skew)

  check_envelope-IsTimely :
      (now : ℕ) (envelope : ConfidentialEnvelope)
      → check_envelope env now envelope ≡ none
      → IsTimely now envelope
  unfolding check_envelope IsTimely
  check_envelope-IsTimely now envelope h = elim (Option-cases (parse_time envelope.issued_at)) [
    | inl f ↦ absurd (ground (arith, h, f))
    | inr (issued, f) ↦ (issued, f, ground (arith, h, f), ground (arith, h, f))
  ]

  prepare-IsTimely :
      (r : Request) (auth : AuthContext) (envelope : ConfidentialEnvelope)
      → prepare env r ≡ ok (auth, envelope)
      → IsTimely r.now envelope
  unfolding prepare
  prepare-IsTimely r auth envelope h = elim (Result-cases (authorize env r.authorization)) [
    | inl (e, f) ↦ let x : err e ≡ ok (auth, envelope) = rw (f, prepare) at h in cc
    | inr (a, f) ↦ elim (Result-cases (read_envelope env r.body)) [
      | inl (e, g) ↦ let x : err e ≡ ok (auth, envelope) = rw (f, g, prepare) at h in cc
      | inr (v, g) ↦ elim (Option-cases (check_envelope env r.now v)) [
        | inr (e, k) ↦ let x : err e ≡ ok (auth, envelope) = rw (f, g, k, prepare) at h in cc
        | inl k ↦
            let x : ok (a, v) ≡ ok (auth, envelope) = rw (f, g, k, prepare) at h in
            let same : v ≡ envelope = cc in
            subst (IsTimely r.now) same (check_envelope-IsTimely r.now v k)
      ]
    ]
  ]

  accepted_of_forwarded :
      (result : ReplayResult) (request body : String)
      → answer env result request ≡ forwarded body
      → result ≡ accepted
  unfolding answer
  accepted_of_forwarded accepted request body h = refl
  accepted_of_forwarded duplicate request body h = cc
  accepted_of_forwarded capacity_reached request body h = cc
  accepted_of_forwarded account_capacity_reached request body h = cc

  abbrev conflict : Response
  conflict = rejected (gateway (err_conflict "confidential request was already processed"))

  -- What the handler does with a request that reaches the replay cache.
  handle_decrypted-prepared :
      (c : ReplayCache) (r : Request) (auth : AuthContext) (envelope : ConfidentialEnvelope)
      → prepare env r ≡ ok (auth, envelope)
      → handle_decrypted env c r ≡ (
        (check_and_store c auth.account.id envelope.request_id r.locked).0,
        answer env
            (check_and_store c auth.account.id envelope.request_id r.locked).1
            envelope.request,
      )
  unfolding handle_decrypted look_up
  handle_decrypted-prepared c r auth envelope h = rw (h, handle_decrypted) refl

  refused_of_duplicate :
      (c : ReplayCache) (s : Request) (auth : AuthContext) (envelope : ConfidentialEnvelope)
      → prepare env s ≡ ok (auth, envelope)
      → (check_and_store c auth.account.id envelope.request_id s.locked).1 ≡ duplicate
      → (handle_decrypted env c s).1 ≡ conflict
  unfolding answer
  refused_of_duplicate c s auth envelope h again =
      ap (λ p. p.1) (handle_decrypted-prepared c s auth envelope h)
      ∙ ap (λ result. answer env result envelope.request) again

  All-soon :
      (limit latest : ℕ) (rs : List Request)
      → latest < limit
      → All (λ (r : Request). r.locked ≤ latest) rs
      → All (λ (r : Request). r.locked < limit) rs
  All-soon limit latest [] lt h = tt
  All-soon limit latest (r ∷ rs) lt (h, hs) = (omega (arith, h, lt), All-soon limit latest rs lt hs)

  -- An envelope is forwarded once. Suppose a request that carries it is forwarded, whatever requests
  -- came before to a handler that started with an empty replay cache, and a later request of the same
  -- account passes all the checks before the cache with the same request ID and the same issued_at.
  -- Then that request is refused as already processed, if the clock does not go back from the age
  -- check of the first to its look-up, nor from the look-ups in between to that of the second, and the
  -- look-up of the second comes less than 30 seconds after its age check.
  pub handle_decrypted_once :
      (capacity : ℕ) (past between : List Request) (r s : Request) (auth auth' : AuthContext)
      (e f : ConfidentialEnvelope) (body : String)
      → prepare env r ≡ ok (auth, e)
      → prepare env s ≡ ok (auth', f)
      → auth'.account.id ≡ auth.account.id
      → f.request_id ≡ e.request_id
      → f.issued_at ≡ e.issued_at
      → r.now ≤ r.locked
      → s.locked < s.now + confidential_future_skew
      → All (λ (b : Request). b.locked ≤ s.locked) between
      → (handle_decrypted env (handle_all env (new_cache replay_ttl capacity) past) r).1
        ≡ forwarded body
      → (handle_decrypted env
          (handle_all env
            (handle_decrypted env (handle_all env (new_cache replay_ttl capacity) past) r).0
            between)
          s).1
        ≡ rejected (gateway (err_conflict "confidential request was already processed"))
  unfolding IsTimely
  handle_decrypted_once capacity past between r s auth auth' e f body pr ps account id issued steady
        soon ordered sent =
      let start = new_cache replay_ttl capacity in
      let c = check_all start (replay_calls past) in
      let k : ReplayKey = record { account_id = auth.account.id; request_id = e.request_id } in
      let same : handle_all env start past ≡ c = handle_all-check_all start past in
      let first = handle_decrypted-prepared c r auth e pr in
      let taken : (check_and_store c k.account_id k.request_id r.locked).1 ≡ accepted =
        accepted_of_forwarded _ e.request body
          (ap (λ p. p.1) (sym first) ∙ ap (λ d. (handle_decrypted env d r).1) (sym same) ∙ sent) in
      let now : s.locked < r.locked + replay_ttl =
        in_time (prepare-IsTimely r auth e pr) (prepare-IsTimely s auth' f ps) in
      let again =
        check_and_store_once replay_ttl capacity (replay_calls past) k r.locked
          (replay_calls between) s.locked taken
          (All-replay_calls (r.locked + replay_ttl) between
            (All-soon (r.locked + replay_ttl) s.locked between now ordered))
          now in
      let d =
        check_all (check_and_store c k.account_id k.request_id r.locked).0 (replay_calls between) in
      let here : handle_all env (handle_decrypted env (handle_all env start past) r).0 between ≡ d =
        ap (λ d. handle_all env (handle_decrypted env d r).0 between) same
        ∙ ap (λ p. handle_all env p.0 between) first
        ∙ handle_all-check_all _ between in
      refused_of_duplicate _ s auth' f ps (
        ap (λ c'. (check_and_store c' auth'.account.id f.request_id s.locked).1) here
        ∙ ap (λ a. (check_and_store d a f.request_id s.locked).1) account
        ∙ ap (λ q. (check_and_store d auth.account.id q s.locked).1) id
        ∙ again)
    where
      in_time : IsTimely r.now e → IsTimely s.now f → s.locked < r.locked + replay_ttl
      in_time (i, pi, _, late) (j, pj, fresh, _) =
          let same_time : some j ≡ some i = sym pj ∙ ap parse_time issued ∙ pi in
          let same_issue : j ≡ i = cc in omega (arith, same_issue, late, fresh, steady, soon)
