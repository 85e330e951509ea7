-- ===== src/Service/Proxy/Attempts.antt =====
-- What provider attempts under a credit hold do (`infer`, `runAttempt` and `finish` of
-- services/proxy.go).
use dappnode_nexus_gateway.Common.{
  ℕ, ◌+◌, ◌≤◌, ◌≡◌, refl, subst, inl, inr, String, List, [], ◌∷◌, ◌++◌, Option, none, some, arith,
  count, count-append, Bool-cases, if_both, Option-cases,
}
use dappnode_nexus_gateway.Domain.Error.{Error, gateway, Result, Result-cases, ok, err}
use dappnode_nexus_gateway.Domain.Model.{PublicModel, ProviderTarget}
use dappnode_nexus_gateway.Domain.Generation.{GenerateRequest}
use dappnode_nexus_gateway.Service.Checks.{validate_request, with_provider_target}
use dappnode_nexus_gateway.Service.Proxy.{
  Env, Call, Event, failed, lease_stopped, attempt_complete, attempt_stream, attempt, fail,
  tries_fallback, fall_back, after_failure, infer,
}
use dappnode_nexus_gateway.Service.Proxy.Events.{
  is_reservation, is_settlement, is_call, is_stop, left_open, is_ok, Run,
}

module _ {Body Answer Stream Mapping : Type 0} (env : Env Body Answer Stream Mapping) where
  -- What an attempt under a hold does: one provider call at most, and a settlement exactly if it
  -- answers the client in full.
  record IsAttempt (o : Run Body Answer Stream Mapping) : Type 0 where
    holds : count is_reservation o.0 ≡ 0
    calls : count is_call o.0 ≤ 1
    answered : is_ok o.1 ≤ count is_call o.0
    settled : count is_settlement o.0 + left_open o.1 ≡ is_ok o.1
    stopped : count is_stop o.0 + left_open o.1 ≡ is_ok o.1

  module _ (endpoint rid : String) (masked : Body) (mapping : Option Mapping)
      (req : GenerateRequest) where
    attempt_complete-IsAttempt :
        (t : PublicModel) → IsAttempt (attempt_complete env endpoint rid masked mapping req t)
    unfolding attempt_complete
    attempt_complete-IsAttempt t = elim (Result-cases (env.complete masked t)) [
      | inl (e, f) ↦ rw (f, attempt_complete) (omega arith)
      | inr (body, f) ↦ elim (Result-cases (env.observe endpoint body t mapping)) [
        | inl (e, g) ↦ rw (f, g, attempt_complete) (omega arith)
        | inr (a, g) ↦ rw (f, g, attempt_complete) (omega arith)
      ]
    ]

    attempt_stream-IsAttempt :
        (t : PublicModel) → IsAttempt (attempt_stream env endpoint rid masked mapping req t)
    unfolding attempt_stream
    attempt_stream-IsAttempt t = elim (Result-cases (env.open_stream masked t mapping)) [
      | inl (e, f) ↦ rw (f, attempt_stream) (omega arith)
      | inr (st, f) ↦ rw (f, attempt_stream) (omega arith)
    ]

    attempt-IsAttempt :
        (t : PublicModel) → IsAttempt (attempt env endpoint rid masked mapping req t)
    unfolding attempt
    attempt-IsAttempt t = elim (Option-cases (validate_request endpoint req t)) [
      | inr (e, f) ↦ rw (f, attempt) (omega arith)
      | inl f ↦ elim (Bool-cases (env.registered t.provider_config.provider_name)) [
        | inr g ↦ rw (f, g, attempt) (omega arith)
        | inl g ↦
            rw (f, g, attempt)
              (if_both IsAttempt req.stream (attempt_stream-IsAttempt t)
                (attempt_complete-IsAttempt t))
      ]
    ]

    -- What follows a hold: one settlement and one end of the lease, or a stream that owes both.
    pub record IsSettled (o : Run Body Answer Stream Mapping) : Type 0 where
      pub holds : count is_reservation o.0 ≡ 0
      pub calls : count is_call o.0 ≤ 2
      pub answered : is_ok o.1 ≤ count is_call o.0
      pub settled : count is_settlement o.0 + left_open o.1 ≡ 1
      pub stopped : count is_stop o.0 + left_open o.1 ≡ 1

    -- Attempts that failed.
    record IsFailed (events : List (Event Body)) (limit : ℕ) : Type 0 where
      holds : count is_reservation events ≡ 0
      calls : count is_call events ≤ limit
      settled : count is_settlement events ≡ 0
      stopped : count is_stop events ≡ 0

    IsSettled-of_answer :
        (events fs : List (Event Body)) (r : Result (Call Answer Stream Mapping))
        → IsFailed events 1
        → IsAttempt (fs, r)
        → is_ok r ≡ 1
        → IsSettled (events ++ fs, r)
    IsSettled-of_answer events fs r f a good = record {
      holds = omega (arith, count-append {0} is_reservation events fs);
      calls = omega (arith, count-append {0} is_call events fs);
      answered = omega (arith, count-append {0} is_call events fs);
      settled = omega (arith, count-append {0} is_settlement events fs);
      stopped = omega (arith, count-append {0} is_stop events fs);
    }

    fail-IsSettled :
        (events : List (Event Body)) (t : PublicModel) (e : Error)
        → IsFailed events 2
        → IsSettled (fail env endpoint rid masked mapping req events t e)
    unfolding fail
    fail-IsSettled events t e f =
        let tail : List (Event Body) =
          failed (some rid) t
            (env.sanitize (elim env.lost_at_end [ none ↦ e | some g ↦ gateway g ]) mapping)
          ∷ lease_stopped rid
          ∷ [] in
        record {
          holds = omega (arith, count-append {0} is_reservation events tail);
          calls = omega (arith, count-append {0} is_call events tail);
          answered = omega arith;
          settled = omega (arith, count-append {0} is_settlement events tail);
          stopped = omega (arith, count-append {0} is_stop events tail);
        }

    IsFailed-append :
        (events fs : List (Event Body)) (e : Error)
        → IsFailed events 1
        → IsAttempt (fs, err e)
        → IsFailed (events ++ fs) 2
    IsFailed-append events fs e f a = record {
      holds = omega (arith, count-append {0} is_reservation events fs);
      calls = omega (arith, count-append {0} is_call events fs);
      settled = omega (arith, count-append {0} is_settlement events fs);
      stopped = omega (arith, count-append {0} is_stop events fs);
    }

    fall_back-IsSettled :
        (events : List (Event Body)) (t : PublicModel)
        → IsFailed events 1
        → IsSettled (fall_back env endpoint rid masked mapping req events t)
    unfolding fall_back
    fall_back-IsSettled events t f =
        let a = attempt-IsAttempt t in
        elim (Result-cases (attempt env endpoint rid masked mapping req t).1) [
          | inl (e, g) ↦
              rw (g, fall_back)
                (fail-IsSettled (events ++ (attempt env endpoint rid masked mapping req t).0) t e (
                  IsFailed-append events (attempt env endpoint rid masked mapping req t).0 e f (
                    subst (λ r. IsAttempt ((attempt env endpoint rid masked mapping req t).0, r)) g
                      a)))
          | inr (c, g) ↦
              rw (g, fall_back)
                (IsSettled-of_answer events (attempt env endpoint rid masked mapping req t).0 (ok c)
                  f
                  (subst (λ r. IsAttempt ((attempt env endpoint rid masked mapping req t).0, r)) g
                    a)
                  refl)
        ]

    IsFailed-weaken : (events : List (Event Body)) → IsFailed events 1 → IsFailed events 2
    IsFailed-weaken events f = omega arith

    after_failure-IsSettled :
        (events : List (Event Body)) (model : PublicModel) (o : Option ProviderTarget) (e : Error)
        → IsFailed events 1
        → IsSettled (after_failure env endpoint rid masked mapping req events model o e)
    unfolding after_failure
    after_failure-IsSettled events model none e f =
        fail-IsSettled events model e (IsFailed-weaken events f)
    after_failure-IsSettled events model (some target) e f =
        if_both IsSettled (tries_fallback env endpoint rid masked mapping req model e target)
          (fall_back-IsSettled events (with_provider_target model target) f)
          (fail-IsSettled events model e (IsFailed-weaken events f))

    IsFailed-of_attempt :
        (fs : List (Event Body)) (e : Error) → IsAttempt (fs, err e) → IsFailed fs 1
    IsFailed-of_attempt fs e a = omega arith

    IsSettled-of_first :
        (fs : List (Event Body)) (c : Call Answer Stream Mapping)
        → IsAttempt (fs, ok c)
        → IsSettled (fs, ok c)
    IsSettled-of_first fs c a = omega arith

    pub infer-IsSettled :
        (model : PublicModel) → IsSettled (infer env endpoint rid masked mapping req model)
    unfolding infer
    infer-IsSettled model =
        let a = attempt-IsAttempt model in
        let fs = (attempt env endpoint rid masked mapping req model).0 in
        elim (Result-cases (attempt env endpoint rid masked mapping req model).1) [
          | inl (e, g) ↦
              rw (g, infer)
                (after_failure-IsSettled fs model model.fallback e
                  (IsFailed-of_attempt fs e (subst (λ r. IsAttempt (fs, r)) g a)))
          | inr (c, g) ↦
              rw (g, infer) (IsSettled-of_first fs c (subst (λ r. IsAttempt (fs, r)) g a))
        ]
