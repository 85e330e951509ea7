-- ===== src/Metering/Client/Laws.antt =====
-- What the retries of `requestJSON` come to.
use dappnode_nexus_gateway.Common.{
  ℕ, zero, suc, ◌+◌, ◌≤◌, ◌<◌, ◌≡◌, refl, subst, ◌∙◌, ◌⊎◌, inl, inr, ◌↔◌, String, true, length,
  Option, none, arith, Bool-cases, Option-cases,
}
use dappnode_nexus_gateway.Domain.Error.{Error, Result, Result-cases, ok, err}
use dappnode_nexus_gateway.Metering.Client.{
  Exchange, is_retryable_request_error, unwrap_retryable_request_error, wait, attempts_from,
  request_json_once, request_json,
}

-- An attempt after which another is made.
abbrev pub IsRetried : {A : Type 0} → Result A → Type 0
IsRetried r = (e : Error) × (r ≡ err e) × (is_retryable_request_error e ≡ true)

module _ {A : Type 0} (once : ℕ → Result A) (interrupted : ℕ → Option Error) where
  -- Attempt n answers, all before it are retried, and no wait up to it is cut short.
  abbrev pub AnsweredBy : ℕ → A → ℕ → Type 0
  AnsweredBy start a n =
      (once (start + n) ≡ ok a)
      × ((k : ℕ) → k < n → IsRetried (once (start + k)))
      × ((k : ℕ) → k ≤ n → wait once interrupted (start + k) ≡ none)

  -- Shifting the count of attempts by one.
  here : (P : ℕ → Type 0) (start : ℕ) → P (start + 0) → P start
  here P start p = subst P (omega arith) p

  to_here : (P : ℕ → Type 0) (start k : ℕ) → k ≡ 0 → P start → P (start + k)
  to_here P start k z p = subst P (omega (arith, z)) p

  next : (P : ℕ → Type 0) (start n : ℕ) → P (start + suc n) → P (suc start + n)
  next P start n p = subst P (omega arith) p

  to_next : (P : ℕ → Type 0) (start n m : ℕ) → m ≡ suc n → P (suc start + n) → P (start + m)
  to_next P start n m e p = subst P (omega (arith, e)) p

  AnsweredBy-next : (start n : ℕ) (a : A) → AnsweredBy start a (suc n) → AnsweredBy (suc start) a n
  AnsweredBy-next start n a (answer, retried, waited) = (
    next (λ i. once i ≡ ok a) start n answer,
    λ k early. next (λ i. IsRetried (once i)) start k (retried (suc k) (omega (arith, early))),
    λ k early.
        next (λ i. wait once interrupted i ≡ none) start k (waited (suc k) (omega (arith, early))),
  )

  -- The first attempt is made, and is retried if the answer comes later.
  AnsweredBy-wait :
      (start n : ℕ) (a : A) → AnsweredBy start a n → wait once interrupted start ≡ none
  AnsweredBy-wait start n a (answer, retried, waited) =
      here (λ i. wait once interrupted i ≡ none) start (waited 0 (omega arith))

  attempts_from_ok :
      (left start : ℕ) (a : A) (n : ℕ)
      → n ≤ left
      → AnsweredBy start a n
      → (attempts_from once interrupted left start).1 ≡ ok a
  unfolding attempts_from
  attempts_from_ok zero start a n bound h =
      let now = AnsweredBy-wait start n a h in
      let answer =
        here (λ i. once i ≡ ok a) start
          (subst (λ i. once (start + i) ≡ ok a) (omega (arith, bound)) h.0) in
      rw (now, answer, attempts_from)
  attempts_from_ok (suc left) start a zero bound h =
      let now = AnsweredBy-wait start zero a h in
      let answer = here (λ i. once i ≡ ok a) start h.0 in rw (now, answer, attempts_from)
  attempts_from_ok (suc left) start a (suc n) bound h =
      let now = AnsweredBy-wait start (suc n) a h in
      let (e, failed, again) = here (λ i. IsRetried (once i)) start (h.1 0 (omega arith)) in
      rw (now, failed, again, attempts_from)
        (attempts_from_ok left (suc start) a n (omega (arith, bound)) (AnsweredBy-next start n a h))

  AnsweredBy-first :
      (start : ℕ) (a : A)
      → wait once interrupted start ≡ none
      → once start ≡ ok a
      → AnsweredBy start a 0
  AnsweredBy-first start a now answer = (
    to_here (λ i. once i ≡ ok a) start 0 refl answer,
    λ k early. absurd (omega (arith, early)),
    λ k early. to_here (λ i. wait once interrupted i ≡ none) start k (omega (arith, early)) now,
  )

  AnsweredBy-later :
      (start n : ℕ) (a : A)
      → wait once interrupted start ≡ none
      → IsRetried (once start)
      → AnsweredBy (suc start) a n
      → AnsweredBy start a (suc n)
  AnsweredBy-later start n a now failed (answer, retried, waited) = (
    to_next (λ i. once i ≡ ok a) start n (suc n) refl answer,
    λ k early.
        from_next (λ i. IsRetried (once i)) start k failed
          (λ j e. retried j (omega (arith, e, early))),
    λ k early.
        from_next (λ i. wait once interrupted i ≡ none) start k now
          (λ j e. waited j (omega (arith, e, early))),
  )
    where
      from_next :
          (P : ℕ → Type 0) (start k : ℕ)
          → P start
          → ((j : ℕ) → k ≡ suc j → P (suc start + j))
          → P (start + k)
      from_next P start zero p q = to_here P start zero refl p
      from_next P start (suc j) p q = to_next P start j (suc j) refl (q j refl)

  ok_of_attempts_from :
      (left start : ℕ) (a : A)
      → (attempts_from once interrupted left start).1 ≡ ok a
      → (n : ℕ) × (n ≤ left) × AnsweredBy start a n
  unfolding attempts_from
  ok_of_attempts_from zero start a h = elim (Option-cases (wait once interrupted start)) [
    | inr (e, ended) ↦ let f : err e ≡ ok a = rw (ended, attempts_from) at h in cc
    | inl now ↦ elim (Result-cases (once start)) [
      | inl (e, failed) ↦
          let f : err (unwrap_retryable_request_error e) ≡ ok a =
            rw (now, failed, attempts_from) at h in
          cc
      | inr (b, answer) ↦
          let f : ok b ≡ ok a = rw (now, answer, attempts_from) at h in
          (0, omega arith, AnsweredBy-first start a now (answer ∙ f))
    ]
  ]
  ok_of_attempts_from (suc left) start a h = elim (Option-cases (wait once interrupted start)) [
    | inr (e, ended) ↦ let f : err e ≡ ok a = rw (ended, attempts_from) at h in cc
    | inl now ↦ elim (Result-cases (once start)) [
      | inr (b, answer) ↦
          let f : ok b ≡ ok a = rw (now, answer, attempts_from) at h in
          (0, omega arith, AnsweredBy-first start a now (answer ∙ f))
      | inl (e, failed) ↦ elim (Bool-cases (is_retryable_request_error e)) [
        | inr final ↦ let f : err e ≡ ok a = rw (now, failed, final, attempts_from) at h in cc
        | inl again ↦
            let f : (attempts_from once interrupted left (suc start)).1 ≡ ok a =
              rw (now, failed, again, attempts_from) at h in
            let (n, bound, later) = ok_of_attempts_from left (suc start) a f in
            (suc n, omega (arith, bound), AnsweredBy-later start n a now (e, failed, again) later)
      ]
    ]
  ]

  attempts_from-bounded :
      (left start : ℕ) → length (attempts_from once interrupted left start).0 ≤ suc left
  unfolding attempts_from
  attempts_from-bounded zero start = elim (Option-cases (wait once interrupted start)) [
    | inr (e, ended) ↦ rw (ended, attempts_from) (omega arith)
    | inl now ↦ elim (Result-cases (once start)) [
      | inl (e, failed) ↦ rw (now, failed, attempts_from) (omega arith)
      | inr (b, answer) ↦ rw (now, answer, attempts_from) (omega arith)
    ]
  ]
  attempts_from-bounded (suc left) start = elim (Option-cases (wait once interrupted start)) [
    | inr (e, ended) ↦ rw (ended, attempts_from) (omega arith)
    | inl now ↦ elim (Result-cases (once start)) [
      | inr (b, answer) ↦ rw (now, answer, attempts_from) (omega arith)
      | inl (e, failed) ↦ elim (Bool-cases (is_retryable_request_error e)) [
        | inr final ↦ rw (now, failed, final, attempts_from) (omega arith)
        | inl again ↦
            rw (now, failed, again, attempts_from)
              (omega (arith, attempts_from-bounded left (suc start)))
      ]
    ]
  ]

module _ {Body A : Type 0} where
  -- A request to Metering is sent at most once more than the retries allow, and it gives an answer
  -- exactly if one of these attempts does so, every attempt before it fails in a way that is
  -- retried, and the context does not end during a wait up to it.
  pub request_json_iff :
      (server : ℕ → Exchange Body) (interrupted : ℕ → Option Error) (method path : String)
      (out : Option (Body → String ⊎ A)) (retries : ℕ) (a : Option A)
      → (length (request_json server interrupted method path out retries).0 ≤ suc retries)
        × (((request_json server interrupted method path out retries).1 ≡ ok a) ↔ (
            (n : ℕ) × (n ≤ retries)
            × AnsweredBy (λ i. request_json_once method path out (server i)) interrupted 0 a n))
  unfolding request_json
  request_json_iff server interrupted method path out retries a =
      let once : ℕ → Result (Option A) = λ i. request_json_once method path out (server i) in
      (
        attempts_from-bounded once interrupted retries 0,
        (
          λ h. ok_of_attempts_from once interrupted retries 0 a h,
          λ (n, bound, h). attempts_from_ok once interrupted retries 0 a n bound h,
        ),
      )
