-- ===== src/Llm/Transient.antt =====
-- Which outcomes of a request the client of llm/client.py tries again after.
use e_commerce_agent.Base.{
  ◌||◌, leb, Option, ◌≡◌, ◌⊎◌, inl, inr, refl, ℕ, ◌≤◌, String, eqb, Bool, true, false, arith,
  Bool-cases,
}
use e_commerce_agent.Base.Json.{Json}
use e_commerce_agent.Errors.{
  Error, app_error, task_not_found, task_not_resumable, task_state_conflict, merchant_forbidden,
  agent_loop_detected, dependency_error, value_error, timeout_error, unexpected, Result, ok, err,
}
use e_commerce_agent.Agent.State.{AssistantTurn}
use package.e_commerce_agent.Llm.{Codec}
use package.e_commerce_agent.Llm.Retry.{Classes}
use package.e_commerce_agent.Llm.Client.{
  Outcome, response, failed, read_outcome, is_transient, answer,
}

-- What `retryable` names: timeouts, network errors and status errors of httpx.
abbrev pub IsCaught : Classes → String → Type 0
IsCaught classes name =
    (classes.is_subclass name "TimeoutException" ≡ true)
    ⊎ ((classes.is_subclass name "NetworkError" ≡ true)
        ⊎ (classes.is_subclass name "HTTPStatusError" ≡ true))

-- What a request may come to so that another one is worth it: too many requests, an error of the
-- service, a request that failed by an exception of those classes, or a response whose reading did.
pub data IsTransient (c : Codec) (classes : Classes) : Outcome → Type 0 where
  throttled : (body : Option Json) → IsTransient c classes (response 429 body)
  of_service :
      (status : ℕ) (body : Option Json)
      → 500 ≤ status
      → IsTransient c classes (response status body)
  request_failed : (name : String) → IsCaught classes name → IsTransient c classes (failed name)
  reading_failed :
      (status : ℕ) (body : Option Json) (name : String)
      → answer c (response status body) ≡ err (unexpected name)
      → IsCaught classes name
      → IsTransient c classes (response status body)

module _ (c : Codec) (classes : Classes) where
  abbrev pub is_transient_answer : Result AssistantTurn → Bool
  is_transient_answer (ok turn) = false
  is_transient_answer (err e) = is_transient classes e

  is_transient-IsCaught :
      (name : String) → is_transient classes (unexpected name) ≡ true → IsCaught classes name
  unfolding is_transient
  is_transient-IsCaught name h = elim (Bool-cases (classes.is_subclass name "TimeoutException")) [
    | inl late ↦ inl late
    | inr in_time ↦ elim (Bool-cases (classes.is_subclass name "NetworkError")) [
      | inl cut ↦ inr (inl cut)
      | inr sound ↦ inr (inr (ground arith))
    ]
  ]

  IsCaught-is_transient :
      (name : String) → IsCaught classes name → is_transient classes (unexpected name) ≡ true
  unfolding is_transient
  IsCaught-is_transient name (inl late) = ground arith
  IsCaught-is_transient name (inr (inl cut)) = ground arith
  IsCaught-is_transient name (inr (inr status)) = ground arith

  answer-refused :
      (status : ℕ) (body : Option Json)
      → (leb 500 status || eqb status 429) ≡ true
      → answer c (response status body) ≡ err (unexpected "HTTPStatusError")
  unfolding read_outcome
  answer-refused status body h = rw (h, answer) refl

  status_error : IsCaught classes "HTTPStatusError"
  status_error = inr (inr (classes.is_subclass-self "HTTPStatusError"))

  raised-transient :
      (o : Outcome) (name : String)
      → answer c o ≡ err (unexpected name)
      → IsCaught classes name
      → is_transient_answer (answer c o) ≡ true
  raised-transient o name e caught = rw e (IsCaught-is_transient name caught)

  pub IsTransient-answer :
      (o : Outcome) → IsTransient c classes o → is_transient_answer (answer c o) ≡ true
  IsTransient-answer o (throttled body) =
      raised-transient (response 429 body) "HTTPStatusError" (answer-refused 429 body refl)
        status_error
  IsTransient-answer o (of_service status body high) =
      raised-transient (response status body) "HTTPStatusError"
        (answer-refused status body (ground (arith, high))) status_error
  IsTransient-answer o (request_failed name caught) =
      unfold read_outcome in IsCaught-is_transient name caught
  IsTransient-answer o (reading_failed status body name e caught) =
      raised-transient (response status body) name e caught

  error-IsTransient :
      (status : ℕ) (body : Option Json) (e : Error)
      → answer c (response status body) ≡ err e
      → is_transient classes e ≡ true
      → IsTransient c classes (response status body)
  unfolding is_transient
  error-IsTransient status body (unexpected name) raised h =
      reading_failed status body name raised (is_transient-IsCaught name h)
  error-IsTransient status body (app_error code m s) raised h = absurd (ground arith)
  error-IsTransient status body (task_not_found t) raised h = absurd (ground arith)
  error-IsTransient status body (task_not_resumable t) raised h = absurd (ground arith)
  error-IsTransient status body (task_state_conflict m) raised h = absurd (ground arith)
  error-IsTransient status body merchant_forbidden raised h = absurd (ground arith)
  error-IsTransient status body (agent_loop_detected m) raised h = absurd (ground arith)
  error-IsTransient status body (dependency_error code m) raised h = absurd (ground arith)
  error-IsTransient status body (value_error m) raised h = absurd (ground arith)
  error-IsTransient status body timeout_error raised h = absurd (ground arith)

  pub Result-cases :
      (r : Result AssistantTurn)
      → (is_transient_answer r ≡ false)
        ⊎ ((e : Error) × (r ≡ err e) × (is_transient classes e ≡ true))
  Result-cases (ok turn) = inl refl
  Result-cases (err e) = elim (Bool-cases (is_transient classes e)) [
    | inl again ↦ inr (e, refl, again)
    | inr done ↦ inl done
  ]

  pub answer-IsTransient :
      (o : Outcome) → is_transient_answer (answer c o) ≡ true → IsTransient c classes o
  answer-IsTransient (failed name) h =
      request_failed name (is_transient-IsCaught name (unfold read_outcome in h))
  answer-IsTransient (response status body) h =
      elim (Result-cases (answer c (response status body))) [
        | inl done ↦ absurd (ground arith)
        | inr (e, raised, again) ↦ error-IsTransient status body e raised again
      ]
