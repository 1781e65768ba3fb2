-- ===== src/Api/Answers.antt =====
-- Every request through main.py is answered.
use e_commerce_agent.Base.{
  ◌≡◌, ◌≢◌, ◌⊎◌, ap, eq_iff, arith, inl, inr, refl, ℕ, String, Bool, true, false, ◌&&◌, Option,
  Bool-cases,
}
use e_commerce_agent.Domain.{TaskRecord}
use e_commerce_agent.Errors.{
  Error, app_error, task_not_found, task_not_resumable, task_state_conflict, merchant_forbidden,
  agent_loop_detected, dependency_error, value_error, timeout_error, unexpected, Result, ok, err,
  is_app_error, code, message, http_status,
}
use e_commerce_agent.Exec.{Exec, pure, ensure, ◌>>=◌, ◌>>◌, outcome_cases}
use e_commerce_agent.Platform.{Platform}
use e_commerce_agent.World.{World}
use e_commerce_agent.Tasks
use package.e_commerce_agent.Api.{Web}
use package.e_commerce_agent.Api.Trace.{get_task_trace}
use package.e_commerce_agent.Api.Auth.{authenticated_merchant}
use package.e_commerce_agent.Api.Schemas.{
  CreateTaskRequest, valid_create, valid_key, valid_input, valid_approval, trace, Payload, events,
  Response, success, failure,
}
use package.e_commerce_agent.Api.Routes.{
  Request, get_health, post_task, get_task, get_trace, post_input, post_approval, post_resume,
  get_events, dispatch, endpoint, or_else, event_id_pattern, invalid, answer, created_data,
  status_data, input_data, approval_data, resume_data, merchant_key,
}
use package.e_commerce_agent.Api.Serve.{answer_error, serve, is_validation_error}
use package.e_commerce_agent.Api.Guards.{IsUntouched, serve-Entered}

abbrev bad_id : Error
bad_id = app_error "INVALID_EVENT_ID" "Last-Event-ID 格式无效" 422

abbrev pub IsSuccess : Response → Type 0
IsSuccess response =
    ((response.http_status ≡ 200) ⊎ (response.http_status ≡ 202)) × (response.code ≡ "OK")

-- A refusal with this status, code, message and trace id, and nothing else.
pub record Shows (status : ℕ) (c m id : String) (response : Response) : Type 0 where
  pub http_status : response.http_status ≡ status
  pub code : response.code ≡ c
  pub message : response.message ≡ m
  pub payload : response.payload ≡ failure (record { code = c; message = m; trace_id = id })

abbrev rejected_body : Error
rejected_body = unexpected "RequestValidationError"

-- What a response that reports an exception shows: an AppError's own code, message and status, and
-- nothing of any other exception.
abbrev pub Reports : String → Error → Response → Type 0
Reports id e response =
    ((is_app_error e ≡ true) × Shows (http_status e) (code e) (message e) id response)
    ⊎ (((e ≡ rejected_body) × Shows 422 "VALIDATION_ERROR" "请求参数校验失败" id response)
        ⊎ ((is_app_error e ≡ false)
            × (e ≢ rejected_body)
            × Shows 500 "INTERNAL_ERROR" "服务内部错误" id response))

is_validation_error-eq : (e : Error) → (is_validation_error e ≡ true) → e ≡ rejected_body
is_validation_error-eq (unexpected name) h =
    ap unexpected ((eq_iff name "RequestValidationError").0 h)
is_validation_error-eq (app_error c m s) h = cc
is_validation_error-eq (task_not_found t) h = cc
is_validation_error-eq (task_not_resumable t) h = cc
is_validation_error-eq (task_state_conflict m) h = cc
is_validation_error-eq merchant_forbidden h = cc
is_validation_error-eq (agent_loop_detected m) h = cc
is_validation_error-eq (dependency_error c m) h = cc
is_validation_error-eq (value_error m) h = cc
is_validation_error-eq timeout_error h = cc

answer_error-Reports : (id : String) (e : Error) → Reports id e (answer_error id e)
unfolding answer_error
answer_error-Reports id e = elim (Bool-cases (is_app_error e)) [
  | inl own ↦
      inl (own, rw own (record { http_status = refl; code = refl; message = refl; payload = refl }))
  | inr other ↦ elim (Bool-cases (is_validation_error e)) [
    | inl odd ↦ inr (
        inl (
          is_validation_error-eq e odd,
          rw (other, odd)
              (record { http_status = refl; code = refl; message = refl; payload = refl }),
        ))
    | inr unknown ↦ inr (
        inr (
          other,
          λ same. absurd (ground arith),
          rw (other, unknown)
              (record { http_status = refl; code = refl; message = refl; payload = refl }),
        ))
  ]
]

module _ (p : Platform) where
  -- What an endpoint returns, if it returns, is a success.
  abbrev Good : Result Response × World p → Type 0
  Good (ok response, w) = IsSuccess response
  Good (err e, w) = Unit

  >>=-Good :
      {A : Type 0} (m : Exec (World p) A) (f : A → Exec (World p) Response) (w : World p)
      → ((a : A) (w' : World p) → Good (f a w'))
      → Good ((m >>= f) w)
  >>=-Good m f w good = elim (outcome_cases (m w)) [
    | inl (a, w', e) ↦ rw e (good a w')
    | inr (x, w', e) ↦ rw e tt
  ]

  success-Good :
      {A : Type 0} (m : Exec (World p) A) (g : A → Payload) (n : ℕ) (w : World p)
      → (n ≡ 200) ⊎ (n ≡ 202)
      → Good ((m >>= λ a. pure (success n (g a))) w)
  success-Good m g n w which = >>=-Good m (λ a. pure (success n (g a))) w (λ a w'. (which, refl))

  ensure-Good :
      (b : Bool) (e : Error) (m : Exec (World p) Response) (w : World p)
      → Good (m w)
      → Good ((ensure b e >> m) w)
  ensure-Good true e m w good = good
  ensure-Good false e m w good = tt

  module _ (web : Web) (id : String) where
    abbrev create : String → CreateTaskRequest → Option String → Exec (World p) (TaskRecord × Bool)
    create m q key =
        Tasks.Create.create_task p q.prompt q.session_id (merchant_key m key) id m q.product_id

    abbrev from_id : String → Exec (World p) Response
    from_id start = do
      ensure (web.matches event_id_pattern start) bad_id
      pure (success 200 (events start))

    dispatch-Good :
        (m : String) (request : Request) (w : World p) → Good (dispatch p web id m request w)
    unfolding dispatch
    dispatch-Good m get_health w = (inl refl, refl)
    dispatch-Good m (post_task q key) w =
        ensure-Good (valid_create web q && valid_key key) invalid
          (answer p web 202 (create m q key) created_data) w
          (success-Good (create m q key) created_data 202 w (inr refl))
    dispatch-Good m (get_task task_id) w =
        success-Good (Tasks.get_task_for_merchant p task_id m) status_data 200 w (inl refl)
    dispatch-Good m (get_trace task_id) w =
        success-Good (get_task_trace p web task_id m) trace 200 w (inl refl)
    dispatch-Good m (post_input task_id product_id) w =
        let service = Tasks.Input.submit_input p task_id m product_id in
        ensure-Good (valid_input product_id) invalid (answer p web 202 service input_data) w
          (success-Good service input_data 202 w (inr refl))
    dispatch-Good m (post_approval task_id q) w =
        let service = Tasks.Approval.submit_approval p task_id m q in
        ensure-Good (valid_approval q) invalid (answer p web 202 service approval_data) w
          (success-Good service approval_data 202 w (inr refl))
    dispatch-Good m (post_resume task_id) w =
        success-Good (Tasks.Resume.resume_task p task_id m) resume_data 202 w (inr refl)
    dispatch-Good m (get_events task_id after last) w =
        let id = or_else last (or_else after "0-0") in
        let fine : IsSuccess (success 200 (events id)) = (inl refl, refl) in
        >>=-Good (Tasks.get_task_for_merchant p task_id m) (λ task. from_id id) w
          (λ a w'.
            ensure-Good (web.matches event_id_pattern id) bad_id (pure (success 200 (events id))) w'
              fine)

    entered-Good :
        (authorization : Option String) (request : Request) (w : World p)
        → Good (
            (authenticated_merchant p.lower web authorization >>= λ m. dispatch p web id m request)
              w)
    entered-Good a request w =
        >>=-Good (authenticated_merchant p.lower web a) (λ m. dispatch p web id m request) w
          (λ m w'. dispatch-Good m request w')

    endpoint-Good :
        (authorization : Option String) (request : Request) (w : World p)
        → Good (endpoint p web id authorization request w)
    unfolding endpoint
    endpoint-Good a get_health w = dispatch-Good "" get_health w
    endpoint-Good a (post_task q key) w = entered-Good a (post_task q key) w
    endpoint-Good a (get_task t) w = entered-Good a (get_task t) w
    endpoint-Good a (get_trace t) w = entered-Good a (get_trace t) w
    endpoint-Good a (post_input t i) w = entered-Good a (post_input t i) w
    endpoint-Good a (post_approval t q) w = entered-Good a (post_approval t q) w
    endpoint-Good a (post_resume t) w = entered-Good a (post_resume t) w
    endpoint-Good a (get_events t after last) w = entered-Good a (get_events t after last) w

  -- What became of a request, in the world in which its endpoint ran: the endpoint returned the
  -- response, or it raised the exception that the response reports.
  pub record Served (web : Web) (authorization : Option String) (request : Request)
      (response : Response) (w w' : World p) : Type 0 where
    pub id : String
    pub entered : World p
    pub untouched : IsUntouched p w entered
    pub how :
        ((endpoint p web id authorization request entered ≡ (ok response, w')) × IsSuccess response)
        ⊎ ((e : Error) × (endpoint p web id authorization request entered ≡ (err e, w'))
            × Reports id e response)

  -- A request is always answered. Its endpoint runs with the stores and the broker as they were: where
  -- it returns, the answer is what it returned, with status 200 or 202; where it raises, the answer
  -- reports that exception: an AppError by its own code, message and status, a request that does not
  -- validate by `VALIDATION_ERROR` and 422, and any other by `INTERNAL_ERROR` and 500, with a fixed
  -- text, so that nothing of the exception is shown.
  pub serve_answers :
      (web : Web) (provided authorization : Option String) (request : Request) (w : World p)
      → (response : Response) × (w' : World p) × (serve p web provided authorization request w
          ≡ (ok response, w'))
        × Served web authorization request response w w'
  serve_answers web provided authorization request w =
      let (id, w', same, served) = serve-Entered p web provided authorization request w in
      elim (outcome_cases (endpoint p web id authorization request w')) [
        | inl (response, t, h) ↦ (
          response,
          t,
          rw served (rw h refl),
          record {
            id = id;
            entered = w';
            untouched = same;
            how = inl (h, rw h at (endpoint-Good web id authorization request w'));
          },
        )
        | inr (e, t, h) ↦ (
          answer_error id e,
          t,
          rw served (rw h refl),
          record {
            id = id;
            entered = w';
            untouched = same;
            how = inr (e, h, answer_error-Reports id e);
          },
        )
      ]
