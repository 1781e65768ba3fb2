-- ===== src/Api/Routes.antt =====
-- The endpoints of api/router.py, each with the checks that FastAPI makes from its signature: first
-- the merchant, then the constraints on what it carries.
use e_commerce_agent.Base.{ℕ, String, ◌<>◌, Bool, ◌&&◌, Option, none, some, ◌==◌, if◌then◌else◌}
use e_commerce_agent.Domain.{TaskRecord}
use e_commerce_agent.Errors.{Error, app_error, unexpected}
use e_commerce_agent.Exec.{Exec, pure, ensure, ◌>>=◌, ◌>>◌}
use e_commerce_agent.Platform.{Platform}
use e_commerce_agent.World.{World}
use e_commerce_agent.Tasks
use e_commerce_agent.Tasks.Approval.{ApprovalRequest}
use package.e_commerce_agent.Api.{Web}
use package.e_commerce_agent.Api.Auth.{authenticated_merchant}
use package.e_commerce_agent.Api.Schemas.{
  CreateTaskRequest, valid_create, valid_key, valid_input, valid_approval, Payload, Response,
  success, health, created, task_status, trace, input_taken, approval_taken, resumed, events,
  from_record,
}
use package.e_commerce_agent.Api.Trace

pub data Request : Type 0 where
  get_health : Request
  post_task : CreateTaskRequest → Option String → Request
  get_task : String → Request
  get_trace : String → Request
  post_input : String → String → Request
  post_approval : String → ApprovalRequest → Request
  post_resume : String → Request
  get_events : String → Option String → Option String → Request

-- Pydantic's `RequestValidationError`
abbrev pub invalid : Error
invalid = unexpected "RequestValidationError"

abbrev pub events_path : String → String
events_path task_id = "/api/v1/tasks/" <> (task_id <> "/events")

-- `f"{merchant_id}:{idempotency_key}" if idempotency_key else None`
abbrev pub merchant_key : String → Option String → Option String
merchant_key merchant_id none = none
merchant_key merchant_id (some key) = if key == "" then none else some (merchant_id <> (":" <> key))

-- `last_event_id or after or "0-0"`
abbrev pub or_else : Option String → String → String
or_else none other = other
or_else (some s) other = if s == "" then other else s

abbrev pub event_id_pattern : String
event_id_pattern = "^\\d+-\\d+$"

-- `data=…` of each endpoint.
abbrev pub created_data : TaskRecord × Bool → Payload
created_data (task, is_new) = created (record {
  task_id = task.task_id;
  session_id = task.session_id;
  trace_id = task.trace_id;
  merchant_id = task.merchant_id;
  product_id = task.product_id;
  status = task.status;
  created = is_new;
  events_path = events_path task.task_id;
})

abbrev pub status_data : TaskRecord → Payload
status_data task = task_status (from_record task)

abbrev pub input_data : TaskRecord → Payload
input_data task = input_taken (record {
  task_id = task.task_id;
  status = task.status;
  trace_id = task.trace_id;
  events_path = events_path task.task_id;
})

abbrev pub approval_data : TaskRecord × String → Payload
approval_data (task, approval_id) = approval_taken (record {
  task_id = task.task_id;
  approval_id = approval_id;
  status = task.status;
  trace_id = task.trace_id;
  events_path = events_path task.task_id;
})

abbrev pub resume_data : TaskRecord → Payload
resume_data task = resumed (record {
  task_id = task.task_id;
  session_id = task.session_id;
  trace_id = task.trace_id;
  status = task.status;
  events_path = events_path task.task_id;
})

module _ (p : Platform) (web : Web) where
  -- `ApiResponse(data=…)` of what a service returns.
  abbrev pub answer : {A : Type 0} → ℕ → Exec (World p) A → (A → Payload) → Exec (World p) Response
  answer status_code service data_of = do
    found ← service
    pure (success status_code (data_of found))

  -- The endpoint for a merchant, `trace_id` being that of the request.
  unfoldable pub dispatch : String → String → Request → Exec (World p) Response
  dispatch trace_id m get_health = pure (success 200 (health "ok"))
  dispatch trace_id m (post_task q key) = do
    ensure (valid_create web q && valid_key key) invalid
    answer 202
        (Tasks.Create.create_task p q.prompt q.session_id (merchant_key m key) trace_id m
          q.product_id)
        created_data
  dispatch trace_id m (get_task task_id) =
      answer 200 (Tasks.get_task_for_merchant p task_id m) status_data
  dispatch trace_id m (get_trace task_id) = answer 200 (Trace.get_task_trace p web task_id m) trace
  dispatch trace_id m (post_input task_id product_id) = do
    ensure (valid_input product_id) invalid
    answer 202 (Tasks.Input.submit_input p task_id m product_id) input_data
  dispatch trace_id m (post_approval task_id q) = do
    ensure (valid_approval q) invalid
    answer 202 (Tasks.Approval.submit_approval p task_id m q) approval_data
  dispatch trace_id m (post_resume task_id) =
      answer 202 (Tasks.Resume.resume_task p task_id m) resume_data
  dispatch trace_id m (get_events task_id after last_event_id) = do
    task ← Tasks.get_task_for_merchant p task_id m
    ensure (web.matches event_id_pattern (or_else last_event_id (or_else after "0-0")))
        (app_error "INVALID_EVENT_ID" "Last-Event-ID 格式无效" 422)
    pure (success 200 (events (or_else last_event_id (or_else after "0-0"))))

  -- Every endpoint but `healthz` depends on `authenticated_merchant`.
  unfoldable pub endpoint : String → Option String → Request → Exec (World p) Response
  endpoint trace_id authorization get_health = dispatch trace_id "" get_health
  endpoint trace_id authorization request = do
    merchant_id ← authenticated_merchant p.lower web authorization
    dispatch trace_id merchant_id request
