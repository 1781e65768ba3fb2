-- ===== src/Tasks/Create.antt =====
-- `create_task` of services/task_service.py.
use e_commerce_agent.Base.{String, Bool, true, false, Option, none, some, ◌==◌, if◌then◌else◌}
use e_commerce_agent.Base.Json.{field, end, str, num}
use e_commerce_agent.Domain.{queued, failed, TaskRecord, QueueMessage}
use e_commerce_agent.Errors.{ok, err, unexpected, dependency_error, Result}
use e_commerce_agent.Exec.{Exec, pure, raise, catch, ◌>>=◌, ◌>>◌}
use e_commerce_agent.Platform.{Platform}
use e_commerce_agent.Store
use e_commerce_agent.Store.{Redis}
use e_commerce_agent.World.{World, new_token, bind_trace, save_task, append_event}
use e_commerce_agent.Queue.{publish}
use e_commerce_agent.Tasks.{publish_failed}

abbrev pub queue_failure : String
queue_failure = "任务入队失败，可通过 resume 接口重试"

abbrev pub first_message : TaskRecord → QueueMessage
first_message task = record {
  task_id = task.task_id;
  session_id = task.session_id;
  trace_id = task.trace_id;
  attempt = 0;
  resume_kind = none;
  resume_id = none;
}

module _ (p : Platform) where
  -- `value or secrets.token_urlsafe(…)`
  unfoldable pub token_unless : Option String → Exec (World p) String
  unfolding new_token
  token_unless none = new_token p
  token_unless (some s) = if s == "" then new_token p else pure s

  abbrev stored :
      World p → Option ((TaskRecord × Bool) × Redis p) → Result (TaskRecord × Bool) × World p
  stored w none = (err (unexpected "RecursionError"), w)
  stored w (some (answer, redis)) = (ok answer, record w { redis = redis })

  unfoldable pub store_task : TaskRecord → Option String → Exec (World p) (TaskRecord × Bool)
  unfolding Store.create_task
  store_task task key w = stored w (Store.create_task p w.call_depth task key w.redis)

  abbrev pub new_task :
      String → String → String → String → String → Option String → World p → TaskRecord
  new_task task_id session_id trace_id prompt merchant_id product_id w = record {
    task_id = task_id;
    session_id = session_id;
    trace_id = trace_id;
    prompt = prompt;
    merchant_id = merchant_id;
    product_id = product_id;
    status = queued;
    attempt = 0;
    pending_attempt = some 0;
    pending_resume_kind = none;
    pending_resume_id = none;
    result = none;
    interaction = none;
    error_code = none;
    error_message = none;
    created_at = w.now;
    updated_at = w.now;
  }

  -- The handler of a failed publication.
  unfoldable pub fail_creation : TaskRecord → Exec (World p) Unit
  unfolding save_task append_event
  fail_creation task = do
    saved ← save_task p (record task {
      status = failed;
      error_code = some publish_failed;
      error_message = some queue_failure;
    })
    append_event p task.task_id "task.failed" (
        field "task_id" (str task.task_id)
          (field "error_code" (str publish_failed) (field "message" (str queue_failure) end)))
    raise (dependency_error publish_failed queue_failure)

  -- What follows for a task that is new.
  unfoldable pub enqueue_new : TaskRecord → Exec (World p) (TaskRecord × Bool)
  unfolding append_event publish fail_creation
  enqueue_new task = do
    append_event p task.task_id "task.queued" (
        field "task_id" (str task.task_id)
          (field "session_id" (str task.session_id) (field "attempt" (num 0) end)))
    catch (publish p (first_message task)) (λ e. fail_creation task)
    pure (task, true)

  abbrev answer_creation : TaskRecord → TaskRecord × Bool → Exec (World p) (TaskRecord × Bool)
  answer_creation task (found, true) = enqueue_new task
  answer_creation task (found, false) = pure (found, false)

  -- From the point where the record is made.
  unfoldable pub start_task : TaskRecord → Option String → Exec (World p) (TaskRecord × Bool)
  unfolding bind_trace store_task enqueue_new
  start_task task idempotency_key = do
    bind_trace p task.trace_id task.task_id task.session_id
    answer ← store_task task idempotency_key
    answer_creation task answer

  unfoldable pub create_task :
      String
      → Option String
      → Option String
      → String
      → String
      → Option String
      → Exec (World p) (TaskRecord × Bool)
  unfolding token_unless new_token start_task
  create_task prompt session_id idempotency_key trace_id merchant_id product_id = do
    task_token ← new_token p
    session ← token_unless session_id
    trace ← token_unless (some trace_id)
    λ w.
        start_task (new_task task_token session trace prompt merchant_id product_id w)
          idempotency_key w
