-- ===== src/Worker/Failure.antt =====
-- `_handle_failure`, `_safe_error`, `_is_retryable` and `_resume_interaction` of worker_service.py.
use e_commerce_agent.Base.{
  ℕ, ◌+◌, String, Bool, true, false, ◌&&◌, ◌||◌, not, Option, none, some, ltb, ◌==◌, text_eq?,
  if◌then◌else◌,
}
use e_commerce_agent.Base.Json.{Fields, num, str, field, end}
use e_commerce_agent.Domain.{retrying, failed, TaskRecord, QueueMessage}
use e_commerce_agent.Errors.{
  Error, agent_loop_detected, dependency_error, value_error, timeout_error, unexpected, code,
  message,
}
use e_commerce_agent.Exec.{Exec, try_else, ◌>>=◌, ◌>>◌}
use e_commerce_agent.Platform.{Platform}
use e_commerce_agent.Store
use e_commerce_agent.World.{World, acked, rejected, find_task, save_task, append_event}
use e_commerce_agent.Queue.{publish_retry}
use e_commerce_agent.Tasks.{publish_failed}
use e_commerce_agent.Tasks.Resume.{resume_interaction}
use e_commerce_agent.Worker.{settle}

-- `_safe_error`: the code and the message that the task keeps.
unfoldable pub safe_error : Error → String × String
unfolding code message
safe_error timeout_error = ("TASK_TIMEOUT", "任务执行超过总超时时间")
safe_error (value_error m) = ("TASK_EXECUTION_FAILED", "任务执行失败，请根据 trace_id 查看日志")
safe_error (unexpected m) = ("TASK_EXECUTION_FAILED", "任务执行失败，请根据 trace_id 查看日志")
safe_error e = (code e, message e)

unfoldable pub is_retryable : Error → Bool
is_retryable (agent_loop_detected m) = false
is_retryable (value_error m) = false
is_retryable (dependency_error c m) = not (
    c == "MODEL_REQUEST_REJECTED"
    || c == "MODEL_EMPTY_RESPONSE"
    || c == "MODEL_INVALID_TOOL_ARGUMENTS")
is_retryable timeout_error = true
is_retryable (unexpected m) = true
is_retryable e = false

-- `graph_started and payload.resume_kind not in {"input", "approval"}`
abbrev pub retries_graph : Bool → QueueMessage → Bool
retries_graph graph_started payload =
    graph_started
    && not (
        text_eq? payload.resume_kind (some "input")
        || text_eq? payload.resume_kind (some "approval"))

abbrev pub retry_message : Bool → QueueMessage → QueueMessage
retry_message graph_started payload = record payload {
  attempt = payload.attempt + 1;
  resume_kind = if retries_graph graph_started payload then some "retry" else payload.resume_kind;
  resume_id =
      if retries_graph graph_started payload then some payload.task_id else payload.resume_id;
}

-- The record after a failure, but for its status.
abbrev pub after_failure : Error → QueueMessage → QueueMessage → TaskRecord → TaskRecord
after_failure e payload retry task = record task {
  attempt = payload.attempt;
  pending_attempt = some retry.attempt;
  pending_resume_kind = retry.resume_kind;
  pending_resume_id = retry.resume_id;
  error_code = some (safe_error e).0;
  error_message = some (safe_error e).1;
}

-- `_resume_interaction`
abbrev pub interaction_of : QueueMessage → Option Fields
interaction_of payload =
    resume_interaction (record { kind = payload.resume_kind; id = payload.resume_id }) none

abbrev pub retry_lost : String
retry_lost = "重试任务入队失败，可通过 resume 接口继续"

abbrev failed_event : TaskRecord → ℕ → String → String → Fields
failed_event task attempt error_code text = field "task_id" (str task.task_id) (
    field "attempt" (num attempt)
      (field "error_code" (str error_code) (field "message" (str text) end)))

module _ (p : Platform) where
  -- The retry message was not confirmed.
  unfoldable pub lose_retry : QueueMessage → QueueMessage → TaskRecord → Exec (World p) Unit
  unfolding save_task append_event settle
  lose_retry payload retry task = do
    saved ← save_task p (record task {
      status = failed;
      error_code = some publish_failed;
      error_message = some retry_lost;
      interaction = interaction_of retry;
    })
    append_event p saved.task_id "task.failed"
        (failed_event saved payload.attempt publish_failed retry_lost)
    settle p (rejected false)

  unfoldable pub retry_task : Error → QueueMessage → QueueMessage → TaskRecord → Exec (World p) Unit
  unfolding save_task publish_retry append_event settle lose_retry
  retry_task e payload retry task = do
    saved ← save_task p (record task { status = retrying })
    try_else (publish_retry p retry) (λ lost. lose_retry payload retry saved)
        (λ confirmed. do
          append_event p saved.task_id "task.retrying" (
              field "task_id" (str saved.task_id) (
                field "attempt" (num payload.attempt) (
                  field "next_attempt" (num retry.attempt) (
                    field "error_code" (str (safe_error e).0)
                      (field "message" (str (safe_error e).1) end)))))
          settle p acked)

  unfoldable pub fail_task : Error → QueueMessage → TaskRecord → Exec (World p) Unit
  unfolding save_task append_event settle
  fail_task e payload task = do
    saved ← save_task p (record task { status = failed })
    append_event p saved.task_id "task.failed"
        (failed_event saved payload.attempt (safe_error e).0 (safe_error e).1)
    settle p (rejected false)

  abbrev pub fail_found : ℕ → QueueMessage → Error → Bool → Option TaskRecord → Exec (World p) Unit
  fail_found max_attempts payload e graph_started none = settle p (rejected false)
  fail_found max_attempts payload e graph_started (some found) =
      let retry = retry_message graph_started payload in
      let task = after_failure e payload retry found in
      if is_retryable e && ltb retry.attempt max_attempts
      then retry_task e payload retry task
      else fail_task e payload task

  unfoldable pub handle_failure : ℕ → QueueMessage → Error → Bool → Exec (World p) Unit
  unfolding find_task Store.get_task
  handle_failure max_attempts payload e graph_started = do
    found ← find_task p payload.task_id
    fail_found max_attempts payload e graph_started found
