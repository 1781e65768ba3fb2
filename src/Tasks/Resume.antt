-- ===== src/Tasks/Resume.antt =====
-- `resume_task` of services/task_service.py.
use e_commerce_agent.Base.{
  ℕ, String, Bool, false, not, ◌&&◌, ◌||◌, Option, none, some, is_none, ◌==◌, text_eq?,
  if◌then◌else◌,
}
use e_commerce_agent.Base.Json.{Fields, field, end, str, get_field, text_of, has_type}
use e_commerce_agent.Domain.{queued, running, failed, TaskRecord, QueueMessage, same_status}
use e_commerce_agent.Errors.{unexpected, task_not_resumable}
use e_commerce_agent.Exec.{Exec, pure, require, ensure, catch, ◌>>=◌, ◌>>◌}
use e_commerce_agent.Platform.{Platform}
use e_commerce_agent.Store
use e_commerce_agent.World.{World, bind_trace, save_task, append_event}
use e_commerce_agent.Queue.{publish}
use e_commerce_agent.Tasks.{get_task_for_merchant, give_up, is_publish_failed}

-- The error codes that cannot be resumed.
abbrev pub is_final_code : Option String → Bool
is_final_code none = false
is_final_code (some c) =
    c == "AGENT_LOOP_DETECTED"
    || c == "MODEL_REQUEST_REJECTED"
    || c == "MODEL_EMPTY_RESPONSE"
    || c == "MODEL_INVALID_TOOL_ARGUMENTS"

-- What a resumed run is to take up.
pub record Target : Type 0 where
  pub kind : Option String
  pub id : Option String

abbrev pub is_kind : String → Target → Bool
is_kind name t = text_eq? t.kind (some name)

-- `… and resume_id`
abbrev has_id : Target → Bool
has_id t = not (text_eq? t.id none || text_eq? t.id (some ""))

abbrev id_of : Target → String
id_of t = elim t.id [ none ↦ "" | some s ↦ s ]

-- The interaction that a lost publication leaves behind.
unfoldable pub resume_interaction : Target → Option Fields → Option Fields
resume_interaction t otherwise =
    if is_kind "input" t && has_id t
    then some (field "type" (str "input.resume") (field "product_id" (str (id_of t)) end))
    else if is_kind "approval" t && has_id t
    then some (field "type" (str "approval.resume") (field "approval_id" (str (id_of t)) end))
    else if is_kind "retry" t && has_id t
    then some (field "type" (str "retry.resume") (field "resume_id" (str (id_of t)) end))
    else otherwise

abbrev pub resumed : TaskRecord → Option ℕ → Target → TaskRecord
resumed task attempt t = record task {
  status = queued;
  result = none;
  interaction = none;
  error_code = none;
  error_message = none;
  pending_attempt = attempt;
  pending_resume_kind = t.kind;
  pending_resume_id = t.id;
}

abbrev pub resume_message : TaskRecord → ℕ → Target → QueueMessage
resume_message task attempt t = record {
  task_id = task.task_id;
  session_id = task.session_id;
  trace_id = task.trace_id;
  attempt = attempt;
  resume_kind = t.kind;
  resume_id = t.id;
}

-- The attempt of a lost publication is kept; any other resumption starts at 0.
abbrev kept_attempt : Option ℕ → ℕ
kept_attempt none = 0
kept_attempt (some n) = n

unfoldable pub resume_attempt : TaskRecord → ℕ
resume_attempt task =
    if is_publish_failed task.error_code then kept_attempt task.pending_attempt else 0

module _ (p : Platform) where
  -- `str(interaction[key])`
  abbrev text_at : String → String → Option Fields → Exec (World p) Target
  text_at kind key interaction = do
    fields ← require (unexpected "TypeError") interaction
    value ← require (unexpected "KeyError") (get_field key fields)
    pure (record { kind = some kind; id = some (text_of p.repr value) })

  unfoldable pub target_of_interaction : Option Fields → Exec (World p) Target
  target_of_interaction interaction =
      if has_type "input.resume" interaction
      then text_at "input" "product_id" interaction
      else if has_type "approval.resume" interaction
      then text_at "approval" "approval_id" interaction
      else if has_type "retry.resume" interaction
      then text_at "retry" "resume_id" interaction
      else pure (record { kind = none; id = none })

  unfoldable pub resume_target : TaskRecord → Exec (World p) Target
  resume_target task =
      if is_none task.pending_resume_kind
      then (if is_publish_failed task.error_code
          then target_of_interaction task.interaction
          else pure (record { kind = some "retry"; id = some task.task_id }))
      else pure (record { kind = task.pending_resume_kind; id = task.pending_resume_id })

  -- `task` is the record as it was loaded.
  unfoldable pub requeue : TaskRecord → Target → Exec (World p) TaskRecord
  unfolding save_task append_event publish give_up resume_attempt
  requeue task t = do
    saved ← save_task p (resumed task (some (resume_attempt task)) t)
    append_event p saved.task_id "task.resumed"
        (field "task_id" (str saved.task_id) (field "session_id" (str saved.session_id) end))
    catch (publish p (resume_message saved (resume_attempt task) t))
        (λ e. give_up p saved "续跑任务入队失败" (resume_interaction t task.interaction))
    pure saved

  -- A task that runs without a lease has lost its worker.
  abbrev may_resume : TaskRecord → World p → Bool
  may_resume task w =
      same_status task.status failed
      || (same_status task.status running && not (Store.has_task_lease p task.task_id w.redis))

  unfoldable pub resume_task : String → String → Exec (World p) TaskRecord
  unfolding get_task_for_merchant bind_trace resume_target requeue Store.has_task_lease
  resume_task task_id merchant_id = do
    task ← get_task_for_merchant p task_id merchant_id
    bind_trace p task.trace_id task.task_id task.session_id
    ensure (not (is_final_code task.error_code)) (task_not_resumable task_id)
    λ w.
        (do
          ensure (may_resume task w) (task_not_resumable task_id)
          t ← resume_target task
          requeue task t)
          w
