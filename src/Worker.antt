-- ===== src/Worker.antt =====
-- services/worker_service.py: `WorkerService` and how it answers a delivery. The orchestrator is an
-- argument; a raw message is what decoding makes of it.
pub mod Failure
pub mod Deliver
pub mod Awaited
pub mod Answers
pub mod Settling
pub mod Idle
use e_commerce_agent.Base.{
  ℕ, ◌-◌, String, Bool, true, false, ◌&&◌, ◌||◌, not, Option, none, some, [], ◌∷◌, ◌++◌, eqb, ◌==◌,
  text_eq?, if◌then◌else◌,
}
use e_commerce_agent.Base.Json.{Json, null, num, str, obj, Fields, field, end, merge, optional_text}
use e_commerce_agent.Domain.{
  TaskStatus, queued, running, retrying, failed, TaskRecord, QueueMessage, RunStatus, RunOutcome,
  same_status,
}
use e_commerce_agent.Errors.{ok}
use e_commerce_agent.Exec.{Exec, pure, ◌>>=◌, ◌>>◌}
use e_commerce_agent.Platform.{Platform}
use e_commerce_agent.Store
use e_commerce_agent.World.{World, Settlement, acked, save_task, append_event}
use e_commerce_agent.Tasks.{is_publish_failed}

-- `AgentOrchestrator.run`
abbrev pub Orchestrator : Platform → Type 0
Orchestrator p = TaskRecord → Option String → Option String → Exec (World p) RunOutcome

-- `_matches_pending_message`
abbrev pub matches_pending : Option ℕ → TaskRecord → QueueMessage → Bool
matches_pending none task payload = true
matches_pending (some attempt) task payload =
    eqb payload.attempt attempt
    && text_eq? payload.resume_kind task.pending_resume_kind
    && text_eq? payload.resume_id task.pending_resume_id

unfoldable pub matches_pending_message : TaskRecord → QueueMessage → Bool
matches_pending_message task payload = matches_pending task.pending_attempt task payload

abbrev pub is_finished : TaskStatus → Bool
is_finished s = same_status s TaskStatus.completed || same_status s TaskStatus.rejected

abbrev pub is_live : TaskStatus → Bool
is_live s = same_status s queued || same_status s running || same_status s retrying

-- A task whose message was reported lost, and arrived all the same.
abbrev pub is_recovery : TaskRecord → Bool
is_recovery task = same_status task.status failed && is_publish_failed task.error_code

abbrev status_after : RunStatus → TaskStatus
status_after RunStatus.awaiting_input = TaskStatus.awaiting_input
status_after RunStatus.awaiting_approval = TaskStatus.awaiting_approval
status_after RunStatus.rejected = TaskStatus.rejected
status_after RunStatus.completed = TaskStatus.completed

abbrev terminal_event : RunStatus → String
terminal_event RunStatus.awaiting_input = "task.awaiting_input"
terminal_event RunStatus.awaiting_approval = "task.awaiting_approval"
terminal_event RunStatus.rejected = "task.rejected"
terminal_event RunStatus.completed = "task.completed"

abbrev pub after_run : TaskRecord → RunOutcome → TaskRecord
after_run task outcome = record task {
  status = status_after outcome.status;
  pending_attempt = none;
  pending_resume_kind = none;
  pending_resume_id = none;
  result = outcome.result;
  interaction = outcome.interaction;
  error_code = none;
  error_message = none;
}

abbrev pub optional_object : Option Fields → Json
optional_object none = null
optional_object (some fs) = obj fs

module _ (p : Platform) where
  -- `message.ack()`, `message.reject(…)`
  unfoldable pub settle : Settlement → Exec (World p) Unit
  settle s w = (ok tt, record w { settled = w.settled ++ s ∷ [] })

  -- `_mark_running`; a time is in milliseconds here.
  unfoldable pub mark_running : TaskRecord → QueueMessage → Exec (World p) TaskRecord
  unfolding save_task append_event
  mark_running task payload w =
      (do
        saved ← save_task p (record task { status = running; attempt = payload.attempt })
        append_event p saved.task_id "task.started" (
            field "task_id" (str saved.task_id) (
              field "attempt" (num payload.attempt)
                (field "queue_wait_ms" (num (w.now - task.updated_at)) end)))
        pure saved)
        w

  -- `if outcome.status is AWAITING_APPROVAL and outcome.interaction: …`
  announce_approval : String → RunStatus → Option Fields → Exec (World p) Unit
  unfolding append_event
  announce_approval task_id RunStatus.awaiting_approval (some (field k v fs)) =
      append_event p task_id "approval.required"
        (merge (field "node_name" (str "plan") end) (field k v fs))
  announce_approval task_id status interaction = pure tt

  -- What follows a run that returned.
  unfoldable pub finish : QueueMessage → TaskRecord → RunOutcome → Exec (World p) Unit
  unfolding save_task append_event announce_approval settle
  finish payload task outcome = do
    saved ← save_task p (after_run task outcome)
    announce_approval saved.task_id outcome.status outcome.interaction
    append_event p saved.task_id (terminal_event outcome.status) (
        field "result" (optional_text outcome.result) (
          field "interaction" (optional_object outcome.interaction)
            (field "attempt" (num payload.attempt) end)))
    settle acked
