-- ===== src/Worker/Awaited.antt =====
-- The contract between those who publish a message (task_service.py, and the retries of
-- worker_service.py) and the worker that takes it.
use e_commerce_agent.Base.{
  ◌≡◌, refl, String, Option, none, true, false, ◌||◌, some, arith, eq_refl, text_eq?,
}
use e_commerce_agent.Base.Json.{Fields, has_type}
use e_commerce_agent.Domain.{failed, TaskRecord, QueueMessage}
use e_commerce_agent.Platform.{Platform}
use e_commerce_agent.World.{World}
use e_commerce_agent.Tasks.{publish_failed}
use e_commerce_agent.Worker.{matches_pending_message, is_live, is_recovery}

-- A delivery of this message would be run, and not put aside as finished, waiting or stale.
pub record IsAwaited (p : Platform) (m : QueueMessage) (w : World p) : Type 0 where
  pub task : TaskRecord
  pub stored : p.get m.task_id w.redis.tasks ≡ some task
  pub runs : (is_live task.status || is_recovery task) ≡ true
  pub expected : matches_pending_message task m ≡ true

-- An interaction that no lost publication has left.
pub record IsUntyped (interaction : Option Fields) : Type 0 where
  pub not_input : has_type "input.resume" interaction ≡ false
  pub not_approval : has_type "approval.resume" interaction ≡ false
  pub not_retry : has_type "retry.resume" interaction ≡ false

-- What the message resumes, as the task has it: something of a kind, or nothing at all.
pub data Resumes (m : QueueMessage) (interaction : Option Fields) : Type 0 where
  of_kind : (kind : String) → m.resume_kind ≡ some kind → Resumes m interaction
  nothing :
      m.resume_kind ≡ none → m.resume_id ≡ none → IsUntyped interaction → Resumes m interaction

-- The task that is stored failed because this message was not published: its pending fields are those
-- of the message, the attempt included.
pub record IsResumable (p : Platform) (m : QueueMessage) (w : World p) : Type 0 where
  pub task : TaskRecord
  pub stored : p.get m.task_id w.redis.tasks ≡ some task
  pub has_failed : task.status ≡ failed
  pub lost : task.error_code ≡ some publish_failed
  pub same_task : task.task_id ≡ m.task_id
  pub same_session : task.session_id ≡ m.session_id
  pub same_trace : task.trace_id ≡ m.trace_id
  pub same_attempt : task.pending_attempt ≡ some m.attempt
  pub same_kind : task.pending_resume_kind ≡ m.resume_kind
  pub same_id : task.pending_resume_id ≡ m.resume_id
  pub resumes : Resumes m task.interaction

text_eq?_refl : (o : Option String) → text_eq? o o ≡ true
text_eq?_refl none = refl
text_eq?_refl (some s) = eq_refl s

-- A task that waits for just this message matches it.
pub matches_pending_self :
    (task : TaskRecord) (m : QueueMessage)
    → task.pending_attempt ≡ some m.attempt
    → task.pending_resume_kind ≡ m.resume_kind
    → task.pending_resume_id ≡ m.resume_id
    → matches_pending_message task m ≡ true
unfolding matches_pending_message
matches_pending_self task m at kind id =
    rw at (rw kind (rw id (ground (arith, text_eq?_refl m.resume_kind, text_eq?_refl m.resume_id))))
