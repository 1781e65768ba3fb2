-- ===== src/Handoff/Answer.antt =====
-- What an answer of a merchant does to the task before its message is published.
use e_commerce_agent.Base.{
  ◌≡◌, ◌⊎◌, refl, ◌∙◌, Bool, true, some, String, ℕ, arith, eq_refl, List, [], ◌∷◌, ◌++◌,
}
use e_commerce_agent.Domain.{TaskStatus, TaskRecord, QueueMessage, queued, failed}
use e_commerce_agent.Errors.{ok}
use e_commerce_agent.Platform.{Platform, Publication}
use e_commerce_agent.Base.Json.{Fields}
use e_commerce_agent.Base.{ap, Option}
use e_commerce_agent.Handoff.{Sent, Lost, queued_as}
use e_commerce_agent.Worker.Awaited.{matches_pending_self, of_kind}
use e_commerce_agent.Store
use e_commerce_agent.World.{World, transition_task}
use e_commerce_agent.Tasks.{publish_failed}

-- A compare-and-set of the task record, run in the world.
pub record Transitioned (p : Platform) (task : TaskRecord) (expected : TaskStatus) (w : World p)
    : Type 0 where
  pub saved : TaskRecord
  pub done : Bool
  pub after : World p
  pub result : transition_task p task expected w ≡ (ok (saved, done), after)
  pub is_saved : saved ≡ record task { updated_at = w.now }
  pub published : after.published ≡ w.published
  pub commerce : after.commerce ≡ w.commerce
  pub stored : done ≡ true → p.get task.task_id after.redis.tasks ≡ some saved

pub transition_task-Transitioned :
    (p : Platform) (task : TaskRecord) (expected : TaskStatus) (w : World p)
    → Transitioned p task expected w
unfolding transition_task Store.transition_task
transition_task-Transitioned p task expected w = record {
  saved = record task { updated_at = w.now };
  done = (Store.transition_task p w.now task expected w.redis).1.0;
  after = (transition_task p task expected w).1;
  result = refl;
  is_saved = refl;
  published = refl;
  commerce = refl;
  stored = λ done. ground (
    arith,
    p.get-put task.task_id task.task_id (record task { updated_at = w.now }) w.redis.tasks,
    eq_refl task.task_id,
  );
}

-- The task is stored, and waits for this message, which resumes it.
pub record IsPosted (p : Platform) (task : TaskRecord) (kind id : String) (w : World p)
    : Type 0 where
  pub stored : p.get task.task_id w.redis.tasks ≡ some task
  pub is_queued : task.status ≡ queued
  pub at_first : task.pending_attempt ≡ some 0
  pub waits_kind : task.pending_resume_kind ≡ some kind
  pub waits_id : task.pending_resume_id ≡ some id

-- The message that resumes a task by an answer.
abbrev pub answer_message : TaskRecord → String → String → QueueMessage
answer_message task kind id = record {
  task_id = task.task_id;
  session_id = task.session_id;
  trace_id = task.trace_id;
  attempt = 0;
  resume_kind = some kind;
  resume_id = some id;
}

-- The record of a task whose message was not confirmed.
abbrev pub given_up : TaskRecord → String → Option Fields → ℕ → TaskRecord
given_up task text interaction now = record task {
  status = failed;
  interaction = interaction;
  error_code = some publish_failed;
  error_message = some text;
  updated_at = now;
}

pub IsPosted-Lost :
    (p : Platform) (task : TaskRecord) (kind id text : String) (interaction : Option Fields)
    (now : ℕ) (w w' : World p)
    → IsPosted p task kind id w
    → p.get task.task_id w'.redis.tasks ≡ some (given_up task text interaction now)
    → (earlier : List Publication)
    → (w'.published ≡ earlier)
      ⊎ (w'.published ≡ earlier ++ queued_as (answer_message task kind id) ∷ [])
    → Lost p (queued_as (answer_message task kind id)) earlier w'
IsPosted-Lost p task kind id text interaction now w w' posted found earlier arrived = record {
  arrived = arrived;
  awaited = record {
    task = given_up task text interaction now;
    stored = found;
    runs = refl;
    expected =
        matches_pending_self (given_up task text interaction now) (answer_message task kind id)
          posted.at_first posted.waits_kind posted.waits_id;
  };
  resumable = record {
    task = given_up task text interaction now;
    stored = found;
    has_failed = refl;
    lost = refl;
    same_task = refl;
    same_session = refl;
    same_trace = refl;
    same_attempt = posted.at_first;
    same_kind = posted.waits_kind;
    same_id = posted.waits_id;
    resumes = of_kind kind refl;
  };
}

pub IsPosted-Sent :
    (p : Platform) (task : TaskRecord) (kind id : String) (earlier : List Publication)
    (w w' : World p)
    → IsPosted p task kind id w
    → w'.redis.tasks ≡ w.redis.tasks
    → w'.published ≡ earlier ++ queued_as (answer_message task kind id) ∷ []
    → Sent p (answer_message task kind id) earlier w'
IsPosted-Sent p task kind id earlier w w' posted same published = record {
  published = published;
  awaited = record {
    task = task;
    stored = ap (λ t. p.get task.task_id t) same ∙ posted.stored;
    runs = rw posted.is_queued refl;
    expected =
        matches_pending_self task (answer_message task kind id) posted.at_first posted.waits_kind
          posted.waits_id;
  };
}
