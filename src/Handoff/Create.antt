-- ===== src/Handoff/Create.antt =====
-- `create_task` of task_service.py hands its message over.
use e_commerce_agent.Base.{◌≡◌, ◌⊎◌, some, none, String, Option, Bool, true, false, List}
use e_commerce_agent.Domain.{TaskRecord, queued}
use e_commerce_agent.Errors.{Result, ok, err, dependency_error}
use e_commerce_agent.Platform.{Platform, Publication}
use e_commerce_agent.World.{World, bind_trace}
use e_commerce_agent.Tasks.{publish_failed}
use e_commerce_agent.Store
use e_commerce_agent.Store.{Redis}
use e_commerce_agent.Store.Creation.{Stands}
use e_commerce_agent.Tasks.Create.{first_message}
use e_commerce_agent.Handoff.{Sent, Lost, queued_as}

-- The task is the one of the request's key; without a key, the id drawn for a task is in use.
abbrev pub Found : (p : Platform) → Option String → TaskRecord → Redis p → Type 0
Found p key task r =
    ((k : String) × (key ≡ some k) × Stands p (p.sha256 k) task r)
    ⊎ (((key ≡ none) ⊎ (key ≡ some ""))
        × (other : TaskRecord) × (p.get task.task_id r.tasks ≡ some other))

-- What a request to create a task comes to.
abbrev pub Created :
    (p : Platform)
    → Option String
    → List Publication
    → Result (TaskRecord × Bool) × World p
    → Type 0
Created p key earlier (ok (task, true), w) = Sent p (first_message task) earlier w
Created p key earlier (ok (task, false), w) = (w.published ≡ earlier) × Found p key task w.redis
Created p key earlier (err (dependency_error c m), w) =
    (task : TaskRecord) × Lost p (queued_as (first_message task)) earlier w × (c ≡ publish_failed)
Created p key earlier (err e, w) = w.published ≡ earlier

-- The fields of a record that was just made.
pub record IsNew (task : TaskRecord) : Type 0 where
  pub is_queued : task.status ≡ queued
  pub no_interaction : task.interaction ≡ none
  pub at_first : task.pending_attempt ≡ some 0
  pub no_kind : task.pending_resume_kind ≡ none
  pub no_id : task.pending_resume_id ≡ none

module _ (p : Platform) (task : TaskRecord) (new : IsNew task) (key : Option String) where
  module _ (w : World p) (unnamed : p.get "" w.redis.tasks ≡ none) where
    abbrev bound : World p
    bound = (bind_trace p task.trace_id task.task_id task.session_id w).1
