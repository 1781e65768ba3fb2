-- ===== src/Tasks.antt =====
-- services/task_service.py: what the methods of `TaskService` share, and its reading methods.
pub mod Create
pub mod Input
pub mod Approval
pub mod Resume
pub mod Owner
use e_commerce_agent.Base.{
  ℕ, String, Bool, Option, none, some, List, not, ◌==◌, text_eq?, if◌then◌else◌,
}
use e_commerce_agent.Base.Json.{Fields, field, end, str, num}
use e_commerce_agent.Domain.{TaskStatus, failed, TaskRecord, QueueMessage, StreamEvent}
use e_commerce_agent.Errors.{
  Result, ok, err, Error, task_not_found, merchant_forbidden, dependency_error,
}
use e_commerce_agent.Exec.{Exec, pure, raise, require, ensure, catch, ◌>>=◌, ◌>>◌}
use e_commerce_agent.Platform.{Platform}
use e_commerce_agent.Store
use e_commerce_agent.World.{World, find_task, save_task, append_event}
use e_commerce_agent.Queue.{publish}

abbrev pub publish_failed : String
publish_failed = "QUEUE_PUBLISH_FAILED"

abbrev pub is_publish_failed : Option String → Bool
is_publish_failed code = text_eq? code (some publish_failed)

module _ (p : Platform) where
  unfoldable pub get_task : String → Exec (World p) TaskRecord
  unfolding find_task Store.get_task
  get_task task_id = do found ← find_task p task_id; require (task_not_found task_id) found

  unfoldable pub get_task_for_merchant : String → String → Exec (World p) TaskRecord
  unfolding get_task
  get_task_for_merchant task_id merchant_id = do
    task ← get_task task_id
    ensure (task.merchant_id == merchant_id) merchant_forbidden
    pure task

  unfoldable pub get_trace : String → String → Exec (World p) (TaskRecord × List StreamEvent)
  unfolding get_task_for_merchant
  get_trace task_id merchant_id = do
    task ← get_task_for_merchant task_id merchant_id
    λ w. (ok (task, Store.list_events p task_id w.redis), w)

  -- What every method does when its message is not confirmed: the task is saved as failed, in a way
  -- that `resume_task` can take up, and the request is answered with a dependency error.
  unfoldable pub give_up : TaskRecord → String → Option Fields → Exec (World p) Unit
  unfolding save_task Store.save_task
  give_up task text interaction = do
    saved ← save_task p (record task {
      status = failed;
      interaction = interaction;
      error_code = some publish_failed;
      error_message = some text;
    })
    raise (dependency_error publish_failed text)
