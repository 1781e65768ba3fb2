-- ===== src/Store/Transitions.antt =====
-- `transition_task` of redis_store.py is a compare-and-set on the status.
use e_commerce_agent.Base.{ℕ, ◌≡◌, true, false, arith, eq_refl}
use e_commerce_agent.Domain.{TaskStatus, TaskRecord, same_status}
use e_commerce_agent.Platform.{Platform}
use e_commerce_agent.Store.{Redis, transition_task}

module _ (p : Platform) where
  -- Of two requests that expect one status, one wins: after a transition that succeeded and left that
  -- status, another of the same task that expects it is refused and changes nothing.
  pub transition_task_once :
      (now now' : ℕ) (task task' : TaskRecord) (expected : TaskStatus) (r r' : Redis p)
      (saved : TaskRecord)
      → transition_task p now task expected r ≡ (saved, (true, r'))
      → same_status task.status expected ≡ false
      → task'.task_id ≡ task.task_id
      → (transition_task p now' task' expected r').1 ≡ (false, r')
  unfolding transition_task
  transition_task_once now now' task task' expected r r' saved h moved same = ground (
    arith,
    p.get-put task.task_id task.task_id (record task { updated_at = now }) r.tasks,
    p.get-put task.task_id task'.task_id (record task { updated_at = now }) r.tasks,
    eq_refl task.task_id,
  )
