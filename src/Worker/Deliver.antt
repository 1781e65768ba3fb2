-- ===== src/Worker/Deliver.antt =====
-- `handle_message` of worker_service.py.
use e_commerce_agent.Base.{
  ℕ, Bool, true, false, not, ◌||◌, Option, none, some, String, if◌then◌else◌,
}
use e_commerce_agent.Domain.{TaskRecord, QueueMessage}
use e_commerce_agent.Errors.{ok}
use e_commerce_agent.Exec.{Exec, catch, try_else, finally_do, ◌>>=◌, ◌>>◌}
use e_commerce_agent.Platform.{Platform}
use e_commerce_agent.Store
use e_commerce_agent.World.{World, acked, rejected, new_token, bind_trace, find_task}
use e_commerce_agent.Queue.{publish_retry}
use e_commerce_agent.Worker.{
  Orchestrator, matches_pending_message, is_finished, is_live, is_recovery, settle, mark_running,
  finish,
}
use e_commerce_agent.Worker.Failure.{handle_failure}

module _ (p : Platform) (max_attempts : ℕ) (run : Orchestrator p) where
  unfoldable pub acquire : String → String → Exec (World p) Bool
  unfolding Store.acquire_task_lease
  acquire task_id owner w =
      let (acquired, redis) = Store.acquire_task_lease p task_id owner w.redis in
      (ok acquired, record w { redis = redis })

  unfoldable pub release : String → String → World p → World p
  unfolding Store.release_task_lease
  release task_id owner w = record w { redis = Store.release_task_lease p task_id owner w.redis }

  -- Another delivery holds the lease: the message comes again later.
  unfoldable pub delay_duplicate : QueueMessage → Exec (World p) Unit
  unfolding publish_retry settle
  delay_duplicate payload =
      try_else (publish_retry p payload) (λ lost. settle p (rejected true))
        (λ confirmed. settle p acked)

  unfoldable pub run_task : QueueMessage → TaskRecord → Exec (World p) Unit
  unfolding mark_running finish
  run_task payload task = do
    running_task ← mark_running p task payload
    outcome ← run running_task payload.resume_kind payload.resume_id
    finish p payload running_task outcome

  abbrev execute_found : QueueMessage → Option TaskRecord → Exec (World p) Unit
  execute_found payload none = settle p (rejected false)
  execute_found payload (some task) =
      if is_finished task.status
      then settle p acked
      else if not (is_live task.status || is_recovery task)
      then settle p acked
      else if not (matches_pending_message task payload)
      then settle p acked
      else run_task payload task

  unfoldable pub execute : QueueMessage → Exec (World p) Unit
  unfolding find_task run_task settle matches_pending_message
  execute payload = do found ← find_task p payload.task_id; execute_found payload found

  -- The body of the handler under the lease of `owner`. Of the calls in it only the orchestrator's
  -- raises here, so the graph has started when the handler of failures runs.
  unfoldable pub execute_leased : QueueMessage → String → Exec (World p) Unit
  unfolding execute handle_failure release
  execute_leased payload owner =
      finally_do (catch (execute payload) (λ e. handle_failure p max_attempts payload e true))
        (release payload.task_id owner)

  unfoldable pub handle_message : Option QueueMessage → Exec (World p) Unit
  unfolding bind_trace new_token acquire delay_duplicate execute_leased settle
  handle_message none = settle p (rejected false)
  handle_message (some payload) = do
    bind_trace p payload.trace_id payload.task_id payload.session_id
    owner ← new_token p
    acquired ← acquire payload.task_id owner
    if acquired then execute_leased payload owner else delay_duplicate payload
