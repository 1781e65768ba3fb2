-- ===== src/Worker/Settling.antt =====
-- `handle_message` of worker_service.py answers each delivery once.
use e_commerce_agent.Base.{
  ◌≡◌, suc, if◌then◌else◌, not, ◌||◌, refl, ◌∙◌, ℕ, Bool, true, false, Option, none, some, arith,
  inl, inr, String, Option-cases, Bool-cases,
}
use e_commerce_agent.Domain.{running, TaskRecord, QueueMessage}
use e_commerce_agent.Errors.{Error, Result, ok, err}
use e_commerce_agent.Exec.{outcome_cases, ◌>>=◌}
use e_commerce_agent.Platform.{Platform, retry_route}
use e_commerce_agent.Queue.{retry_index}
use e_commerce_agent.Store
use e_commerce_agent.World.{find_task, new_token, bind_trace, World, acked, rejected}
use e_commerce_agent.Worker.{
  Orchestrator, matches_pending_message, is_finished, is_live, is_recovery, mark_running, finish,
  settle,
}
use e_commerce_agent.Queue.{publish_retry}
use e_commerce_agent.Worker.Failure.{handle_failure}
use e_commerce_agent.Worker.Deliver.{
  run_task, execute, execute_leased, acquire, release, delay_duplicate, handle_message,
}
use e_commerce_agent.Worker.Answers.{
  OnceMore, Answered, is_confirmed, fail_found-settled, finish-settled,
}

module _ (p : Platform) (max_attempts : ℕ) (run : Orchestrator p)
    (keeps : (task : TaskRecord) (kind id : Option String) (w : World p)
      → (run task kind id w).1.settled ≡ w.settled) where
  answered_at :
      (w u : World p)
      → u.settled ≡ w.settled
      → (x : Result {0} Unit × World p) → Answered p u x
      → Answered p w x
  answered_at w u same (ok tt, v) (s, once) = (s, ground (arith, same, once))
  answered_at w u same (err e, v) kept = kept ∙ same

  run_task_from :
      (payload : QueueMessage) (task : TaskRecord) (w v : World p)
      → v.settled ≡ w.settled
      → Answered p w ((run task payload.resume_kind payload.resume_id >>= finish p payload task) v)
  run_task_from payload task w v same =
      let kept = keeps task payload.resume_kind payload.resume_id v in
      elim (outcome_cases (run task payload.resume_kind payload.resume_id v)) [
        | inr (e, u, failed) ↦
            let kept' : u.settled ≡ v.settled = rw failed at kept in rw failed (kept' ∙ same)
        | inl (outcome, u, returned) ↦
            let kept' : u.settled ≡ v.settled = rw returned at kept in
            rw returned (
              answered_at w u (kept' ∙ same) (finish p payload task outcome u)
                (finish-settled p payload task outcome u))
      ]

  run_task-settled :
      (payload : QueueMessage) (task : TaskRecord) (w : World p)
      → Answered p w (run_task p max_attempts run payload task w)
  unfolding run_task mark_running Store.save_task Store.append_event
  run_task-settled payload task w =
      let running_task : TaskRecord = record task {
        status = running;
        attempt = payload.attempt;
        updated_at = w.now;
      } in
      let v : World p = (mark_running p task payload w).1 in
      run_task_from payload running_task w v refl

  execute-settled :
      (payload : QueueMessage) (w : World p) → Answered p w (execute p max_attempts run payload w)
  unfolding execute find_task settle
  execute-settled payload w = elim (Option-cases (Store.get_task p payload.task_id w.redis)) [
    | inl missing ↦ rw missing (rejected false, refl)
    | inr (task, found) ↦ rw found (elim (Bool-cases (is_finished task.status)) [
      | inl finished ↦ rw finished (acked, refl)
      | inr unfinished ↦
          rw unfinished (elim (Bool-cases (not (is_live task.status || is_recovery task))) [
            | inl waiting ↦ rw waiting (acked, refl)
            | inr live ↦ rw live (elim (Bool-cases (not (matches_pending_message task payload))) [
              | inl stale ↦ rw stale (acked, refl)
              | inr awaited ↦ rw awaited (run_task-settled payload task w)
            ])
          ])
    ])
  ]

  handle_failure-settled :
      (payload : QueueMessage) (e : Error) (w : World p)
      → OnceMore p w (handle_failure p max_attempts payload e true w).1
  unfolding handle_failure find_task
  handle_failure-settled payload e w =
      fail_found-settled p max_attempts payload e (Store.get_task p payload.task_id w.redis) w

  release-settled :
      (task_id owner : String) (w : World p)
      → (release p max_attempts run task_id owner w).settled ≡ w.settled
  unfolding release
  release-settled task_id owner w = refl

  execute_leased-settled :
      (payload : QueueMessage) (owner : String) (w : World p)
      → OnceMore p w (execute_leased p max_attempts run payload owner w).1
  unfolding execute_leased
  execute_leased-settled payload owner w =
      let answered = execute-settled payload w in
      elim (outcome_cases (execute p max_attempts run payload w)) [
        | inl (u, v, e) ↦
            let (s, once) : OnceMore p w v = rw e at answered in
            rw e (s, ground (arith, once, release-settled payload.task_id owner v))
        | inr (x, v, e) ↦
            let same : v.settled ≡ w.settled = rw e at answered in
            let (s, once) = handle_failure-settled payload x v in
            rw e (
              s,
              ground (
                arith,
                once,
                same,
                release-settled payload.task_id owner
                    (handle_failure p max_attempts payload x true v).1,
              ),
            )
      ]

  delay_duplicate-settled :
      (payload : QueueMessage) (w : World p)
      → OnceMore p w (delay_duplicate p max_attempts run payload w).1
  unfolding delay_duplicate publish_retry
  delay_duplicate-settled payload w =
      elim (Bool-cases (
        is_confirmed (
          p.delivery w.published
            (record { route = retry_route (retry_index payload.attempt); message = payload })))) [
              | inl sent ↦ (acked, ground arith)
              | inr lost ↦ (rejected true, ground arith)
            ]

  leased_or_not :
      (acquired : Bool) (payload : QueueMessage) (owner : String) (w v : World p)
      → v.settled ≡ w.settled
      → OnceMore p w
          ((if acquired
              then execute_leased p max_attempts run payload owner
              else delay_duplicate p max_attempts run payload)
            v).1
  leased_or_not true payload owner w v same =
      let (s, once) = execute_leased-settled payload owner v in (s, ground (arith, same, once))
  leased_or_not false payload owner w v same =
      let (s, once) = delay_duplicate-settled payload v in (s, ground (arith, same, once))

  -- Every delivery is answered exactly once, acknowledged or rejected: one that cannot be decoded, a
  -- duplicate of a task that another worker runs, a finished, waiting or stale one, and one that is
  -- run, whether the run returns or raises, provided that the run itself answers no delivery.
  pub handle_message-settled :
      (delivery : Option QueueMessage) (w : World p)
      → OnceMore p w (handle_message p max_attempts run delivery w).1
  unfolding handle_message settle bind_trace new_token acquire
  handle_message-settled none w = (rejected false, refl)
  handle_message-settled (some payload) w =
      let owner = w.tokens w.drawn in
      let answer = Store.acquire_task_lease p payload.task_id owner w.redis in
      leased_or_not answer.0 payload owner w
        (record w {
          trace = record {
            trace_id = payload.trace_id;
            task_id = payload.task_id;
            session_id = payload.session_id;
          };
          drawn = suc w.drawn;
          redis = answer.1;
        })
        refl
