-- ===== src/Worker/Idle.antt =====
-- Deliveries that `handle_message` of worker_service.py puts aside, and those that it delays.
use e_commerce_agent.Base.{
  ◌≡◌, ◌⊎◌, refl, ◌∙◌, ℕ, suc, Bool, true, false, not, ◌||◌, none, some, [], ◌∷◌, ◌++◌, arith, inl,
  inr, String, Bool-cases, eq_refl,
}
use e_commerce_agent.Domain.{TaskRecord, QueueMessage}
use e_commerce_agent.Errors.{ok}
use e_commerce_agent.Platform.{Platform, retry_route}
use e_commerce_agent.Queue.{retry_index, publish_retry}
use e_commerce_agent.Store
use e_commerce_agent.World.{World, find_task, acked, rejected, bind_trace, new_token}
use e_commerce_agent.Worker.{
  Orchestrator, matches_pending_message, is_finished, is_live, is_recovery, settle,
}
use e_commerce_agent.Worker.Answers.{is_confirmed}
use e_commerce_agent.Worker.Deliver.{
  execute, execute_leased, acquire, release, delay_duplicate, handle_message,
}

-- The task is finished, waits for its merchant, or waits for another message.
abbrev pub is_idle : TaskRecord → QueueMessage → Bool
is_idle task payload =
    is_finished task.status
    || (not (is_live task.status || is_recovery task) || not (matches_pending_message task payload))

-- Nothing that the services keep has changed, but for the leases.
pub record IsUntouched (p : Platform) (w w' : World p) : Type 0 where
  pub tasks : w'.redis.tasks ≡ w.redis.tasks
  pub streams : w'.redis.streams ≡ w.redis.streams
  pub idempotency : w'.redis.idempotency ≡ w.redis.idempotency
  pub commerce : w'.commerce ≡ w.commerce

pub record IsPutAside (p : Platform) (task_id : String) (w w' : World p) : Type 0 where
  pub untouched : IsUntouched p w w'
  pub published : w'.published ≡ w.published
  pub settled : w'.settled ≡ w.settled ++ acked ∷ []
  pub free : Store.has_task_lease p task_id w'.redis ≡ false

-- The message comes again: through a retry queue, or by the broker's own return.
pub record IsDelayed (p : Platform) (payload : QueueMessage) (w w' : World p) : Type 0 where
  pub untouched : IsUntouched p w w'
  pub comes_again :
      ((w'.settled ≡ w.settled ++ acked ∷ [])
        × (w'.published
            ≡ w.published
              ++ record { route = retry_route (retry_index payload.attempt); message = payload }
                ∷ []))
      ⊎ (w'.settled ≡ w.settled ++ rejected true ∷ [])

module _ (p : Platform) (max_attempts : ℕ) (run : Orchestrator p) (payload : QueueMessage) where
  execute-idle :
      (task : TaskRecord) (w : World p)
      → p.get payload.task_id w.redis.tasks ≡ some task
      → is_idle task payload ≡ true
      → execute p max_attempts run payload w
        ≡ (ok tt, record w { settled = w.settled ++ acked ∷ [] })
  unfolding execute find_task settle Store.get_task
  execute-idle task w stored idle = rw stored (elim (Bool-cases (is_finished task.status)) [
    | inl finished ↦ rw finished refl
    | inr unfinished ↦
        rw unfinished (elim (Bool-cases (not (is_live task.status || is_recovery task))) [
          | inl waiting ↦ rw waiting refl
          | inr live ↦ rw live (
              let stale : not (matches_pending_message task payload) ≡ true = ground arith in
              rw stale refl)
        ])
  ])

  module _ (owner : String) (v : World p) where
    execute_leased-IsPutAside :
        (task : TaskRecord)
        → p.get payload.task_id v.redis.leases ≡ some owner
        → p.get payload.task_id v.redis.tasks ≡ some task
        → is_idle task payload ≡ true
        → IsPutAside p payload.task_id v (execute_leased p max_attempts run payload owner v).1
    unfolding execute_leased release Store.release_task_lease Store.has_task_lease
    execute_leased-IsPutAside task held stored idle =
        let gone = p.get-del payload.task_id payload.task_id v.redis.leases in
        rw (execute-idle task v stored idle) (record {
          untouched = record {
            tasks = ground (arith, held);
            streams = ground (arith, held);
            idempotency = ground (arith, held);
            commerce = refl;
          };
          published = refl;
          settled = refl;
          free = ground (arith, held, gone, eq_refl payload.task_id, eq_refl owner);
        })

    delay_duplicate-IsDelayed :
        IsDelayed p payload v (delay_duplicate p max_attempts run payload v).1
    unfolding delay_duplicate publish_retry
    delay_duplicate-IsDelayed = record {
      untouched = record {
        tasks = ground arith;
        streams = ground arith;
        idempotency = ground arith;
        commerce = ground arith;
      };
      comes_again =
          elim (Bool-cases (
            is_confirmed (
              p.delivery v.published (record {
                route = retry_route (retry_index payload.attempt);
                message = payload;
              })))) [ inl sent ↦ inl (ground arith, ground arith) | inr lost ↦ inr (ground arith) ];
    }

  -- A delivery for a task that is finished, waits for its merchant or waits for another message is
  -- acknowledged, while no other worker holds the task's lease: the run is not started, and no task,
  -- event, idempotency key, publication or row of the commerce database changes. Afterwards the task
  -- has no lease.
  pub handle_message-IsPutAside :
      (task : TaskRecord) (w : World p)
      → p.get payload.task_id w.redis.leases ≡ none
      → p.get payload.task_id w.redis.tasks ≡ some task
      → is_idle task payload ≡ true
      → IsPutAside p payload.task_id w (handle_message p max_attempts run (some payload) w).1
  unfolding handle_message bind_trace new_token acquire Store.acquire_task_lease
  handle_message-IsPutAside task w free stored idle =
      let owner = w.tokens w.drawn in
      let leased : World p = record w {
        trace = record {
          trace_id = payload.trace_id;
          task_id = payload.task_id;
          session_id = payload.session_id;
        };
        drawn = suc w.drawn;
        redis = record w.redis { leases = p.put payload.task_id owner w.redis.leases };
      } in
      let aside =
        execute_leased-IsPutAside owner leased task
          (p.get-put payload.task_id payload.task_id owner w.redis.leases
            ∙ (rw (eq_refl payload.task_id) refl))
          stored idle in
      rw free (record {
        untouched = record {
          tasks = aside.untouched.tasks;
          streams = aside.untouched.streams;
          idempotency = aside.untouched.idempotency;
          commerce = aside.untouched.commerce;
        };
        published = aside.published;
        settled = aside.settled;
        free = aside.free;
      })

  -- A delivery for a task that another worker runs is not run: the same message is published to the
  -- retry queue of its attempt and the delivery acknowledged, or the delivery is returned to the queue;
  -- and no task, event, idempotency key or row of the commerce database changes.
  pub handle_message-IsDelayed :
      (holder : String) (w : World p)
      → p.get payload.task_id w.redis.leases ≡ some holder
      → IsDelayed p payload w (handle_message p max_attempts run (some payload) w).1
  unfolding handle_message bind_trace new_token acquire Store.acquire_task_lease
  handle_message-IsDelayed holder w held =
      let busy : World p = record w {
        trace = record {
          trace_id = payload.trace_id;
          task_id = payload.task_id;
          session_id = payload.session_id;
        };
        drawn = suc w.drawn;
      } in
      let delayed = delay_duplicate-IsDelayed "" busy in
      rw held (record {
        untouched = record {
          tasks = delayed.untouched.tasks;
          streams = delayed.untouched.streams;
          idempotency = delayed.untouched.idempotency;
          commerce = delayed.untouched.commerce;
        };
        comes_again = delayed.comes_again;
      })
