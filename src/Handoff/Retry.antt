-- ===== src/Handoff/Retry.antt =====
-- The retries of worker_service.py hand their message over.
use e_commerce_agent.Base.{
  ◌≡◌, ◌⊎◌, ◌≢◌, ◌==◌, ap, ◌∙◌, sym, subst, ◌||◌, eq_iff, Option-cases, Bool-cases, refl, ℕ, ◌+◌,
  inl, inr, some, String, arith, true, false, Bool, ltb, [], ◌∷◌, ◌++◌, if◌then◌else◌, ◌&&◌,
}
use e_commerce_agent.Domain.{TaskRecord, QueueMessage, retrying, failed}
use e_commerce_agent.Errors.{Error}
use e_commerce_agent.Platform.{
  Platform, Publication, Delivery, confirmed, refused, unconfirmed, retry_route,
}
use e_commerce_agent.Queue.{retry_index}
use e_commerce_agent.Store
use e_commerce_agent.World.{World, Settlement, acked, rejected}
use e_commerce_agent.Worker.Awaited.{IsAwaited, matches_pending_self, of_kind}
use e_commerce_agent.Worker.Failure.{
  fail_found, fail_task, retry_task, retry_message, after_failure, handle_failure, is_retryable,
  interaction_of, retry_lost, safe_error,
}
use e_commerce_agent.Tasks.{publish_failed}
use e_commerce_agent.Handoff.{Lost}
use e_commerce_agent.Handoff.Delivered.{Delivery-cases, delivered, dropped, unsure}

confirmed_or_not : (d : Delivery) → (d ≡ confirmed) ⊎ (d ≢ confirmed)
confirmed_or_not confirmed = inl refl
confirmed_or_not refused = inr (λ e. cc)
confirmed_or_not unconfirmed = inr (λ e. cc)

-- What the worker's handler of failures comes to, for a task that is stored.
abbrev pub Settled : (p : Platform) → Settlement → World p → World p → Type 0
Settled p s w w' = w'.settled ≡ w.settled ++ s ∷ []

-- A retry goes to the delay queue of its attempt.
abbrev pub retry_publication : QueueMessage → Publication
retry_publication m = record { route = retry_route (retry_index m.attempt); message = m }

-- The message is the next attempt at the same task.
pub record Next (payload retry : QueueMessage) : Type 0 where
  pub task_id : retry.task_id ≡ payload.task_id
  pub session_id : retry.session_id ≡ payload.session_id
  pub trace_id : retry.trace_id ≡ payload.trace_id
  pub attempt : retry.attempt ≡ payload.attempt + 1

-- The retry was published with the next attempt, and is awaited.
pub record Retried (p : Platform) (retry : QueueMessage) (w w' : World p) : Type 0 where
  pub published : w'.published ≡ w.published ++ retry_publication retry ∷ []
  pub awaited : IsAwaited p retry w'
  pub answered : Settled p acked w w'

-- The retry was lost; it can be resumed.
pub record RetryLost (p : Platform) (retry : QueueMessage) (w w' : World p) : Type 0 where
  pub lost : Lost p (retry_publication retry) w.published w'
  pub answered : Settled p (rejected false) w w'

-- The task has failed for good: nothing is published and no field asks for another run.
pub record GivenUp (p : Platform) (e : Error) (payload : QueueMessage) (w w' : World p)
    : Type 0 where
  pub task : TaskRecord
  pub stored : p.get payload.task_id w'.redis.tasks ≡ some task
  pub has_failed : task.status ≡ failed
  pub reason : task.error_code ≡ some (safe_error e).0
  pub silent : w'.published ≡ w.published
  pub answered : Settled p (rejected false) w w'

module _ (p : Platform) (e : Error) (payload : QueueMessage) (found : TaskRecord) (w : World p)
    (own : found.task_id ≡ payload.task_id) where
  abbrev retry : QueueMessage
  retry = retry_message true payload

  abbrev pending : TaskRecord
  pending = after_failure e payload retry found

  abbrev retrying_task : TaskRecord
  retrying_task = record pending { status = retrying; updated_at = w.now }

  abbrev lost_task : TaskRecord
  lost_task = record retrying_task {
    status = failed;
    error_code = some publish_failed;
    error_message = some retry_lost;
    interaction = interaction_of retry;
  }

  abbrev sent : Publication
  sent = retry_publication retry

  abbrev tried : World p
  tried = (retry_task p e payload retry pending w).1

  retry_kind : (k : String) × (retry.resume_kind ≡ some k)
  retry_kind = elim (Option-cases payload.resume_kind) [
    | inl none_ ↦ ("retry", rw none_ refl)
    | inr (k, e) ↦ elim (Bool-cases (k == "input" || k == "approval")) [
      | inl resumes ↦ (k, ground arith)
      | inr other ↦ ("retry", ground arith)
    ]
  ]

  retry_task-Retried : p.delivery w.published sent ≡ confirmed → Retried p retry w tried
  unfolding retry_task Store.append_event Store.save_task
  retry_task-Retried h = record {
    published = ground arith;
    awaited = record {
      task = retrying_task;
      stored = ground (
        arith,
        p.get-put found.task_id payload.task_id retrying_task w.redis.tasks,
        (eq_iff found.task_id payload.task_id),
      );
      runs = refl;
      expected = matches_pending_self retrying_task retry refl refl refl;
    };
    answered = ground arith;
  }

  retry_task-arrived :
      p.delivery w.published sent ≢ confirmed
      → (tried.published ≡ w.published) ⊎ (tried.published ≡ w.published ++ sent ∷ [])
  unfolding retry_task Store.append_event Store.save_task
  retry_task-arrived h = elim (Delivery-cases (p.delivery w.published sent)) [
    | delivered sure ↦ absurd (h sure)
    | dropped lost ↦ inl (ground arith)
    | unsure unknown ↦ inr (ground arith)
  ]

  retry_task-RetryLost :
      p.delivery w.published sent ≢ confirmed
      → found.session_id ≡ payload.session_id
      → found.trace_id ≡ payload.trace_id
      → RetryLost p retry w tried
  unfolding retry_task Store.append_event Store.save_task
  retry_task-RetryLost h same_session same_trace =
      let stored : p.get payload.task_id tried.redis.tasks ≡ some lost_task = ground (
        arith,
        p.get-put found.task_id payload.task_id lost_task
            (p.put found.task_id retrying_task w.redis.tasks),
        (eq_iff found.task_id payload.task_id),
      ) in
      let (k, is_kind) = retry_kind in
      record {
        lost = record {
          arrived = retry_task-arrived h;
          awaited = record {
            task = lost_task;
            stored = stored;
            runs = refl;
            expected = matches_pending_self lost_task retry refl refl refl;
          };
          resumable = record {
            task = lost_task;
            stored = stored;
            has_failed = refl;
            lost = refl;
            same_task = own;
            same_session = same_session;
            same_trace = same_trace;
            same_attempt = refl;
            same_kind = refl;
            same_id = refl;
            resumes = of_kind k is_kind;
          };
        };
        answered = ground arith;
      }

  fail_task-GivenUp : GivenUp p e payload w (fail_task p e payload pending w).1
  unfolding fail_task Store.append_event Store.save_task
  fail_task-GivenUp = record {
    task = record pending { status = failed; updated_at = w.now };
    stored = ground (
      arith,
      p.get-put found.task_id payload.task_id
          (record pending { status = failed; updated_at = w.now }) w.redis.tasks,
      eq_iff found.task_id payload.task_id,
    );
    has_failed = refl;
    reason = refl;
    silent = refl;
    answered = refl;
  }

  abbrev will_retry : ℕ → Bool
  will_retry max_attempts = is_retryable e && ltb (payload.attempt + 1) max_attempts

  abbrev handled : ℕ → World p
  handled max_attempts = (handle_failure p max_attempts payload e true w).1

  handle_failure_lem :
      (max_attempts : ℕ)
      → p.get payload.task_id w.redis.tasks ≡ some found
      → handle_failure p max_attempts payload e true w
        ≡ (if will_retry max_attempts
              then retry_task p e payload retry pending
              else fail_task p e payload pending)
            w
  unfolding handle_failure
  handle_failure_lem max_attempts stored = rw (stored, fail_found)

  handle_failure-again :
      (max_attempts : ℕ)
      → p.get payload.task_id w.redis.tasks ≡ some found
      → will_retry max_attempts ≡ true
      → handled max_attempts ≡ tried
  handle_failure-again max_attempts stored again =
      ap (λ r. r.1) (handle_failure_lem max_attempts stored)
      ∙ ap
          (λ b.
            ((if b then retry_task p e payload retry pending else fail_task p e payload pending)
              w).1)
          again

  handle_failure-over :
      (max_attempts : ℕ)
      → p.get payload.task_id w.redis.tasks ≡ some found
      → will_retry max_attempts ≡ false
      → handled max_attempts ≡ (fail_task p e payload pending w).1
  handle_failure-over max_attempts stored over =
      ap (λ r. r.1) (handle_failure_lem max_attempts stored)
      ∙ ap
          (λ b.
            ((if b then retry_task p e payload retry pending else fail_task p e payload pending)
              w).1)
          over

  -- For a delivery that carries the ids of its stored task, session and trace included, a failed run is
  -- retried exactly if its error allows it and the next attempt stays below the limit. If the broker
  -- confirms the message of the next attempt, that message is published to the retry queue of its
  -- attempt and is awaited, and the delivery is acknowledged; if the broker does not, the delivery is
  -- rejected, the message has arrived or nothing has, and the task can be resumed with that message.
  -- Without a retry the task has failed with the error's code, nothing is published and the delivery is
  -- rejected.
  pub handle_failure_cases :
      (max_attempts : ℕ)
      → p.get payload.task_id w.redis.tasks ≡ some found
      → found.session_id ≡ payload.session_id
      → found.trace_id ≡ payload.trace_id
      → (if will_retry max_attempts
          then Next payload retry
            × (((p.delivery w.published sent ≡ confirmed)
                  × Retried p retry w (handled max_attempts))
                ⊎ ((p.delivery w.published sent ≢ confirmed)
                    × RetryLost p retry w (handled max_attempts)))
          else GivenUp p e payload w (handled max_attempts))
  handle_failure_cases max_attempts stored same_session same_trace =
      elim (Bool-cases (will_retry max_attempts)) [
        | inr over ↦ rw over (
            subst (GivenUp p e payload w) (sym (handle_failure-over max_attempts stored over))
              fail_task-GivenUp)
        | inl again ↦
            let same = sym (handle_failure-again max_attempts stored again) in
            rw again (
              record { task_id = refl; session_id = refl; trace_id = refl; attempt = refl },
              elim (confirmed_or_not (p.delivery w.published sent)) [
                | inl is_confirmed ↦
                    inl (
                      is_confirmed,
                      subst (Retried p retry w) same (retry_task-Retried is_confirmed),
                    )
                | inr is_not ↦ inr (
                  is_not,
                  subst (RetryLost p retry w) same
                      (retry_task-RetryLost is_not same_session same_trace),
                )
              ],
            )
      ]
