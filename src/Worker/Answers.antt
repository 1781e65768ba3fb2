-- ===== src/Worker/Answers.antt =====
-- How the parts of worker_service.py that end a delivery answer it.
use e_commerce_agent.Base.{
  ◌≡◌, ◌&&◌, ltb, refl, ℕ, Bool, true, false, Option, none, some, [], ◌∷◌, ◌++◌, arith, inl, inr,
  String, Bool-cases,
}
use e_commerce_agent.Domain.{TaskRecord, QueueMessage, RunOutcome, RunStatus}
use e_commerce_agent.Errors.{Error, Result, ok, err}
use e_commerce_agent.Platform.{Platform, Delivery, confirmed, refused, unconfirmed, retry_route}
use e_commerce_agent.Queue.{retry_index}
use e_commerce_agent.Base.Json.{Fields, field, end}
use e_commerce_agent.Store
use e_commerce_agent.World.{World, save_task, Settlement, acked, rejected}
use e_commerce_agent.Worker.{finish, settle, announce_approval, after_run}
use e_commerce_agent.Worker.Failure.{
  retry_message, after_failure, is_retryable, fail_found, retry_task, fail_task, lose_retry,
}

-- One answer more than before.
abbrev pub OnceMore : (p : Platform) → World p → World p → Type 0
OnceMore p w w' = (s : Settlement) × (w'.settled ≡ w.settled ++ s ∷ [])

-- A call that returned has answered once, and one that raised has not.
abbrev pub Answered : (p : Platform) → World p → Result {0} Unit × World p → Type 0
Answered p w (ok u, w') = OnceMore p w w'
Answered p w (err e, w') = w'.settled ≡ w.settled

abbrev pub is_confirmed : Delivery → Bool
is_confirmed confirmed = true
is_confirmed refused = false
is_confirmed unconfirmed = false

module _ (p : Platform) where
  fail_task-settled :
      (e : Error) (payload : QueueMessage) (task : TaskRecord) (w : World p)
      → (fail_task p e payload task w).1.settled ≡ w.settled ++ rejected false ∷ []
  unfolding fail_task
  fail_task-settled e payload task w = ground arith

  lose_retry-settled :
      (payload retry : QueueMessage) (task : TaskRecord) (w : World p)
      → (lose_retry p payload retry task w).1.settled ≡ w.settled ++ rejected false ∷ []
  unfolding lose_retry
  lose_retry-settled payload retry task w = ground arith

  retry_task-settled :
      (e : Error) (payload retry : QueueMessage) (task : TaskRecord) (w : World p)
      → OnceMore p w (retry_task p e payload retry task w).1
  unfolding retry_task
  retry_task-settled e payload retry task w =
      elim (Bool-cases (
        is_confirmed (
          p.delivery w.published
            (record { route = retry_route (retry_index retry.attempt); message = retry })))) [
              | inl sent ↦ (acked, ground arith)
              | inr lost ↦ (rejected false, ground arith)
            ]

  pub fail_found-settled :
      (max_attempts : ℕ) (payload : QueueMessage) (e : Error) (found : Option TaskRecord)
      (w : World p)
      → OnceMore p w (fail_found p max_attempts payload e true found w).1
  unfolding settle
  fail_found-settled max_attempts payload e none w = (rejected false, refl)
  fail_found-settled max_attempts payload e (some task) w =
      let retry = retry_message true payload in
      let task' = after_failure e payload retry task in
      elim (Bool-cases (is_retryable e && ltb retry.attempt max_attempts)) [
        | inl again ↦ rw again (retry_task-settled e payload retry task' w)
        | inr over ↦ rw over (rejected false, fail_task-settled e payload task' w)
      ]

  announce_approval-settled :
      (task_id : String) (status : RunStatus) (interaction : Option Fields) (w : World p)
      → (w' : World p) × (announce_approval p task_id status interaction w ≡ (ok tt, w'))
        × (w'.settled ≡ w.settled)
  unfolding announce_approval
  announce_approval-settled task_id RunStatus.awaiting_approval (some (field k v fs)) w =
      (_, refl, refl)
  announce_approval-settled task_id RunStatus.awaiting_approval (some end) w = (_, refl, refl)
  announce_approval-settled task_id RunStatus.awaiting_approval none w = (_, refl, refl)
  announce_approval-settled task_id RunStatus.completed interaction w = (_, refl, refl)
  announce_approval-settled task_id RunStatus.awaiting_input interaction w = (_, refl, refl)
  announce_approval-settled task_id RunStatus.rejected interaction w = (_, refl, refl)

  pub finish-settled :
      (payload : QueueMessage) (task : TaskRecord) (outcome : RunOutcome) (w : World p)
      → Answered p w (finish p payload task outcome w)
  unfolding finish Store.save_task Store.append_event
  finish-settled payload task outcome w =
      let (v, announced, same) =
        announce_approval-settled task.task_id outcome.status outcome.interaction
          ((save_task p (after_run task outcome) w).1) in
      rw announced (acked, ground (arith, same))
