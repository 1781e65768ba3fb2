-- ===== src/Handoff/Recovery.antt =====
-- A message that could not be published is published by `resume_task`.
use e_commerce_agent.Base.{◌≡◌, refl, subst, ap, inl, inr, String, arith, eq_refl, List}
use e_commerce_agent.Domain.{TaskRecord, QueueMessage, queued}
use e_commerce_agent.Errors.{Result, ok, err, dependency_error}
use e_commerce_agent.Exec.{outcome_cases}
use e_commerce_agent.Platform.{Platform, Publication}
use e_commerce_agent.World.{World, bind_trace}
use e_commerce_agent.Worker.Awaited.{IsResumable}
use e_commerce_agent.Tasks.{publish_failed}
use e_commerce_agent.Tasks.Resume.{
  Target, requeue, resume_task, resume_target, resume_message, resume_attempt,
}
use e_commerce_agent.Handoff.{Sent, Lost, queued_as}
use e_commerce_agent.Handoff.Resume.{
  requeue-Sent, requeue-Lost, IsResumable-takes_up, IsResumable-message,
}

-- The message was published and the task is queued for it, or it was lost again.
abbrev pub Republished :
    (p : Platform) → QueueMessage → List Publication → Result TaskRecord × World p → Type 0
Republished p m earlier (ok task, w) = Sent p m earlier w × (task.status ≡ queued)
Republished p m earlier (err (dependency_error c text), w) =
    Lost p (queued_as m) earlier w × (c ≡ publish_failed)
Republished p m earlier (err e, w) = ⊥

module _ (p : Platform) (m : QueueMessage) (w : World p) (h : IsResumable p m w) where
  abbrev bound : World p
  bound = (bind_trace p h.task.trace_id h.task.task_id h.task.session_id w).1

  abbrev target : Target
  target = record { kind = m.resume_kind; id = m.resume_id }

  takes_up : (v : World p) → resume_target p h.task v ≡ (ok target, v)
  takes_up v = IsResumable-takes_up p m w h v

  is_message : resume_message h.task (resume_attempt h.task) target ≡ m
  is_message = IsResumable-message p m w h

  resume_task-requeue : resume_task p m.task_id h.task.merchant_id w ≡ requeue p h.task target bound
  unfolding resume_task bind_trace
  resume_task-requeue =
      ground (arith, h.stored, h.has_failed, h.lost, takes_up bound, eq_refl h.task.merchant_id)

  requeue-Republished : Republished p m w.published (requeue p h.task target bound)
  unfolding bind_trace
  requeue-Republished = elim (outcome_cases (requeue p h.task target bound)) [
    | inl (answer, w', e) ↦
        let (sent, is_requeued) = requeue-Sent p h.task target bound w' answer e in
        rw e (
          subst (λ n. Sent p n w.published w') is_message sent,
          ap (λ (x : TaskRecord). x.status) is_requeued,
        )
    | inr (x, w', e) ↦
        let (is_failure, lost) =
          requeue-Lost p h.task target bound w' bound bound x (takes_up bound) e in
        rw e
          (rw is_failure (subst (λ n. Lost p (queued_as n) w.published w') is_message lost, refl))
  ]

  -- Where the stored task failed with `QUEUE_PUBLISH_FAILED` and its pending fields are those of a
  -- message, a resumption by its merchant publishes that very message, with its attempt and what it
  -- resumes, and leaves the task queued so that the worker awaits it; or the message is lost once more:
  -- then it has arrived or nothing has, and the stored task again failed with the same pending fields.
  -- No third thing happens.
  pub resume_task-Republished :
      (merchant_id : String)
      → h.task.merchant_id ≡ merchant_id
      → Republished p m w.published (resume_task p m.task_id merchant_id w)
  resume_task-Republished merchant_id own =
      subst (λ owner. Republished p m w.published (resume_task p m.task_id owner w)) own
        (rw resume_task-requeue requeue-Republished)
