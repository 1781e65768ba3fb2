-- ===== src/Handoff/Resume.antt =====
-- `resume_task` of task_service.py hands its message over.
use e_commerce_agent.Base.{
  ◌≡◌, ◌⊎◌, ◌∙◌, [], ◌∷◌, ◌++◌, refl, subst, sym, ap, inl, inr, some, none, String, arith, eq_refl,
  eq_iff, true, Option, Option-cases,
}
use e_commerce_agent.Base.Json.{Fields}
use e_commerce_agent.Domain.{TaskRecord, QueueMessage, failed}
use e_commerce_agent.Errors.{ok, err, Error, dependency_error}
use e_commerce_agent.Platform.{Platform}
use e_commerce_agent.World.{World}
use e_commerce_agent.Store
use e_commerce_agent.Worker.{matches_pending_message}
use e_commerce_agent.Worker.Awaited.{
  matches_pending_self, IsUntyped, Resumes, of_kind, nothing, IsResumable,
}
use e_commerce_agent.Tasks.{publish_failed, is_publish_failed}
use e_commerce_agent.Tasks.Resume.{
  Target, resume_target, resume_attempt, requeue, resume_message, resume_interaction, resumed,
  target_of_interaction,
}
use e_commerce_agent.Handoff.{Sent, Lost, queued_as}
use e_commerce_agent.Handoff.Delivered.{Delivery-cases, delivered, dropped, unsure}

is_publish_failed→eq : (c : Option String) → is_publish_failed c ≡ true → c ≡ some publish_failed
is_publish_failed→eq none h = cc
is_publish_failed→eq (some c) h = ap {B = Option String} some ((eq_iff c publish_failed).0 h)

no_target : Target
no_target = record { kind = none; id = none }

module _ (p : Platform) where
  pub resume_target-pending :
      (task : TaskRecord) (w : World p) (k : String)
      → task.pending_resume_kind ≡ some k
      → resume_target p task w
        ≡ (ok (record { kind = task.pending_resume_kind; id = task.pending_resume_id }), w)
  unfolding resume_target
  resume_target-pending task w k e = ground arith

  resume_target-no_kind :
      (task : TaskRecord) (t : Target) (w w' : World p)
      → resume_target p task w ≡ (ok t, w')
      → t.kind ≡ none
      → (task.error_code ≡ some publish_failed)
        × (target_of_interaction p task.interaction w ≡ (ok t, w'))
  unfolding resume_target
  resume_target-no_kind task t w w' h e =
      (ground (arith, is_publish_failed→eq task.error_code), ground arith)

  target_of_interaction-no_kind :
      (interaction : Option Fields) (t : Target) (w w' : World p)
      → target_of_interaction p interaction w ≡ (ok t, w')
      → t.kind ≡ none
      → (t ≡ no_target) × IsUntyped interaction
  unfolding target_of_interaction no_target
  target_of_interaction-no_kind interaction t w w' h e = (
    ground arith,
    record { not_input = ground arith; not_approval = ground arith; not_retry = ground arith },
  )

  resume_target-again :
      (task : TaskRecord) (t : Target) (w : World p)
      → task.pending_resume_kind ≡ none
      → task.error_code ≡ some publish_failed
      → t ≡ no_target
      → IsUntyped task.interaction
      → resume_target p task w ≡ (ok t, w)
  unfolding resume_target target_of_interaction no_target
  resume_target-again task t w kind lost is_empty untyped = ground arith

resume_interaction-no_kind :
    (t : Target) (otherwise : Option Fields)
    → t.kind ≡ none
    → resume_interaction t otherwise ≡ otherwise
unfolding resume_interaction
resume_interaction-no_kind t otherwise e = ground arith

module _ (p : Platform) (task : TaskRecord) (t : Target) (w w' : World p) where
  abbrev pub message : QueueMessage
  message = resume_message task (resume_attempt task) t

  abbrev pub requeued : TaskRecord
  requeued = record (resumed task (some (resume_attempt task)) t) { updated_at = w.now }

  pub requeue-Sent :
      (answer : TaskRecord)
      → requeue p task t w ≡ (ok answer, w')
      → Sent p message w.published w' × (answer ≡ requeued)
  unfolding requeue matches_pending_message Store.append_event Store.save_task
  requeue-Sent answer h = (
    record {
      published = ground arith;
      awaited = record {
        task = requeued;
        stored = ground (
          arith,
          p.get-put task.task_id task.task_id requeued w.redis.tasks,
          eq_refl task.task_id,
        );
        runs = refl;
        expected = matches_pending_self requeued message refl refl refl;
      };
    },
    ground arith,
  )

  abbrev lost_task : TaskRecord
  lost_task = record requeued {
    status = failed;
    error_code = some publish_failed;
    error_message = some "续跑任务入队失败";
    interaction = resume_interaction t task.interaction;
  }

  -- What the task asks for is what the message resumes.
  requeue-Resumes :
      (v v' : World p) → resume_target p task v ≡ (ok t, v') → Resumes message lost_task.interaction
  unfolding no_target
  requeue-Resumes v v' h = elim (Option-cases t.kind) [
    | inr (k, e) ↦ of_kind k e
    | inl e ↦
        let (is_lost, asked) = resume_target-no_kind p task t v v' h e in
        let (is_empty, untyped) = target_of_interaction-no_kind p task.interaction t v v' asked e in
        nothing e (ap (λ (x : Target). x.id) is_empty)
          (subst (IsUntyped) (sym (resume_interaction-no_kind t task.interaction e)) untyped)
  ]

  requeue-arrived :
      (e : Error)
      → requeue p task t w ≡ (err e, w')
      → (w'.published ≡ w.published) ⊎ (w'.published ≡ w.published ++ queued_as message ∷ [])
  unfolding requeue Store.append_event Store.save_task
  requeue-arrived e h = elim (Delivery-cases (p.delivery w.published (queued_as message))) [
    | delivered sure ↦ absurd (ground arith)
    | dropped lost ↦ inl (ground arith)
    | unsure unknown ↦ inr (ground arith)
  ]

  pub requeue-Lost :
      (v v' : World p) (e : Error)
      → resume_target p task v ≡ (ok t, v')
      → requeue p task t w ≡ (err e, w')
      → (e ≡ dependency_error publish_failed "续跑任务入队失败") × Lost p (queued_as message) w.published w'
  unfolding requeue Store.append_event Store.save_task
  requeue-Lost v v' e asked h =
      let found : p.get task.task_id w'.redis.tasks ≡ some lost_task = ground (
        arith,
        p.get-put task.task_id task.task_id lost_task (p.put task.task_id requeued w.redis.tasks),
        eq_refl task.task_id,
      ) in
      (
        ground arith,
        record {
          arrived = requeue-arrived e h;
          awaited = record {
            task = lost_task;
            stored = found;
            runs = refl;
            expected = matches_pending_self lost_task message refl refl refl;
          };
          resumable = record {
            task = lost_task;
            stored = found;
            has_failed = refl;
            lost = refl;
            same_task = refl;
            same_session = refl;
            same_trace = refl;
            same_attempt = refl;
            same_kind = refl;
            same_id = refl;
            resumes = requeue-Resumes v v' asked;
          };
        },
      )

-- A task that can be resumed asks for what its message resumes, with the message's attempt.
module _ (p : Platform) (m : QueueMessage) (w : World p) (h : IsResumable p m w) where
  abbrev target : Target
  target = record { kind = m.resume_kind; id = m.resume_id }

  pub IsResumable-takes_up : (v : World p) → resume_target p h.task v ≡ (ok target, v)
  IsResumable-takes_up v = elim h.resumes [
    | of_kind k e ↦
        resume_target-pending p h.task v k (h.same_kind ∙ e) ∙ (rw (h.same_kind, h.same_id) refl)
    | nothing kind id untyped ↦
        resume_target-again p h.task target v (h.same_kind ∙ kind) h.lost
          (rw (kind, id) (unfold no_target in refl)) untyped
  ]

  pub IsResumable-message : resume_message h.task (resume_attempt h.task) target ≡ m
  unfolding resume_attempt
  IsResumable-message =
      ground (arith, h.lost, h.same_attempt, h.same_task, h.same_session, h.same_trace)
