-- ===== src/Handoff/Decision.antt =====
-- The steps of `submit_approval` of task_service.py, and what each does to the messages.
use e_commerce_agent.Base.{
  ◌≡◌, ◌⊎◌, inl, inr, refl, ◌∙◌, ap, sym, subst, Bool, false, some, Option, String, arith, eq_refl,
  Option-cases, Bool-cases, [], ◌∷◌, ◌++◌, ◌==◌,
}
use e_commerce_agent.Base.Json.{Fields, field, end, str}
use e_commerce_agent.Domain.{TaskStatus, TaskRecord}
use e_commerce_agent.Errors.{ok, err, Error, dependency_error}
use e_commerce_agent.Exec.{outcome_cases}
use e_commerce_agent.Commerce.{Approval, insert_approval}
use e_commerce_agent.Commerce.Approvals.{record_approval, record_approval_matches_plan}
use e_commerce_agent.Platform.{Platform}
use e_commerce_agent.Store
use e_commerce_agent.World.{World}
use e_commerce_agent.Tasks.{publish_failed, get_task_for_merchant}
use e_commerce_agent.Tasks.Approval.{
  ApprovalRequest, enqueue_approval, approval_raced, with_approval, approval_message, took_approval,
  store_decision, after_approval,
}
use e_commerce_agent.Handoff.{Sent, Lost, queued_as}
use e_commerce_agent.Handoff.Delivered.{Delivery-cases, delivered, dropped, unsure}
use e_commerce_agent.Handoff.Answer.{
  Transitioned, IsPosted, given_up, IsPosted-Sent, IsPosted-Lost, answer_message,
}
use e_commerce_agent.Handoff.Taken.{is_dependency, Decided, Decided-keeps, ApprovalTaken}

abbrev approval_failure : String
approval_failure = "审批已保存，但恢复任务入队失败"

abbrev lost_approval : String → Option Fields
lost_approval approval_id =
    some (field "type" (str "approval.resume") (field "approval_id" (str approval_id) end))

module _ (p : Platform) where
  module _ (was_lost : Bool) (task : TaskRecord) (approval_id : String) (q : ApprovalRequest)
      (w w' : World p) where
    enqueue_approval-eq-ok :
        (answer : TaskRecord × String)
        → enqueue_approval p was_lost task approval_id q w ≡ (ok answer, w')
        → (answer ≡ (task, approval_id))
          × (w'.published ≡ w.published ++ queued_as (approval_message task approval_id) ∷ [])
          × (w'.redis.tasks ≡ w.redis.tasks)
          × (w'.commerce ≡ w.commerce)
    unfolding enqueue_approval Store.append_event
    enqueue_approval-eq-ok answer h = (ground arith, ground arith, ground arith, ground arith)

    enqueue_approval-eq-err :
        (e : Error)
        → enqueue_approval p was_lost task approval_id q w ≡ (err e, w')
        → (e ≡ dependency_error publish_failed approval_failure)
          × (p.get task.task_id w'.redis.tasks
              ≡ some (given_up task approval_failure (lost_approval approval_id) w.now))
          × (w'.commerce ≡ w.commerce)
    unfolding enqueue_approval Store.append_event Store.save_task
    enqueue_approval-eq-err e h = (
      ground arith,
      ground (
        arith,
        p.get-put task.task_id task.task_id
            (given_up task approval_failure (lost_approval approval_id) w.now) w.redis.tasks,
        eq_refl task.task_id,
      ),
      ground arith,
    )

    enqueue_approval-arrived :
        (e : Error)
        → enqueue_approval p was_lost task approval_id q w ≡ (err e, w')
        → (w'.published ≡ w.published)
          ⊎ (w'.published ≡ w.published ++ queued_as (approval_message task approval_id) ∷ [])
    unfolding enqueue_approval Store.append_event Store.save_task
    enqueue_approval-arrived e h =
        elim (Delivery-cases
          (p.delivery w.published (queued_as (approval_message task approval_id)))) [
            | delivered sure ↦ absurd (ground arith)
            | dropped lost ↦ inl (ground arith)
            | unsure unknown ↦ inr (ground arith)
          ]

  module _ (task_id : String) (q : ApprovalRequest) (before : World p) (loaded : TaskRecord)
      (is_loaded : p.get task_id before.redis.tasks ≡ some loaded) (approval_id : String)
      (row : Approval) where
    enqueue_approval-ApprovalTaken :
        (was_lost : Bool) (task : TaskRecord) (w : World p)
        → IsPosted p task "approval" approval_id w
        → w.published ≡ before.published
        → approval_message task approval_id ≡ answer_message loaded "approval" approval_id
        → Decided p loaded.task_id approval_id q row w
        → ApprovalTaken p task_id q before (enqueue_approval p was_lost task approval_id q w)
    enqueue_approval-ApprovalTaken was_lost task w posted same is_message decided =
        elim (outcome_cases (enqueue_approval p was_lost task approval_id q w)) [
          | inl (answer, w', e) ↦
              let (is_answer, sent, kept, kept_rows) =
                enqueue_approval-eq-ok was_lost task approval_id q w w' answer e in
              rw e (
                rw is_answer (
                  loaded,
                  is_loaded,
                  row,
                  Decided-keeps p loaded.task_id approval_id q row w w' kept_rows decided,
                  inl (
                      subst (λ m. Sent p m before.published w') is_message
                        (IsPosted-Sent p task "approval" approval_id before.published w w' posted
                          kept
                          (sent
                            ∙ ap (λ l. l ++ queued_as (approval_message task approval_id) ∷ [])
                                same))),
                ))
          | inr (x, w', e) ↦
              let (is_failure, found, kept_rows) =
                enqueue_approval-eq-err was_lost task approval_id q w w' x e in
              rw e (
                rw is_failure (
                  loaded,
                  is_loaded,
                  approval_id,
                  row,
                  Decided-keeps p loaded.task_id approval_id q row w w' kept_rows decided,
                  subst (λ m. Lost p (queued_as m) before.published w') is_message
                      (IsPosted-Lost p task "approval" approval_id approval_failure
                        (lost_approval approval_id) w.now w w' posted found before.published
                        (subst
                          (λ l.
                            (w'.published ≡ l)
                            ⊎ (w'.published
                                ≡ l ++ queued_as (approval_message task approval_id) ∷ []))
                          same (enqueue_approval-arrived was_lost task approval_id q w w' x e))),
                  refl,
                ))
        ]

    approval_raced-ApprovalTaken :
        (merchant_id : String) (w : World p)
        → w.published ≡ before.published
        → took_approval loaded.status ≡ false
        → Decided p loaded.task_id approval_id q row w
        → ApprovalTaken p task_id q before (approval_raced p task_id merchant_id approval_id w)
    unfolding approval_raced get_task_for_merchant
    approval_raced-ApprovalTaken merchant_id w same open_ decided =
        elim (Option-cases (p.get task_id w.redis.tasks)) [
          | inl missing ↦ rw missing same
          | inr (current, found) ↦
              rw found (elim (Bool-cases (current.merchant_id == merchant_id)) [
                | inr foreign ↦ rw foreign same
                | inl own ↦ rw own (elim (Bool-cases (took_approval current.status)) [
                  | inr other ↦ rw other same
                  | inl taken ↦
                      rw taken
                        (loaded, is_loaded, row, decided, inr (same, found, taken, inl open_))
                ])
              ])
        ]

    pub after_approval-ApprovalTaken :
        (was_lost : Bool) (merchant_id : String) (expected : TaskStatus) (w : World p)
        (t : Transitioned p (with_approval loaded approval_id) expected w)
        → w.published ≡ before.published
        → took_approval loaded.status ≡ false
        → Decided p loaded.task_id approval_id q row w
        → ApprovalTaken p task_id q before
            (after_approval p was_lost task_id merchant_id approval_id q (t.saved, t.done) t.after)
    after_approval-ApprovalTaken was_lost merchant_id expected w t same open_ decided =
        let kept = Decided-keeps p loaded.task_id approval_id q row w t.after t.commerce decided in
        elim (Bool-cases t.done) [
          | inl done ↦ rw done (
              enqueue_approval-ApprovalTaken was_lost t.saved t.after
                (record {
                  stored =
                      subst (λ (x : TaskRecord). p.get x.task_id t.after.redis.tasks ≡ some t.saved)
                        (sym t.is_saved) (t.stored done);
                  is_queued = ap (λ (x : TaskRecord). x.status) t.is_saved;
                  at_first = ap (λ (x : TaskRecord). x.pending_attempt) t.is_saved;
                  waits_kind = ap (λ (x : TaskRecord). x.pending_resume_kind) t.is_saved;
                  waits_id = ap (λ (x : TaskRecord). x.pending_resume_id) t.is_saved;
                })
                (t.published ∙ same) (ap (λ x. approval_message x approval_id) t.is_saved) kept)
          | inr lost ↦
              rw lost
                (approval_raced-ApprovalTaken merchant_id t.after (t.published ∙ same) open_ kept)
        ]

  pub store_decision-eq-ok :
      (task : TaskRecord) (q : ApprovalRequest) (approval_id : String) (w w' : World p)
      → store_decision p task q w ≡ (ok approval_id, w')
      → (w'.published ≡ w.published)
        × (row : Approval) × Decided p task.task_id approval_id q row w'
  unfolding store_decision
  store_decision-eq-ok task q approval_id w w' h =
      let token = w.tokens w.drawn in
      elim (outcome_cases (
        record_approval token w.now task.task_id task.merchant_id q.plan_id q.plan_version
          q.action_id q.decision w.commerce)) [
            | inr (x, db, e) ↦ absurd (ground arith)
            | inl (id, db, e) ↦
                let (plan, found, owner, version, action, r) =
                  record_approval_matches_plan token w.now task.task_id task.merchant_id q.plan_id
                    q.plan_version q.action_id q.decision w.commerce db id e in
                (
                  ground arith,
                  r.row,
                  record {
                    stored = ground (arith, r.stored);
                    same_id = ground (arith, r.same_id);
                    brings = r.brings;
                  },
                )
          ]

  pub store_decision-eq-err :
      (task : TaskRecord) (q : ApprovalRequest) (e : Error) (w w' : World p)
      → store_decision p task q w ≡ (err e, w')
      → (w'.published ≡ w.published) × (is_dependency e ≡ false)
  unfolding store_decision record_approval insert_approval
  store_decision-eq-err task q e w w' h = (ground arith, ground arith)
