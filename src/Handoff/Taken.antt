-- ===== src/Handoff/Taken.antt =====
-- What `submit_approval` of task_service.py may come to.
use e_commerce_agent.Base.{select, ◌≡◌, ◌⊎◌, sym, subst, Bool, true, false, some, String}
use e_commerce_agent.Domain.{TaskRecord}
use e_commerce_agent.Errors.{
  Result, ok, err, Error, app_error, task_not_found, task_not_resumable, task_state_conflict,
  merchant_forbidden, agent_loop_detected, dependency_error, value_error, timeout_error, unexpected,
}
use e_commerce_agent.Commerce.{Approval, Database, is_approval_of_task}
use e_commerce_agent.Platform.{Platform}
use e_commerce_agent.World.{World}
use e_commerce_agent.Tasks.{publish_failed}
use e_commerce_agent.Tasks.Approval.{ApprovalRequest, took_approval}
use e_commerce_agent.Handoff.{Sent, Lost, queued_as}
use e_commerce_agent.Handoff.Answer.{answer_message}

abbrev pub is_dependency : Error → Bool
is_dependency (dependency_error c text) = true
is_dependency e = false

-- The approval that is stored for the task: it has this id and brings the requested decision.
pub record Decided (p : Platform) (task_id approval_id : String) (q : ApprovalRequest)
    (row : Approval) (w : World p) : Type 0 where
  pub stored : select (is_approval_of_task task_id) w.commerce.approvals ≡ some row
  pub same_id : row.approval_id ≡ approval_id
  pub brings : row.decision ≡ q.decision

-- The approval is for all that the request names.
pub record Repeats (merchant_id : String) (q : ApprovalRequest) (row : Approval) : Type 0 where
  pub same_merchant : row.merchant_id ≡ merchant_id
  pub same_plan : row.plan_id ≡ q.plan_id
  pub same_version : row.plan_version ≡ q.plan_version
  pub same_action : row.action_id ≡ q.action_id

-- What a request with an approval for the task of this id comes to, from the world before it.
abbrev pub ApprovalTaken :
    (p : Platform)
    → String
    → ApprovalRequest
    → World p
    → Result (TaskRecord × String) × World p
    → Type 0
ApprovalTaken p task_id q before (ok (task, approval_id), w) =
    (loaded : TaskRecord) × (p.get task_id before.redis.tasks ≡ some loaded)
    × (row : Approval) × Decided p loaded.task_id approval_id q row w
    × (Sent p (answer_message loaded "approval" approval_id) before.published w
        ⊎ ((w.published ≡ before.published)
            × (p.get task_id w.redis.tasks ≡ some task)
            × (took_approval task.status ≡ true)
            × ((took_approval loaded.status ≡ false) ⊎ Repeats loaded.merchant_id q row)))
ApprovalTaken p task_id q before (err (dependency_error c text), w) =
    (loaded : TaskRecord) × (p.get task_id before.redis.tasks ≡ some loaded)
    × (approval_id : String) × (row : Approval) × Decided p loaded.task_id approval_id q row w
    × Lost p (queued_as (answer_message loaded "approval" approval_id)) before.published w
    × (c ≡ publish_failed)
ApprovalTaken p task_id q before (err e, w) = w.published ≡ before.published

module _ (p : Platform) where
  pub Decided-keeps :
      (task_id approval_id : String) (q : ApprovalRequest) (row : Approval) (w w' : World p)
      → w'.commerce ≡ w.commerce
      → Decided p task_id approval_id q row w
      → Decided p task_id approval_id q row w'
  Decided-keeps task_id approval_id q row w w' same d = record {
    stored =
        subst (λ (db : Database). select (is_approval_of_task task_id) db.approvals ≡ some row)
          (sym same) d.stored;
    same_id = d.same_id;
    brings = d.brings;
  }

  module _ (task_id : String) (q : ApprovalRequest) (before : World p) where
    abbrev pub Taken : Result (TaskRecord × String) × World p → Type 0
    Taken = ApprovalTaken p task_id q before

    pub other_error :
        (e : Error) (w : World p)
        → is_dependency e ≡ false
        → w.published ≡ before.published
        → Taken (err e, w)
    other_error (app_error c m s) w h same = same
    other_error (task_not_found t) w h same = same
    other_error (task_not_resumable t) w h same = same
    other_error (task_state_conflict m) w h same = same
    other_error merchant_forbidden w h same = same
    other_error (agent_loop_detected m) w h same = same
    other_error (dependency_error c m) w h same = cc
    other_error (value_error m) w h same = same
    other_error timeout_error w h same = same
    other_error (unexpected name) w h same = same
