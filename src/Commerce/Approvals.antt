-- ===== src/Commerce/Approvals.antt =====
-- `_record_approval_sync` of commerce.py.
use e_commerce_agent.Base.{
  ℕ, ◌≡◌, ◌⊎◌, sym, List, [], ◌∷◌, Bool-cases, refl, String, Bool, true, ◌&&◌, Option, none, some,
  arith, eqb, ◌==◌, eq_refl, select, select-append_new, Option-cases, eq_iff, inl, inr,
  if◌then◌else◌,
}
use e_commerce_agent.Domain.{ApprovalDecision, approve, reject, same_decision, ActionPlan}
use e_commerce_agent.Errors.{Error, app_error, ok, err}
use e_commerce_agent.Exec.{Exec, pure, require, transaction, get_state, ensure, ◌>>=◌, ◌>>◌}
use e_commerce_agent.Commerce.{
  Approval, Database, is_approval_of_task, plan_not_found, insert_approval,
}

abbrev pub is_plan_for : String → String → ActionPlan → Bool
is_plan_for plan_id task_id p = p.plan_id == plan_id && p.task_id == task_id

abbrev pub approval_conflict : Error
approval_conflict = app_error "APPROVAL_CONFLICT" "任务已经提交不同审批决定" 409

-- A task that has an approval keeps it; another decision is a conflict.
store_approval : Approval → Option Approval → Exec Database String
unfolding insert_approval
store_approval a none = do insert_approval a; pure a.approval_id
store_approval a (some existing) = do
  ensure (same_decision existing.decision a.decision) approval_conflict
  pure existing.approval_id

abbrev pub approval_row :
    String → ℕ → String → String → String → ℕ → String → ApprovalDecision → Approval
approval_row approval_id now task_id merchant_id plan_id plan_version action_id decision = record {
  approval_id = approval_id;
  task_id = task_id;
  merchant_id = merchant_id;
  plan_id = plan_id;
  plan_version = plan_version;
  action_id = action_id;
  decision = decision;
  created_at = now;
}

unfoldable pub record_approval :
    String → ℕ → String → String → String → ℕ → String → ApprovalDecision → Exec Database String
unfolding store_approval
record_approval approval_id now task_id merchant_id plan_id plan_version action_id decision =
    transaction do
      db ← get_state
      plan ← require plan_not_found (select (is_plan_for plan_id task_id) db.plans)
      ensure (plan.merchant_id == merchant_id) (app_error "MERCHANT_FORBIDDEN" "不能批准其他商家的计划" 403)
      ensure (eqb plan.plan_version plan_version && plan.action_id == action_id)
          (app_error "PLAN_VERSION_CONFLICT" "计划版本或动作不匹配" 409)
      store_approval
          (approval_row approval_id now task_id merchant_id plan_id plan_version action_id decision)
          (select (is_approval_of_task task_id) db.approvals)

same_decision_refl : (d : ApprovalDecision) → same_decision d d ≡ true
same_decision_refl approve = refl
same_decision_refl reject = refl

-- Once a decision is recorded for a task, a later request for the same plan, version and action,
-- whatever its token and time, changes nothing: it gets the recorded approval back if it brings the
-- same decision, and `APPROVAL_CONFLICT` if it brings the other one.
pub record_approval_final :
    (token token' : String) (now now' : ℕ) (task_id merchant_id plan_id : String) (plan_version : ℕ)
    (action_id : String) (decision decision' : ApprovalDecision) (db db' : Database)
    (approval_id : String)
    → record_approval token now task_id merchant_id plan_id plan_version action_id decision db
      ≡ (ok approval_id, db')
    → record_approval token' now' task_id merchant_id plan_id plan_version action_id decision' db'
      ≡ (if same_decision decision decision' then ok approval_id else err approval_conflict, db')
unfolding record_approval
record_approval_final t t' now now' task m p v a d d' db db' id h = ground (
  arith,
  eq_refl task,
  same_decision_refl d,
  select-append_new (is_approval_of_task task) db.approvals (approval_row t now task m p v a d),
)

-- An approval names the plan, with its version, action and merchant.
pub record Names (plan : ActionPlan) (row : Approval) : Type 0 where
  pub names_plan : row.plan_id ≡ plan.plan_id
  pub names_version : row.plan_version ≡ plan.plan_version
  pub names_action : row.action_id ≡ plan.action_id
  pub names_merchant : row.merchant_id ≡ plan.merchant_id

-- The approval that the task has afterwards: a new one, which names the plan, or the one it had.
pub record Recorded (task_id : String) (plan : ActionPlan) (decision : ApprovalDecision)
    (approval_id : String) (db db' : Database) : Type 0 where
  pub row : Approval
  pub stored : select (is_approval_of_task task_id) db'.approvals ≡ some row
  pub same_id : row.approval_id ≡ approval_id
  pub brings : row.decision ≡ decision
  pub origin :
      ((select (is_approval_of_task task_id) db.approvals ≡ none) × Names plan row)
      ⊎ ((select (is_approval_of_task task_id) db.approvals ≡ some row)
          × (db'.approvals ≡ db.approvals))

pub same_decision→eq : (d d' : ApprovalDecision) → same_decision d d' ≡ true → d ≡ d'
same_decision→eq approve approve h = refl
same_decision→eq approve reject h = cc
same_decision→eq reject approve h = cc
same_decision→eq reject reject h = refl

select-is_plan_for :
    (plan_id task_id : String) (plans : List ActionPlan) (plan : ActionPlan)
    → select (is_plan_for plan_id task_id) plans ≡ some plan
    → plan.plan_id ≡ plan_id
unfolding select
select-is_plan_for p t [] plan h = cc
select-is_plan_for p t (x ∷ xs) plan h = elim (Bool-cases (is_plan_for p t x)) [
  | inl here ↦ ground (arith, eq_iff x.plan_id p)
  | inr later ↦ select-is_plan_for p t xs plan (rw later at h)
]

record_approval-Recorded :
    (token : String) (now : ℕ) (task_id merchant_id plan_id : String) (plan_version : ℕ)
    (action_id : String) (decision : ApprovalDecision) (db db' : Database) (approval_id : String)
    (plan : ActionPlan)
    → select (is_plan_for plan_id task_id) db.plans ≡ some plan
    → record_approval token now task_id merchant_id plan_id plan_version action_id decision db
      ≡ (ok approval_id, db')
    → Recorded task_id plan decision approval_id db db'
unfolding record_approval
record_approval-Recorded t now task m p v a d db db' id plan found h =
    elim (Option-cases (select (is_approval_of_task task) db.approvals)) [
      | inl free ↦ record {
        row = approval_row t now task m p v a d;
        stored = ground (
          arith,
          eq_refl task,
          select-append_new (is_approval_of_task task) db.approvals
              (approval_row t now task m p v a d),
        );
        same_id = ground arith;
        brings = refl;
        origin = inl (
          free,
          record {
            names_plan = sym (select-is_plan_for p task db.plans plan found);
            names_version = ground arith;
            names_action = ground (arith, eq_iff plan.action_id a);
            names_merchant = ground (arith, eq_iff plan.merchant_id m);
          },
        );
      }
      | inr (existing, taken) ↦ record {
        row = existing;
        stored = ground arith;
        same_id = ground arith;
        brings = ground (arith, same_decision→eq existing.decision d);
        origin = inr (taken, ground arith);
      }
    ]

-- A recorded decision is one on the plan of its task, whose merchant, version and action are the
-- request's: either the task had no approval, and the one stored for it now names that plan, with its
-- version, action and merchant, and brings the decision, under the id that is answered; or the task
-- keeps the approval it had, which has that id and the same decision, and no row changes.
pub record_approval_matches_plan :
    (token : String) (now : ℕ) (task_id merchant_id plan_id : String) (plan_version : ℕ)
    (action_id : String) (decision : ApprovalDecision) (db db' : Database) (approval_id : String)
    → record_approval token now task_id merchant_id plan_id plan_version action_id decision db
      ≡ (ok approval_id, db')
    → (plan : ActionPlan) × (select (is_plan_for plan_id task_id) db.plans ≡ some plan)
      × (plan.merchant_id ≡ merchant_id)
      × (plan.plan_version ≡ plan_version)
      × (plan.action_id ≡ action_id)
      × Recorded task_id plan decision approval_id db db'
unfolding record_approval
record_approval_matches_plan t now task m p v a d db db' id h =
    elim (Option-cases (select (is_plan_for p task) db.plans)) [
      | inl missing ↦ absurd (ground arith)
      | inr (plan, found) ↦ (
        plan,
        found,
        ground (arith, eq_iff plan.merchant_id m),
        ground arith,
        ground (arith, eq_iff plan.action_id a),
        record_approval-Recorded t now task m p v a d db db' id plan found h,
      )
    ]
