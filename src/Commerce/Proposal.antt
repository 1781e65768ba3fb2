-- ===== src/Commerce/Proposal.antt =====
-- `create_plan` of commerce.py proposes one plan for each task.
use e_commerce_agent.Base.{
  ℕ, ◌≡◌, String, some, arith, inl, inr, eq_refl, select, select-append_new, Option-cases,
}
use e_commerce_agent.Domain.{ActionPlan, ProductPatch}
use e_commerce_agent.Errors.{ok}
use e_commerce_agent.Commerce.{Database, create_plan, plan_for, is_plan_of_task, is_product}

create_plan-again :
    (token : String) (now : ℕ) (task_id merchant_id product_id : String) (patch : ProductPatch)
    (plan : ActionPlan) (db : Database)
    → select (is_plan_of_task task_id) db.plans ≡ some plan
    → create_plan token now task_id merchant_id product_id patch db ≡ (ok plan, db)
unfolding create_plan
create_plan-again t now task m p patch plan db found = ground arith

create_plan-stored :
    (token : String) (now : ℕ) (task_id merchant_id product_id : String) (patch : ProductPatch)
    (plan : ActionPlan) (db db' : Database)
    → create_plan token now task_id merchant_id product_id patch db ≡ (ok plan, db')
    → select (is_plan_of_task task_id) db'.plans ≡ some plan
unfolding create_plan
create_plan-stored t now task m p patch plan db db' h =
    elim (Option-cases (select (is_plan_of_task task) db.plans)) [
      | inr (found, e) ↦ ground arith
      | inl fresh ↦ elim (Option-cases (select (is_product m p) db.products)) [
        | inl missing ↦ absurd (ground arith)
        | inr (product, e) ↦ ground (
          arith,
          eq_refl task,
          select-append_new (is_plan_of_task task) db.plans (plan_for t now task m p patch product),
        )
      ]
    ]

-- A task has one plan: after a call that returned a plan, every later call for the task, whatever its
-- token, time, merchant, product and patch, returns the same plan and changes nothing.
pub create_plan_once :
    (token token' : String) (now now' : ℕ)
    (task_id merchant_id merchant_id' product_id product_id' : String) (patch patch' : ProductPatch)
    (plan : ActionPlan) (db db' : Database)
    → create_plan token now task_id merchant_id product_id patch db ≡ (ok plan, db')
    → create_plan token' now' task_id merchant_id' product_id' patch' db' ≡ (ok plan, db')
create_plan_once t t' now now' task m m' p p' patch patch' plan db db' h =
    create_plan-again t' now' task m' p' patch' plan db'
      (create_plan-stored t now task m p patch plan db db' h)
