-- ===== src/Commerce.antt =====
-- The action ledger of commerce.py: `CommerceRepository` over the tables products, action_plans,
-- approvals and action_receipts. A table is its list of rows; a token and the time are arguments.
pub mod Approvals
pub mod Actions
pub mod Ledger
pub mod Catalog
pub mod Evidence
pub mod Context
pub mod Funnel
pub mod Metrics
pub mod Proposal
pub mod Isolation
use e_commerce_agent.Base.{
  ℕ, String, Bool, not, ◌&&◌, ◌||◌, Option, none, some, List, [], ◌∷◌, ◌++◌, eqb, ◌==◌, any, select,
}
use e_commerce_agent.Base.Json.{Json}
use e_commerce_agent.Domain.{ApprovalDecision, ActionPlan, ProductPatch}
use e_commerce_agent.Errors.{Error, app_error, unexpected}
use e_commerce_agent.Exec.{
  Exec, pure, require, transaction, get_state, put_state, ensure, ◌>>=◌, ◌>>◌,
}

pub record Product : Type 0 where
  pub product_id : String
  pub merchant_id : String
  pub name : String
  pub description : String
  pub version : ℕ

pub record Approval : Type 0 where
  pub approval_id : String
  pub task_id : String
  pub merchant_id : String
  pub plan_id : String
  pub plan_version : ℕ
  pub action_id : String
  pub decision : ApprovalDecision
  pub created_at : ℕ

pub record ReceiptRow : Type 0 where
  pub receipt_id : String
  pub idempotency_key : String
  pub merchant_id : String
  pub product_id : String
  pub action_id : String
  pub product_version : ℕ
  pub created_at : ℕ

-- The JSON columns of the two tables below are read as the values that they hold.
pub record MetricWindow : Type 0 where
  pub merchant_id : String
  pub product_id : String
  pub window_name : String
  pub impressions : ℕ
  pub clicks : ℕ
  pub paid_orders : ℕ
  pub channels : Json

pub record ContextRow : Type 0 where
  pub merchant_id : String
  pub product_id : String
  pub inventory : Json
  pub price : Json
  pub reviews : Json
  pub competitors : Json

pub record Database : Type 0 where
  pub products : List Product
  pub windows : List MetricWindow
  pub contexts : List ContextRow
  pub plans : List ActionPlan
  pub approvals : List Approval
  pub receipts : List ReceiptRow

-- The `WHERE` clauses.
abbrev pub is_product : String → String → Product → Bool
is_product merchant_id product_id p = p.merchant_id == merchant_id && p.product_id == product_id

abbrev pub has_version : ℕ → Product → Bool
has_version v p = eqb p.version v

abbrev pub is_plan : String → ActionPlan → Bool
is_plan plan_id p = p.plan_id == plan_id

abbrev pub is_plan_of_task : String → ActionPlan → Bool
is_plan_of_task task_id p = p.task_id == task_id

abbrev pub is_approval : String → Approval → Bool
is_approval approval_id a = a.approval_id == approval_id

abbrev pub is_approval_of_task : String → Approval → Bool
is_approval_of_task task_id a = a.task_id == task_id

abbrev pub is_receipt : String → ReceiptRow → Bool
is_receipt receipt_id r = r.receipt_id == receipt_id

abbrev pub has_key : String → ReceiptRow → Bool
has_key key r = r.idempotency_key == key

abbrev pub product_not_found : Error
product_not_found = app_error "PRODUCT_NOT_FOUND" "商品不存在或不属于当前商家" 404

abbrev pub plan_not_found : Error
plan_not_found = app_error "PLAN_NOT_FOUND" "行动计划不存在" 404

abbrev pub integrity_error : Error
integrity_error = unexpected "IntegrityError"

-- `INSERT INTO`, with the PRIMARY KEY and the UNIQUE column of each table.
unfoldable pub insert_plan : ActionPlan → Exec Database Unit
insert_plan plan db =
    (ensure
          (not (any (is_plan plan.plan_id) db.plans || any (is_plan_of_task plan.task_id) db.plans))
          integrity_error
        >> put_state (record db { plans = db.plans ++ plan ∷ [] }))
      db

unfoldable pub insert_approval : Approval → Exec Database Unit
insert_approval a db =
    (ensure
          (not (
            any (is_approval a.approval_id) db.approvals
            || any (is_approval_of_task a.task_id) db.approvals))
          integrity_error
        >> put_state (record db { approvals = db.approvals ++ a ∷ [] }))
      db

unfoldable pub insert_receipt : ReceiptRow → Exec Database Unit
insert_receipt r db =
    (ensure
          (not (
            any (is_receipt r.receipt_id) db.receipts
            || any (has_key r.idempotency_key) db.receipts))
          integrity_error
        >> put_state (record db { receipts = db.receipts ++ r ∷ [] }))
      db

-- `_create_plan_sync`
abbrev pub plan_for : String → ℕ → String → String → String → ProductPatch → Product → ActionPlan
plan_for plan_id now task_id merchant_id product_id patch product = record {
  plan_id = plan_id;
  task_id = task_id;
  merchant_id = merchant_id;
  product_id = product_id;
  plan_version = 1;
  action_id = "update_description";
  field_name = patch.field_name;
  before_value = product.description;
  after_value = patch.new_value;
  product_version = product.version;
  reason = patch.reason;
  created_at = now;
}

pub insert_new_plan : ActionPlan → Exec Database ActionPlan
unfolding insert_plan
insert_new_plan plan = do insert_plan plan; pure plan

unfoldable pub create_plan :
    String → ℕ → String → String → String → ProductPatch → Exec Database ActionPlan
unfolding insert_new_plan
create_plan plan_id now task_id merchant_id product_id patch = transaction do
  db ← get_state
  elim (select (is_plan_of_task task_id) db.plans) [
    | some existing ↦ pure existing
    | none ↦ do
      product ← require product_not_found (select (is_product merchant_id product_id) db.products)
      insert_new_plan (plan_for plan_id now task_id merchant_id product_id patch product)
  ]

-- `_get_plan_sync`, `_get_approval_sync`, `_get_approval_for_task_sync`
unfoldable pub get_plan : String → Database → Option ActionPlan
get_plan plan_id db = select (is_plan plan_id) db.plans

unfoldable pub get_approval : String → Database → Option Approval
get_approval approval_id db = select (is_approval approval_id) db.approvals

unfoldable pub get_approval_for_task : String → Database → Option Approval
get_approval_for_task task_id db = select (is_approval_of_task task_id) db.approvals
