-- ===== src/Commerce/Actions/Inversion.antt =====
-- What a successful `apply_approved_plan` went through, step by step.
use e_commerce_agent.Base.{
  ℕ, ◌+◌, ◌≡◌, refl, inl, inr, String, true, false, none, some, [], ◌∷◌, ◌++◌, arith, eq_iff,
  Option, select, update, Option-cases, subst,
}
use e_commerce_agent.Domain.{approve, ActionPlan, ActionReceipt}
use e_commerce_agent.Errors.{Error, ok, err}
use e_commerce_agent.Exec.{◌>>=◌, >>=-eq-ok, transaction-eq-ok, transaction-eq-err}
use e_commerce_agent.Commerce.{
  Product, Approval, ReceiptRow, Database, is_product, is_plan, is_approval, has_key,
}
use e_commerce_agent.Commerce.Actions.{
  idempotency_key, receipt_from_row, receipt_row, is_target, rewrite, execute_plan, approved_plan,
  execute_next, apply_approved_plan,
}

-- The approval and the plan that the call rests on.
pub record Authority (approval_id : String) (plan : ActionPlan) (db : Database) : Type 0 where
  pub approval : Approval
  pub stored : select (is_approval approval_id) db.approvals ≡ some approval
  pub approved : approval.decision ≡ approve
  pub planned : select (is_plan approval.plan_id) db.plans ≡ some plan

approved_plan-Authority :
    (approval_id : String) (plan : ActionPlan) (db db' : Database)
    → approved_plan approval_id db ≡ (ok plan, db')
    → Authority approval_id plan db × (db' ≡ db)
unfolding approved_plan
approved_plan-Authority id plan db db' h =
    elim (Option-cases (select (is_approval id) db.approvals)) [
      | inl missing ↦ absurd (ground arith)
      | inr (a, found) ↦ (
        record { approval = a; stored = found; approved = ground arith; planned = ground arith },
        ground arith,
      )
    ]

pub Authority-approved_plan :
    (approval_id : String) (plan : ActionPlan) (db : Database)
    → Authority approval_id plan db
    → approved_plan approval_id db ≡ (ok plan, db)
unfolding approved_plan
Authority-approved_plan id plan db h = ground arith

-- The database after the write.
abbrev pub written : String → ℕ → ActionPlan → Product → Database → Database
written receipt_id now plan product db = record db {
  products = update (is_target plan) (rewrite plan (product.version + 1)) db.products;
  receipts = db.receipts ++ receipt_row receipt_id now plan (product.version + 1) ∷ [];
}

-- The conditions of the write.
pub record Writes (plan : ActionPlan) (product : Product) (db : Database) : Type 0 where
  pub unused : select (has_key (idempotency_key plan)) db.receipts ≡ none
  pub found : select (is_product plan.merchant_id plan.product_id) db.products ≡ some product
  pub current : product.version ≡ plan.product_version
  pub allowed : plan.field_name ≡ "description"

execute_plan-written :
    (receipt_id : String) (now : ℕ) (plan : ActionPlan) (db db' : Database)
    (receipt : ActionReceipt)
    → select (has_key (idempotency_key plan)) db.receipts ≡ none
    → execute_plan receipt_id now plan none db ≡ (ok receipt, db')
    → (product : Product) × Writes plan product db
      × (receipt ≡ receipt_from_row (receipt_row receipt_id now plan (product.version + 1)) true)
      × (db' ≡ written receipt_id now plan product db)
unfolding execute_plan
execute_plan-written t now plan db db' r unused h =
    elim (Option-cases (select (is_product plan.merchant_id plan.product_id) db.products)) [
      | inl missing ↦ absurd (ground arith)
      | inr (product, found) ↦ (
        product,
        record {
          unused = unused;
          found = found;
          current = ground arith;
          allowed = ground (arith, eq_iff plan.field_name "description");
        },
        ground arith,
        ground arith,
      )
    ]

-- A call that returned found the receipt of its key, or wrote.
pub data Applied (receipt_id : String) (now : ℕ) (approval_id : String) (db : Database)
    (receipt : ActionReceipt) (db' : Database) : Type 0 where
  repeated :
      (plan : ActionPlan) (row : ReceiptRow)
      → Authority approval_id plan db
      → select (has_key (idempotency_key plan)) db.receipts ≡ some row
      → receipt ≡ receipt_from_row row false
      → db' ≡ db
      → Applied receipt_id now approval_id db receipt db'
  performed :
      (plan : ActionPlan) (product : Product)
      → Authority approval_id plan db
      → Writes plan product db
      → receipt ≡ receipt_from_row (receipt_row receipt_id now plan (product.version + 1)) true
      → db' ≡ written receipt_id now plan product db
      → Applied receipt_id now approval_id db receipt db'

execute_plan-Applied :
    (receipt_id : String) (now : ℕ) (approval_id : String) (plan : ActionPlan) (db db' : Database)
    (receipt : ActionReceipt) (found : Option ReceiptRow)
    → Authority approval_id plan db
    → select (has_key (idempotency_key plan)) db.receipts ≡ found
    → execute_plan receipt_id now plan found db ≡ (ok receipt, db')
    → Applied receipt_id now approval_id db receipt db'
execute_plan-Applied t now id plan db db' r none auth unused h =
    let (product, writes, is_receipt, is_written) =
      execute_plan-written t now plan db db' r unused h in
    performed plan product auth writes is_receipt is_written
execute_plan-Applied t now id plan db db' r (some row) auth found h =
    repeated plan row auth found (unfold execute_plan in ground arith)
      (unfold execute_plan in ground arith)

pub apply_approved_plan-Applied :
    (receipt_id : String) (now : ℕ) (approval_id : String) (db db' : Database)
    (receipt : ActionReceipt)
    → apply_approved_plan receipt_id now approval_id db ≡ (ok receipt, db')
    → Applied receipt_id now approval_id db receipt db'
apply_approved_plan-Applied t now id db db' r h =
    let (plan, s, asked, run) = >>=-eq-ok (approved_plan id) (execute_next t now) db db' r (
      transaction-eq-ok (approved_plan id >>= execute_next t now) db db' r
        (unfold apply_approved_plan in h)) in
    let (auth, same) = approved_plan-Authority id plan db s asked in
    execute_plan-Applied t now id plan db db' r
      (select (has_key (idempotency_key plan)) db.receipts) auth refl
      (subst (λ d. execute_next t now plan d ≡ (ok r, db')) same run)

-- A call that raised changed nothing.
pub apply_approved_plan-eq-err :
    (receipt_id : String) (now : ℕ) (approval_id : String) (db db' : Database) (e : Error)
    → apply_approved_plan receipt_id now approval_id db ≡ (err e, db')
    → db' ≡ db
apply_approved_plan-eq-err t now id db db' e h =
    transaction-eq-err (approved_plan id >>= execute_next t now) db db' e
      (unfold apply_approved_plan in h)
