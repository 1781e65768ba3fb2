-- ===== src/Commerce/Ledger.antt =====
-- Every database that the repository's writes can reach: the operations as a step relation.
pub mod Plans
pub mod Writes
pub mod History
use e_commerce_agent.Base.{
  ℕ, suc, ◌+◌, ◌≡◌, String, Bool, ◌&&◌, some, List, [], ◌∷◌, ◌==◌, select, if◌then◌else◌,
}
use e_commerce_agent.Domain.{ActionPlan, ProductPatch, ApprovalDecision}
use e_commerce_agent.Commerce.{Product, ReceiptRow, Database, is_product, has_key, create_plan}
use e_commerce_agent.Commerce.Approvals.{record_approval}
use e_commerce_agent.Commerce.Actions.{idempotency_key, apply_approved_plan}
use e_commerce_agent.Commerce.Actions.Inversion.{Authority}

-- One call of a writing method, whether it returned or raised.
pub data Step (db db' : Database) : Type 0 where
  planned :
      (plan_id : String) (now : ℕ) (task_id merchant_id product_id : String) (patch : ProductPatch)
      → (create_plan plan_id now task_id merchant_id product_id patch db).1 ≡ db'
      → Step db db'
  decided :
      (approval_id : String) (now : ℕ) (task_id merchant_id plan_id : String) (plan_version : ℕ)
      (action_id : String) (decision : ApprovalDecision)
      → (record_approval approval_id now task_id merchant_id plan_id plan_version action_id decision
          db).1
        ≡ db'
      → Step db db'
  applied :
      (receipt_id : String) (now : ℕ) (approval_id : String)
      → (apply_approved_plan receipt_id now approval_id db).1 ≡ db'
      → Step db db'

pub data Reach (db : Database) : Database → Type 0 where
  here : Reach db db
  next : {db' db'' : Database} → Reach db db' → Step db' db'' → Reach db db''

abbrev pub is_receipt_for : String → String → ReceiptRow → Bool
is_receipt_for merchant_id product_id r = r.merchant_id == merchant_id && r.product_id == product_id

-- How many receipts a product has.
unfoldable pub receipts_for : String → String → List ReceiptRow → ℕ
receipts_for m p [] = 0
receipts_for m p (r ∷ rs) = (if is_receipt_for m p r then 1 else 0) + receipts_for m p rs

-- A receipt's key is that of a plan which an approval with the decision `approve` names.
pub record Justified (key : String) (db : Database) : Type 0 where
  pub approval_id : String
  pub plan : ActionPlan
  pub authority : Authority approval_id plan db
  pub is_key : idempotency_key plan ≡ key

-- The versions count the receipts from the versions `base`, and no receipt lacks an approval.
pub record IsLedger (base : String → String → ℕ) (db : Database) : Type 0 where
  pub counted :
      (merchant_id product_id : String) (product : Product)
      → select (is_product merchant_id product_id) db.products ≡ some product
      → product.version
        ≡ base merchant_id product_id + receipts_for merchant_id product_id db.receipts
  pub justified :
      (key : String) (row : ReceiptRow)
      → select (has_key key) db.receipts ≡ some row
      → Justified key db
