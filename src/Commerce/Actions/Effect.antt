-- ===== src/Commerce/Actions/Effect.antt =====
-- What an approved action writes: its own product, and nothing else.
use e_commerce_agent.Base.{
  ℕ, ◌+◌, ◌≡◌, ◌≢◌, ◌⊎◌, refl, ◌∙◌, String, true, none, some, Option, arith, eq_iff, select,
  select_sound, select-update, updated, if◌then◌else◌,
}
use e_commerce_agent.Domain.{ActionPlan, ActionReceipt}
use e_commerce_agent.Errors.{ok}
use e_commerce_agent.Commerce.{Product, Database, is_product}
use e_commerce_agent.Commerce.Actions.{receipt_from_row, is_target, rewrite, apply_approved_plan}
use e_commerce_agent.Commerce.Actions.Inversion.{
  Authority, Writes, written, Applied, repeated, performed, apply_approved_plan-Applied,
}

-- What a call with `applied = true` has done to the products.
pub record Effect (approval_id : String) (receipt : ActionReceipt) (db db' : Database)
    : Type 0 where
  pub plan : ActionPlan
  pub product : Product
  pub authority : Authority approval_id plan db
  pub before : select (is_product plan.merchant_id plan.product_id) db.products ≡ some product
  pub current : product.version ≡ plan.product_version
  pub field_allowed : plan.field_name ≡ "description"
  pub after :
      select (is_product plan.merchant_id plan.product_id) db'.products
      ≡ some (record product { description = plan.after_value; version = product.version + 1 })
  pub reported : receipt.product_version ≡ product.version + 1
  pub elsewhere :
      (merchant_id product_id : String)
      → (merchant_id ≢ plan.merchant_id) ⊎ (product_id ≢ plan.product_id)
      → select (is_product merchant_id product_id) db'.products
        ≡ select (is_product merchant_id product_id) db.products

select-written :
    (plan : ActionPlan) (product : Product) (merchant_id product_id receipt_id : String) (now : ℕ)
    (db : Database)
    → select (is_product merchant_id product_id) (written receipt_id now plan product db).products
      ≡ updated
          (is_target plan)
          (rewrite plan (product.version + 1))
          (select (is_product merchant_id product_id) db.products)
select-written plan product m p t now db =
    select-update (is_product m p) (is_target plan) (rewrite plan (product.version + 1)) db.products
      (λ x. refl)

target_after :
    (plan : ActionPlan) (product : Product)
    → is_product plan.merchant_id plan.product_id product ≡ true
    → product.version ≡ plan.product_version
    → is_target plan product ≡ true
target_after plan product h e = ground arith

updated_elsewhere :
    (plan : ActionPlan) (n : ℕ) (m p : String) (found : Option Product)
    → ((x : Product) → found ≡ some x → is_product m p x ≡ true)
    → (m ≢ plan.merchant_id) ⊎ (p ≢ plan.product_id)
    → updated (is_target plan) (rewrite plan n) found ≡ found
updated_elsewhere plan n m p none h other = refl
updated_elsewhere plan n m p (some x) h other = ground (
  arith,
  h x refl,
  eq_iff x.merchant_id m,
  eq_iff x.product_id p,
  eq_iff x.merchant_id plan.merchant_id,
  eq_iff x.product_id plan.product_id,
)

module _ (receipt_id : String) (now : ℕ) (plan : ActionPlan) (product : Product) (db : Database)
    (writes : Writes plan product db) where
  pub written_target :
      select
        (is_product plan.merchant_id plan.product_id)
        (written receipt_id now plan product db).products
      ≡ some (rewrite plan (product.version + 1) product)
  written_target =
      rw (select-written plan product plan.merchant_id plan.product_id receipt_id now db) (
        rw writes.found (
          rw (
            target_after plan product
              (select_sound (is_product plan.merchant_id plan.product_id) db.products product
                writes.found)
              writes.current)))

  pub written_elsewhere :
      (m p : String)
      → (m ≢ plan.merchant_id) ⊎ (p ≢ plan.product_id)
      → select (is_product m p) (written receipt_id now plan product db).products
        ≡ select (is_product m p) db.products
  written_elsewhere m p other =
      select-written plan product m p receipt_id now db
      ∙ updated_elsewhere plan (product.version + 1) m p (select (is_product m p) db.products)
          (λ x found. select_sound (is_product m p) db.products x found) other

Writes-Effect :
    (receipt_id : String) (now : ℕ) (approval_id : String) (plan : ActionPlan) (product : Product)
    (db : Database) (receipt : ActionReceipt)
    → Authority approval_id plan db
    → Writes plan product db
    → receipt.product_version ≡ product.version + 1
    → Effect approval_id receipt db (written receipt_id now plan product db)
Writes-Effect t now id plan product db r auth writes reported = record {
  plan = plan;
  product = product;
  authority = auth;
  before = writes.found;
  current = writes.current;
  field_allowed = writes.allowed;
  after = written_target t now plan product db writes;
  reported = reported;
  elsewhere = written_elsewhere t now plan product db writes;
}

effect :
    (receipt_id : String) (now : ℕ) (approval_id : String) (db db' : Database)
    (receipt : ActionReceipt)
    → Applied receipt_id now approval_id db receipt db'
    → (if receipt.applied then Effect approval_id receipt db db' else (db' ≡ db))
unfolding receipt_from_row
effect t now id db db' r (repeated plan row auth found is_receipt same) = rw is_receipt same
effect t now id db db' r (performed plan product auth writes is_receipt same) =
    rw (is_receipt, same) (Writes-Effect t now id plan product db _ auth writes refl)

-- A call that returns a receipt marked `applied` had an approval with the decision `approve` and the
-- plan of that approval; it wrote only the description field, of the plan's product, at the version
-- that the plan was made for, raised that version by one, reports the new version, and left every
-- other product as it was. A call that returns a receipt not so marked changed nothing at all.
pub apply_approved_plan-Effect :
    (receipt_id : String) (now : ℕ) (approval_id : String) (db db' : Database)
    (receipt : ActionReceipt)
    → apply_approved_plan receipt_id now approval_id db ≡ (ok receipt, db')
    → (if receipt.applied then Effect approval_id receipt db db' else (db' ≡ db))
apply_approved_plan-Effect t now id db db' r h =
    effect t now id db db' r (apply_approved_plan-Applied t now id db db' r h)
