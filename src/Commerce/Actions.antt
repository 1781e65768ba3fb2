-- ===== src/Commerce/Actions.antt =====
-- `_apply_approved_plan_sync` of commerce.py.
pub mod Inversion
pub mod Once
pub mod Effect
use e_commerce_agent.Base.{
  ℕ, ◌+◌, String, ◌<>◌, Bool, true, false, ◌&&◌, Option, none, some, eqb, ◌==◌, select, update,
}
use e_commerce_agent.Base.Decimal.{decimal}
use e_commerce_agent.Domain.{approve, same_decision, ActionPlan, ActionReceipt}
use e_commerce_agent.Errors.{app_error}
use e_commerce_agent.Exec.{
  Exec, pure, require, transaction, get_state, put_state, ensure, ◌>>=◌, ◌>>◌,
}
use e_commerce_agent.Commerce.{
  Product, ReceiptRow, Database, is_product, has_version, is_plan, is_approval, has_key,
  product_not_found, plan_not_found, insert_receipt,
}

-- `":".join((merchant_id, task_id, str(plan_version), action_id))`
unfoldable pub idempotency_key : ActionPlan → String
idempotency_key plan =
    plan.merchant_id
    <> (":" <> (plan.task_id <> (":" <> (decimal plan.plan_version <> (":" <> plan.action_id)))))

-- `_receipt_from_row`
unfoldable pub receipt_from_row : ReceiptRow → Bool → ActionReceipt
receipt_from_row row applied = record {
  receipt_id = row.receipt_id;
  idempotency_key = row.idempotency_key;
  merchant_id = row.merchant_id;
  product_id = row.product_id;
  action_id = row.action_id;
  product_version = row.product_version;
  applied = applied;
  created_at = row.created_at;
}

abbrev pub receipt_row : String → ℕ → ActionPlan → ℕ → ReceiptRow
receipt_row receipt_id now plan new_version = record {
  receipt_id = receipt_id;
  idempotency_key = idempotency_key plan;
  merchant_id = plan.merchant_id;
  product_id = plan.product_id;
  action_id = plan.action_id;
  product_version = new_version;
  created_at = now;
}

-- `UPDATE products SET description = ?, version = ? WHERE merchant_id = ? AND product_id = ? AND
-- version = ?`
abbrev pub is_target : ActionPlan → Product → Bool
is_target plan p =
    is_product plan.merchant_id plan.product_id p && has_version plan.product_version p

abbrev pub rewrite : ActionPlan → ℕ → Product → Product
rewrite plan new_version p = record p { description = plan.after_value; version = new_version }

update_products : ActionPlan → ℕ → Exec Database Unit
update_products plan new_version db =
    put_state
      (record db { products = update (is_target plan) (rewrite plan new_version) db.products }) db

-- The rest of the body, once the table of receipts has been asked for the key.
pub execute_plan : String → ℕ → ActionPlan → Option ReceiptRow → Exec Database ActionReceipt
unfolding update_products receipt_from_row insert_receipt
execute_plan receipt_id now plan (some existing) = pure (receipt_from_row existing false)
execute_plan receipt_id now plan none = do
  db ← get_state
  product ←
      require product_not_found (select (is_product plan.merchant_id plan.product_id) db.products)
  ensure (eqb product.version plan.product_version)
      (app_error "PRODUCT_VERSION_CONFLICT" "商品已变化，需要重新生成计划" 409)
  ensure (plan.field_name == "description") (app_error "ACTION_FIELD_FORBIDDEN" "不允许修改该字段" 403)
  update_products plan (product.version + 1)
  insert_receipt (receipt_row receipt_id now plan (product.version + 1))
  pure (receipt_from_row (receipt_row receipt_id now plan (product.version + 1)) true)

-- The approval must exist and be an approval; its plan must exist.
pub approved_plan : String → Exec Database ActionPlan
approved_plan approval_id = do
  db ← get_state
  approval ←
      require (app_error "APPROVAL_NOT_FOUND" "审批记录不存在" 404)
        (select (is_approval approval_id) db.approvals)
  ensure (same_decision approval.decision approve)
      (app_error "ACTION_NOT_APPROVED" "计划未获批准，不能执行" 409)
  require plan_not_found (select (is_plan approval.plan_id) db.plans)

abbrev pub execute_next : String → ℕ → ActionPlan → Exec Database ActionReceipt
execute_next receipt_id now plan db =
    execute_plan receipt_id now plan (select (has_key (idempotency_key plan)) db.receipts) db

unfoldable pub apply_approved_plan : String → ℕ → String → Exec Database ActionReceipt
unfolding execute_plan approved_plan
apply_approved_plan receipt_id now approval_id =
    transaction (approved_plan approval_id >>= execute_next receipt_id now)
