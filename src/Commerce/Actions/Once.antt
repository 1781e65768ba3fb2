-- ===== src/Commerce/Actions/Once.antt =====
-- An approved action takes effect at most once.
use e_commerce_agent.Base.{
  ℕ, ◌+◌, ◌≡◌, refl, String, false, some, eq_refl, select, select-append_new,
}
use e_commerce_agent.Domain.{ActionPlan, ActionReceipt}
use e_commerce_agent.Errors.{ok}
use e_commerce_agent.Commerce.{Product, ReceiptRow, Database, has_key}
use e_commerce_agent.Commerce.Actions.{
  idempotency_key, receipt_from_row, receipt_row, apply_approved_plan,
}
use e_commerce_agent.Commerce.Actions.Inversion.{
  Authority, Authority-approved_plan, written, Applied, repeated, performed,
  apply_approved_plan-Applied,
}

apply_approved_plan_repeated :
    (receipt_id : String) (now : ℕ) (approval_id : String) (plan : ActionPlan) (row : ReceiptRow)
    (db : Database)
    → Authority approval_id plan db
    → select (has_key (idempotency_key plan)) db.receipts ≡ some row
    → apply_approved_plan receipt_id now approval_id db ≡ (ok (receipt_from_row row false), db)
apply_approved_plan_repeated t now id plan row db auth found =
    unfold apply_approved_plan in rw (Authority-approved_plan id plan db auth) (rw found refl)

pub Authority-written :
    (receipt_id : String) (now : ℕ) (approval_id : String) (plan plan' : ActionPlan)
    (product : Product) (db : Database)
    → Authority approval_id plan db
    → Authority approval_id plan (written receipt_id now plan' product db)
Authority-written t now id plan plan' product db auth = record {
  approval = auth.approval;
  stored = auth.stored;
  approved = auth.approved;
  planned = auth.planned;
}

again :
    (token token' : String) (now now' : ℕ) (approval_id : String) (db db' : Database)
    (receipt : ActionReceipt)
    → Applied token now approval_id db receipt db'
    → apply_approved_plan token' now' approval_id db'
      ≡ (ok (record receipt { applied = false }), db')
unfolding receipt_from_row
again t t' now now' id db db' r (repeated plan row auth found is_receipt same) =
    rw (is_receipt, same) (apply_approved_plan_repeated t' now' id plan row db auth found)
again t t' now now' id db db' r (performed plan product auth writes is_receipt same) =
    let row = receipt_row t now plan (product.version + 1) in
    rw (is_receipt, same)
      (apply_approved_plan_repeated t' now' id plan row (written t now plan product db)
        (Authority-written t now id plan plan product db auth)
        (select-append_new (has_key (idempotency_key plan)) db.receipts row writes.unused
          (eq_refl (idempotency_key plan))))

-- An action takes effect once: after a call that returned a receipt, every later call for the same
-- approval, whatever its token and time, leaves the database alone and returns the same receipt,
-- marked as not applied again.
pub apply_approved_plan_once :
    (token token' : String) (now now' : ℕ) (approval_id : String) (db db' : Database)
    (receipt : ActionReceipt)
    → apply_approved_plan token now approval_id db ≡ (ok receipt, db')
    → apply_approved_plan token' now' approval_id db'
      ≡ (ok (record receipt { applied = false }), db')
apply_approved_plan_once t t' now now' id db db' r h =
    again t t' now now' id db db' r (apply_approved_plan-Applied t now id db db' r h)
