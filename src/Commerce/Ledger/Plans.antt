-- ===== src/Commerce/Ledger/Plans.antt =====
-- Planning and deciding keep the ledger: they add a row and touch no product and no receipt.
use e_commerce_agent.Base.{
  ℕ, ◌≡◌, refl, String, some, none, Option-cases, arith, ◌∷◌, [], List, ◌++◌, ◌⊎◌, inl, inr, select,
  select-append_some, sym, append-nil,
}
use e_commerce_agent.Domain.{ActionPlan, ApprovalDecision, ProductPatch}
use e_commerce_agent.Commerce.{
  Approval, Database, is_plan, is_approval, is_product, Product, plan_for, create_plan,
}
use e_commerce_agent.Commerce.Approvals.{record_approval, approval_row}
use e_commerce_agent.Commerce.Actions.Inversion.{Authority}
use e_commerce_agent.Commerce.Ledger.{IsLedger}

-- Rows added to the plans and the approvals, nothing else.
pub record Grows (db db' : Database) : Type 0 where
  pub same_products : db'.products ≡ db.products
  pub same_receipts : db'.receipts ≡ db.receipts
  pub new_plans : List ActionPlan
  pub plans_grow : db'.plans ≡ db.plans ++ new_plans
  pub new_approvals : List Approval
  pub approvals_grow : db'.approvals ≡ db.approvals ++ new_approvals

Authority-Grows :
    {db db' : Database} (approval_id : String) (plan : ActionPlan)
    → Grows db db'
    → Authority approval_id plan db
    → Authority approval_id plan db'
Authority-Grows {db} id plan g auth = record {
  approval = auth.approval;
  stored =
      rw g.approvals_grow (
        select-append_some (is_approval id) db.approvals g.new_approvals auth.approval auth.stored);
  approved = auth.approved;
  planned =
      rw g.plans_grow
        (select-append_some (is_plan auth.approval.plan_id) db.plans g.new_plans plan auth.planned);
}

pub Grows-IsLedger :
    {db db' : Database} (base : String → String → ℕ)
    → Grows db db'
    → IsLedger base db
    → IsLedger base db'
Grows-IsLedger {db} {db'} base g h = record {
  counted = λ m p x found. rw g.same_receipts (h.counted m p x (rw (← g.same_products) found));
  justified = λ key row found.
      let j = h.justified key row (rw (← g.same_receipts) found) in
      record {
        approval_id = j.approval_id;
        plan = j.plan;
        authority = Authority-Grows j.approval_id j.plan g j.authority;
        is_key = j.is_key;
      };
}

Grows-refl : (db : Database) → Grows db db
Grows-refl db = record {
  same_products = refl;
  same_receipts = refl;
  new_plans = [];
  plans_grow = sym (append-nil db.plans);
  new_approvals = [];
  approvals_grow = sym (append-nil db.approvals);
}

Grows-plan :
    (db : Database) (plan : ActionPlan) → Grows db (record db { plans = db.plans ++ plan ∷ [] })
Grows-plan db plan = record {
  same_products = refl;
  same_receipts = refl;
  new_plans = plan ∷ [];
  plans_grow = refl;
  new_approvals = [];
  approvals_grow = sym (append-nil db.approvals);
}

Grows-approval :
    (db : Database) (a : Approval) → Grows db (record db { approvals = db.approvals ++ a ∷ [] })
Grows-approval db a = record {
  same_products = refl;
  same_receipts = refl;
  new_plans = [];
  plans_grow = sym (append-nil db.plans);
  new_approvals = a ∷ [];
  approvals_grow = refl;
}

module _ (plan_id : String) (now : ℕ) (task_id merchant_id product_id : String)
    (patch : ProductPatch) (db : Database) where
  abbrev created : Database
  created = (create_plan plan_id now task_id merchant_id product_id patch db).1

  create_plan-product :
      (product : Product)
      → select (is_product merchant_id product_id) db.products ≡ some product
      → let plan = plan_for plan_id now task_id merchant_id product_id patch product in
        (created ≡ db) ⊎ (created ≡ record db { plans = db.plans ++ plan ∷ [] })
  unfolding create_plan
  create_plan-product product found = ground arith

  create_plan-no_product :
      select (is_product merchant_id product_id) db.products ≡ none → created ≡ db
  unfolding create_plan
  create_plan-no_product missing = ground arith

  pub create_plan-Grows : Grows db created
  create_plan-Grows = elim (Option-cases (select (is_product merchant_id product_id) db.products)) [
    | inl missing ↦ rw (create_plan-no_product missing) (Grows-refl db)
    | inr (product, found) ↦ elim (create_plan-product product found) [
      | inl same ↦ rw same (Grows-refl db)
      | inr grown ↦
          rw grown
            (Grows-plan db (plan_for plan_id now task_id merchant_id product_id patch product))
    ]
  ]

module _ (token : String) (now : ℕ) (task_id merchant_id plan_id : String) (plan_version : ℕ)
    (action_id : String) (decision : ApprovalDecision) (db : Database) where
  abbrev decided : Database
  decided =
      (record_approval token now task_id merchant_id plan_id plan_version action_id decision db).1

  abbrev row : Approval
  row = approval_row token now task_id merchant_id plan_id plan_version action_id decision

  record_approval_state :
      (decided ≡ db) ⊎ (decided ≡ record db { approvals = db.approvals ++ row ∷ [] })
  unfolding record_approval
  record_approval_state = ground arith

  pub record_approval-Grows : Grows db decided
  record_approval-Grows = elim record_approval_state [
    | inl same ↦ rw same (Grows-refl db)
    | inr grown ↦ rw grown (Grows-approval db row)
  ]
