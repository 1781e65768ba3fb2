-- ===== src/Examples/Ledger.antt =====
-- A plan, its approval and its execution, on a shop with one product.
use e_commerce_agent.Base.{
  filter, All, ℕ, ◌≡◌, refl, ap, String, some, [], ◌∷◌, arith, true, false, any, select, update,
}
use e_commerce_agent.Domain.{ActionPlan, ActionReceipt, ProductPatch, approve, reject}
use e_commerce_agent.Errors.{ok, err}
use e_commerce_agent.Commerce.{Database, create_plan}
use e_commerce_agent.Commerce.Proposal.{create_plan_once}
use e_commerce_agent.Commerce.Approvals.{
  record_approval, approval_row, record_approval_final, record_approval_matches_plan,
  approval_conflict, is_plan_for, Recorded,
}
use e_commerce_agent.Commerce.Actions.{
  apply_approved_plan, receipt_from_row, receipt_row, idempotency_key, rewrite,
}
use e_commerce_agent.Base.Decimal.{decimal}
use e_commerce_agent.Commerce.Actions.Effect.{Effect, apply_approved_plan-Effect}
use e_commerce_agent.Commerce.Actions.Once.{apply_approved_plan_once}
use e_commerce_agent.Commerce.Ledger.{planned, decided, applied, here, next, IsLedger, receipts_for}
use e_commerce_agent.Commerce.Ledger.History.{Reach-IsLedger}
use e_commerce_agent.Commerce.Catalog.{
  resolve_product, order_by_id, found_or_error, place, owned_by, IsEmpty, resolve_product_owned,
}
use e_commerce_agent.Examples.Setting.{platform, shop, lamp, patch, plan, planned_shop}
use e_commerce_agent.Platform.{confirmed}

abbrev approved_shop : Database
approved_shop = record planned_shop {
  approvals = approval_row "ap1" 2 "t1" "m1" "plan1" 1 "update_description" approve ∷ [];
}

abbrev written_shop : Database
written_shop = record approved_shop {
  products = rewrite plan 2 lamp ∷ [];
  receipts = receipt_row "rc1" 3 plan 2 ∷ [];
}

abbrev receipt : ActionReceipt
receipt = record {
  receipt_id = "rc1";
  idempotency_key = "m1:t1:1:update_description";
  merchant_id = "m1";
  product_id = "p1";
  action_id = "update_description";
  product_version = 2;
  applied = true;
  created_at = 3;
}

create_plan_test : create_plan "plan1" 1 "t1" "m1" "p1" patch shop ≡ (ok plan, planned_shop)
unfolding create_plan any select
create_plan_test = refl

record_approval_test :
    record_approval "ap1" 2 "t1" "m1" "plan1" 1 "update_description" approve planned_shop
    ≡ (ok "ap1", approved_shop)
unfolding record_approval any select
record_approval_test = refl

apply_approved_plan_test :
    apply_approved_plan "rc1" 3 "ap1" approved_shop ≡ (ok receipt, written_shop)
unfolding apply_approved_plan receipt_from_row idempotency_key any select update decimal
apply_approved_plan_test = refl

abbrev base : String → String → ℕ
base merchant_id product_id = 1

shop-IsLedger : IsLedger base shop
unfolding select receipts_for
shop-IsLedger = record {
  counted = λ m p product found. ground arith;
  justified = λ key row found. absurd (ground arith);
}

Reach-IsLedger_example : IsLedger base written_shop
Reach-IsLedger_example =
    Reach-IsLedger base
      (next
        (next (next here (planned "plan1" 1 "t1" "m1" "p1" patch (ap (λ r. r.1) create_plan_test)))
          (decided "ap1" 2 "t1" "m1" "plan1" 1 "update_description" approve
            (ap (λ r. r.1) record_approval_test)))
        (applied "rc1" 3 "ap1" (ap (λ r. r.1) apply_approved_plan_test)))
      shop-IsLedger

apply_approved_plan-Effect_example : Effect "ap1" receipt approved_shop written_shop
apply_approved_plan-Effect_example =
    apply_approved_plan-Effect "rc1" 3 "ap1" approved_shop written_shop receipt
      apply_approved_plan_test

apply_approved_plan_once_example :
    apply_approved_plan "rc2" 8 "ap1" written_shop
    ≡ (ok (record receipt { applied = false }), written_shop)
apply_approved_plan_once_example =
    apply_approved_plan_once "rc1" "rc2" 3 8 "ap1" approved_shop written_shop receipt
      apply_approved_plan_test

record_approval_final_example :
    record_approval "ap2" 5 "t1" "m1" "plan1" 1 "update_description" reject approved_shop
    ≡ (err approval_conflict, approved_shop)
record_approval_final_example =
    record_approval_final "ap1" "ap2" 2 5 "t1" "m1" "plan1" 1 "update_description" approve reject
      planned_shop approved_shop "ap1" record_approval_test

record_approval_matches_plan_example :
    (found : ActionPlan) × (select (is_plan_for "plan1" "t1") planned_shop.plans ≡ some found)
    × (found.merchant_id ≡ "m1")
    × (found.plan_version ≡ 1)
    × (found.action_id ≡ "update_description")
    × Recorded "t1" found approve "ap1" planned_shop approved_shop
record_approval_matches_plan_example =
    record_approval_matches_plan "ap1" 2 "t1" "m1" "plan1" 1 "update_description" approve
      planned_shop approved_shop "ap1" record_approval_test

resolve_product_test : resolve_product (platform confirmed) "m1" "" shop ≡ ok (lamp ∷ [])
unfolding resolve_product order_by_id filter found_or_error place
resolve_product_test = refl

resolve_product_owned_example :
    All (λ a. owned_by "m1" a ≡ true) (lamp ∷ []) × ¬ IsEmpty (lamp ∷ [])
resolve_product_owned_example =
    resolve_product_owned (platform confirmed) "m1" "" shop (lamp ∷ []) resolve_product_test

abbrev other_patch : ProductPatch
other_patch = record {
  field_name = "description";
  new_value = "a lamp for desks";
  reason = "reviews";
}

create_plan_once_example :
    create_plan "plan2" 9 "t1" "m1" "p1" other_patch planned_shop ≡ (ok plan, planned_shop)
create_plan_once_example =
    create_plan_once "plan1" "plan2" 1 9 "t1" "m1" "m1" "p1" "p1" patch other_patch plan shop
      planned_shop create_plan_test
