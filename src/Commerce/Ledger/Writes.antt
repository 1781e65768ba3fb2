-- ===== src/Commerce/Ledger/Writes.antt =====
-- Applying an approved plan keeps the ledger: one receipt and one version, for one product.
use e_commerce_agent.Base.{
  ℕ, ◌+◌, ◌≡◌, ◌≢◌, ◌⊎◌, refl, inl, inr, sym, subst, ◌∙◌, String, false, some, List, [], ◌∷◌, ◌++◌,
  arith, eq_iff, eq_refl, select, select-append_other, Bool-cases, Option-cases, if◌then◌else◌,
}
use e_commerce_agent.Exec.{outcome_cases}
use e_commerce_agent.Domain.{ActionPlan, ActionReceipt}
use e_commerce_agent.Commerce.{Product, ReceiptRow, Database, is_product, has_key}
use e_commerce_agent.Commerce.Actions.{idempotency_key, receipt_row, apply_approved_plan}
use e_commerce_agent.Commerce.Actions.Inversion.{
  Authority, Writes, written, Applied, repeated, performed, apply_approved_plan-Applied,
  apply_approved_plan-eq-err,
}
use e_commerce_agent.Commerce.Actions.Once.{Authority-written}
use e_commerce_agent.Commerce.Actions.Effect.{written_target, written_elsewhere}
use e_commerce_agent.Commerce.Ledger.{is_receipt_for, receipts_for, Justified, IsLedger}

receipts_for-append :
    (m p : String) (rs : List ReceiptRow) (r : ReceiptRow)
    → receipts_for m p (rs ++ r ∷ [])
      ≡ receipts_for m p rs + (if is_receipt_for m p r then 1 else 0)
unfolding receipts_for
receipts_for-append m p [] r = ground arith
receipts_for-append m p (x ∷ rs) r = ground (arith, receipts_for-append m p rs r)

module _ (base : String → String → ℕ) (receipt_id : String) (now : ℕ) (approval_id : String)
    (plan : ActionPlan) (product : Product) (db : Database) (auth : Authority approval_id plan db)
    (writes : Writes plan product db) (h : IsLedger base db) where
  abbrev after : Database
  after = written receipt_id now plan product db

  abbrev row : ReceiptRow
  row = receipt_row receipt_id now plan (product.version + 1)

  abbrev Counted : String → String → Type 0
  Counted m p =
      (x : Product)
      → select (is_product m p) after.products ≡ some x
      → x.version ≡ base m p + receipts_for m p after.receipts

  Counted-here : Counted plan.merchant_id plan.product_id
  Counted-here x found = ground (
    arith,
    written_target receipt_id now plan product db writes,
    h.counted plan.merchant_id plan.product_id product writes.found,
    receipts_for-append plan.merchant_id plan.product_id db.receipts row,
    eq_refl plan.merchant_id,
    eq_refl plan.product_id,
  )

  Counted-elsewhere :
      (m p : String)
      → (m ≢ plan.merchant_id) ⊎ (p ≢ plan.product_id)
      → is_receipt_for m p row ≡ false
      → Counted m p
  Counted-elsewhere m p other no_match x found = ground (
    arith,
    h.counted m p x
        (sym (written_elsewhere receipt_id now plan product db writes m p other) ∙ found),
    receipts_for-append m p db.receipts row,
  )

  Counted-after : (m p : String) → Counted m p
  Counted-after m p = elim (Bool-cases (is_receipt_for m p row)) [
    | inl same ↦
        subst (λ m. Counted m p) (ground (arith, eq_iff plan.merchant_id m))
          (subst (λ p. Counted plan.merchant_id p) (ground (arith, eq_iff plan.product_id p))
            Counted-here)
    | inr other ↦
        Counted-elsewhere m p (ground (arith, eq_iff plan.merchant_id m, eq_iff plan.product_id p))
          other
  ]

  Justified-new : Justified (idempotency_key plan) after
  Justified-new = record {
    approval_id = approval_id;
    plan = plan;
    authority = Authority-written receipt_id now approval_id plan plan product db auth;
    is_key = refl;
  }

  Justified-old : (key : String) → Justified key db → Justified key after
  Justified-old key j = record {
    approval_id = j.approval_id;
    plan = j.plan;
    authority = Authority-written receipt_id now j.approval_id j.plan plan product db j.authority;
    is_key = j.is_key;
  }

  Justified-after :
      (key : String) (r : ReceiptRow)
      → select (has_key key) after.receipts ≡ some r
      → Justified key after
  Justified-after key r found = elim (Option-cases (select (has_key key) db.receipts)) [
    | inr (old, was) ↦ Justified-old key (h.justified key old was)
    | inl missing ↦ elim (Bool-cases (has_key key row)) [
      | inl same ↦
          subst (λ k. Justified k after) ((eq_iff (idempotency_key plan) key).0 same) Justified-new
      | inr other ↦
          absurd (ground (arith, select-append_other (has_key key) db.receipts row missing other))
    ]
  ]

  pub written-IsLedger : IsLedger base after
  written-IsLedger = record { counted = Counted-after; justified = Justified-after }

Applied-IsLedger :
    (base : String → String → ℕ) (receipt_id : String) (now : ℕ) (approval_id : String)
    (db db' : Database) (receipt : ActionReceipt)
    → Applied receipt_id now approval_id db receipt db'
    → IsLedger base db
    → IsLedger base db'
Applied-IsLedger base t now id db db' r (repeated plan row auth found is_receipt same) h = rw same h
Applied-IsLedger base t now id db db' r (performed plan product auth writes is_receipt same) h =
    rw same (written-IsLedger base t now id plan product db auth writes h)

pub apply_approved_plan-IsLedger :
    (base : String → String → ℕ) (receipt_id : String) (now : ℕ) (approval_id : String)
    (db : Database)
    → IsLedger base db
    → IsLedger base (apply_approved_plan receipt_id now approval_id db).1
apply_approved_plan-IsLedger base t now id db h =
    elim (outcome_cases (apply_approved_plan t now id db)) [
      | inl (r, db', e) ↦ rw e (
          Applied-IsLedger base t now id db db' r (apply_approved_plan-Applied t now id db db' r e)
            h)
      | inr (x, db', e) ↦ rw (e, apply_approved_plan-eq-err t now id db db' x e) h
    ]
