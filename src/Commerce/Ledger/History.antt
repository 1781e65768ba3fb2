-- ===== src/Commerce/Ledger/History.antt =====
-- The ledger over every history of calls.
use e_commerce_agent.Base.{ℕ, String, subst}
use e_commerce_agent.Commerce.{Database}
use e_commerce_agent.Commerce.Ledger.{Step, planned, decided, applied, Reach, here, next, IsLedger}
use e_commerce_agent.Commerce.Ledger.Plans.{
  Grows-IsLedger, create_plan-Grows, record_approval-Grows,
}
use e_commerce_agent.Commerce.Ledger.Writes.{apply_approved_plan-IsLedger}

pub Step-IsLedger :
    (base : String → String → ℕ) {db db' : Database}
    → Step db db'
    → IsLedger base db
    → IsLedger base db'
Step-IsLedger base {db} (planned id now t m p patch e) h =
    subst (IsLedger base) e (Grows-IsLedger base (create_plan-Grows id now t m p patch db) h)
Step-IsLedger base {db} (decided id now t m p v a d e) h =
    subst (IsLedger base) e (Grows-IsLedger base (record_approval-Grows id now t m p v a d db) h)
Step-IsLedger base {db} (applied t now id e) h =
    subst (IsLedger base) e (apply_approved_plan-IsLedger base t now id db h)

-- Every history of calls of `create_plan`, `record_approval` and `apply_approved_plan`, with any
-- arguments and whether each returns or raises, keeps the ledger: the version of every product is its
-- base version plus the number of its receipts, and every receipt's key is that of a plan which a
-- stored approval with the decision `approve` names.
pub Reach-IsLedger :
    (base : String → String → ℕ) {db db' : Database}
    → Reach db db'
    → IsLedger base db
    → IsLedger base db'
Reach-IsLedger base here h = h
Reach-IsLedger base (next r s) h = Step-IsLedger base s (Reach-IsLedger base r h)
