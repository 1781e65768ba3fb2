-- ===== src/Agent/Consent.antt =====
-- `_approval_node` of agent/graph.py writes only what a merchant has approved.
use e_commerce_agent.Base.{
  ◌≡◌, ◌⊎◌, inl, inr, refl, arith, some, select, Option-cases, Bool-cases, true, false, Option,
  ◌==◌, eq_iff,
}
use e_commerce_agent.Domain.{ApprovalDecision, approve, reject, same_decision}
use e_commerce_agent.Commerce
use e_commerce_agent.Commerce.{is_approval}
use e_commerce_agent.Platform.{Platform}
use e_commerce_agent.World.{World}
use e_commerce_agent.Agent.State.{AgentState, Resumption}
use e_commerce_agent.Agent.Decide.{approval_node, approval_answered, refuse_plan}

not_reject : (d : ApprovalDecision) → same_decision d reject ≡ false → d ≡ approve
not_reject approve h = refl
not_reject reject h = absurd (ground arith)

-- The answer names a stored approval with the decision `approve`.
pub record IsConsent (p : Platform) (c : Option Resumption) (w : World p) : Type 0 where
  pub answer : Resumption
  pub approval : Commerce.Approval
  pub is_answer : c ≡ some answer
  pub is_kind : answer.kind ≡ "approval"
  pub stored : select (is_approval answer.id) w.commerce.approvals ≡ some approval
  pub approved : approval.decision ≡ approve

module _ (p : Platform) (s : AgentState) where
  refuse_plan-commerce :
      (a : Commerce.Approval) (w : World p) → (refuse_plan p s a w).1.commerce ≡ w.commerce
  unfolding refuse_plan
  refuse_plan-commerce a w = ground arith

  abbrev pub Consented : Option Resumption → World p → World p → Type 0
  Consented c w w' = (w'.commerce ≡ w.commerce) ⊎ IsConsent p c w

  -- The answer is of the right kind and names a stored approval.
  approval_stored :
      (c : Resumption) (w : World p) (a : Commerce.Approval)
      → (c.kind == "approval") ≡ true
      → select (is_approval c.id) w.commerce.approvals ≡ some a
      → Consented (some c) w (approval_answered p s c w).1
  unfolding approval_answered Commerce.get_approval
  approval_stored c w a kind stored = elim (Bool-cases (same_decision a.decision reject)) [
    | inl refused ↦ inl (rw kind (rw stored (rw refused (refuse_plan-commerce a w))))
    | inr not_refused ↦ inr (record {
      answer = c;
      approval = a;
      is_answer = refl;
      is_kind = (eq_iff c.kind "approval").0 kind;
      stored = stored;
      approved = not_reject a.decision not_refused;
    })
  ]

  approval_answered-Consented :
      (c : Resumption) (w : World p) → Consented (some c) w (approval_answered p s c w).1
  unfolding approval_answered Commerce.get_approval
  approval_answered-Consented c w = elim (Bool-cases (c.kind == "approval")) [
    | inr other ↦ inl (rw other refl)
    | inl kind ↦ elim (Option-cases (select (is_approval c.id) w.commerce.approvals)) [
      | inl missing ↦ inl (rw kind (rw missing refl))
      | inr (a, stored) ↦ approval_stored c w a kind stored
    ]
  ]

  -- The approval node leaves the commerce database as it is, whether it returns, stops or raises,
  -- unless it was resumed with an answer of the kind `approval` that names a stored approval with the
  -- decision `approve`.
  pub approval_node-Consented :
      (c : Option Resumption) (w : World p) → Consented c w (approval_node p c s w).1
  unfolding approval_node
  approval_node-Consented c w = elim (Option-cases s.interaction) [
    | inl missing ↦ inl (rw missing refl)
    | inr (interaction, is_interaction) ↦ elim (Option-cases c) [
      | inl unanswered ↦ inl (rw (is_interaction, unanswered) refl)
      | inr (answer, answered) ↦
          rw (is_interaction, answered) (approval_answered-Consented answer w)
    ]
  ]
