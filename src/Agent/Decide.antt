-- ===== src/Agent/Decide.antt =====
-- `_plan_node` and `_approval_node` of agent/graph.py.
use e_commerce_agent.Base.{String, ◌<>◌, Option, none, some, ◌==◌, not, if◌then◌else◌}
use e_commerce_agent.Base.Decimal.{decimal}
use e_commerce_agent.Base.Json.{bool, num, str, Fields, field, end}
use e_commerce_agent.Domain.{RunStatus, ProductPatch, ActionPlan, reject, same_decision}
use e_commerce_agent.Errors.{app_error, value_error}
use e_commerce_agent.Exec.{Exec, pure, raise, require, ensure, ◌>>=◌, ◌>>◌}
use e_commerce_agent.Commerce
use e_commerce_agent.Commerce.Actions.{apply_approved_plan}
use e_commerce_agent.Platform.{Platform}
use e_commerce_agent.World.{World, new_token, append_event, on_commerce}
use e_commerce_agent.Agent.State.{
  AgentState, Kit, unparsed, parsed, NodeResult, advanced, interrupted, Resumption,
  require_product_id,
}

abbrev pub approval_interaction : ActionPlan → Fields
approval_interaction plan = field "type" (str "approval.required") (
    field "plan_id" (str plan.plan_id) (
      field "plan_version" (num plan.plan_version) (
        field "action_id" (str plan.action_id) (
          field "product_id" (str plan.product_id) (
            field "product_version" (num plan.product_version) (
              field "before" (str plan.before_value)
                (field "after" (str plan.after_value) (field "reason" (str plan.reason) end))))))))

abbrev text_or_empty : Option String → String
text_or_empty none = ""
text_or_empty (some s) = s

module _ (p : Platform) where
  unfoldable pub make_plan : AgentState → String → ProductPatch → Exec (World p) ActionPlan
  unfolding new_token on_commerce
  make_plan s product_id patch = do
    token ← new_token p
    λ w. on_commerce p (Commerce.create_plan token w.now s.task_id s.merchant_id product_id patch) w

  -- The part of the plan node below the rendering.
  unfoldable pub propose : AgentState → String → Option ProductPatch → Exec (World p) NodeResult
  unfolding require_product_id make_plan
  propose s text none = pure (
      advanced (record s {
        final_status = some RunStatus.completed;
        final_output = some text;
        interaction = none;
      }))
  propose s text (some patch) = do
    product_id ← require_product_id s
    plan ← make_plan s product_id patch
    pure (
        advanced
          (record s { final_output = some text; interaction = some (approval_interaction plan) }))

  unfoldable pub plan_node : Kit p → AgentState → Exec (World p) NodeResult
  unfolding propose
  plan_node kit s = elim s.diagnosis [
    | some (parsed d) ↦ do text ← kit.render s d; propose s text d.proposed_patch
    | some (unparsed text) ↦ raise (value_error "ValidationError")
    | none ↦ raise (value_error "ValidationError")
  ]

  unfoldable pub refuse_plan : AgentState → Commerce.Approval → Exec (World p) NodeResult
  unfolding append_event
  refuse_plan s approval = do
    append_event p s.task_id "approval.rejected"
        (field "node_name" (str "approval") (field "plan_id" (str approval.plan_id) end))
    pure (
        advanced (record s {
          final_status = some RunStatus.rejected;
          final_output = some (text_or_empty s.final_output <> "\n\n商家已拒绝执行商品修改。");
        }))

  unfoldable pub apply_plan : AgentState → String → Commerce.Approval → Exec (World p) NodeResult
  unfolding new_token on_commerce append_event
  apply_plan s approval_id approval = do
    token ← new_token p
    receipt ← λ w. on_commerce p (apply_approved_plan token w.now approval_id) w
    append_event p s.task_id "action.applied" (
        field "node_name" (str "execute") (
          field "plan_id" (str approval.plan_id) (
            field "action_id" (str approval.action_id) (
              field "receipt_id" (str receipt.receipt_id) (
                field "product_version" (num receipt.product_version)
                  (field "idempotency_hit" (bool (not receipt.applied)) end))))))
    pure (
        advanced (record s {
          final_status = some RunStatus.completed;
          final_output = some (
              text_or_empty s.final_output
              <> ("\n\n执行结果：商品详情已按批准计划更新。 回执 "
                  <> (receipt.receipt_id
                      <> ("，商品版本 " <> (decimal receipt.product_version <> "。")))));
        }))

  -- The merchant has decided.
  unfoldable pub approval_answered : AgentState → Resumption → Exec (World p) NodeResult
  unfolding Commerce.get_approval refuse_plan apply_plan
  approval_answered s c = do
    ensure (c.kind == "approval") (app_error "INVALID_APPROVAL_RESUME" "审批恢复参数无效" 422)
    λ w.
        (do
          approval ←
              require (app_error "APPROVAL_NOT_FOUND" "审批记录不存在" 404)
                (Commerce.get_approval c.id w.commerce)
          if same_decision approval.decision reject
              then refuse_plan s approval
              else apply_plan s c.id approval)
          w

  unfoldable pub approval_node : Option Resumption → AgentState → Exec (World p) NodeResult
  unfolding approval_answered
  approval_node c s = do
    interaction ← require (app_error "APPROVAL_STATE_MISSING" "批准上下文丢失" 500) s.interaction
    elim c [ none ↦ pure (interrupted interaction) | some answer ↦ approval_answered s answer ]
