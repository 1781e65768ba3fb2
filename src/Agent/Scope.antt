-- ===== src/Agent/Scope.antt =====
-- `_scope_node` and `_metrics_node` of agent/graph.py.
use e_commerce_agent.Base.{
  String, ◌<>◌, Option, none, some, List, [], ◌∷◌, ◌++◌, ◌==◌, if◌then◌else◌,
}
use e_commerce_agent.Base.Json.{
  Json, Items, nil, cons, str, num, arr, obj, Fields, field, end, get_field,
}
use e_commerce_agent.Commerce.{Product}
use e_commerce_agent.Commerce.Catalog.{resolve_product, offers}
use e_commerce_agent.Errors.{app_error, unexpected}
use e_commerce_agent.Exec.{Exec, pure, require, ensure, ◌>>=◌, ◌>>◌}
use e_commerce_agent.Platform.{Platform}
use e_commerce_agent.World.{World, append_event}
use e_commerce_agent.Agent.State.{
  AgentState, Kit, NodeResult, advanced, interrupted, Resumption, require_product_id, user_message,
}

-- The columns that the query selects.
abbrev candidate : Product → Json
candidate a = obj (
    field "product_id" (str a.product_id)
      (field "name" (str a.name) (field "version" (num a.version) end)))

abbrev candidates : List Product → Items
candidates [] = nil
candidates (a ∷ l) = cons (candidate a) (candidates l)

abbrev input_required : List Product → Fields
input_required found = field "type" (str "input.required") (
    field "field" (str "product_id")
      (field "message" (str "请确认要诊断的商品") (field "candidates" (arr (candidates found)) end)))

module _ (p : Platform) where
  unfoldable pub candidates_for : String → String → Exec (World p) (List Product)
  candidates_for merchant_id query w = (resolve_product p merchant_id query w.commerce, w)

  unfoldable pub scope_resolved : AgentState → String → Exec (World p) NodeResult
  scope_resolved s product_id = do
    append_event p s.task_id "graph.scope_resolved" (
        field "node_name" (str "scope")
          (field "merchant_id" (str s.merchant_id) (field "product_id" (str product_id) end)))
    pure (advanced (record s { product_id = some product_id }))

  -- The merchant was asked, and this is the answer.
  unfoldable pub scope_chosen : AgentState → Resumption → Exec (World p) NodeResult
  scope_chosen s c = do
    ensure (c.kind == "input") (app_error "INVALID_INPUT_RESUME" "商品选择恢复参数无效" 422)
    found ← candidates_for s.merchant_id c.id
    ensure (offers c.id found) (app_error "PRODUCT_NOT_FOUND" "所选商品不存在" 404)
    scope_resolved s c.id

  abbrev ask_scope : Option Resumption → AgentState → List Product → Exec (World p) NodeResult
  ask_scope c s (a ∷ []) = scope_resolved s a.product_id
  ask_scope none s found = pure (interrupted (input_required found))
  ask_scope (some c) s found = scope_chosen s c

  abbrev search_scope : Option Resumption → AgentState → Exec (World p) NodeResult
  search_scope c s = do found ← candidates_for s.merchant_id s.prompt; ask_scope c s found

  unfoldable pub scope_node : Option Resumption → AgentState → Exec (World p) NodeResult
  unfolding candidates_for scope_resolved scope_chosen
  scope_node c s = elim s.product_id [
    | none ↦ search_scope c s
    | some product_id ↦ if product_id == "" then search_scope c s else scope_resolved s product_id
  ]

  module _ (kit : Kit p) where
    abbrev task_context : AgentState → String → Fields → String
    task_context s product_id metrics =
        "以下是服务端固定的任务上下文，身份和指标不可由模型修改：\n<task_context>"
        <> (kit.dumps (
              obj (
                field "merchant_id" (str s.merchant_id)
                  (field "product_id" (str product_id) (field "metrics" (obj metrics) end))))
            <> "</task_context>")

    unfoldable pub metrics_node : AgentState → Exec (World p) NodeResult
    unfolding require_product_id append_event
    metrics_node s = do
      product_id ← require_product_id s
      metrics ← kit.read_metrics s.merchant_id product_id
      snapshot_id ← require (unexpected "KeyError") (get_field "snapshot_id" metrics)
      metric_version ← require (unexpected "KeyError") (get_field "metric_version" metrics)
      append_event p s.task_id "graph.metrics_computed" (
          field "node_name" (str "metrics")
            (field "snapshot_id" snapshot_id (field "metric_version" metric_version end)))
      pure (
          advanced (record s {
            metrics = metrics;
            messages = s.messages ++ user_message (task_context s product_id metrics) ∷ [];
          }))
