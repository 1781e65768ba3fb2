-- ===== src/Agent/Tools.antt =====
-- `_tool_node` and `_execute_tool` of agent/graph.py. The calls of a turn, which the source awaits
-- together, run in their order.
use e_commerce_agent.Base.{
  ◌≡◌, Option-cases, Bool-cases, inl, inr, refl, arith, true, false, String, Bool, not, ◌&&◌, ◌||◌,
  Option, none, some, List, [], ◌∷◌, ◌++◌, ◌<>◌, ◌==◌,
}
use e_commerce_agent.Base.Json.{
  Json, null, nil, str, arr, obj, Fields, field, end, get_field, is_text,
}
use e_commerce_agent.Errors.{err, Error, app_error, timeout_error, unexpected, value_error}
use e_commerce_agent.Exec.{Exec, pure, raise, require, ensure, catch, ◌>>=◌, ◌>>◌}
use e_commerce_agent.Platform.{Platform}
use e_commerce_agent.World.{World, append_event}
use e_commerce_agent.Agent.State.{
  AgentState, Message, ToolCall, Kit, NodeResult, advanced, require_product_id, user_message,
  assistant_message, tool_message,
}

-- `type(exc).__name__`
abbrev error_name : Error → String
error_name (app_error c m s) = "AppError"
error_name (Error.task_not_found t) = "TaskNotFoundError"
error_name (Error.task_not_resumable t) = "TaskNotResumableError"
error_name (Error.task_state_conflict m) = "TaskStateConflictError"
error_name Error.merchant_forbidden = "MerchantForbiddenError"
error_name (Error.agent_loop_detected m) = "AgentLoopDetectedError"
error_name (Error.dependency_error c m) = "DependencyError"
error_name (value_error m) = "ValueError"
error_name timeout_error = "TimeoutError"
error_name (unexpected name) = name

-- The tools that read the data of one product.
abbrev pub is_scoped : ToolCall → Bool
is_scoped call = call.name == "get_metrics" || call.name == "get_product_context"

abbrev pub names_merchant : AgentState → ToolCall → Bool
names_merchant s call = is_text s.merchant_id (get_field "merchant_id" call.arguments)

abbrev pub names_product : String → ToolCall → Bool
names_product product_id call = is_text product_id (get_field "product_id" call.arguments)

abbrev pub or_else : Json → Option Json → Json
or_else otherwise none = otherwise
or_else otherwise (some v) = v

module _ (p : Platform) (kit : Kit p) where
  -- `tool.started`, the run of the tool, and what became of it.
  unfoldable pub run_tool :
      AgentState → ToolCall → (Fields → Exec (World p) Fields) → Exec (World p) Message
  unfolding append_event
  run_tool s call execute = do
    append_event p s.task_id "tool.started"
        (field "tool_name" (str call.name) (field "tool_call_id" (str call.call_id) end))
    result ← catch (execute call.arguments) (λ e. do
      append_event p s.task_id "tool.failed" (
          field "tool_name" (str call.name)
            (field "tool_call_id" (str call.call_id) (field "error" (str (error_name e)) end)))
      raise e)
    append_event p s.task_id "tool.completed" (
        field "tool_name" (str call.name) (
          field "tool_call_id" (str call.call_id) (
            field "evidence_ids" (or_else (arr nil) (get_field "evidence_ids" result))
              (field "snapshot_id" (or_else null (get_field "snapshot_id" result)) end))))
    pure (tool_message call.call_id call.name (obj result))

  unfoldable pub execute_tool : AgentState → ToolCall → Exec (World p) Message
  unfolding require_product_id run_tool
  execute_tool s call = do
    execute ← require (app_error "TOOL_NOT_FOUND" ("未知读工具：" <> call.name) 422) (kit.tool call.name)
    product_id ← require_product_id s
    ensure (not (is_scoped call && not (names_merchant s call)))
        (app_error "MERCHANT_FORBIDDEN" "工具参数不能覆盖认证商家" 403)
    ensure (not (is_scoped call && not (names_product product_id call)))
        (app_error "PRODUCT_SCOPE_FORBIDDEN" "工具参数不能越过当前商品范围" 403)
    run_tool s call execute

  unfoldable pub execute_tools : AgentState → List ToolCall → Exec (World p) (List Message)
  unfolding execute_tool
  execute_tools s [] = pure []
  execute_tools s (call ∷ calls) = do
    message ← execute_tool s call
    messages ← execute_tools s calls
    pure (message ∷ messages)

  abbrev last_calls : List Message → Option (List ToolCall)
  last_calls [] = none
  last_calls (assistant_message content calls ∷ []) = some calls
  last_calls (user_message content ∷ []) = some []
  last_calls (tool_message call_id name content ∷ []) = some []
  last_calls (m ∷ n ∷ ms) = last_calls (n ∷ ms)

  unfoldable pub tool_node : AgentState → Exec (World p) NodeResult
  unfolding execute_tools
  tool_node s = do
    calls ← require (unexpected "IndexError") (last_calls s.messages)
    messages ← execute_tools s calls
    pure (advanced (record s { messages = s.messages ++ messages }))

  -- A call of a tool that reads a product's data, whose arguments name another merchant than the
  -- task's, or another product, is refused before the tool runs, and changes nothing.
  pub execute_tool-refuses :
      (s : AgentState) (call : ToolCall) (product_id : String) (w : World p)
      → s.product_id ≡ some product_id
      → is_scoped call ≡ true
      → (names_merchant s call && names_product product_id call) ≡ false
      → (e : Error) × (execute_tool s call w ≡ (err e, w))
  unfolding execute_tool require_product_id
  execute_tool-refuses s call product_id w h scoped other =
      elim (Option-cases (kit.tool call.name)) [
        | inl missing ↦ (app_error "TOOL_NOT_FOUND" ("未知读工具：" <> call.name) 422, rw missing refl)
        | inr (execute, found) ↦ elim (Bool-cases (product_id == "")) [
          | inl blank ↦
              (app_error "PRODUCT_SCOPE_MISSING" "商品范围尚未确定" 422, rw (found, h) (rw blank refl))
          | inr given ↦ elim (Bool-cases (names_merchant s call)) [
            | inr foreign ↦
                (app_error "MERCHANT_FORBIDDEN" "工具参数不能覆盖认证商家" 403, ground (arith, found, h))
            | inl own ↦
                (app_error "PRODUCT_SCOPE_FORBIDDEN" "工具参数不能越过当前商品范围" 403, ground (arith, found, h))
          ]
        ]
      ]
