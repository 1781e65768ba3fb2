-- ===== src/Agent/Model.antt =====
-- `_model_node` of agent/graph.py, and the guards against loops.
use e_commerce_agent.Base.{
  ℕ, ◌+◌, String, ◌<>◌, Bool, ◌&&◌, Option, none, some, List, [], ◌∷◌, ◌++◌, length, ltb, leb, eqb,
  not, ◌==◌, if◌then◌else◌,
}
use e_commerce_agent.Base.Decimal.{decimal}
use e_commerce_agent.Base.Json.{
  Json, null, Items, nil, cons, str, num, arr, obj, Fields, field, end, optional_text,
}
use e_commerce_agent.Errors.{app_error, agent_loop_detected}
use e_commerce_agent.Exec.{Exec, pure, ensure, ◌>>=◌, ◌>>◌}
use e_commerce_agent.Platform.{Platform}
use e_commerce_agent.World.{World, append_event}
use e_commerce_agent.Agent.State.{
  AgentState, AssistantTurn, ToolCall, Kit, Limits, Draft, unparsed, NodeResult, advanced,
  require_product_id, assistant_message,
}

abbrev submits : ToolCall → Bool
submits c = c.name == "submit_diagnosis"

unfoldable pub calls_where : (ToolCall → Bool) → List ToolCall → List ToolCall
calls_where test [] = []
calls_where test (c ∷ cs) = let rest = calls_where test cs in if test c then c ∷ rest else rest

-- `[{"name": …, "arguments": …} for call in calls]`
abbrev normalized : List ToolCall → Items
normalized [] = nil
normalized (c ∷ cs) =
    cons (obj (field "name" (str c.name) (field "arguments" (obj c.arguments) end))) (normalized cs)

abbrev names : List ToolCall → Items
names [] = nil
names (c ∷ cs) = cons (str c.name) (names cs)

abbrev optional_number : Option ℕ → Json
optional_number none = null
optional_number (some n) = num n

module _ (p : Platform) (kit : Kit p) (limits : Limits) where
  abbrev repetition : AgentState → List ToolCall → ℕ × String
  repetition s [] = (0, "")
  repetition s (c ∷ cs) =
      let signature = p.sha256 (kit.canonical (arr (normalized (c ∷ cs)))) in
      ((if signature == s.last_signature then s.repeated_steps + 1 else 1), signature)

  -- `_detect_repetition`
  unfoldable pub detect_repetition : AgentState → AssistantTurn → ℕ × String
  unfolding calls_where
  detect_repetition s turn = repetition s (calls_where (λ c. not (submits c)) turn.tool_calls)

  -- `_system_prompt`
  unfoldable pub system_prompt : AgentState → Exec (World p) String
  unfolding require_product_id
  system_prompt s = do
    product_id ← require_product_id s
    pure (
        "你是电商经营诊断 Agent。服务端已经固定商家、商品和指标口径。"
        <> ("只使用读工具查证库存、价格、评论、竞品和知识规则；不得请求或执行写操作。"
            <> ("区分事实、假设和缺口，不把算术贡献说成因果。"
                <> ("信息足够时必须单独调用 submit_diagnosis，不能输出自由文本作为最终答案。"
                    <> ("当前 Prompt 版本 "
                        <> (limits.prompt_version
                            <> ("，Skill 版本 "
                                <> (limits.skill_version
                                    <> ("。当前商家 "
                                        <> (s.merchant_id
                                            <> ("，商品 " <> (product_id <> "。"))))))))))))

  abbrev submitted : AssistantTurn → List ToolCall → Exec (World p) (Option Draft)
  submitted turn [] =
      pure
        (if eqb (length turn.tool_calls) 0 then some (unparsed "模型未调用 submit_diagnosis") else none)
  submitted turn (c ∷ cs) = do
    ensure (eqb (length (c ∷ cs)) 1 && eqb (length turn.tool_calls) 1)
        (app_error "INVALID_DIAGNOSIS_SUBMISSION" "submit_diagnosis 必须单独调用一次" 422)
    pure (some (kit.parse_diagnosis c.arguments))

  -- The diagnosis that a turn submits, if any.
  unfoldable pub draft_of : AssistantTurn → Exec (World p) (Option Draft)
  unfolding calls_where
  draft_of turn = submitted turn (calls_where submits turn.tool_calls)

  abbrev model_event : AgentState → AssistantTurn → Fields
  model_event s turn = field "node_name" (str "diagnose") (
      field "role" (str "main_agent") (
        field "iteration" (num (s.iteration + 1)) (
          field "reflection_count" (num s.reflection_count) (
            field "prompt_version" (str limits.prompt_version) (
              field "skill_version" (str limits.skill_version) (
                field "input_tokens" (optional_number turn.input_tokens) (
                  field "output_tokens" (optional_number turn.output_tokens) (
                    field "finish_reason" (optional_text turn.finish_reason)
                      (field "tool_calls" (arr (names turn.tool_calls)) end)))))))))

  abbrev after_turn : AgentState → AssistantTurn → Option Draft → AgentState
  after_turn s turn draft = record s {
    messages = s.messages ++ assistant_message turn.content turn.tool_calls ∷ [];
    diagnosis = draft;
    iteration = s.iteration + 1;
    repeated_steps = (detect_repetition s turn).0;
    last_signature = (detect_repetition s turn).1;
  }

  -- From the model's turn on.
  unfoldable pub take_turn : AgentState → AssistantTurn → Exec (World p) NodeResult
  unfolding detect_repetition draft_of append_event
  take_turn s turn = do
    ensure (leb (length turn.tool_calls) limits.max_tool_calls_per_turn)
        (agent_loop_detected ("单轮工具调用数超过上限 " <> decimal limits.max_tool_calls_per_turn))
    ensure (ltb (detect_repetition s turn).0 limits.max_repeated_steps)
        (agent_loop_detected ("连续 " <> (decimal limits.max_repeated_steps <> " 次产生相同工具调用，已终止")))
    draft ← draft_of turn
    append_event p s.task_id "agent.model" (model_event s turn)
    pure (advanced (after_turn s turn draft))

  unfoldable pub ask_model : AgentState → Exec (World p) NodeResult
  unfolding system_prompt take_turn
  ask_model s = do prompt ← system_prompt s; turn ← kit.complete s.messages prompt; take_turn s turn

  unfoldable pub model_node : AgentState → Exec (World p) NodeResult
  unfolding ask_model
  model_node s = do
    ensure (ltb s.iteration limits.max_iterations)
        (agent_loop_detected ("Agent 超过最大迭代次数 " <> decimal limits.max_iterations))
    ask_model s
