-- ===== src/Agent/Reflect.antt =====
-- `_validation_node` of agent/graph.py.
use Prim.Native.String.{[] as empty, ◌∷◌ as ◌∷ˢ◌}
use e_commerce_agent.Base.{
  false, ◌+◌, String, ◌<>◌, Option, none, some, List, [], ◌∷◌, ◌++◌, ltb, ◌==◌, if◌then◌else◌,
}
use e_commerce_agent.Base.Json.{
  Json, bool, num, str, arr, obj, Items, nil, cons, Fields, field, end, get_field, text_of,
}
use e_commerce_agent.Errors.{app_error, unexpected}
use e_commerce_agent.Exec.{Exec, pure, raise, require, ◌>>=◌, ◌>>◌}
use e_commerce_agent.Platform.{Platform}
use e_commerce_agent.World.{World, append_event}
use e_commerce_agent.Agent.State.{
  AgentState, Message, ToolCall, Kit, Limits, unparsed, parsed, NodeResult, advanced, user_message,
  assistant_message, tool_message,
}
use e_commerce_agent.Agent.Diagnosis.{diagnosis_errors, join, is_empty}

-- The characters of a text, as Python iterates over it.
unfoldable pub letters : String → List String
letters empty = []
letters (c ∷ˢ s) = (c ∷ˢ "") ∷ letters s

abbrev texts : (Json → String) → Items → List String
texts shown nil = []
texts shown (cons v vs) = text_of shown v ∷ texts shown vs

abbrev keys : Fields → List String
keys end = []
keys (field k v fs) = k ∷ keys fs

-- `[str(item) for item in value]`; `none` is a value that cannot be iterated.
unfoldable pub listed : (Json → String) → Json → Option (List String)
unfolding text_of letters
listed shown (arr vs) = some (texts shown vs)
listed shown (str s) = some (letters s)
listed shown (obj fs) = some (keys fs)
listed shown v = none

-- `d.get("evidence_ids", [])`
abbrev evidence_in : (Json → String) → Fields → Option (List String)
evidence_in shown fs = elim (get_field "evidence_ids" fs) [
  | none ↦ some []
  | some v ↦ listed shown v
]

abbrev evidence_of : (Json → String) → Message → Option (List String)
evidence_of shown (tool_message call_id name (obj fs)) = evidence_in shown fs
evidence_of shown m = some []

abbrev both : Option (List String) → Option (List String) → Option (List String)
both none more = none
both (some l) none = none
both (some l) (some more) = some (l ++ more)

unfoldable pub evidence_in_messages : (Json → String) → List Message → Option (List String)
unfolding listed get_field
evidence_in_messages shown [] = some []
evidence_in_messages shown (m ∷ ms) = both (evidence_of shown m) (evidence_in_messages shown ms)

abbrev items : List String → Items
items [] = nil
items (x ∷ xs) = cons (str x) (items xs)

abbrev id_of_submission : List ToolCall → Option String
id_of_submission [] = none
id_of_submission (c ∷ cs) =
    if c.name == "submit_diagnosis" then some c.call_id else id_of_submission cs

-- `_diagnosis_tool_call_id`; the outer option is `messages[-1]` of an empty list.
unfoldable pub diagnosis_tool_call_id : List Message → Option (Option String)
diagnosis_tool_call_id [] = none
diagnosis_tool_call_id (assistant_message content calls ∷ []) = some (id_of_submission calls)
diagnosis_tool_call_id (user_message content ∷ []) = some none
diagnosis_tool_call_id (tool_message call_id name content ∷ []) = some none
diagnosis_tool_call_id (m ∷ n ∷ ms) = diagnosis_tool_call_id (n ∷ ms)

module _ (p : Platform) (kit : Kit p) (limits : Limits) where
  -- `_collect_evidence_ids`
  unfoldable pub collect_evidence_ids : AgentState → Option (List String)
  unfolding listed get_field evidence_in_messages
  collect_evidence_ids s =
      both (evidence_in p.repr s.metrics) (evidence_in_messages p.repr s.messages)

  abbrev schema_error : String
  schema_error = "submit_diagnosis 参数不符合 Diagnosis schema"

  -- `_validate_diagnosis`
  unfoldable pub validate_diagnosis : AgentState → Exec (World p) (List String)
  unfolding collect_evidence_ids diagnosis_errors
  validate_diagnosis s = elim s.diagnosis [
    | none ↦ pure (schema_error ∷ [])
    | some (unparsed text) ↦ pure (schema_error ∷ [])
    | some (parsed d) ↦ do
      known ← require (unexpected "TypeError") (collect_evidence_ids s)
      pure (diagnosis_errors known d)
  ]

  abbrev request : List String → Message
  request errors =
      user_message ("诊断校验失败，请只修正这些问题后重新调用 submit_diagnosis：" <> kit.dumps (arr (items errors)))

  abbrev correction : Option String → List String → List Message
  correction none errors = request errors ∷ []
  correction (some call_id) errors =
      tool_message call_id "submit_diagnosis"
        (obj (field "accepted" (bool false) (field "validation_errors" (arr (items errors)) end)))
      ∷ request errors
      ∷ []

  abbrev reflected : AgentState → List String → Option String → AgentState
  reflected s errors call_id = record s {
    diagnosis = none;
    validation_errors = errors;
    reflection_count = s.reflection_count + 1;
    messages = s.messages ++ correction call_id errors;
  }

  -- The model gets another turn to mend its diagnosis.
  unfoldable pub reflect : AgentState → List String → Exec (World p) NodeResult
  unfolding diagnosis_tool_call_id append_event
  reflect s errors = do
    call_id ← require (unexpected "IndexError") (diagnosis_tool_call_id s.messages)
    append_event p s.task_id "agent.reflection" (
        field "node_name" (str "validate") (
          field "reflection_count" (num (s.reflection_count + 1))
            (field "errors" (arr (items errors)) end)))
    pure (advanced (reflected s errors call_id))

  unfoldable pub validated : AgentState → Exec (World p) NodeResult
  unfolding append_event
  validated s = do
    append_event p s.task_id "graph.diagnosis_validated" (
        field "node_name" (str "validate") (
          field "reflection_count" (num s.reflection_count)
            (field "validation" (str "passed") end)))
    pure (advanced (record s { validation_errors = [] }))

  unfoldable pub give_up_validation : List String → Exec (World p) NodeResult
  unfolding join
  give_up_validation errors =
      raise (app_error "DIAGNOSIS_VALIDATION_FAILED" ("诊断在一次修正后仍未通过：" <> join "；" errors) 422)

  abbrev answer_validation : AgentState → List String → Exec (World p) NodeResult
  answer_validation s errors =
      if is_empty errors
      then validated s
      else if ltb s.reflection_count limits.max_reflections
      then reflect s errors
      else give_up_validation errors

  unfoldable pub validation_node : AgentState → Exec (World p) NodeResult
  unfolding validate_diagnosis reflect validated give_up_validation
  validation_node s = do errors ← validate_diagnosis s; answer_validation s errors
