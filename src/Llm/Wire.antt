-- ===== src/Llm/Wire.antt =====
-- `_wire_messages` of llm/client.py: the messages as the model's service takes them.
use e_commerce_agent.Base.{Bool, true, Option, none, some, List, [], ◌∷◌, ◌==◌}
use e_commerce_agent.Base.Json.{
  Json, str, arr, obj, Items, nil, cons, Fields, end, field, get_field, text_of,
}
use e_commerce_agent.Errors.{value_error}
use e_commerce_agent.Exec.{Exec, pure, raise, ◌>>=◌}
use e_commerce_agent.Agent.State.{ToolCall}
use package.e_commerce_agent.Llm.{Codec}

-- `ToolCall.model_validate`, by the three fields of the item.
abbrev validated : {S : Type 0} → Option Json → Option Json → Option Json → Exec S ToolCall
validated (some (str id)) (some (str name)) none =
    pure (record { call_id = id; name = name; arguments = end })
validated (some (str id)) (some (str name)) (some (obj arguments)) =
    pure (record { call_id = id; name = name; arguments = arguments })
validated id name arguments = raise (value_error "ToolCall")

unfoldable pub validate_call : {S : Type 0} → Json → Exec S ToolCall
unfolding get_field
validate_call (obj fs) =
    validated (get_field "call_id" fs) (get_field "name" fs) (get_field "arguments" fs)
validate_call v = raise (value_error "ToolCall")

unfoldable pub validate_calls : {S : Type 0} → Items → Exec S (List ToolCall)
unfolding validate_call
validate_calls nil = pure []
validate_calls (cons v vs) = do
  call ← validate_call v
  calls ← validate_calls vs
  pure (call ∷ calls)

abbrev present : Json → Option Json → Json
present default_ none = default_
present default_ (some v) = v

module _ (c : Codec) where
  unfoldable pub wire_call : ToolCall → Json
  wire_call call = obj (
      field "id" (str call.call_id) (
        field "type" (str "function") (
          field "function"
            (obj (
              field "name" (str call.name)
                (field "arguments" (str (c.dumps (obj call.arguments))) end)))
            end)))

  unfoldable pub wire_calls : List ToolCall → Items
  unfolding wire_call
  wire_calls [] = nil
  wire_calls (call ∷ calls) = cons (wire_call call) (wire_calls calls)

  -- The assistant's message, with the calls that it makes.
  abbrev assistant_wire : {S : Type 0} → Fields → Items → Exec S Fields
  assistant_wire message items = do
    calls ← validate_calls items
    pure (
        field "role" (str "assistant") (
          field "content" (present (str "") (get_field "content" message))
            (field "tool_calls" (arr (wire_calls calls)) end)))

  abbrev wire_if : {S : Type 0} → Bool → Fields → Option Json → Exec S Fields
  wire_if true message (some (arr items)) = assistant_wire message items
  wire_if is_assistant message calls = pure message

  unfoldable pub wire_message : {S : Type 0} → Fields → Exec S Fields
  unfolding get_field text_of wire_calls validate_calls
  wire_message message =
      wire_if (text_of c.repr (present (str "") (get_field "role" message)) == "assistant") message
        (get_field "tool_calls" message)

  unfoldable pub wire_messages : {S : Type 0} → List Fields → Exec S Items
  unfolding wire_message
  wire_messages [] = pure nil
  wire_messages (m ∷ ms) = do
    message ← wire_message m
    messages ← wire_messages ms
    pure (cons (obj message) messages)
