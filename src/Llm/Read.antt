-- ===== src/Llm/Read.antt =====
-- What `complete` of llm/client.py reads of a response.
use e_commerce_agent.Base.{
  ℕ, suc, ◌+◌, String, ◌<>◌, Bool, true, false, not, ◌||◌, Option, none, some, List, [], ◌∷◌, ◌==◌,
  eqb, if◌then◌else◌,
}
use e_commerce_agent.Base.Decimal.{decimal}
use e_commerce_agent.Base.Json.{
  Json, null, bool, num, float, str, arr, obj, Items, nil, cons, Fields, end, get_field, text_of,
}
use e_commerce_agent.Errors.{Error, dependency_error, unexpected}
use e_commerce_agent.Exec.{Exec, pure, raise, require, ensure, ◌>>=◌, ◌>>◌}
use e_commerce_agent.Agent.State.{AssistantTurn, ToolCall}
use package.e_commerce_agent.Llm.{Codec}

-- `bool(value)`
abbrev pub truthy : Json → Bool
truthy null = false
truthy (bool b) = b
truthy (num n) = not (eqb n 0)
truthy (float t) = not (t == "0.0" || t == "-0.0")
truthy (str s) = not (s == "")
truthy (arr nil) = false
truthy (arr (cons v vs)) = true
truthy (obj end) = false
truthy (obj fs) = true

abbrev present : Json → Option Json → Json
present default_ none = default_
present default_ (some v) = v

-- `value or other`
abbrev pub or_other : Json → Json → Json
or_other value other = if truthy value then value else other

-- `value.get(key, default)`
unfoldable pub get_or : {S : Type 0} → Json → String → Json → Exec S Json
unfolding get_field
get_or default_ key (obj fs) = pure (present default_ (get_field key fs))
get_or default_ key v = raise (unexpected "AttributeError")

abbrev pub invalid_arguments : String → Error
invalid_arguments = dependency_error "MODEL_INVALID_TOOL_ARGUMENTS"

abbrev pub as_arguments : {S : Type 0} → Json → Exec S Fields
as_arguments (obj fs) = pure fs
as_arguments v = raise (invalid_arguments "模型工具参数必须是 JSON 对象")

-- `choices[0]`
abbrev first_choice : {S : Type 0} → Json → Exec S Json
first_choice (arr (cons v vs)) = pure v
first_choice (str s) = raise (unexpected "AttributeError")
first_choice (obj fs) = raise (unexpected "KeyError")
first_choice v = raise (unexpected "TypeError")

-- `for raw_call in …`
abbrev items_of : {S : Type 0} → Json → Exec S Items
items_of (arr vs) = pure vs
items_of (str s) = raise (unexpected "AttributeError")
items_of (obj fs) = raise (unexpected "AttributeError")
items_of v = raise (unexpected "TypeError")

abbrev optional_text : String → Option String
optional_text s = if s == "" then none else some s

module _ (c : Codec) where
  unfoldable pub arguments_of : {S : Type 0} → Json → Exec S Fields
  unfolding text_of
  arguments_of (obj fs) = pure fs
  arguments_of v = do
    parsed ← require (invalid_arguments "模型返回了无法解析的工具参数") (c.loads (text_of c.repr v))
    as_arguments parsed

  -- One turn of the loop, `count` calls having been read before.
  unfoldable pub read_call : {S : Type 0} → ℕ → Json → Exec S ToolCall
  unfolding get_or arguments_of text_of
  read_call count raw_call = do
    function ← get_or (obj end) "function" raw_call
    raw_arguments ← get_or (str "{}") "arguments" function
    arguments ← arguments_of raw_arguments
    id ← get_or null "id" raw_call
    name ← get_or (str "") "name" function
    pure (record {
      call_id = text_of c.repr (or_other id (str ("call-" <> decimal (count + 1))));
      name = text_of c.repr name;
      arguments = arguments;
    })

  unfoldable pub read_calls : {S : Type 0} → ℕ → Items → Exec S (List ToolCall)
  unfolding read_call
  read_calls count nil = pure []
  read_calls count (cons v vs) = do
    call ← read_call count v
    calls ← read_calls (suc count) vs
    pure (call ∷ calls)

  -- `_optional_int`
  unfoldable pub optional_int : Json → Option ℕ
  optional_int null = none
  optional_int v = c.int v

  -- The body of a response that is no error.
  unfoldable pub read_body : {S : Type 0} → Json → Exec S AssistantTurn
  unfolding get_or read_calls optional_int text_of
  read_body body = do
    choices ← get_or (arr nil) "choices" body
    ensure (truthy choices) (dependency_error "MODEL_EMPTY_RESPONSE" "模型未返回 choices")
    choice ← first_choice choices
    message ← get_or (obj end) "message" choice
    raw_calls ← get_or (arr nil) "tool_calls" message
    items ← items_of (or_other raw_calls (arr nil))
    calls ← read_calls 0 items
    usage ← get_or (obj end) "usage" body
    content ← get_or null "content" message
    input ← get_or null "prompt_tokens" usage
    output ← get_or null "completion_tokens" usage
    reason ← get_or null "finish_reason" choice
    pure (record {
      content = text_of c.repr (or_other content (str ""));
      tool_calls = calls;
      input_tokens = optional_int input;
      output_tokens = optional_int output;
      finish_reason = optional_text (text_of c.repr (or_other reason (str "")));
    })
