-- ===== src/Llm/Client.antt =====
-- `OpenAICompatibleModelClient.complete` of llm/client.py.
use e_commerce_agent.Base.{
  ℕ, suc, String, ◌<>◌, Bool, false, not, ◌||◌, ◌&&◌, Option, List, [], ◌∷◌, eqb, leb,
}
use e_commerce_agent.Base.Decimal.{decimal}
use e_commerce_agent.Base.Json.{Json, num, str, arr, obj, Items, nil, cons, Fields, end, field}
use e_commerce_agent.Errors.{Error, Result, dependency_error, unexpected, value_error}
use e_commerce_agent.Exec.{Exec, raise, require, ensure, ◌>>=◌, ◌>>◌}
use e_commerce_agent.Agent.State.{AssistantTurn}
use package.e_commerce_agent.Llm.{Codec}
use package.e_commerce_agent.Llm.Read.{read_body}
use package.e_commerce_agent.Llm.Wire.{wire_messages}
use package.e_commerce_agent.Llm.Retry.{Classes, retry_async}

pub record ToolDefinition : Type 0 where
  pub name : String
  pub description : String
  pub parameters : Fields

pub record Model : Type 0 where
  pub name : String
  pub temperature : Json
  pub max_output_tokens : ℕ
  pub retry_attempts : ℕ

-- What a request comes to: a response with its status and its body, if that is JSON, or an exception
-- of httpx, by its class.
pub data Outcome : Type 0 where
  response : ℕ → Option Json → Outcome
  failed : String → Outcome

abbrev tool_items : List ToolDefinition → Items
tool_items [] = nil
tool_items (t ∷ ts) =
    cons
      (obj (
        field "type" (str "function") (
          field "function"
            (obj (
              field "name" (str t.name) (
                field "description" (str t.description)
                  (field "parameters" (obj t.parameters) end))))
            end)))
      (tool_items ts)

abbrev pub payload : Model → String → List ToolDefinition → Items → Json
payload model system_prompt tools messages = obj (
    field "model" (str model.name) (
      field "temperature" model.temperature (
        field "max_tokens" (num model.max_output_tokens) (
          field "messages"
            (arr (
              cons (obj (field "role" (str "system") (field "content" (str system_prompt) end)))
                messages))
            (field "tools" (arr (tool_items tools)) (field "tool_choice" (str "auto") end))))))

-- `retryable=(…)`: an `except` clause catches the classes and what descends from them.
unfoldable pub is_transient : Classes → Error → Bool
is_transient classes (unexpected name) =
    classes.is_subclass name "TimeoutException"
    || (classes.is_subclass name "NetworkError" || classes.is_subclass name "HTTPStatusError")
is_transient classes e = false

module _ (c : Codec) where
  -- What `operation` makes of an outcome.
  unfoldable pub read_outcome : Outcome → Exec (Unit {0}) AssistantTurn
  unfolding read_body
  read_outcome (failed name) = raise (unexpected name)
  read_outcome (response status body) = do
    ensure (not (leb 500 status || eqb status 429)) (unexpected "HTTPStatusError")
    ensure (not (leb 400 status && leb status 599))
        (dependency_error "MODEL_REQUEST_REJECTED" ("模型请求失败，HTTP 状态码 " <> decimal status))
    value ← require (value_error "JSONDecodeError") body
    read_body c value

  abbrev pub answer : Outcome → Result AssistantTurn
  answer outcome = (read_outcome outcome tt).0

  -- The service, by how many requests it has had from the client.
  module _ (service : ℕ → Json → Outcome) where
    unfoldable pub operation : Json → Exec ℕ AssistantTurn
    operation request sent = (answer (service sent request), suc sent)

    abbrev pub lift : {A : Type 0} → Result A × Unit {0} → Exec ℕ A
    lift (r, u) sent = (r, sent)

    unfoldable pub complete :
        Classes → Model → List Fields → List ToolDefinition → String → Exec ℕ AssistantTurn
    unfolding operation retry_async wire_messages
    complete classes model messages tools system_prompt = do
      wire ← lift (wire_messages c messages tt)
      retry_async (is_transient classes) (operation (payload model system_prompt tools wire))
          model.retry_attempts
