-- ===== src/Agent/State.antt =====
-- The state of the graph in agent/graph.py, and what its nodes take from outside.
use e_commerce_agent.Base.{ℕ, String, Option, none, some, List, ◌==◌, if◌then◌else◌}
use e_commerce_agent.Base.Json.{Json, Fields}
use e_commerce_agent.Domain.{RunStatus, Diagnosis}
use e_commerce_agent.Errors.{app_error}
use e_commerce_agent.Exec.{Exec, pure, raise}
use e_commerce_agent.Platform.{Platform}
use e_commerce_agent.World.{World}

-- llm/client.py
pub record ToolCall : Type 0 where
  pub call_id : String
  pub name : String
  pub arguments : Fields

pub record AssistantTurn : Type 0 where
  pub content : String
  pub tool_calls : List ToolCall
  pub input_tokens : Option ℕ
  pub output_tokens : Option ℕ
  pub finish_reason : Option String

-- A message by its role; a tool's content is the value that its JSON text stands for.
pub data Message : Type 0 where
  user_message : String → Message
  assistant_message : String → List ToolCall → Message
  tool_message : String → String → Json → Message

-- A submitted diagnosis, or `{"validation_parse_error": …}`.
pub data Draft : Type 0 where
  unparsed : String → Draft
  parsed : Diagnosis → Draft

pub record AgentState : Type 0 where
  pub task_id : String
  pub session_id : String
  pub merchant_id : String
  pub product_id : Option String
  pub prompt : String
  pub messages : List Message
  pub metrics : Fields
  pub diagnosis : Option Draft
  pub iteration : ℕ
  pub repeated_steps : ℕ
  pub last_signature : String
  pub reflection_count : ℕ
  pub validation_errors : List String
  pub interaction : Option Fields
  pub final_status : Option RunStatus
  pub final_output : Option String

-- The settings of `AgentOrchestrator`.
pub record Limits : Type 0 where
  pub max_iterations : ℕ
  pub max_repeated_steps : ℕ
  pub max_tool_calls_per_turn : ℕ
  pub max_reflections : ℕ
  pub prompt_version : String
  pub skill_version : String

-- The model with the tool definitions that it is given, pydantic's reading of submitted arguments,
-- `json.dumps` with sorted keys and without, the registered tools by their names, the metrics of a
-- product and the text of a diagnosis.
pub record Kit (p : Platform) : Type 0 where
  pub complete : List Message → String → Exec (World p) AssistantTurn
  pub parse_diagnosis : Fields → Draft
  pub canonical : Json → String
  pub dumps : Json → String
  pub tool : String → Option (Fields → Exec (World p) Fields)
  pub read_metrics : String → String → Exec (World p) Fields
  pub render : AgentState → Diagnosis → Exec (World p) String

-- A node returns a state, or `interrupt` stops it with a value.
pub data NodeResult : Type 0 where
  advanced : AgentState → NodeResult
  interrupted : Fields → NodeResult

-- `Command(resume=…)`: what `interrupt` returns in a resumed node.
pub record Resumption : Type 0 where
  pub kind : String
  pub id : String

-- `_require_product_id`
unfoldable pub require_product_id : {p : Platform} → AgentState → Exec (World p) String
require_product_id s = elim s.product_id [
  | none ↦ raise (app_error "PRODUCT_SCOPE_MISSING" "商品范围尚未确定" 422)
  | some product_id ↦
      if product_id == ""
      then raise (app_error "PRODUCT_SCOPE_MISSING" "商品范围尚未确定" 422)
      else pure product_id
]
