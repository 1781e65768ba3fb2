-- ===== src/Api/Schemas.antt =====
-- api/schemas.py: what requests carry, with the constraints on it, and what responses carry.
use e_commerce_agent.Base.{ℕ, String, Bool, true, ◌&&◌, Option, none, some, List, leb}
use e_commerce_agent.Base.Text.{text_length}
use e_commerce_agent.Base.Json.{Fields}
use e_commerce_agent.Domain.{TaskStatus, TaskRecord, StreamEvent}
use e_commerce_agent.Tasks.Approval.{ApprovalRequest}
use package.e_commerce_agent.Api.{Web}

abbrev pub between : ℕ → ℕ → String → Bool
between low high s = leb low (text_length s) && leb (text_length s) high

abbrev pub when_given : (String → Bool) → Option String → Bool
when_given test none = true
when_given test (some s) = test s

pub record CreateTaskRequest : Type 0 where
  pub prompt : String
  pub product_id : Option String
  pub session_id : Option String

abbrev pub session_id_pattern : String
session_id_pattern = "^[A-Za-z0-9_-]+$"

unfoldable pub valid_create : Web → CreateTaskRequest → Bool
valid_create web q =
    between 1 20000 q.prompt
    && (when_given (between 3 128) q.product_id
        && when_given (λ s. between 16 128 s && web.matches session_id_pattern s) q.session_id)

-- The header `Idempotency-Key`.
unfoldable pub valid_key : Option String → Bool
valid_key = when_given (between 8 128)

-- `SubmitInputRequest`, by its one field.
unfoldable pub valid_input : String → Bool
valid_input product_id = between 3 128 product_id

-- `SubmitApprovalRequest`
unfoldable pub valid_approval : ApprovalRequest → Bool
valid_approval q = between 8 128 q.plan_id && (leb 1 q.plan_version && between 1 128 q.action_id)

pub record ErrorDetail : Type 0 where
  pub code : String
  pub message : String
  pub trace_id : String

pub record CreateTaskData : Type 0 where
  pub task_id : String
  pub session_id : String
  pub trace_id : String
  pub merchant_id : String
  pub product_id : Option String
  pub status : TaskStatus
  pub created : Bool
  pub events_path : String

pub record TaskStatusData : Type 0 where
  pub task_id : String
  pub session_id : String
  pub trace_id : String
  pub merchant_id : String
  pub product_id : Option String
  pub status : TaskStatus
  pub attempt : ℕ
  pub result : Option String
  pub interaction : Option Fields
  pub error_code : Option String
  pub error_message : Option String
  pub created_at : ℕ
  pub updated_at : ℕ

abbrev pub from_record : TaskRecord → TaskStatusData
from_record task = record {
  task_id = task.task_id;
  session_id = task.session_id;
  trace_id = task.trace_id;
  merchant_id = task.merchant_id;
  product_id = task.product_id;
  status = task.status;
  attempt = task.attempt;
  result = task.result;
  interaction = task.interaction;
  error_code = task.error_code;
  error_message = task.error_message;
  created_at = task.created_at;
  updated_at = task.updated_at;
}

pub record ResumeTaskData : Type 0 where
  pub task_id : String
  pub session_id : String
  pub trace_id : String
  pub status : TaskStatus
  pub events_path : String

pub record SubmitInputData : Type 0 where
  pub task_id : String
  pub status : TaskStatus
  pub trace_id : String
  pub events_path : String

pub record SubmitApprovalData : Type 0 where
  pub task_id : String
  pub approval_id : String
  pub status : TaskStatus
  pub trace_id : String
  pub events_path : String

-- Its events, `TraceEventData`, have the fields of a `StreamEvent`.
pub record TaskTraceData : Type 0 where
  pub task_id : String
  pub trace_id : String
  pub status : TaskStatus
  pub model_calls : ℕ
  pub tool_calls : ℕ
  pub retries : ℕ
  pub reflection_count : ℕ
  pub input_tokens : Option ℕ
  pub output_tokens : Option ℕ
  pub events : List StreamEvent

-- The `data` of a response; `events` is the event stream that starts after this id.
pub data Payload : Type 0 where
  health : String → Payload
  created : CreateTaskData → Payload
  task_status : TaskStatusData → Payload
  trace : TaskTraceData → Payload
  input_taken : SubmitInputData → Payload
  approval_taken : SubmitApprovalData → Payload
  resumed : ResumeTaskData → Payload
  events : String → Payload
  failure : ErrorDetail → Payload

-- `ApiResponse`, or `ErrorResponse`, with its status code.
pub record Response : Type 0 where
  pub http_status : ℕ
  pub code : String
  pub message : String
  pub payload : Payload

abbrev pub success : ℕ → Payload → Response
success s payload = record { http_status = s; code = "OK"; message = "success"; payload = payload }
