-- ===== src/Domain.antt =====
-- domain.py: the records and enumerations that the components exchange. A `datetime` is a number.
use e_commerce_agent.Base.{ℕ, String, Bool, true, false, Option, List}
use e_commerce_agent.Base.Json.{Fields}

pub data TaskStatus : Type 0 where
  queued running retrying awaiting_input awaiting_approval rejected completed failed : TaskStatus

pub data ApprovalDecision : Type 0 where
  approve reject : ApprovalDecision

pub data RunStatus : Type 0 where
  completed awaiting_input awaiting_approval rejected : RunStatus

abbrev pub same_status : TaskStatus → TaskStatus → Bool
same_status queued queued = true
same_status running running = true
same_status retrying retrying = true
same_status awaiting_input awaiting_input = true
same_status awaiting_approval awaiting_approval = true
same_status TaskStatus.rejected TaskStatus.rejected = true
same_status TaskStatus.completed TaskStatus.completed = true
same_status failed failed = true
same_status _ _ = false

abbrev pub same_decision : ApprovalDecision → ApprovalDecision → Bool
same_decision approve approve = true
same_decision reject reject = true
same_decision _ _ = false

pub record TaskRecord : Type 0 where
  pub task_id : String
  pub session_id : String
  pub trace_id : String
  pub prompt : String
  pub merchant_id : String
  pub product_id : Option String
  pub status : TaskStatus
  pub attempt : ℕ
  pub pending_attempt : Option ℕ
  pub pending_resume_kind : Option String
  pub pending_resume_id : Option String
  pub result : Option String
  pub interaction : Option Fields
  pub error_code : Option String
  pub error_message : Option String
  pub created_at : ℕ
  pub updated_at : ℕ

pub record QueueMessage : Type 0 where
  pub task_id : String
  pub session_id : String
  pub trace_id : String
  pub attempt : ℕ
  pub resume_kind : Option String
  pub resume_id : Option String

pub record ProductPatch : Type 0 where
  pub field_name : String
  pub new_value : String
  pub reason : String

pub record Finding : Type 0 where
  pub category : String
  pub statement : String
  pub kind : String
  pub evidence_ids : List String
  pub confidence : String

pub record Diagnosis : Type 0 where
  pub summary : String
  pub findings : List Finding
  pub actions : List String
  pub proposed_patch : Option ProductPatch
  pub missing_data : List String

pub record ActionPlan : Type 0 where
  pub plan_id : String
  pub task_id : String
  pub merchant_id : String
  pub product_id : String
  pub plan_version : ℕ
  pub action_id : String
  pub field_name : String
  pub before_value : String
  pub after_value : String
  pub product_version : ℕ
  pub reason : String
  pub created_at : ℕ

pub record ActionReceipt : Type 0 where
  pub receipt_id : String
  pub idempotency_key : String
  pub merchant_id : String
  pub product_id : String
  pub action_id : String
  pub product_version : ℕ
  pub applied : Bool
  pub created_at : ℕ

pub record RunOutcome : Type 0 where
  pub status : RunStatus
  pub result : Option String
  pub interaction : Option Fields

pub record StreamEvent : Type 0 where
  pub event_id : String
  pub event_type : String
  pub sequence_number : ℕ
  pub payload : Fields
