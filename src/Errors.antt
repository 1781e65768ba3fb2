-- ===== src/Errors.antt =====
-- errors.py, and the other exceptions that the handlers tell apart.
use e_commerce_agent.Base.{ℕ, String, ◌<>◌, Bool, true, false}

-- One constructor for each class. `value_error` is Python's ValueError with its subclasses, pydantic's
-- validation errors among them; `unexpected` is any exception of another class, by its name.
pub data Error : Type 0 where
  app_error : String → String → ℕ → Error
  task_not_found : String → Error
  task_not_resumable : String → Error
  task_state_conflict : String → Error
  merchant_forbidden : Error
  agent_loop_detected : String → Error
  dependency_error : String → String → Error
  value_error : String → Error
  timeout_error : Error
  unexpected : String → Error

pub data Result {ℓ} (A : Type ℓ) : Type ℓ where
  ok : A → Result A
  err : Error → Result A

-- Whether the class descends from AppError.
unfoldable pub is_app_error : Error → Bool
is_app_error (value_error m) = false
is_app_error timeout_error = false
is_app_error (unexpected name) = false
is_app_error _ = true

-- The attributes `code`, `message` and `http_status` of an AppError.
unfoldable pub code : Error → String
code (app_error c m s) = c
code (task_not_found t) = "TASK_NOT_FOUND"
code (task_not_resumable t) = "TASK_NOT_RESUMABLE"
code (task_state_conflict m) = "TASK_STATE_CONFLICT"
code merchant_forbidden = "MERCHANT_FORBIDDEN"
code (agent_loop_detected m) = "AGENT_LOOP_DETECTED"
code (dependency_error c m) = c
code _ = ""

unfoldable pub message : Error → String
message (app_error c m s) = m
message (task_not_found t) = "任务不存在：" <> t
message (task_not_resumable t) = "任务不可续跑：" <> t
message (task_state_conflict m) = m
message merchant_forbidden = "不能访问其他商家的任务"
message (agent_loop_detected m) = m
message (dependency_error c m) = m
message _ = ""

unfoldable pub http_status : Error → ℕ
http_status (app_error c m s) = s
http_status (task_not_found t) = 404
http_status (task_not_resumable t) = 409
http_status (task_state_conflict m) = 409
http_status merchant_forbidden = 403
http_status (agent_loop_detected m) = 500
http_status (dependency_error c m) = 503
http_status _ = 500
