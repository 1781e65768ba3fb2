-- ===== src/Agent/Run.antt =====
-- `run` of agent/graph.py. What the graph library keeps for a task is an argument: the node that is to
-- run next, the state, and the value that the node was stopped with.
use e_commerce_agent.Base.{
  String, Bool, true, not, ◌&&◌, ◌||◌, Option, none, some, [], ◌∷◌, ◌==◌, text_eq?, is_none,
  if◌then◌else◌,
}
use e_commerce_agent.Base.Json.{Fields, has_type}
use e_commerce_agent.Domain.{RunStatus, RunOutcome, TaskRecord}
use e_commerce_agent.Errors.{Result, ok, err, app_error, unexpected}
use e_commerce_agent.Exec.{Exec, pure, ensure, ◌>>◌}
use e_commerce_agent.Platform.{Platform}
use e_commerce_agent.World.{World}
use e_commerce_agent.Agent.State.{AgentState, Kit, Limits, Resumption, user_message}
use e_commerce_agent.Agent.Graph.{Node, scope, Halt, finished, stopped, recursion_limit, run_graph}
use e_commerce_agent.Base.Json.{end}

pub record Checkpoint : Type 0 where
  pub next : Option Node
  pub state : AgentState
  pub pending : Option Fields

-- `_initial_state`
abbrev pub initial_state : TaskRecord → AgentState
initial_state task = record {
  task_id = task.task_id;
  session_id = task.session_id;
  merchant_id = task.merchant_id;
  product_id = task.product_id;
  prompt = task.prompt;
  messages = user_message task.prompt ∷ [];
  metrics = end;
  diagnosis = none;
  iteration = 0;
  repeated_steps = 0;
  last_signature = "";
  reflection_count = 0;
  validation_errors = [];
  interaction = none;
  final_status = none;
  final_output = none;
}

abbrev pub is_resumption : Option String → Bool
is_resumption kind = text_eq? kind (some "input") || text_eq? kind (some "approval")

abbrev pub is_resume_kind : Option String → Bool
is_resume_kind kind = is_none kind || text_eq? kind (some "retry") || is_resumption kind

-- `_resume_kind_for_interaction`
unfoldable pub resume_kind_for : Fields → String
unfolding has_type
resume_kind_for interaction =
    if has_type "approval.required" (some interaction) then "approval" else "input"

-- `_interrupted_outcome`
unfoldable pub interrupted_outcome : Fields → RunOutcome
unfolding resume_kind_for
interrupted_outcome interaction = record {
  status =
      if resume_kind_for interaction == "approval"
      then RunStatus.awaiting_approval
      else RunStatus.awaiting_input;
  result = none;
  interaction = some interaction;
}

abbrev status_or_completed : Option RunStatus → RunStatus
status_or_completed none = RunStatus.completed
status_or_completed (some status) = status

abbrev output_or_empty : Option String → String
output_or_empty none = ""
output_or_empty (some text) = text

-- What `run` makes of the graph's result.
unfoldable pub outcome_of : Halt → RunOutcome
unfolding interrupted_outcome
outcome_of (stopped node s value) = interrupted_outcome value
outcome_of (finished s) = record {
  status = status_or_completed s.final_status;
  result = some (output_or_empty s.final_output);
  interaction = s.interaction;
}

module _ (p : Platform) (kit : Kit p) (limits : Limits) where
  abbrev ended : World p → Option (Result Halt × World p) → Result RunOutcome × World p
  ended w none = (err (unexpected "GraphRecursionError"), w)
  ended w (some (ok halt, w')) = (ok (outcome_of halt), w')
  ended w (some (err e, w')) = (err e, w')

  -- `ainvoke`
  unfoldable pub invoke : Option Node → Option Resumption → AgentState → Exec (World p) RunOutcome
  unfolding run_graph outcome_of
  invoke none c s w = (ok (outcome_of (finished s)), w)
  invoke (some node) c s w = ended w (run_graph p kit limits (recursion_limit limits) node c s w)

  abbrev missing_value : Option String → Bool
  missing_value none = true
  missing_value (some id) = id == ""

  abbrev id_or_empty : Option String → String
  id_or_empty none = ""
  id_or_empty (some id) = id

  -- `if resume_kind in {"input", "approval"} and not resume_id: raise …`, and the graph goes on.
  abbrev go_on :
      Option Node → AgentState → Option String → Option String → Exec (World p) RunOutcome
  go_on node s kind id = do
    ensure (not (is_resumption kind && missing_value id))
        (app_error "RESUME_VALUE_REQUIRED" "恢复任务缺少恢复值" 422)
    invoke node none s

  abbrev from_checkpoint :
      TaskRecord → Option Checkpoint → Option String → Option String → Exec (World p) RunOutcome
  from_checkpoint task none kind id = do
    ensure (not (is_resumption kind)) (app_error "CHECKPOINT_NOT_FOUND" "恢复任务缺少图检查点" 409)
    invoke (some scope) none (initial_state task)
  from_checkpoint task (some at) kind id = elim at.pending [
    | none ↦ go_on at.next at.state kind id
    | some interaction ↦
        if text_eq? kind (some (resume_kind_for interaction))
        then (do
          ensure (not (missing_value id)) (app_error "RESUME_VALUE_REQUIRED" "恢复任务缺少恢复值" 422)
          invoke at.next (some (record { kind = resume_kind_for interaction; id = id_or_empty id }))
              at.state)
        else pure (interrupted_outcome interaction)
  ]

  unfoldable pub run :
      TaskRecord → Option Checkpoint → Option String → Option String → Exec (World p) RunOutcome
  unfolding resume_kind_for interrupted_outcome invoke
  run task at kind id = do
    ensure (is_resume_kind kind) (app_error "INVALID_RESUME_KIND" "恢复任务类型无效" 422)
    from_checkpoint task at kind id
