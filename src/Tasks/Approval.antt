-- ===== src/Tasks/Approval.antt =====
-- `submit_approval` of services/task_service.py.
use e_commerce_agent.Base.{
  ℕ, String, Bool, true, false, not, ◌&&◌, ◌||◌, Option, none, some, eqb, ◌==◌, if◌then◌else◌,
}
use e_commerce_agent.Base.Json.{field, end, str}
use e_commerce_agent.Domain.{
  TaskStatus, queued, running, failed, TaskRecord, QueueMessage, ApprovalDecision, approve, reject,
  same_status, same_decision,
}
use e_commerce_agent.Errors.{task_state_conflict}
use e_commerce_agent.Exec.{Exec, pure, ensure, catch, ◌>>=◌, ◌>>◌}
use e_commerce_agent.Commerce
use e_commerce_agent.Commerce.Approvals.{record_approval}
use e_commerce_agent.Platform.{Platform}
use e_commerce_agent.World.{
  World, new_token, bind_trace, append_event, transition_task, on_commerce,
}
use e_commerce_agent.Queue.{publish}
use e_commerce_agent.Tasks.{get_task_for_merchant, give_up, is_publish_failed}

-- `decision.value`
abbrev pub decision_text : ApprovalDecision → String
decision_text approve = "approve"
decision_text reject = "reject"

-- The states of a task whose approval was taken already.
abbrev pub took_approval : TaskStatus → Bool
took_approval queued = true
took_approval running = true
took_approval TaskStatus.completed = true
took_approval TaskStatus.rejected = true
took_approval _ = false

-- A request: the plan, its version and action, and the decision on it.
pub record ApprovalRequest : Type 0 where
  pub plan_id : String
  pub plan_version : ℕ
  pub action_id : String
  pub decision : ApprovalDecision

abbrev pub same_request : String → ApprovalRequest → Option Commerce.Approval → Bool
same_request merchant_id q none = false
same_request merchant_id q (some a) =
    a.merchant_id == merchant_id
    && a.plan_id == q.plan_id
    && eqb a.plan_version q.plan_version
    && a.action_id == q.action_id
    && same_decision a.decision q.decision

abbrev approval_id_of : Option Commerce.Approval → String
approval_id_of none = ""
approval_id_of (some a) = a.approval_id

abbrev pub with_approval : TaskRecord → String → TaskRecord
with_approval task approval_id = record task {
  status = queued;
  interaction = none;
  error_code = none;
  error_message = none;
  pending_attempt = some 0;
  pending_resume_kind = some "approval";
  pending_resume_id = some approval_id;
}

abbrev pub approval_message : TaskRecord → String → QueueMessage
approval_message task approval_id = record {
  task_id = task.task_id;
  session_id = task.session_id;
  trace_id = task.trace_id;
  attempt = 0;
  resume_kind = some "approval";
  resume_id = some approval_id;
}

module _ (p : Platform) where
  -- A task that has moved on answers the request that it took.
  unfoldable pub answer_known : TaskRecord → ApprovalRequest → Exec (World p) (TaskRecord × String)
  unfolding Commerce.get_approval_for_task
  answer_known task q w =
      (let existing = Commerce.get_approval_for_task task.task_id w.commerce in
        (do
          ensure (same_request task.merchant_id q existing)
              (task_state_conflict "任务尚未等待审批或审批请求与已有记录不一致")
          pure (task, approval_id_of existing))
          w)

  unfoldable pub store_decision : TaskRecord → ApprovalRequest → Exec (World p) String
  unfolding new_token on_commerce
  store_decision task q = do
    token ← new_token p
    λ w.
        on_commerce p
          (record_approval token w.now task.task_id task.merchant_id q.plan_id q.plan_version
            q.action_id q.decision)
          w

  unfoldable pub approval_raced : String → String → String → Exec (World p) (TaskRecord × String)
  approval_raced task_id merchant_id approval_id = do
    current ← get_task_for_merchant p task_id merchant_id
    ensure (took_approval current.status) (task_state_conflict "审批恢复已被其他请求提交")
    pure (current, approval_id)

  abbrev note_requeued : Bool → String → String → Exec (World p) Unit
  note_requeued true task_id approval_id =
      append_event p task_id "approval.requeued" (field "approval_id" (str approval_id) end)
  note_requeued false task_id approval_id = pure tt

  unfoldable pub enqueue_approval :
      Bool → TaskRecord → String → ApprovalRequest → Exec (World p) (TaskRecord × String)
  unfolding append_event publish give_up
  enqueue_approval was_lost task approval_id q = do
    append_event p task.task_id "approval.submitted" (
        field "plan_id" (str q.plan_id) (
          field "action_id" (str q.action_id)
            (field "decision" (str (decision_text q.decision)) end)))
    catch (publish p (approval_message task approval_id)) (λ e.
        give_up p task "审批已保存，但恢复任务入队失败"
          (some (field "type" (str "approval.resume") (field "approval_id" (str approval_id) end))))
    note_requeued was_lost task.task_id approval_id
    pure (task, approval_id)

  abbrev pub after_approval :
      Bool
      → String
      → String
      → String
      → ApprovalRequest
      → TaskRecord × Bool
      → Exec (World p) (TaskRecord × String)
  after_approval was_lost task_id merchant_id approval_id q (task, true) =
      enqueue_approval was_lost task approval_id q
  after_approval was_lost task_id merchant_id approval_id q (task, false) =
      approval_raced task_id merchant_id approval_id

  -- The part for a task that waits for its approval, or whose publication was lost.
  unfoldable pub decide :
      String → String → TaskRecord → ApprovalRequest → Exec (World p) (TaskRecord × String)
  decide task_id merchant_id task q = do
    let was_lost = is_publish_failed task.error_code
    ensure (not (same_status task.status failed && not was_lost))
        (task_state_conflict "任务执行失败，不能通过重复审批重新执行")
    ensure (same_status task.status TaskStatus.awaiting_approval || same_status task.status failed)
        (task_state_conflict "任务当前不等待审批")
    approval_id ← store_decision task q
    answer ←
        transition_task p (with_approval task approval_id)
          (if was_lost then failed else TaskStatus.awaiting_approval)
    after_approval was_lost task_id merchant_id approval_id q answer

  unfoldable pub submit_approval :
      String → String → ApprovalRequest → Exec (World p) (TaskRecord × String)
  unfolding get_task_for_merchant bind_trace
  submit_approval task_id merchant_id q = do
    task ← get_task_for_merchant p task_id merchant_id
    bind_trace p task.trace_id task.task_id task.session_id
    if took_approval task.status then answer_known task q else decide task_id merchant_id task q
