-- ===== src/Tasks/Input.antt =====
-- `submit_input` of services/task_service.py.
use e_commerce_agent.Base.{String, Bool, true, false, ◌&&◌, none, some, List, text_eq?}
use e_commerce_agent.Base.Json.{field, end, str}
use e_commerce_agent.Domain.{TaskStatus, queued, running, TaskRecord, QueueMessage, same_status}
use e_commerce_agent.Errors.{task_state_conflict}
use e_commerce_agent.Exec.{Exec, pure, ensure, catch, ◌>>=◌, ◌>>◌}
use e_commerce_agent.Commerce.{Product}
use e_commerce_agent.Commerce.Catalog.{resolve_product, offers}
use e_commerce_agent.Platform.{Platform}
use e_commerce_agent.World.{World, bind_trace, append_event, transition_task}
use e_commerce_agent.Queue.{publish}
use e_commerce_agent.Tasks.{get_task_for_merchant, give_up}

-- The states that a task may be in after its input was taken.
abbrev pub took_input : TaskStatus → Bool
took_input queued = true
took_input running = true
took_input TaskStatus.awaiting_approval = true
took_input TaskStatus.completed = true
took_input TaskStatus.rejected = true
took_input _ = false

abbrev pub with_input : TaskRecord → String → TaskRecord
with_input task product_id = record task {
  product_id = some product_id;
  status = queued;
  interaction = none;
  pending_attempt = some 0;
  pending_resume_kind = some "input";
  pending_resume_id = some product_id;
}

abbrev pub input_message : TaskRecord → String → QueueMessage
input_message task product_id = record {
  task_id = task.task_id;
  session_id = task.session_id;
  trace_id = task.trace_id;
  attempt = 0;
  resume_kind = some "input";
  resume_id = some product_id;
}

module _ (p : Platform) where
  unfoldable pub find_products : String → String → Exec (World p) (List Product)
  find_products merchant_id query w = (resolve_product p merchant_id query w.commerce, w)

  -- The transition was lost: the request is still answered if the same product was chosen.
  unfoldable pub input_raced : String → String → String → Exec (World p) TaskRecord
  input_raced task_id merchant_id product_id = do
    current ← get_task_for_merchant p task_id merchant_id
    ensure (text_eq? current.product_id (some product_id) && took_input current.status)
        (task_state_conflict "任务输入已被其他请求提交")
    pure current

  -- The transition was won: `task` is the record as it was saved.
  unfoldable pub enqueue_input : TaskRecord → String → Exec (World p) TaskRecord
  unfolding append_event publish give_up
  enqueue_input task product_id = do
    append_event p task.task_id "input.submitted" (field "product_id" (str product_id) end)
    catch (publish p (input_message task product_id)) (λ e.
        give_up p task "商品输入已保存，但恢复任务入队失败"
          (some (field "type" (str "input.resume") (field "product_id" (str product_id) end))))
    pure task

  abbrev pub after_input : String → String → String → TaskRecord × Bool → Exec (World p) TaskRecord
  after_input task_id merchant_id product_id (task, true) = enqueue_input task product_id
  after_input task_id merchant_id product_id (task, false) =
      input_raced task_id merchant_id product_id

  -- The task may take the input if it waits for one and the product is the merchant's.
  unfoldable pub take_input : String → String → TaskRecord → String → Exec (World p) TaskRecord
  unfolding find_products
  take_input task_id merchant_id task product_id = do
    ensure (same_status task.status TaskStatus.awaiting_input) (task_state_conflict "任务当前不等待商品输入")
    matches ← find_products task.merchant_id product_id
    ensure (offers product_id matches) (task_state_conflict "所选商品不属于当前商家")
    answer ← transition_task p (with_input task product_id) TaskStatus.awaiting_input
    after_input task_id merchant_id product_id answer

  unfoldable pub submit_input : String → String → String → Exec (World p) TaskRecord
  unfolding get_task_for_merchant bind_trace
  submit_input task_id merchant_id product_id = do
    task ← get_task_for_merchant p task_id merchant_id
    bind_trace p task.trace_id task.task_id task.session_id
    take_input task_id merchant_id task product_id
