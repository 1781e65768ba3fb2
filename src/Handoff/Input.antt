-- ===== src/Handoff/Input.antt =====
-- `submit_input` of task_service.py hands its message over.
use e_commerce_agent.Base.{◌≡◌, ◌⊎◌, true, some, Option, String}
use e_commerce_agent.Base.Json.{Fields, field, end, str}
use e_commerce_agent.Domain.{TaskRecord, QueueMessage}
use e_commerce_agent.Errors.{Result, ok, err, dependency_error}
use e_commerce_agent.Platform.{Platform}
use e_commerce_agent.Store
use e_commerce_agent.World.{World}
use e_commerce_agent.Tasks.{publish_failed}
use e_commerce_agent.Tasks.Input.{took_input}
use e_commerce_agent.Handoff.{Sent, Lost, queued_as}
use e_commerce_agent.Handoff.Answer.{answer_message}

abbrev input_failure : String
input_failure = "商品输入已保存，但恢复任务入队失败"

abbrev lost_input : String → Option Fields
lost_input product_id =
    some (field "type" (str "input.resume") (field "product_id" (str product_id) end))

-- What a request with an input for the task of this id comes to, from the world before it.
abbrev pub InputTaken :
    (p : Platform) → String → String → World p → Result TaskRecord × World p → Type 0
InputTaken p task_id product_id before (ok task, w) =
    ((loaded : TaskRecord) × (p.get task_id before.redis.tasks ≡ some loaded)
      × Sent p (answer_message loaded "input" product_id) before.published w)
    ⊎ ((w.published ≡ before.published)
        × (p.get task_id w.redis.tasks ≡ some task)
        × (task.product_id ≡ some product_id)
        × (took_input task.status ≡ true))
InputTaken p task_id product_id before (err (dependency_error c text), w) =
    (loaded : TaskRecord) × (p.get task_id before.redis.tasks ≡ some loaded)
    × Lost p (queued_as (answer_message loaded "input" product_id)) before.published w
    × (c ≡ publish_failed)
InputTaken p task_id product_id before (err e, w) = w.published ≡ before.published

module _ (p : Platform) (product_id : String) where
  module _ (task_id : String) (before : World p) where
    abbrev Taken : Result TaskRecord × World p → Type 0
    Taken = InputTaken p task_id product_id before

    module _ (loaded : TaskRecord)
        (is_loaded : p.get task_id before.redis.tasks ≡ some loaded) where
      abbrev message : QueueMessage
      message = answer_message loaded "input" product_id
