-- ===== src/Tasks/Owner.antt =====
-- The tasks of task_service.py belong to their merchants.
use e_commerce_agent.Base.{◌≡◌, refl, String, false, some, ◌==◌}
use e_commerce_agent.Domain.{TaskRecord}
use e_commerce_agent.Errors.{err, merchant_forbidden}
use e_commerce_agent.Platform.{Platform}
use e_commerce_agent.World.{World}
use e_commerce_agent.Tasks.{get_task_for_merchant, get_trace}
use e_commerce_agent.Tasks.Input.{submit_input}
use e_commerce_agent.Tasks.Approval.{ApprovalRequest, submit_approval}
use e_commerce_agent.Tasks.Resume.{resume_task}

module _ (p : Platform) (task_id merchant_id : String) (task : TaskRecord) (w : World p)
    (stored : p.get task_id w.redis.tasks ≡ some task)
    (foreign : (task.merchant_id == merchant_id) ≡ false) where
  pub get_task_for_merchant-foreign :
      get_task_for_merchant p task_id merchant_id w ≡ (err merchant_forbidden, w)
  unfolding get_task_for_merchant
  get_task_for_merchant-foreign = rw stored (rw foreign refl)

  pub get_trace-foreign : get_trace p task_id merchant_id w ≡ (err merchant_forbidden, w)
  unfolding get_trace
  get_trace-foreign = rw stored (rw foreign refl)

  pub submit_input-foreign :
      (product_id : String)
      → submit_input p task_id merchant_id product_id w ≡ (err merchant_forbidden, w)
  unfolding submit_input
  submit_input-foreign product_id = rw stored (rw foreign refl)

  pub submit_approval-foreign :
      (q : ApprovalRequest)
      → submit_approval p task_id merchant_id q w ≡ (err merchant_forbidden, w)
  unfolding submit_approval
  submit_approval-foreign q = rw stored (rw foreign refl)

  pub resume_task-foreign : resume_task p task_id merchant_id w ≡ (err merchant_forbidden, w)
  unfolding resume_task
  resume_task-foreign = rw stored (rw foreign refl)

  -- A request for the stored task of another merchant, be it for its trace, with an input, with an
  -- approval or to resume it, fails with `MERCHANT_FORBIDDEN` and changes nothing.
  pub get_task_for_merchant_guards :
      (product_id : String) (q : ApprovalRequest)
      → (get_trace p task_id merchant_id w ≡ (err merchant_forbidden, w))
        × (submit_input p task_id merchant_id product_id w ≡ (err merchant_forbidden, w))
        × (submit_approval p task_id merchant_id q w ≡ (err merchant_forbidden, w))
        × (resume_task p task_id merchant_id w ≡ (err merchant_forbidden, w))
  get_task_for_merchant_guards product_id q = (
    get_trace-foreign,
    submit_input-foreign product_id,
    submit_approval-foreign q,
    resume_task-foreign,
  )
