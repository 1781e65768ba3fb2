-- ===== src/Handoff/Approval.antt =====
-- `submit_approval` of task_service.py hands its message over.
use e_commerce_agent.Commerce
use e_commerce_agent.Commerce.{Approval}
use e_commerce_agent.Platform.{Platform}
use e_commerce_agent.World.{World}
