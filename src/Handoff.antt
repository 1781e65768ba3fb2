-- ===== src/Handoff.antt =====
-- No message is lost between the services: what is published is awaited by the worker, and what
-- could not be published is what `resume_task` publishes.
pub mod Delivered
pub mod Answer
pub mod Input
pub mod Taken
pub mod Decision
pub mod Approval
pub mod Create
pub mod Resume
pub mod Recovery
pub mod Retry
use e_commerce_agent.Base.{◌≡◌, ◌⊎◌, List, [], ◌∷◌, ◌++◌}
use e_commerce_agent.Domain.{QueueMessage}
use e_commerce_agent.Platform.{Platform, task_route, Publication}
use e_commerce_agent.World.{World}
use e_commerce_agent.Worker.Awaited.{IsAwaited, IsResumable}

abbrev pub queued_as : QueueMessage → Publication
queued_as m = record { route = task_route; message = m }

-- The message was confirmed: it stands behind the earlier publications.
pub record Sent (p : Platform) (m : QueueMessage) (earlier : List Publication) (w : World p)
    : Type 0 where
  pub published : w.published ≡ earlier ++ queued_as m ∷ []
  pub awaited : IsAwaited p m w

-- The publication was not confirmed. Its message may have arrived all the same, and nothing else has;
-- if it has, it is awaited, and either way the task can be resumed with it.
pub record Lost (p : Platform) (sent : Publication) (earlier : List Publication) (w : World p)
    : Type 0 where
  pub arrived : (w.published ≡ earlier) ⊎ (w.published ≡ earlier ++ sent ∷ [])
  pub awaited : IsAwaited p sent.message w
  pub resumable : IsResumable p sent.message w
