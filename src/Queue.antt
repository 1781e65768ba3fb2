-- ===== src/Queue.antt =====
-- queue/rabbitmq.py: `publish` and `publish_retry` of `RabbitTaskQueue`.
pub mod Delays
use e_commerce_agent.Base.{ℕ, suc, ◌-◌, min, max, [], ◌∷◌, ◌++◌, List, length}
use e_commerce_agent.Domain.{QueueMessage}
use e_commerce_agent.Errors.{ok, err, unexpected}
use e_commerce_agent.Exec.{Exec}
use e_commerce_agent.Platform.{
  Platform, task_route, retry_route, Publication, Delivery, confirmed, refused, unconfirmed,
}
use e_commerce_agent.World.{World}

abbrev pub retry_delays_ms : List ℕ
retry_delays_ms = 1000 ∷ 5000 ∷ 20000 ∷ []

-- `min(max(payload.attempt - 1, 0), len(self.retry_delays_ms) - 1)`; `-` on ℕ stops at 0 as `max` does.
unfoldable pub retry_index : ℕ → ℕ
retry_index attempt = min (attempt - 1) (length retry_delays_ms - 1)

module _ (p : Platform) where
  unfoldable pub deliver : Delivery → Publication → Exec (World p) Unit
  deliver confirmed m w = (ok tt, record w { published = w.published ++ m ∷ [] })
  deliver refused m w = (err (unexpected "PublishError"), w)
  deliver unconfirmed m w =
      (err (unexpected "PublishError"), record w { published = w.published ++ m ∷ [] })

  unfoldable pub publish : QueueMessage → Exec (World p) Unit
  unfolding deliver
  publish payload w =
      let m : Publication = record { route = task_route; message = payload } in
      deliver (p.delivery w.published m) m w

  unfoldable pub publish_retry : QueueMessage → Exec (World p) Unit
  unfolding deliver retry_index
  publish_retry payload w =
      let m : Publication = record {
        route = retry_route (retry_index payload.attempt);
        message = payload;
      } in
      deliver (p.delivery w.published m) m w
