-- ===== src/World.antt =====
-- What a request or a delivery runs in: the stores, the broker's record, the trace context, the clock
-- and the source of tokens. Actions of `Exec (World p)` are the methods of the services.
use e_commerce_agent.Base.{ℕ, suc, String, Bool, Option, List}
use e_commerce_agent.Base.Json.{Fields}
use e_commerce_agent.Domain.{TaskStatus, TaskRecord}
use e_commerce_agent.Errors.{Result, ok}
use e_commerce_agent.Exec.{Exec}
use e_commerce_agent.Commerce.{Database}
use e_commerce_agent.Platform.{Platform, Publication}
use e_commerce_agent.Store
use e_commerce_agent.Store.{Redis, TraceContext}

-- How a delivery was answered: `ack()`, or `reject(requeue=…)`.
pub data Settlement : Type 0 where
  acked : Settlement
  rejected : Bool → Settlement

pub record World (p : Platform) : Type 0 where
  pub redis : Redis p
  pub commerce : Database
  pub published : List Publication
  pub settled : List Settlement
  pub trace : TraceContext
  pub now : ℕ
  pub tokens : ℕ → String
  pub drawn : ℕ
  -- Settings: `event_stream_max_length`, and how deep the interpreter lets calls nest.
  pub stream_length : ℕ
  pub call_depth : ℕ

module _ (p : Platform) where
  -- `secrets.token_urlsafe`, and `new_trace_id` of core/logging.py
  unfoldable pub new_token : Exec (World p) String
  new_token w = (ok (w.tokens w.drawn), record w { drawn = suc w.drawn })

  -- `bind_trace` of core/logging.py
  unfoldable pub bind_trace : String → String → String → Exec (World p) Unit
  bind_trace trace_id task_id session_id w = (
    ok tt,
    record w { trace = record { trace_id = trace_id; task_id = task_id; session_id = session_id } },
  )

  -- The store's methods, run in the world.
  unfoldable pub find_task : String → Exec (World p) (Option TaskRecord)
  find_task task_id w = (ok (Store.get_task p task_id w.redis), w)

  unfoldable pub save_task : TaskRecord → Exec (World p) TaskRecord
  save_task task w =
      let (task', redis) = Store.save_task p w.now task w.redis in
      (ok task', record w { redis = redis })

  unfoldable pub append_event : String → String → Fields → Exec (World p) Unit
  append_event task_id event_type payload w =
      let (event, redis) =
        Store.append_event p w.stream_length w.trace w.now task_id event_type payload w.redis in
      (ok tt, record w { redis = redis })

  unfoldable pub transition_task : TaskRecord → TaskStatus → Exec (World p) (TaskRecord × Bool)
  transition_task task expected w =
      let (task', (done, redis)) = Store.transition_task p w.now task expected w.redis in
      (ok (task', done), record w { redis = redis })

  -- The commerce repository's methods, run in the world.
  abbrev put_commerce : {A : Type 0} → World p → Result A × Database → Result A × World p
  put_commerce w (r, db) = (r, record w { commerce = db })

  unfoldable pub on_commerce : {A : Type 0} → Exec Database A → Exec (World p) A
  on_commerce m w = put_commerce w (m w.commerce)
