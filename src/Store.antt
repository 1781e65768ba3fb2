-- ===== src/Store.antt =====
-- repositories/redis_store.py: `RedisStore`. A key of the source is a name within one keyspace of its
-- kind. `now` is the time; the Lua scripts run as one step.
pub mod Creation
pub mod Transitions
pub mod Leases
pub mod Events
pub mod Feed
pub mod Wire
use e_commerce_agent.Base.{
  ℕ, zero, suc, String, Bool, true, false, Option, none, some, List, [], ◌∷◌, ◌++◌, ◌==◌, not,
  is_none, if◌then◌else◌,
}
use e_commerce_agent.Base.Json.{Json, Fields, field, end, str, num, merge, get_field}
use e_commerce_agent.Domain.{TaskStatus, TaskRecord, StreamEvent, same_status}
use e_commerce_agent.Platform.{Platform}

-- The context variables of core/logging.py.
pub record TraceContext : Type 0 where
  pub trace_id : String
  pub task_id : String
  pub session_id : String

pub record Redis (p : Platform) : Type 0 where
  pub tasks : p.Table TaskRecord
  pub idempotency : p.Table String
  pub leases : p.Table String
  pub sequences : p.Table ℕ
  pub streams : p.Table (List StreamEvent)

module _ (p : Platform) where
  open p use {Table, get, put, del}

  -- `SET … NX`
  abbrev pub set_nx : {V : Type 0} → String → V → Table V → Bool × Table V
  set_nx k v t = if is_none (get k t) then (true, put k v t) else (false, t)

  unfoldable pub get_task : String → Redis p → Option TaskRecord
  get_task task_id r = get task_id r.tasks

  -- The record's own `updated_at` is set too, so the record comes back.
  unfoldable pub save_task : ℕ → TaskRecord → Redis p → TaskRecord × Redis p
  save_task now task r =
      let task' = record task { updated_at = now } in
      (task', record r { tasks = put task'.task_id task' r.tasks })

  -- The Lua script of `transition_task`: compare the status, and set.
  abbrev pub transition_script :
      TaskStatus → TaskRecord → Option TaskRecord → Redis p → Bool × Redis p
  transition_script expected task none r = (false, r)
  transition_script expected task (some current) r =
      if same_status current.status expected
      then (true, record r { tasks = put task.task_id task r.tasks })
      else (false, r)

  unfoldable pub transition_task :
      ℕ → TaskRecord → TaskStatus → Redis p → TaskRecord × (Bool × Redis p)
  transition_task now task expected r =
      let task' = record task { updated_at = now } in
      (task', transition_script expected task' (get task'.task_id r.tasks) r)

  unfoldable pub acquire_task_lease : String → String → Redis p → Bool × Redis p
  acquire_task_lease task_id owner r =
      let (acquired, leases) = set_nx task_id owner r.leases in
      (acquired, record r { leases = leases })

  -- The Lua script of `release_task_lease`.
  abbrev pub holds : String → Option String → Bool
  holds owner none = false
  holds owner (some holder) = holder == owner

  unfoldable pub release_task_lease : String → String → Redis p → Redis p
  release_task_lease task_id owner r =
      if holds owner (get task_id r.leases) then record r { leases = del task_id r.leases } else r

  unfoldable pub has_task_lease : String → Redis p → Bool
  has_task_lease task_id r = not (is_none (get task_id r.leases))

  abbrev pub counter : Option ℕ → ℕ
  counter none = 0
  counter (some n) = n

  abbrev pub entries : Option (List StreamEvent) → List StreamEvent
  entries none = []
  entries (some es) = es

  unfoldable pub list_events : String → Redis p → List StreamEvent
  list_events task_id r = entries (get task_id r.streams)

  -- The payload of an event, with what the context adds in front; the payload's own keys win.
  unfoldable pub enriched : TraceContext → ℕ → String → Fields → Fields
  enriched trace now task_id payload =
      merge
        (field "trace_id" (str trace.trace_id) (
          field "task_id" (str task_id)
            (field "session_id" (str trace.session_id) (field "occurred_at" (num now) end))))
        payload

  unfoldable pub append_event :
      ℕ → TraceContext → ℕ → String → String → Fields → Redis p → StreamEvent × Redis p
  append_event max_length trace now task_id event_type payload r =
      let sequence = suc (counter (get task_id r.sequences)) in
      let stream = entries (get task_id r.streams) in
      let event : StreamEvent = record {
        event_id = p.entry_id stream;
        event_type = event_type;
        sequence_number = sequence;
        payload = enriched trace now task_id payload;
      } in
      (
        event,
        record r {
          sequences = put task_id sequence r.sequences;
          streams = put task_id (p.trim max_length (stream ++ event ∷ [])) r.streams;
        },
      )

  -- The Lua script of `create_task`: the task id that the key stands for, and whether it is new.
  abbrev pub create_script :
      TaskRecord → String → Option String → Redis p → (String × Bool) × Redis p
  create_script task key (some existing) r = ((existing, false), r)
  create_script task key none r =
      if is_none (get task.task_id r.tasks)
      then (
        (task.task_id, true),
        record r {
          tasks = put task.task_id task r.tasks;
          idempotency = put key task.task_id r.idempotency;
        },
      )
      else (("", false), r)

  -- What follows the script; `again` is the call that the method makes of itself.
  abbrev pub resolve_created :
      TaskRecord
      → String
      → (Redis p → Option ((TaskRecord × Bool) × Redis p))
      → (String × Bool) × Redis p
      → Option ((TaskRecord × Bool) × Redis p)
  resolve_created task key again ((task_id, true), r) = some ((task, true), r)
  resolve_created task key again ((task_id, false), r) = elim (get task_id r.tasks) [
    | some existing ↦ some ((existing, false), r)
    | none ↦ again (record r { idempotency = del key r.idempotency })
  ]

  -- `create_task` with a key, on fuel: `none` means that it called itself that often and did not return.
  unfoldable pub create_keyed :
      ℕ → TaskRecord → String → Redis p → Option ((TaskRecord × Bool) × Redis p)
  create_keyed zero task key r = none
  create_keyed (suc fuel) task key r =
      resolve_created task key (λ r'. create_keyed fuel task key r')
        (create_script task key (get key r.idempotency) r)

  unfoldable pub create_task :
      ℕ → TaskRecord → Option String → Redis p → Option ((TaskRecord × Bool) × Redis p)
  unfolding create_keyed
  create_task fuel task none r =
      let (created, tasks) = set_nx task.task_id task r.tasks in
      some ((task, created), record r { tasks = tasks })
  create_task fuel task (some key) r =
      if key == ""
      then (let (created, tasks) = set_nx task.task_id task r.tasks in
          some ((task, created), record r { tasks = tasks }))
      else create_keyed fuel task (p.sha256 key) r
