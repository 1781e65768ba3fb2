-- ===== src/Examples/Keys.antt =====
-- A store of one task: its idempotency key, its lease, its events, and the retry delays.
use e_commerce_agent.Base.{
  eq_iff, ◌≢◌, ℕ, ◌≤◌, ◌≡◌, refl, String, Bool, some, none, true, false, suc, arith,
}
use e_commerce_agent.Base.Json.{end}
use e_commerce_agent.Domain.{TaskRecord, queued, completed}
use e_commerce_agent.Platform.{Platform, confirmed}
use e_commerce_agent.Store
use e_commerce_agent.Store.{
  Redis, TraceContext, acquire_task_lease, release_task_lease, has_task_lease, create_keyed,
  append_event, list_events, counter,
}
use e_commerce_agent.Store.Creation.{create_task_idem, create_keyed_returns, create_keyed_diverges}
use e_commerce_agent.Store.Transitions.{transition_task_once}
use e_commerce_agent.Store.Leases.{acquire_task_lease_excludes}
use e_commerce_agent.Store.Events.{IsNumbered, append_event-IsNumbered}
use e_commerce_agent.Queue.Delays.{delay_of, delay_of_mono}
use e_commerce_agent.Examples.Setting.{platform, task, empty_store, storing}

abbrev server : Platform
server = platform confirmed

abbrev empty : Redis server
empty = empty_store server

abbrev stored : Redis server
stored = storing server task

-- After `create_task` with the key "k".
abbrev keyed : Redis server
keyed = record stored { idempotency = server.put "k" "t1" (server.empty String) }

create_task_test : Store.create_task server 1 task (some "k") empty ≡ some ((task, true), keyed)
unfolding Store.create_task
create_task_test = refl

abbrev other_task : TaskRecord
other_task = record task { task_id = "t2" }

create_task_idem_example :
    Store.create_task server 1 other_task (some "k") keyed ≡ some ((task, false), keyed)
create_task_idem_example =
    create_task_idem server 1 0 task other_task task "k" true empty keyed refl refl create_task_test

-- The key stands for a task that is gone.
abbrev stale : Redis server
stale = record empty { idempotency = server.put "k" "t9" (server.empty String) }

create_keyed_returns_example :
    (found : TaskRecord) × (created : Bool) × (r' : Redis server) × (create_keyed server 2 task "k"
        stale
      ≡ some ((found, created), r'))
create_keyed_returns_example = create_keyed_returns server task "k" stale refl

create_keyed_diverges_example : create_keyed server 50 task "k" stored ≡ none
create_keyed_diverges_example = create_keyed_diverges server 50 task task "k" stored refl refl refl

abbrev answered : TaskRecord
answered = record task { status = completed }

abbrev answered_at : TaskRecord
answered_at = record answered { updated_at = 8 }

abbrev after_answer : Redis server
after_answer = record stored { tasks = server.put "t1" answered_at stored.tasks }

transition_task_test :
    Store.transition_task server 8 answered queued stored ≡ (answered_at, (true, after_answer))
unfolding Store.transition_task
transition_task_test = refl

transition_task_once_example :
    (Store.transition_task server 9 task queued after_answer).1 ≡ (false, after_answer)
transition_task_once_example =
    transition_task_once server 8 9 answered task queued stored after_answer answered_at
      transition_task_test refl refl

abbrev held : Redis server
held = record stored { leases = server.put "t1" "worker1" (server.empty String) }

acquire_task_lease_test : acquire_task_lease server "t1" "worker1" stored ≡ (true, held)
unfolding acquire_task_lease
acquire_task_lease_test = refl

workers_differ : ◌≢◌ {A = String} "worker1" "worker2"
workers_differ e = let q : false ≡ true = (eq_iff "worker1" "worker2").1 e in cc

acquire_task_lease_excludes_example :
    (release_task_lease server "t1" "worker2" held ≡ held)
    × (acquire_task_lease server "t1" "worker2" held ≡ (false, held))
    × (has_task_lease server "t1" held ≡ true)
    × (has_task_lease server "t1" (release_task_lease server "t1" "worker1" held) ≡ false)
acquire_task_lease_excludes_example =
    acquire_task_lease_excludes server "t1" "worker1" stored held "worker2" workers_differ
      acquire_task_lease_test

abbrev context : TraceContext
context = record { trace_id = "r1"; task_id = "t1"; session_id = "s1" }

stored-IsNumbered : IsNumbered server stored
unfolding list_events
stored-IsNumbered task_id = ground arith

append_event-IsNumbered_example :
    IsNumbered server (append_event server 1000 context 3 "t1" "task.created" end stored).1
    × ((append_event server 1000 context 3 "t1" "task.created" end stored).0.sequence_number
        ≡ suc (counter server (server.get "t1" stored.sequences)))
append_event-IsNumbered_example =
    append_event-IsNumbered server 1000 context 3 "t1" "task.created" end stored stored-IsNumbered

delay_of_mono_example : (d : ℕ) × (e : ℕ) × (delay_of 1 ≡ some d) × (delay_of 7 ≡ some e) × (d ≤ e)
delay_of_mono_example = delay_of_mono 1 7 (omega arith)
