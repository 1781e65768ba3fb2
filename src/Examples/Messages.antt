-- ===== src/Examples/Messages.antt =====
-- Messages that are sent and messages that are lost.
use e_commerce_agent.Base.{◌≡◌, refl, some, [], true, ◌⊎◌, ◌≢◌}
use e_commerce_agent.Domain.{
  approve, TaskRecord, QueueMessage, TaskStatus, failed, running, awaiting_input, awaiting_approval,
}
use e_commerce_agent.Errors.{merchant_forbidden, err, timeout_error}
use e_commerce_agent.Platform.{Platform, confirmed, unconfirmed}
use e_commerce_agent.World.{World}
use e_commerce_agent.Worker.Deliver.{handle_message}
use e_commerce_agent.Worker.Settling.{handle_message-settled}
use e_commerce_agent.Worker.Answers.{OnceMore}
use e_commerce_agent.Worker.Awaited.{IsResumable, nothing}
use e_commerce_agent.Worker.Failure.{handle_failure, retry_message, is_retryable}
use e_commerce_agent.Tasks.{publish_failed}
use e_commerce_agent.Tasks.{get_trace}
use e_commerce_agent.Tasks.Owner.{get_task_for_merchant_guards}
use e_commerce_agent.Tasks.Input.{submit_input}
use e_commerce_agent.Tasks.Approval.{ApprovalRequest, submit_approval}
use e_commerce_agent.Tasks.Resume.{resume_task}
use e_commerce_agent.Worker.Idle.{IsPutAside, handle_message-IsPutAside}
use e_commerce_agent.Handoff.Recovery.{Republished, resume_task-Republished}
use e_commerce_agent.Handoff.Retry.{
  Next, Retried, RetryLost, retry_publication, handle_failure_cases,
}
use e_commerce_agent.Base.Json.{has_type}
use e_commerce_agent.Examples.Setting.{platform, planned_shop, task, message, storing, world}

abbrev server : Platform
server = platform confirmed

abbrev failing : Platform
failing = platform unconfirmed

-- A task whose first message was not confirmed.
abbrev lost_task : TaskRecord
lost_task = record task { status = failed; error_code = some publish_failed }

abbrev lost_world : World server
lost_world = world server (storing server lost_task)

lost-IsResumable : (h : IsResumable server message lost_world) × (h.task.merchant_id ≡ "m1")
unfolding has_type
lost-IsResumable = (
  record {
    task = lost_task;
    stored = refl;
    has_failed = refl;
    lost = refl;
    same_task = refl;
    same_session = refl;
    same_trace = refl;
    same_attempt = refl;
    same_kind = refl;
    same_id = refl;
    resumes =
        nothing refl refl (record { not_input = refl; not_approval = refl; not_retry = refl });
  },
  refl,
)

resume_task-Republished_example :
    Republished server message [] (resume_task server "t1" "m1" lost_world)
resume_task-Republished_example =
    resume_task-Republished server message lost_world lost-IsResumable.0 "m1" lost-IsResumable.1

-- A run that took too long, of three attempts that are allowed.
abbrev running_task : TaskRecord
running_task = record task { status = running }

abbrev running_world : World server
running_world = world server (storing server running_task)

abbrev handled : World server
handled = (handle_failure server 3 message timeout_error true running_world).1

abbrev retry : QueueMessage
retry = retry_message true message

handle_failure_cases_example :
    Next message retry
    × (((server.delivery [] (retry_publication retry) ≡ confirmed)
          × Retried server retry running_world handled)
        ⊎ ((server.delivery [] (retry_publication retry) ≢ confirmed)
            × RetryLost server retry running_world handled))
unfolding is_retryable
handle_failure_cases_example =
    handle_failure_cases server timeout_error message running_task running_world refl 3 refl refl
      refl

handle_message-settled_example :
    OnceMore server lost_world
      (handle_message server 3 (λ t kind id w. (err timeout_error, w)) (some message) lost_world).1
handle_message-settled_example =
    handle_message-settled server 3 (λ t kind id w. (err timeout_error, w)) (λ t kind id w. refl)
      (some message) lost_world

abbrev request : ApprovalRequest
request = record {
  plan_id = "plan1";
  plan_version = 1;
  action_id = "update_description";
  decision = approve;
}

get_task_for_merchant_guards_example :
    (get_trace server "t1" "m2" lost_world ≡ (err merchant_forbidden, lost_world))
    × (submit_input server "t1" "m2" "p1" lost_world ≡ (err merchant_forbidden, lost_world))
    × (submit_approval server "t1" "m2" request lost_world ≡ (err merchant_forbidden, lost_world))
    × (resume_task server "t1" "m2" lost_world ≡ (err merchant_forbidden, lost_world))
get_task_for_merchant_guards_example =
    get_task_for_merchant_guards server "t1" "m2" lost_task lost_world refl refl "p1" request

-- A task that waits for a product, of which the shop has one.
abbrev asking_world : World server
asking_world = world server (storing server (record task { status = awaiting_input }))

-- A task that waits for the decision on the shop's plan.
abbrev deciding_world : World server
deciding_world =
    record (world server (storing server (record task { status = awaiting_approval }))) {
      commerce = planned_shop;
    }

-- A delivery for a task that is finished.
abbrev done_task : TaskRecord
done_task = record task { status = TaskStatus.completed }

abbrev done_world : World server
done_world = world server (storing server done_task)

handle_message-IsPutAside_example :
    IsPutAside server "t1" done_world
      (handle_message server 3 (λ t kind id w. (err timeout_error, w)) (some message) done_world).1
handle_message-IsPutAside_example =
    handle_message-IsPutAside server 3 (λ t kind id w. (err timeout_error, w)) message done_task
      done_world refl refl refl
