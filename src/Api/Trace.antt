-- ===== src/Api/Trace.antt =====
-- `get_task_trace` of api/router.py.
use e_commerce_agent.Base.{ℕ, ◌+◌, String, Option, none, some, List, [], ◌∷◌, length, filter, ◌==◌}
use e_commerce_agent.Base.Json.{Json, null, get_field}
use e_commerce_agent.Domain.{StreamEvent}
use e_commerce_agent.Exec.{Exec, pure, ◌>>=◌}
use e_commerce_agent.Platform.{Platform}
use e_commerce_agent.World.{World}
use e_commerce_agent.Tasks
use package.e_commerce_agent.Api.{Web}
use package.e_commerce_agent.Api.Schemas.{TaskTraceData}

-- `sum(event.event_type == name for event in events)`
unfoldable pub count_type : String → List StreamEvent → ℕ
unfolding filter
count_type name events = length (filter (λ e. e.event_type == name) events)

-- The values other than `None`.
abbrev pub with_value : Option Json → List Json → List Json
with_value none rest = rest
with_value (some null) rest = rest
with_value (some v) rest = v ∷ rest

unfoldable pub known_values : String → List StreamEvent → List Json
unfolding get_field
known_values key [] = []
known_values key (e ∷ es) = with_value (get_field key e.payload) (known_values key es)

module _ {S : Type 0} (web : Web) where
  unfoldable pub sum_counts : List Json → Exec S ℕ
  sum_counts [] = pure 0
  sum_counts (v ∷ vs) = do n ← (λ s. (web.int v, s)); rest ← sum_counts vs; pure (n + rest)

  abbrev total : List Json → Exec S (Option ℕ)
  total [] = pure none
  total (v ∷ vs) = do n ← sum_counts (v ∷ vs); pure (some n)

  unfoldable pub token_total : String → List StreamEvent → Exec S (Option ℕ)
  unfolding sum_counts known_values filter
  token_total key events =
      total (known_values key (filter (λ e. e.event_type == "agent.model") events))

module _ (p : Platform) (web : Web) where
  unfoldable pub get_task_trace : String → String → Exec (World p) TaskTraceData
  unfolding token_total count_type
  get_task_trace task_id merchant_id = do
    found ← Tasks.get_trace p task_id merchant_id
    input_tokens ← token_total web "input_tokens" found.1
    output_tokens ← token_total web "output_tokens" found.1
    pure (record {
      task_id = found.0.task_id;
      trace_id = found.0.trace_id;
      status = found.0.status;
      model_calls = count_type "agent.model" found.1;
      tool_calls = count_type "tool.started" found.1;
      retries = count_type "task.retrying" found.1;
      reflection_count = count_type "agent.reflection" found.1;
      input_tokens = input_tokens;
      output_tokens = output_tokens;
      events = found.1;
    })
