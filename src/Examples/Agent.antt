-- ===== src/Examples/Agent.antt =====
-- A run of the agent with a model that submits nothing.
use e_commerce_agent.Base.{◌≡◌, ◌↔◌, refl, Option, some, none, [], ◌∷◌}
use e_commerce_agent.Base.Json.{str, field, end, get_field}
use e_commerce_agent.Domain.{Diagnosis, Finding}
use e_commerce_agent.Errors.{Error, Result, ok, err}
use e_commerce_agent.Platform.{Platform, confirmed}
use e_commerce_agent.World.{World}
use e_commerce_agent.Agent.State.{AgentState, Kit, Limits, ToolCall, Resumption, unparsed}
use e_commerce_agent.Agent.Diagnosis.{diagnosis_errors}
use e_commerce_agent.Agent.Evidence.{IsSupported, diagnosis_errors_iff}
use e_commerce_agent.Agent.Tools.{execute_tool, execute_tool-refuses}
use e_commerce_agent.Agent.Reflect.{letters}
use e_commerce_agent.Agent.Graph.{scope, Halt, recursion_limit, run_graph}
use e_commerce_agent.Agent.Limit.{run_graph_returns}
use e_commerce_agent.Agent.Decide.{approval_node}
use e_commerce_agent.Agent.Consent.{Consented, approval_node-Consented}
use e_commerce_agent.Agent.Run.{initial_state}
use e_commerce_agent.Examples.Setting.{platform, task, empty_store, world}

letters_test : letters "ab" ≡ "a" ∷ "b" ∷ []
unfolding letters
letters_test = refl

abbrev server : Platform
server = platform confirmed

abbrev start : World server
start = world server (empty_store server)

abbrev kit : Kit server
kit = record {
  complete = λ messages prompt w. (
    ok (record {
      content = "";
      tool_calls = [];
      input_tokens = none;
      output_tokens = none;
      finish_reason = none;
    }),
    w,
  );
  parse_diagnosis = λ arguments. unparsed "";
  canonical = λ v. "";
  dumps = λ v. "";
  tool = λ name. some (λ arguments w. (ok end, w));
  read_metrics = λ merchant_id product_id w.
      (ok (field "snapshot_id" (str "n1") (field "metric_version" (str "v1") end)), w);
  render = λ s d w. (ok "", w);
}

abbrev limits : Limits
limits = record {
  max_iterations = 8;
  max_repeated_steps = 3;
  max_tool_calls_per_turn = 4;
  max_reflections = 1;
  prompt_version = "1";
  skill_version = "1";
}

run_graph_returns_example :
    (end : Result Halt × World server) × (run_graph server kit limits
        (recursion_limit limits)
        scope
        none
        (initial_state task)
        start
      ≡ some end)
run_graph_returns_example =
    run_graph_returns server kit limits scope none (initial_state task) start

abbrev finding : Finding
finding = record {
  category = "content";
  statement = "the page does not say what it works with";
  kind = "fact";
  evidence_ids = "review_1" ∷ [];
  confidence = "high";
}

abbrev diagnosis : Diagnosis
diagnosis = record {
  summary = "unclear page";
  findings = finding ∷ [];
  actions = "say it" ∷ [];
  proposed_patch =
      some (record { field_name = "description"; new_value = "a bright lamp"; reason = "reviews" });
  missing_data = [];
}

diagnosis_errors_iff_example :
    (diagnosis_errors ("review_1" ∷ "price_1" ∷ []) diagnosis ≡ [])
    ↔ IsSupported ("review_1" ∷ "price_1" ∷ []) diagnosis
diagnosis_errors_iff_example = diagnosis_errors_iff ("review_1" ∷ "price_1" ∷ []) diagnosis

abbrev scoped : AgentState
scoped = record (initial_state task) { product_id = some "p1" }

-- The call asks for the metrics of another merchant.
abbrev foreign_call : ToolCall
foreign_call = record {
  call_id = "c1";
  name = "get_metrics";
  arguments = field "merchant_id" (str "m2") (field "product_id" (str "p1") end);
}

execute_tool-refuses_example :
    (e : Error) × (execute_tool server kit scoped foreign_call start ≡ (err e, start))
unfolding get_field
execute_tool-refuses_example =
    execute_tool-refuses server kit scoped foreign_call "p1" start refl refl refl

abbrev answer : Option Resumption
answer = some (record { kind = "approval"; id = "ap1" })

approval_node-Consented_example :
    Consented server scoped answer start (approval_node server answer scoped start).1
approval_node-Consented_example = approval_node-Consented server scoped answer start
