-- ===== src/Examples/Turns.antt =====
-- Turns of the model: the calls that are sent, and a service that fails at first.
use e_commerce_agent.Base.{eq_refl, ◌==◌, ◌≡◌, refl, ℕ, zero, suc, none, some, [], ◌∷◌}
use e_commerce_agent.Base.Json.{Json, num, str, obj, Fields, end, field}
use e_commerce_agent.Errors.{ok}
use e_commerce_agent.Agent.State.{ToolCall}
use e_commerce_agent.Llm.{Codec}
use e_commerce_agent.Llm.Read.{read_calls}
use e_commerce_agent.Llm.Wire.{wire_calls}
use e_commerce_agent.Llm.Client.{Model, Outcome, response}
use e_commerce_agent.Llm.Retry.{Classes}
use e_commerce_agent.Llm.RoundTrip.{read_calls-wire_calls}

abbrev query : Fields
query = field "query" (str "stock") end

abbrev codec : Codec
codec = record {
  dumps = λ v. "{}";
  loads = λ s. some (obj query);
  repr = λ v. "";
  int = λ v. some 1;
}

abbrev call : ToolCall
call = record { call_id = "c1"; name = "search_knowledge"; arguments = query }

read_calls-wire_calls_example :
    read_calls codec {S = Unit {0}} 0 (wire_calls codec (call ∷ [])) tt ≡ (ok (call ∷ []), tt)
read_calls-wire_calls_example =
    read_calls-wire_calls codec 0 (call ∷ []) tt (record { named = refl; loads = refl }, tt)

abbrev model : Model
model = record { name = "m"; temperature = num 0; max_output_tokens = 100; retry_attempts = 3 }

-- The service is overloaded once, and then rejects the request.
abbrev service : ℕ → Json → Outcome
service zero request = response 429 none
service (suc k) request = response 400 none

-- Every class descends from itself alone.
abbrev same_name : Classes
same_name = record {
  is_subclass = λ name parent. name == parent;
  is_subclass-self = λ name. eq_refl name;
}
