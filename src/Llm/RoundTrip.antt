-- ===== src/Llm/RoundTrip.antt =====
-- The tool calls that `_wire_messages` of llm/client.py sends are those that `complete` would read.
use e_commerce_agent.Base.{◌≡◌, refl, ℕ, suc, false, some, List, [], ◌∷◌, ◌==◌, All}
use e_commerce_agent.Base.Json.{obj}
use e_commerce_agent.Errors.{ok}
use e_commerce_agent.Agent.State.{ToolCall}
use package.e_commerce_agent.Llm.{Codec}
use package.e_commerce_agent.Llm.Read.{read_call, read_calls}
use package.e_commerce_agent.Llm.Wire.{wire_call, wire_calls}

module _ (c : Codec) where
  -- The call has an id, and `loads` undoes `dumps` on its arguments.
  pub record IsSendable (call : ToolCall) : Type 0 where
    pub named : (call.call_id == "") ≡ false
    pub loads : c.loads (c.dumps (obj call.arguments)) ≡ some (obj call.arguments)

  read_call-wire_call :
      {S : Type 0} (count : ℕ) (call : ToolCall) (s : S)
      → IsSendable call
      → read_call c count (wire_call c call) s ≡ (ok call, s)
  unfolding read_call wire_call
  read_call-wire_call count call s h = rw h.loads (rw h.named refl)

  -- The calls of an assistant's message, written for the model's service and read as a response's, are
  -- the same calls in the same order, provided that each has an id and `loads` undoes `dumps` on its
  -- arguments.
  pub read_calls-wire_calls :
      {S : Type 0} (count : ℕ) (calls : List ToolCall) (s : S)
      → All IsSendable calls
      → read_calls c count (wire_calls c calls) s ≡ (ok calls, s)
  unfolding read_calls wire_calls
  read_calls-wire_calls count [] s h = refl
  read_calls-wire_calls count (call ∷ calls) s h =
      rw (read_call-wire_call count call s h.0)
        (rw (read_calls-wire_calls (suc count) calls s h.1) refl)
