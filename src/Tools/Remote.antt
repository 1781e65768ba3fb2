-- ===== src/Tools/Remote.antt =====
-- `McpToolClient.call` of tools/mcp.py. The server is an argument, by how many calls it has had.
use e_commerce_agent.Base.{ℕ, suc, String, Bool, true, false, ◌||◌}
use e_commerce_agent.Base.Json.{str, Fields, end, field}
use e_commerce_agent.Errors.{Error, Result, ok, err, timeout_error, unexpected}
use e_commerce_agent.Exec.{Exec}
use e_commerce_agent.Llm.Retry.{Classes, retry_async}

-- What a call comes to: structured content that is a dict, another result by the dict that
-- `model_dump` gives of it, or by its text, and an exception.
pub data CallOutcome : Type 0 where
  structured : Fields → CallOutcome
  dumped : Fields → CallOutcome
  plain : String → CallOutcome
  raised : Error → CallOutcome

unfoldable pub call_result : CallOutcome → Result Fields
call_result (structured fs) = ok fs
call_result (dumped fs) = ok fs
call_result (plain text) = ok (field "content" (str text) end)
call_result (raised e) = err e

-- `retryable=(httpx.HTTPError, TimeoutError, ConnectionError)`
unfoldable pub is_retryable_call : Classes → Error → Bool
is_retryable_call classes timeout_error = true
is_retryable_call classes (unexpected name) =
    classes.is_subclass name "HTTPError"
    || (classes.is_subclass name "TimeoutError" || classes.is_subclass name "ConnectionError")
is_retryable_call classes e = false

module _ (classes : Classes) (server : ℕ → String → Fields → CallOutcome) where
  unfoldable pub call_once : String → Fields → Exec ℕ Fields
  unfolding call_result
  call_once name arguments calls = (call_result (server calls name arguments), suc calls)

  unfoldable pub call : ℕ → String → Fields → Exec ℕ Fields
  unfolding retry_async call_once
  call attempts name arguments =
      retry_async (is_retryable_call classes) (call_once name arguments) attempts
