-- ===== src/Llm.antt =====
-- The model client: llm/client.py, and core/retry.py.
pub mod Retry
pub mod Read
pub mod Wire
pub mod Client
pub mod Transient
pub mod RoundTrip
pub mod Attempts
use e_commerce_agent.Base.{ℕ, String, Option}
use e_commerce_agent.Base.Json.{Json}

-- `json.dumps`, `json.loads`, which may fail, `str` of a list or a dict, and `int`, which may fail.
pub record Codec : Type 0 where
  pub dumps : Json → String
  pub loads : String → Option Json
  pub repr : Json → String
  pub int : Json → Option ℕ
