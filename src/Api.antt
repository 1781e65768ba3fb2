-- ===== src/Api.antt =====
-- The HTTP interface: api/router.py, api/schemas.py, and the middleware and exception handlers of
-- main.py. A request is what FastAPI has parsed of it.
pub mod Schemas
pub mod Auth
pub mod Trace
pub mod Routes
pub mod Stream
pub mod Serve
pub mod Guards
pub mod Foreign
pub mod Answers
use e_commerce_agent.Base.{ℕ, String, Bool, Option}
use e_commerce_agent.Base.Json.{Json}
use e_commerce_agent.Errors.{Result}

-- What the interface takes from outside: the setting `demo_api_token`, whether a text matches a
-- pattern of `re` as a whole, `str.isascii`, and `int(value)` of a count, which
-- may raise.
pub record Web : Type 0 where
  pub demo_api_token : String
  pub matches : String → String → Bool
  pub is_ascii : String → Bool
  pub int : Json → Result ℕ
