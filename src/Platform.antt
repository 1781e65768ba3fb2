-- ===== src/Platform.antt =====
-- What the program takes from outside: a Redis server, a message broker and the SHA-256 digest, as
-- one record of operations with the documented laws that the proofs rest on.
use e_commerce_agent.Base.{
  ℕ, ◌≤◌, ◌≡◌, String, Option, none, some, List, ◌++◌, length, ◌==◌, if◌then◌else◌,
}
use e_commerce_agent.Base.Json.{Json}
use e_commerce_agent.Domain.{QueueMessage, StreamEvent}

-- The exchange and routing key of a publication: the task exchange, or the retry exchange with the
-- key of the queue of this index.
pub data Route : Type 0 where
  task_route : Route
  retry_route : ℕ → Route

pub record Publication : Type 0 where
  pub route : Route
  pub message : QueueMessage

-- What becomes of a publication: the broker has it and says so; it does not have it; it has it, and
-- the publisher gets an exception all the same.
pub data Delivery : Type 0 where
  confirmed refused unconfirmed : Delivery

pub record Platform : Type 1 where
  -- One Redis keyspace for each kind of value.
  pub Table : Type 0 → Type 0
  pub empty : (V : Type 0) → Table V
  pub get : {V : Type 0} → String → Table V → Option V
  pub put : {V : Type 0} → String → V → Table V → Table V
  pub del : {V : Type 0} → String → Table V → Table V
  pub get-empty : (V : Type 0) (k : String) → get k (empty V) ≡ none
  pub get-put :
      {V : Type 0} (k j : String) (v : V) (t : Table V)
      → get j (put k v t) ≡ (if k == j then some v else get j t)
  pub get-del :
      {V : Type 0} (k j : String) (t : Table V)
      → get j (del k t) ≡ (if k == j then none else get j t)
  -- `XADD … MAXLEN ~ n`: the id of the new entry, and the stream that is kept. Approximate trimming
  -- drops entries from the front, and none while the stream is within its bound.
  pub entry_id : List StreamEvent → String
  pub trim : ℕ → List StreamEvent → List StreamEvent
  pub trimmed : ℕ → List StreamEvent → List StreamEvent
  pub trim_suffix : (n : ℕ) (es : List StreamEvent) → es ≡ trimmed n es ++ trim n es
  pub trim_short : (n : ℕ) (es : List StreamEvent) → length es ≤ n → trim n es ≡ es
  -- The broker, by the publications that it has had.
  pub delivery : List Publication → Publication → Delivery
  pub sha256 : String → String
  -- `str.lower`, `str.strip`, and `str` of a list or a dict.
  pub lower : String → String
  pub strip : String → String
  pub repr : Json → String
