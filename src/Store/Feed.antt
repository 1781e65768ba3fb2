-- ===== src/Store/Feed.antt =====
-- `iter_events` of redis_store.py: the backlog of a task's stream, then what each `XREAD` brings.
pub mod Log
pub mod Rest
use e_commerce_agent.Base.{
  ℕ, zero, suc, ◌≤◌, ◌≡◌, refl, sym, ap, ◌∙◌, String, Bool, true, false, Option, none, some, List,
  [], ◌∷◌, ◌++◌, append_assoc, append-nil, filter, filter-append, take, drop, take-drop, length,
  length-append, arith, Bool-cases, inl, inr, if◌then◌else◌, All,
}
use e_commerce_agent.Domain.{StreamEvent}

-- The order of the ids of a stream: `later a b` says that b comes after a.
pub record Order : Type 0 where
  pub later : String → String → Bool
  pub later-asym : (a b : String) → later a b ≡ true → later b a ≡ false
  pub later-trans : (a b c : String) → later a b ≡ true → later b c ≡ true → later a c ≡ true

abbrev pub last_id : String → List StreamEvent → String
last_id id [] = id
last_id id (e ∷ es) = last_id e.event_id es

abbrev yielded : List StreamEvent → List (Option StreamEvent)
yielded [] = []
yielded (e ∷ es) = some e ∷ yielded es

-- The events among what the generator yields; `None` stands for a poll that brought nothing.
abbrev pub events_in : List (Option StreamEvent) → List StreamEvent
events_in [] = []
events_in (none ∷ ys) = events_in ys
events_in (some e ∷ ys) = e ∷ events_in ys

module _ (o : Order) where
  -- `XRANGE stream (id +`
  abbrev pub since : String → List StreamEvent → List StreamEvent
  since id es = filter (λ e. o.later id e.event_id) es

  -- `XREAD COUNT 100`
  abbrev batch : String → List StreamEvent → List StreamEvent
  batch id es = take 100 (since id es)

  -- One round of the loop, by what the read brought; `rest` are the rounds that follow.
  abbrev round :
      String → List StreamEvent → (String → List (Option StreamEvent)) → List (Option StreamEvent)
  round id [] rest = none ∷ rest id
  round id (e ∷ es) rest = yielded (e ∷ es) ++ rest (last_id id (e ∷ es))

  -- `while True:`, for as many rounds as the caller asks for: each finds the stream as it then is.
  unfoldable pub follow : String → List (List StreamEvent) → List (Option StreamEvent)
  unfolding filter take
  follow id [] = []
  follow id (stream ∷ polls) = round id (batch id stream) (λ id'. follow id' polls)

  unfoldable pub iter_events :
      String → List StreamEvent → List (List StreamEvent) → List (Option StreamEvent)
  unfolding follow filter
  iter_events after_id stream polls =
      let backlog = since after_id stream in
      yielded backlog ++ follow (last_id after_id backlog) polls
