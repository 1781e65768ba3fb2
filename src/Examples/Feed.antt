-- ===== src/Examples/Feed.antt =====
-- The event stream of a task with two events, of which the second comes later.
use e_commerce_agent.Base.{◌≡◌, refl, ℕ, ltb, String, Bool, false, List, [], ◌∷◌, ◌++◌, arith}
use e_commerce_agent.Base.Json.{Json, end}
use e_commerce_agent.Base.Text.{text_length}
use e_commerce_agent.Domain.{StreamEvent}
use e_commerce_agent.Store.Feed.{Order, since}
use e_commerce_agent.Store.Feed.Rest.{unchanged}
use e_commerce_agent.Api.Stream.{
  Frame, frames_of, up_to_end, messages, event_generator, event_generator-Prefix,
  event_generator-Complete,
}

-- Ids are ordered by their lengths.
abbrev by_length : Order
by_length = record {
  later = λ a b. ltb (text_length a) (text_length b);
  later-asym = λ a b h. ground arith;
  later-trans = λ a b c h k. ground arith;
}

abbrev event_at : String → String → ℕ → StreamEvent
event_at id name n = record { event_id = id; event_type = name; sequence_number = n; payload = end }

abbrev started : StreamEvent
started = event_at "10-0" "task.started" 1

abbrev completed : StreamEvent
completed = event_at "100-0" "task.completed" 2

abbrev log : List StreamEvent
log = started ∷ completed ∷ []

abbrev dumps : Json → String
dumps v = "{}"

-- The client leaves before the third thing is sent.
abbrev impatient : ℕ → Bool
impatient n = ltb 1 n

abbrev patient : ℕ → Bool
patient n = false

event_generator-Prefix_example :
    (rest : List Frame) × (frames_of dumps impatient (up_to_end (since by_length "0-0" log))
      ≡ messages (event_generator dumps impatient by_length "0-0" (started ∷ []) (log ∷ []))
        ++ rest)
event_generator-Prefix_example =
    event_generator-Prefix dumps impatient by_length "0-0" log (started ∷ []) (completed ∷ [])
      (log ∷ []) ((refl, tt), (tt, tt)) refl (([], refl), tt)

event_generator-Complete_example :
    frames_of dumps patient (up_to_end (since by_length "0-0" log))
    ≡ messages (
        event_generator dumps patient by_length "0-0"
          (started ∷ [])
          (((started ∷ []) ∷ []) ++ unchanged 2 log))
event_generator-Complete_example =
    event_generator-Complete dumps patient by_length "0-0" log (started ∷ []) (completed ∷ [])
      ((started ∷ []) ∷ []) 2 (λ k. refl) ((refl, tt), (tt, tt)) refl ((completed ∷ [], refl), tt)
      (omega arith)
