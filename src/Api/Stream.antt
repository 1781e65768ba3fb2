-- ===== src/Api/Stream.antt =====
-- `stream_task_events` of api/router.py: what the event stream of a task sends.
use e_commerce_agent.Base.{
  ℕ, suc, ◌≤◌, ◌≡◌, refl, ap, ◌∙◌, String, ◌<>◌, Bool, false, ◌||◌, Option, none, some, List, [],
  ◌∷◌, ◌++◌, length, ◌==◌, if◌then◌else◌, Bool-cases, inl, inr,
}
use e_commerce_agent.Base.Json.{Json, num, obj, field, end, merge}
use e_commerce_agent.Domain.{StreamEvent}
use e_commerce_agent.Store.Feed.{Order, since, events_in, iter_events}
use e_commerce_agent.Store.Feed.Log.{IsOrdered, AreViews, iter_events-Prefix}
use e_commerce_agent.Store.Feed.Rest.{unchanged, iter_events-Complete}

pub data Frame : Type 0 where
  retry ping : Frame
  event : String → String → String → Frame

-- The text that is sent.
abbrev pub frame_text : Frame → String
frame_text retry = "retry: 3000\n\n"
frame_text ping = ": ping\n\n"
frame_text (event id name data_) =
    "id: " <> (id <> ("\nevent: " <> (name <> ("\ndata: " <> (data_ <> "\n\n")))))

-- The types of the events that a stream ends with.
unfoldable pub ends_stream : String → Bool
ends_stream t =
    t == "task.awaiting_input"
    || (t == "task.awaiting_approval"
        || (t == "task.rejected" || (t == "task.completed" || t == "task.failed")))

-- The events up to the first that ends the stream, with that one.
abbrev pub up_to_end : List StreamEvent → List StreamEvent
up_to_end [] = []
up_to_end (e ∷ es) = if ends_stream e.event_type then e ∷ [] else e ∷ up_to_end es

abbrev pub messages : List Frame → List Frame
messages [] = []
messages (retry ∷ fs) = messages fs
messages (ping ∷ fs) = messages fs
messages (event id name data_ ∷ fs) = event id name data_ ∷ messages fs

-- `json.dumps`, and what `is_disconnected` says before each thing that the store yields.
module _ (dumps : Json → String) (gone : ℕ → Bool) where
  abbrev pub frame_of : StreamEvent → Frame
  frame_of e =
      event e.event_id e.event_type
        (dumps (obj (merge (field "sequence_number" (num e.sequence_number) end) e.payload)))

  abbrev pub frames_of : List StreamEvent → List Frame
  frames_of [] = []
  frames_of (e ∷ es) = frame_of e ∷ frames_of es

  unfoldable pub send : ℕ → List (Option StreamEvent) → List Frame
  unfolding ends_stream merge
  send n [] = []
  send n (none ∷ ys) = let rest = send (suc n) ys in if gone n then [] else ping ∷ rest
  send n (some e ∷ ys) =
      let rest = send (suc n) ys in
      if gone n then [] else frame_of e ∷ (if ends_stream e.event_type then [] else rest)

  unfoldable pub event_generator :
      Order → String → List StreamEvent → List (List StreamEvent) → List Frame
  unfolding send iter_events
  event_generator o cursor stream polls = retry ∷ send 0 (iter_events o cursor stream polls)

  send-Prefix :
      (n : ℕ) (ys : List (Option StreamEvent)) (tail : List StreamEvent)
      → (rest : List Frame) × (frames_of (up_to_end (events_in ys ++ tail))
          ≡ messages (send n ys) ++ rest)
  unfolding send
  send-Prefix n [] tail = (frames_of (up_to_end tail), refl)
  send-Prefix n (none ∷ ys) tail = elim (Bool-cases (gone n)) [
    | inl left ↦ (frames_of (up_to_end (events_in ys ++ tail)), rw left refl)
    | inr here ↦ let (rest, eq) = send-Prefix (suc n) ys tail in (rest, rw here eq)
  ]
  send-Prefix n (some e ∷ ys) tail = elim (Bool-cases (gone n)) [
    | inl left ↦ (frames_of (up_to_end (e ∷ events_in ys ++ tail)), rw left refl)
    | inr here ↦ elim (Bool-cases (ends_stream e.event_type)) [
      | inl last ↦ ([], rw (here, last) refl)
      | inr more ↦
          let (rest, eq) = send-Prefix (suc n) ys tail in
          (rest, rw (here, more) (ap (λ fs. frame_of e ∷ fs) eq))
    ]
  ]

  send-Complete :
      ((n : ℕ) → gone n ≡ false)
      → (n : ℕ) (ys : List (Option StreamEvent))
      → frames_of (up_to_end (events_in ys)) ≡ messages (send n ys)
  unfolding send
  send-Complete here n [] = refl
  send-Complete here n (none ∷ ys) = rw (here n) (send-Complete here (suc n) ys)
  send-Complete here n (some e ∷ ys) = elim (Bool-cases (ends_stream e.event_type)) [
    | inl last ↦ rw (here n, last) refl
    | inr more ↦ rw (here n, more) (ap (λ fs. frame_of e ∷ fs) (send-Complete here (suc n) ys))
  ]

  -- Of a log whose ids are in order, each read finding a beginning of it, the stream sends an initial
  -- segment of the events after the cursor up to the first that ends a stream: none is lost, repeated
  -- or out of order, whenever the reads happen and whenever the client leaves.
  pub event_generator-Prefix :
      (o : Order) (cursor : String) (log stream more : List StreamEvent)
      (polls : List (List StreamEvent))
      → IsOrdered o log
      → log ≡ stream ++ more
      → AreViews o log polls
      → (rest : List Frame) × (frames_of (up_to_end (since o cursor log))
          ≡ messages (event_generator o cursor stream polls) ++ rest)
  unfolding event_generator
  event_generator-Prefix o cursor log stream more polls ordered view views =
      let (tail, eq) = iter_events-Prefix o cursor log stream more polls ordered view views in
      let (rest, sent) = send-Prefix 0 (iter_events o cursor stream polls) tail in
      (rest, ap (λ es. frames_of (up_to_end es)) eq ∙ sent)

  -- For a client that stays, once the log has stopped growing, as many reads as it has events are
  -- enough: then all events after the cursor, up to the first that ends a stream, have been sent.
  pub event_generator-Complete :
      (o : Order) (cursor : String) (log stream more : List StreamEvent)
      (polls : List (List StreamEvent)) (n : ℕ)
      → ((k : ℕ) → gone k ≡ false)
      → IsOrdered o log
      → log ≡ stream ++ more
      → AreViews o log polls
      → length log ≤ n
      → frames_of (up_to_end (since o cursor log))
        ≡ messages (event_generator o cursor stream (polls ++ unchanged n log))
  unfolding event_generator
  event_generator-Complete o cursor log stream more polls n here ordered view views enough =
      ap (λ es. frames_of (up_to_end es))
        (iter_events-Complete o log ordered cursor stream more polls n view views enough)
      ∙ send-Complete here 0 (iter_events o cursor stream (polls ++ unchanged n log))
