-- ===== src/Store/Events.antt =====
-- `append_event` of redis_store.py numbers the events of a task.
use e_commerce_agent.Base.{
  ℕ, suc, ◌≤◌, ◌<◌, ◌≡◌, String, List, [], ◌∷◌, ◌++◌, arith, ◌==◌, eq_iff, eq_refl, false, refl,
  inl, inr, Bool-cases, subst,
}
use e_commerce_agent.Base.Json.{Fields}
use e_commerce_agent.Domain.{StreamEvent}
use e_commerce_agent.Platform.{Platform}
use e_commerce_agent.Store.{Redis, TraceContext, append_event, list_events, counter}

-- The numbers grow strictly, from above `low` to at most `high`.
abbrev pub Numbered : ℕ → ℕ → List StreamEvent → Type 0
Numbered low high [] = low ≤ high
Numbered low high (e ∷ es) = (low < e.sequence_number) × Numbered e.sequence_number high es

Numbered-weaken :
    (low low' high : ℕ) (es : List StreamEvent)
    → low ≤ low'
    → Numbered low' high es
    → Numbered low high es
Numbered-weaken low low' high [] le h = omega arith
Numbered-weaken low low' high (e ∷ es) le h = (omega arith, h.1)

Numbered-bounds : (low high : ℕ) (es : List StreamEvent) → Numbered low high es → low ≤ high
Numbered-bounds low high [] h = h
Numbered-bounds low high (e ∷ es) h = omega (arith, Numbered-bounds e.sequence_number high es h.1)

Numbered-suffix :
    (low high : ℕ) (dropped es : List StreamEvent)
    → Numbered low high (dropped ++ es)
    → Numbered low high es
Numbered-suffix low high [] es h = h
Numbered-suffix low high (d ∷ dropped) es h =
    Numbered-weaken low d.sequence_number high es (omega arith)
      (Numbered-suffix d.sequence_number high dropped es h.1)

Numbered-append :
    (low high : ℕ) (es : List StreamEvent) (e : StreamEvent)
    → e.sequence_number ≡ suc high
    → Numbered low high es
    → Numbered low (suc high) (es ++ e ∷ [])
Numbered-append low high [] e eq h = (omega arith, omega arith)
Numbered-append low high (x ∷ es) e eq h = (h.0, Numbered-append x.sequence_number high es e eq h.1)

module _ (p : Platform) where
  abbrev pub IsNumbered : Redis p → Type 0
  IsNumbered r =
      (task_id : String)
      → Numbered 0 (counter p (p.get task_id r.sequences)) (list_events p task_id r)

  module _ (max_length : ℕ) (trace : TraceContext) (now : ℕ) (task_id event_type : String)
      (payload : Fields) (r : Redis p) where
    abbrev appended : Redis p
    appended = (append_event p max_length trace now task_id event_type payload r).1

    abbrev event : StreamEvent
    event = (append_event p max_length trace now task_id event_type payload r).0

    -- One event more raises the counter of its task by one, and stands last before trimming.
    append_here :
        (list_events p task_id appended ≡ p.trim max_length (list_events p task_id r ++ event ∷ []))
        × (counter p (p.get task_id appended.sequences)
            ≡ suc (counter p (p.get task_id r.sequences)))
        × (event.sequence_number ≡ suc (counter p (p.get task_id r.sequences)))
    unfolding append_event list_events
    append_here = (
      ground (
        arith,
        p.get-put task_id task_id (p.trim max_length (list_events p task_id r ++ event ∷ []))
            r.streams,
        eq_refl task_id,
      ),
      ground (
        arith,
        p.get-put task_id task_id (suc (counter p (p.get task_id r.sequences))) r.sequences,
        eq_refl task_id,
      ),
      refl,
    )

    append_elsewhere :
        (j : String)
        → (task_id == j) ≡ false
        → (list_events p j appended ≡ list_events p j r)
          × (p.get j appended.sequences ≡ p.get j r.sequences)
    unfolding append_event list_events
    append_elsewhere j other = (
      ground (
        arith,
        p.get-put task_id j (p.trim max_length (list_events p task_id r ++ event ∷ [])) r.streams,
      ),
      ground (arith, p.get-put task_id j (suc (counter p (p.get task_id r.sequences))) r.sequences),
    )

    Numbered-here :
        IsNumbered r
        → Numbered 0 (counter p (p.get task_id appended.sequences)) (list_events p task_id appended)
    Numbered-here h =
        let before = list_events p task_id r in
        let count = counter p (p.get task_id r.sequences) in
        rw append_here.0 (
          rw append_here.1 (
            Numbered-suffix 0 (suc count) (p.trimmed max_length (before ++ event ∷ []))
              (p.trim max_length (before ++ event ∷ []))
              (subst (Numbered 0 (suc count)) (p.trim_suffix max_length (before ++ event ∷ []))
                (Numbered-append 0 count before event append_here.2 (h task_id)))))

    -- In every task's stream, whatever trimming has dropped from the front, the sequence numbers
    -- grow strictly and end at the task's counter at the latest; appending an event keeps it so, and
    -- the new event's number is the next one.
    pub append_event-IsNumbered :
        IsNumbered r
        → IsNumbered appended
          × (event.sequence_number ≡ suc (counter p (p.get task_id r.sequences)))
    append_event-IsNumbered h = (
      λ j. elim (Bool-cases (task_id == j)) [
        | inl same ↦
            subst
              (λ j. Numbered 0 (counter p (p.get j appended.sequences)) (list_events p j appended))
              ((eq_iff task_id j).0 same) (Numbered-here h)
        | inr other ↦ rw (append_elsewhere j other).0 (rw (append_elsewhere j other).1 (h j))
      ],
      append_here.2,
    )
