-- ===== src/Store/Feed/Rest.antt =====
-- `iter_events` of redis_store.py, once the stream has stopped growing.
use e_commerce_agent.Base.{
  ℕ, zero, suc, ◌≤◌, ◌≡◌, refl, sym, ap, ◌∙◌, String, Bool, Option, List, [], ◌∷◌, ◌++◌, append-nil,
  filter, filter-append, take, drop, take-drop, length, length-append, arith,
}
use e_commerce_agent.Domain.{StreamEvent}
use package.e_commerce_agent.Store.Feed.{
  Order, since, last_id, batch, round, events_in, follow, iter_events,
}
use package.e_commerce_agent.Store.Feed.Log.{
  IsOrdered, AreViews, since-last, batch-since, yielded-Prefix,
}

-- The stream as it is found by n polls in a row.
abbrev pub unchanged : ℕ → List StreamEvent → List (List StreamEvent)
unchanged zero log = []
unchanged (suc n) log = log ∷ unchanged n log

length-drop : (n : ℕ) (xs : List StreamEvent) → length (drop n xs) ≤ length xs
unfolding drop
length-drop zero xs = omega arith
length-drop (suc n) [] = omega arith
length-drop (suc n) (x ∷ xs) = omega (arith, length-drop n xs)

length-zero : (xs : List StreamEvent) → length xs ≤ 0 → xs ≡ []
length-zero [] h = refl
length-zero (x ∷ xs) h = absurd (omega arith)

no_tail : (xs ys : List StreamEvent) → xs ≡ ys → xs ≡ ys ++ []
no_tail xs ys h = h ∙ sym (append-nil ys)

length-filter : (p : StreamEvent → Bool) (xs : List StreamEvent) → length (filter p xs) ≤ length xs
unfolding filter
length-filter p [] = omega arith
length-filter p (x ∷ xs) = ground (arith, length-filter p xs)

module _ (o : Order) (log : List StreamEvent) (ordered : IsOrdered o log) where
  abbrev IsAll : String → List (Option StreamEvent) → Type 0
  IsAll id ys = since o id log ≡ events_in ys ++ []

  -- The round of a poll that finds the whole log.
  round-IsAll :
      (id : String) (n : ℕ) (found : List StreamEvent) (ys : String → List (Option StreamEvent))
      → since o id log ≡ found
      → length found ≤ suc n
      → ((id' : String) → length (since o id' log) ≤ n → IsAll id' (ys id'))
      → IsAll id (round o id (take 100 found) ys)
  unfolding take
  round-IsAll id n [] ys eq enough next = next id (rw eq (omega arith))
  round-IsAll id n (x ∷ es) ys eq enough next =
      let read = x ∷ take 99 es in
      let whole = eq ∙ ap (λ l. x ∷ l) (take-drop 99 es) in
      let left = since-last o id log read (drop 99 es) ordered whole in
      yielded-Prefix o id log read (drop 99 es) [] (ys (last_id id read)) whole
        (sym left ∙ next (last_id id read) (rw left (omega (arith, length-drop 99 es))))

  unchanged-IsAll :
      (n : ℕ) (id : String) → length (since o id log) ≤ n → IsAll id (follow o id (unchanged n log))
  unfolding follow
  unchanged-IsAll zero id enough = length-zero (since o id log) enough
  unchanged-IsAll (suc n) id enough =
      round-IsAll id n (since o id log) (λ id'. follow o id' (unchanged n log)) refl enough
        (unchanged-IsAll n)

  -- The round of any poll before.
  early-IsAll :
      (id : String) (read rest : List StreamEvent) (n : ℕ) (ys : String → List (Option StreamEvent))
      → since o id log ≡ read ++ rest
      → length (since o id log) ≤ n
      → ((id' : String) → length (since o id' log) ≤ n → IsAll id' (ys id'))
      → IsAll id (round o id read ys)
  early-IsAll id [] rest n ys eq enough next = next id enough
  early-IsAll id (x ∷ es) rest n ys eq enough next =
      let left = since-last o id log (x ∷ es) rest ordered eq in
      let shorter : length rest ≤ n = omega (arith, length-append (x ∷ es) rest, ap length eq) in
      yielded-Prefix o id log (x ∷ es) rest [] (ys (last_id id (x ∷ es))) eq
        (sym left ∙ next (last_id id (x ∷ es)) (rw left shorter))

  follow-IsAll :
      (polls : List (List StreamEvent)) (n : ℕ) (id : String)
      → AreViews o log polls
      → length (since o id log) ≤ n
      → IsAll id (follow o id (polls ++ unchanged n log))
  unfolding follow
  follow-IsAll [] n id views enough = unchanged-IsAll n id enough
  follow-IsAll (stream ∷ polls) n id ((more, view), views) enough =
      let (rest, split) = batch-since o id log stream more view in
      early-IsAll id (batch o id stream) rest n (λ id'. follow o id' (polls ++ unchanged n log))
        split enough (λ id' enough'. follow-IsAll polls n id' views enough')

  -- Once the stream has stopped growing, as many polls as there are events left are enough: then the
  -- generator has yielded every event of the log after the given id, in order.
  pub iter_events-Complete :
      (id : String) (stream more : List StreamEvent) (polls : List (List StreamEvent)) (n : ℕ)
      → log ≡ stream ++ more
      → AreViews o log polls
      → length log ≤ n
      → since o id log ≡ events_in (iter_events o id stream (polls ++ unchanged n log))
  unfolding iter_events
  iter_events-Complete id stream more polls n view views enough =
      let backlog = since o id stream in
      let last = last_id id backlog in
      let split = ap (since o id) view ∙ filter-append (λ e. o.later id e.event_id) stream more in
      let few = length-filter (λ e. o.later last e.event_id) log in
      yielded-Prefix o id log backlog (since o id more) []
        (follow o last (polls ++ unchanged n log)) split
        (sym (since-last o id log backlog (since o id more) ordered split)
          ∙ follow-IsAll polls n last views (omega (arith, few, enough)))
      ∙ append-nil (events_in (iter_events o id stream (polls ++ unchanged n log)))
