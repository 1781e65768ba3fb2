-- ===== src/Store/Feed/Log.antt =====
-- What `iter_events` of redis_store.py gives of a stream whose ids are in order.
use e_commerce_agent.Base.{
  ◌≡◌, refl, sym, ap, subst, ◌∙◌, String, true, false, Option, List, [], ◌∷◌, ◌++◌, append_assoc,
  filter, filter-append, drop, take-drop, arith, Bool-cases, inl, inr, All,
}
use e_commerce_agent.Domain.{StreamEvent}
use package.e_commerce_agent.Store.Feed.{
  Order, since, last_id, batch, round, yielded, events_in, follow, iter_events,
}

events_in-yielded :
    (es : List StreamEvent) (ys : List (Option StreamEvent))
    → events_in (yielded es ++ ys) ≡ es ++ events_in ys
events_in-yielded [] ys = refl
events_in-yielded (e ∷ es) ys = ap (λ l. e ∷ l) (events_in-yielded es ys)

cons-head : {x y : StreamEvent} {xs ys : List StreamEvent} → x ∷ xs ≡ y ∷ ys → x ≡ y
cons-head h = cc

cons-tail : {x y : StreamEvent} {xs ys : List StreamEvent} → x ∷ xs ≡ y ∷ ys → xs ≡ ys
cons-tail h = cc

module _ (o : Order) where
  -- Every event comes after all those before it.
  abbrev pub IsOrdered : List StreamEvent → Type 0
  IsOrdered [] = Unit
  IsOrdered (e ∷ es) = All (λ x. o.later e.event_id x.event_id ≡ true) es × IsOrdered es

  since-All :
      (id : String) (es : List StreamEvent)
      → All (λ x. o.later id x.event_id ≡ true) es
      → since o id es ≡ es
  unfolding filter
  since-All id [] h = refl
  since-All id (e ∷ es) h = rw (h.0, since-All id es h.1) refl

  -- What holds of every event holds of the first that is found.
  All-since :
      (P : StreamEvent → Type 0) (id : String) (es found : List StreamEvent) (x : StreamEvent)
      → All P es
      → since o id es ≡ x ∷ found
      → P x
  unfolding filter
  All-since P id [] found x h eq = absurd (ground arith)
  All-since P id (e ∷ es) found x h eq = elim (Bool-cases (o.later id e.event_id)) [
    | inl here ↦ subst P (cons-head (rw here at eq)) h.0
    | inr before ↦ All-since P id es found x h.1 (rw before at eq)
  ]

  All-later :
      (a b : String) (es : List StreamEvent)
      → o.later a b ≡ true
      → All (λ x. o.later b x.event_id ≡ true) es
      → All (λ x. o.later a x.event_id ≡ true) es
  All-later a b [] h all = tt
  All-later a b (e ∷ es) h all = (o.later-trans a b e.event_id h all.0, All-later a b es h all.1)

  irreflexive : (a : String) → o.later a a ≡ false
  irreflexive a = elim (Bool-cases (o.later a a)) [
    | inl itself ↦ o.later-asym a a itself
    | inr apart ↦ apart
  ]

  -- After the first event that is found, the others are found.
  since-next :
      (id : String) (log es : List StreamEvent) (x : StreamEvent)
      → IsOrdered log
      → since o id log ≡ x ∷ es
      → since o x.event_id log ≡ es
  unfolding filter
  since-next id [] es x ordered eq = absurd (ground arith)
  since-next id (y ∷ log) es x ordered eq = elim (Bool-cases (o.later id y.event_id)) [
    | inl here ↦
        let first : y ∷ since o id log ≡ x ∷ es = rw here at eq in
        let found : since o y.event_id (y ∷ log) ≡ es = rw (irreflexive y.event_id) (
          since-All y.event_id log ordered.0
          ∙ sym (since-All id log (All-later id y.event_id log here ordered.0))
          ∙ cons-tail first) in
        subst (λ z. since o z.event_id (y ∷ log) ≡ es) (cons-head first) found
    | inr before ↦
        let found : since o id log ≡ x ∷ es = rw before at eq in
        rw
          (o.later-asym y.event_id x.event_id
            (All-since (λ z. o.later y.event_id z.event_id ≡ true) id log es x ordered.0 found))
          (since-next id log es x ordered.1 found)
  ]

  pub since-last :
      (id : String) (log read rest : List StreamEvent)
      → IsOrdered log
      → since o id log ≡ read ++ rest
      → since o (last_id id read) log ≡ rest
  since-last id log [] rest ordered eq = eq
  since-last id log (x ∷ read) rest ordered eq =
      since-last x.event_id log read rest ordered (since-next id log (read ++ rest) x ordered eq)

  -- Every poll finds a beginning of the log: what has been appended by then.
  abbrev pub AreViews : List StreamEvent → List (List StreamEvent) → Type 0
  AreViews log [] = Unit
  AreViews log (stream ∷ polls) =
      ((more : List StreamEvent) × (log ≡ stream ++ more)) × AreViews log polls

  pub batch-since :
      (id : String) (log stream more : List StreamEvent)
      → log ≡ stream ++ more
      → (rest : List StreamEvent) × (since o id log ≡ batch o id stream ++ rest)
  batch-since id log stream more eq = (
    drop 100 (since o id stream) ++ since o id more,
    ap (since o id) eq
        ∙ filter-append (λ e. o.later id e.event_id) stream more
        ∙ ap (λ l. l ++ since o id more) (take-drop 100 (since o id stream))
        ∙ append_assoc (batch o id stream) (drop 100 (since o id stream)) (since o id more),
  )

  -- What has been read, and an initial segment of what comes after it, is an initial segment.
  pub yielded-Prefix :
      (id : String) (log read rest tail : List StreamEvent) (ys : List (Option StreamEvent))
      → since o id log ≡ read ++ rest
      → rest ≡ events_in ys ++ tail
      → since o id log ≡ events_in (yielded read ++ ys) ++ tail
  yielded-Prefix id log read rest tail ys eq next =
      eq
      ∙ ap (λ l. read ++ l) next
      ∙ sym (append_assoc read (events_in ys) tail)
      ∙ ap (λ l. l ++ tail) (sym (events_in-yielded read ys))

  round-Prefix :
      (id : String) (log read rest : List StreamEvent) (ys : String → List (Option StreamEvent))
      → IsOrdered log
      → since o id log ≡ read ++ rest
      → ((id' : String)
          → (tail : List StreamEvent) × (since o id' log ≡ events_in (ys id') ++ tail))
      → (tail : List StreamEvent) × (since o id log ≡ events_in (round o id read ys) ++ tail)
  round-Prefix id log [] rest ys ordered eq next = next id
  round-Prefix id log (e ∷ es) rest ys ordered eq next =
      let (tail, eq') = next (last_id id (e ∷ es)) in
      (
        tail,
        yielded-Prefix id log (e ∷ es) rest tail (ys (last_id id (e ∷ es))) eq
            (sym (since-last id log (e ∷ es) rest ordered eq) ∙ eq'),
      )

  follow-Prefix :
      (id : String) (log : List StreamEvent) (polls : List (List StreamEvent))
      → IsOrdered log
      → AreViews log polls
      → (tail : List StreamEvent) × (since o id log ≡ events_in (follow o id polls) ++ tail)
  unfolding follow
  follow-Prefix id log [] ordered views = (since o id log, refl)
  follow-Prefix id log (stream ∷ polls) ordered ((more, eq), views) =
      let (rest, split) = batch-since id log stream more eq in
      round-Prefix id log (batch o id stream) rest (λ id'. follow o id' polls) ordered split
        (λ id'. follow-Prefix id' log polls ordered views)

  -- The events that the generator yields, before it is stopped, are an initial segment of those of the
  -- log after the given id: none is lost or repeated, and their order is kept.
  pub iter_events-Prefix :
      (id : String) (log stream more : List StreamEvent) (polls : List (List StreamEvent))
      → IsOrdered log
      → log ≡ stream ++ more
      → AreViews log polls
      → (tail : List StreamEvent) × (since o id log
          ≡ events_in (iter_events o id stream polls) ++ tail)
  unfolding iter_events
  iter_events-Prefix id log stream more polls ordered view views =
      let backlog = since o id stream in
      let split = ap (since o id) view ∙ filter-append (λ e. o.later id e.event_id) stream more in
      let (tail, eq) = follow-Prefix (last_id id backlog) log polls ordered views in
      (
        tail,
        yielded-Prefix id log backlog (since o id more) tail (follow o (last_id id backlog) polls)
            split (sym (since-last id log backlog (since o id more) ordered split) ∙ eq),
      )
