-- ===== src/PubSub/Published.antt =====
-- Which payloads the publisher of pubsub_sink.rs hands to Redis.
use polymarket_orderbook_col.Base.{
  ◌==◌, ◌≡◌, refl, sym, ap, ◌∙◌, String, Option, List, [], ◌∷◌, ◌++◌, append-nil, append_assoc,
  true, ltb, is_empty, if◌then◌else◌, length, All, arith, Bool-cases, Option-cases, inl, inr,
}
use polymarket_orderbook_col.Events.{Event}
use polymarket_orderbook_col.Events.Json.{Json, DecimalText, to_json}
use polymarket_orderbook_col.PubSub.{
  PubSubSink, Arrival, event, linger_elapsed, channel_closed, serialize, flush, on_arrival, run,
}
use polymarket_orderbook_col.PubSub.Bridge.{events_before_close, closes}

-- Redis takes the pipeline that the arrival may cause.
abbrev pub IsTaken : {D : Type 0} → Arrival D → Type 0
IsTaken (event ev a) = a ≡ true
IsTaken (linger_elapsed a) = a ≡ true
IsTaken (channel_closed a) = a ≡ true

module _ {D : Type 0} (dec : DecimalText D) (print : Json → Option String) where
  serialize-append :
      (xs ys : List (Event D))
      → (serialize dec print (xs ++ ys)).0
        ≡ (serialize dec print xs).0 ++ (serialize dec print ys).0
  unfolding serialize
  serialize-append [] ys = refl
  serialize-append (x ∷ xs) ys = elim (Option-cases (print (to_json dec x))) [
    | inl e ↦ rw (e, serialize) (serialize-append xs ys)
    | inr (payload, e) ↦ rw (e, serialize) (ap (λ t. payload ∷ t) (serialize-append xs ys))
  ]

  nothing_in : (ts : List String) → (length ts == 0) ≡ true → ts ≡ []
  nothing_in [] h = refl
  nothing_in (t ∷ ts) h = absurd (ground (arith, h))

  flush-published :
      (s : PubSubSink D)
      → ((flush dec print true s).published ≡ s.published ++ (serialize dec print s.batch).0)
        × ((flush dec print true s).batch ≡ [])
  unfolding flush
  flush-published s = elim (Bool-cases (length (serialize dec print s.batch).0 == 0)) [
    | inl none_left ↦
        rw (none_left, flush)
          (
            sym (append-nil s.published)
                ∙ ap (λ t. s.published ++ t)
                    (sym (nothing_in (serialize dec print s.batch).0 none_left)),
            refl,
          )
    | inr some_left ↦ rw (some_left, flush) (refl, refl)
  ]

  -- What is published and what is to be, of the batch and of events that are still to come.
  abbrev due : PubSubSink D → List (Event D) → List String
  due s evs = s.published ++ (serialize dec print (s.batch ++ evs)).0

  flush-due :
      (s : PubSubSink D) (evs : List (Event D)) → due (flush dec print true s) evs ≡ due s evs
  flush-due s evs =
      let (taken, empty) = flush-published s in
      ap (λ t. t ++ (serialize dec print ((flush dec print true s).batch ++ evs)).0) taken
      ∙ ap
          (λ b.
            (s.published ++ (serialize dec print s.batch).0) ++ (serialize dec print (b ++ evs)).0)
          empty
      ∙ append_assoc s.published (serialize dec print s.batch).0 (serialize dec print evs).0
      ∙ ap (λ t. s.published ++ t) (sym (serialize-append s.batch evs))

  on_arrival-due :
      (ev : Event D) (s : PubSubSink D) (evs : List (Event D))
      → due (on_arrival dec print (event ev true) s).0 evs ≡ due s (ev ∷ evs)
  unfolding on_arrival
  on_arrival-due ev s evs =
      let s1 = record s { batch = s.batch ++ ev ∷ [] } in
      let pushed : due s1 evs ≡ due s (ev ∷ evs) =
        ap (λ b. s.published ++ (serialize dec print b).0) (append_assoc s.batch (ev ∷ []) evs) in
      elim (Bool-cases (ltb (length (s.batch ++ ev ∷ [])) s.batch_max)) [
        | inl room ↦ rw room pushed
        | inr full ↦ rw full (flush-due s1 evs ∙ pushed)
      ]

  flush_if-due :
      (s : PubSubSink D) (evs : List (Event D))
      → due (if is_empty s.batch then s else flush dec print true s) evs ≡ due s evs
  flush_if-due s evs = elim (Bool-cases (is_empty s.batch)) [
    | inl e ↦ rw e refl
    | inr e ↦ rw e (flush-due s evs)
  ]

  flush_if-batch :
      (s : PubSubSink D) → (if is_empty s.batch then s else flush dec print true s).batch ≡ []
  flush_if-batch s = elim (Bool-cases (is_empty s.batch)) [
    | inl e ↦ rw e (ground (arith, e))
    | inr e ↦ rw e (flush-published s).1
  ]

  -- Once the channel is closed, if Redis took every pipeline, the published payloads are the earlier ones
  -- and then those of all events, of the batch and of those that arrived, in order.
  pub run-published :
      (as' : List (Arrival D)) (s : PubSubSink D)
      → All IsTaken as'
      → closes dec print as' ≡ true
      → (run dec print as' s).published ≡ due s (events_before_close dec print as')
  unfolding run events_before_close on_arrival
  run-published [] s taken h = absurd cc
  run-published (event ev a ∷ rest) s (yes_a, taken) h =
      run-published rest (on_arrival dec print (event ev a) s).0 taken h
      ∙ rw yes_a (on_arrival-due ev s (events_before_close dec print rest))
  run-published (linger_elapsed a ∷ rest) s (yes_a, taken) h =
      run-published rest (on_arrival dec print (linger_elapsed a) s).0 taken h
      ∙ rw yes_a (flush_if-due s (events_before_close dec print rest))
  run-published (channel_closed a ∷ rest) s (yes_a, taken) h =
      let s' = if is_empty s.batch then s else flush dec print true s in
      rw yes_a (
        sym (append-nil s'.published)
        ∙ ap (λ b. s'.published ++ (serialize dec print (b ++ [])).0) (sym (flush_if-batch s))
        ∙ flush_if-due s [])
