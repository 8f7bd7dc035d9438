-- ===== src/PubSub/Bridge.antt =====
-- The way of the events over the pub/sub channel: pubsub_sink.rs and pubsub_subscriber.rs.
use polymarket_orderbook_col.Base.{
  ℕ, ◌+◌, ◌%◌, ◌≡◌, refl, sym, ap, ◌∙◌, String, Option, some, List, [], ◌∷◌, ◌++◌, append-nil,
  append_assoc, Bool, true, false, ltb, is_empty, if◌then◌else◌, length, length-append, All, arith,
  u64_mod, ok, Bool-cases, Option-cases, inl, inr,
}
use polymarket_orderbook_col.Events.{Event}
use polymarket_orderbook_col.Events.Json.{Json, DecimalText, to_json}
use polymarket_orderbook_col.Events.RoundTrip.{read_back, from_json-to_json}
use polymarket_orderbook_col.PubSub.{
  PubSubSink, Arrival, event, linger_elapsed, channel_closed, serialize, flush, on_arrival, run,
  Subscriber, stream_ended, count_received, forward_event, parse_event, subscribe_once,
}

-- Published, dropped, or in the batch.
abbrev pub accounted : {D : Type 0} → PubSubSink D → ℕ
accounted s = s.total_published + s.total_dropped + length s.batch

module _ {D : Type 0} (dec : DecimalText D) (print : Json → Option String) where
  length-serialize :
      (evs : List (Event D))
      → length (serialize dec print evs).0 + (serialize dec print evs).1 ≡ length evs
  unfolding serialize
  length-serialize [] = omega arith
  length-serialize (ev ∷ evs) = elim (Option-cases (print (to_json dec ev))) [
    | inl e ↦ rw (e, serialize) (omega (arith, length-serialize evs))
    | inr (payload, e) ↦ rw (e, serialize) (omega (arith, length-serialize evs))
  ]

  flush-accounted :
      (a : Bool) (s : PubSubSink D)
      → (accounted (flush dec print a s) % u64_mod ≡ accounted s % u64_mod)
        × ((flush dec print a s).batch ≡ [])
  unfolding flush
  flush-accounted a s = (ground (arith, a, length-serialize s.batch), ground (arith, a))

  on_arrival-event :
      (ev : Event D) (a : Bool) (s : PubSubSink D)
      → (accounted (on_arrival dec print (event ev a) s).0 % u64_mod ≡ (accounted s + 1) % u64_mod)
        × ((on_arrival dec print (event ev a) s).1 ≡ true)
  unfolding on_arrival
  on_arrival-event ev a s =
      let s1 = record s { batch = s.batch ++ ev ∷ [] } in
      let size = length-append s.batch (ev ∷ []) in
      (
        elim (Bool-cases (ltb (length (s.batch ++ ev ∷ [])) s.batch_max)) [
          | inl room ↦ rw room (omega (arith, size))
          | inr full ↦ rw full (omega (arith, (flush-accounted a s1).0, size))
        ],
        refl,
      )

  -- The flush at the end of the linger time or of the channel, which an empty batch does not need.
  flush_if-accounted :
      (a : Bool) (s : PubSubSink D)
      → (accounted (if is_empty s.batch then s else flush dec print a s) % u64_mod
          ≡ accounted s % u64_mod)
        × ((if is_empty s.batch then s else flush dec print a s).batch ≡ [])
  flush_if-accounted a s = elim (Bool-cases (is_empty s.batch)) [
    | inl e ↦ rw e (refl, ground (arith, e))
    | inr e ↦ rw e (flush-accounted a s)
  ]

  -- The events that arrive before the channel is closed, and whether it is.
  unfoldable pub events_before_close : List (Arrival D) → List (Event D)
  events_before_close [] = []
  events_before_close (event ev a ∷ rest) = ev ∷ events_before_close rest
  events_before_close (linger_elapsed a ∷ rest) = events_before_close rest
  events_before_close (channel_closed a ∷ rest) = []

  abbrev pub closes : List (Arrival D) → Bool
  closes [] = false
  closes (event ev a ∷ rest) = closes rest
  closes (linger_elapsed a ∷ rest) = closes rest
  closes (channel_closed a ∷ rest) = true

  -- Once the channel is closed, the publisher's batch is empty, and every event is accounted for: the
  -- published and the dropped ones are together those that were so before, or in the batch, and those
  -- that arrived, modulo 2 ^ 64.
  pub run-publishes :
      (as' : List (Arrival D)) (s : PubSubSink D)
      → closes as' ≡ true
      → let s' = run dec print as' s in
        (s'.batch ≡ [])
        × ((s'.total_published + s'.total_dropped) % u64_mod
            ≡ (accounted s + length (events_before_close as')) % u64_mod)
  unfolding run events_before_close on_arrival
  run-publishes [] s h = absurd cc
  run-publishes (event ev a ∷ rest) s h =
      let s1 = (on_arrival dec print (event ev a) s).0 in
      let (empty, total) = run-publishes rest s1 h in
      (empty, omega (arith, total, (on_arrival-event ev a s).0))
  run-publishes (linger_elapsed a ∷ rest) s h =
      let s1 = (on_arrival dec print (linger_elapsed a) s).0 in
      let (empty, total) = run-publishes rest s1 h in
      (empty, omega (arith, total, (flush_if-accounted a s).0))
  run-publishes (channel_closed a ∷ rest) s h =
      let (total, empty) = flush_if-accounted a s in (empty, omega (arith, total, ap length empty))

-- Redis delivers the payloads as they are, and the event channel is open.
abbrev pub delivered : List String → List (Option String × Bool)
delivered [] = []
delivered (payload ∷ payloads) = (some payload, true) ∷ delivered payloads

module _ {D : Type 0} (dec : DecimalText D)
    (law : (d : D) → dec.from_str (dec.to_string d) ≡ some d) (print : Json → Option String)
    (parse : String → Option Json)
    (parse-print : (j : Json) (payload : String)
      → print j ≡ some payload
      → parse payload ≡ some j) where
  parse_event-print :
      (ev : Event D) (payload : String)
      → print (to_json dec ev) ≡ some payload
      → read_back ev ≡ ok ev
      → parse_event dec parse payload ≡ some ev
  unfolding parse_event
  parse_event-print ev payload h back =
      rw (parse-print (to_json dec ev) payload h, parse_event)
        (rw (from_json-to_json dec law ev ∙ back) refl)

  -- The bridge is faithful: the payloads of a batch whose events all serialise, and of which each price
  -- change has both its quotes, make the subscriber forward exactly these events, in order, without a
  -- parse failure, if the event channel stays open.
  pub bridge_lem :
      (evs : List (Event D)) (s : Subscriber D)
      → (serialize dec print evs).1 ≡ 0
      → All (λ ev. read_back ev ≡ ok ev) evs
      → let messages = delivered (serialize dec print evs).0 in
        let (s', how) = subscribe_once dec parse messages s in
        (how ≡ stream_ended)
        × (s'.forwarded ≡ s.forwarded ++ evs)
        × (s'.stats.parse_failures ≡ s.stats.parse_failures)
  unfolding serialize subscribe_once
  bridge_lem [] s h back = (refl, sym (append-nil s.forwarded), refl)
  bridge_lem (ev ∷ evs) s h (quoted, back) = elim (Option-cases (print (to_json dec ev))) [
    | inl bad ↦ absurd (omega (arith, rw (bad, serialize) at h))
    | inr (payload, fine) ↦
        let s1 = forward_event ev (count_received s) in
        let (how, sent, failures) =
          bridge_lem evs s1 (omega (arith, rw (fine, serialize) at h)) back in
        rw (fine, serialize)
          (rw (parse_event-print ev payload fine quoted, subscribe_once)
            (how, sent ∙ append_assoc s.forwarded (ev ∷ []) evs, failures))
  ]
