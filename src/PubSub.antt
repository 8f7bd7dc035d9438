-- ===== src/PubSub.antt =====
-- services/polymarket/polymarket-orderbook-rust-pubsub/src/pubsub_sink.rs and
-- services/polymarket/polymarket-orderbook-rust-from-pubsub/src/pubsub_subscriber.rs: the publisher of
-- events on a Redis channel, and its subscriber. serde_json's printer and parser are parameters;
-- whether Redis takes a pipeline, and whether the event channel is open, are arguments.
pub mod Bridge
pub mod Published
pub mod Samples
mod Tests
use polymarket_orderbook_col.Base.{
  codes, ℕ, ◌+◌, String, Option, none, some, List, [], ◌∷◌, ◌++◌, Bool, true, false, leb, ltb, ◌==◌,
  is_empty, if◌then◌else◌, length, add64, Result, ok, err, Text, byte_len, slice_to,
}
use polymarket_orderbook_col.Events.{Event}
use polymarket_orderbook_col.Events.Json.{Json, DecimalText, to_json}
use polymarket_orderbook_col.Events.Parse.{from_json}

-- The publisher, with its batch and the payloads that Redis has taken.
pub record PubSubSink (D : Type 0) : Type 0 where
  pub batch_max : ℕ
  pub batch : List (Event D)
  pub total_published : ℕ
  pub total_dropped : ℕ
  pub published : List String

-- What the loop waits for: an event, the end of the linger time, or the end of the channel; each with
-- Redis's answer to the pipeline that it may cause.
pub data Arrival (D : Type 0) : Type 0 where
  event : Event D → (accepted : Bool) → Arrival D
  linger_elapsed : (accepted : Bool) → Arrival D
  channel_closed : (accepted : Bool) → Arrival D

module _ {D : Type 0} (dec : DecimalText D) (print : Json → Option String) where
  -- The payloads of a batch, in order, and how many events could not be serialised.
  unfoldable pub serialize : List (Event D) → List String × ℕ
  unfolding to_json
  serialize [] = ([], 0)
  serialize (ev ∷ evs) =
      let (payloads, failed) = serialize evs in
      elim (print (to_json dec ev)) [
        | none ↦ (payloads, failed + 1)
        | some payload ↦ (payload ∷ payloads, failed)
      ]

  unfoldable pub flush : Bool → PubSubSink D → PubSubSink D
  unfolding serialize
  flush accepted s =
      let (payloads, failed) = serialize s.batch in
      let serialized = length payloads in
      let s1 = record s { batch = []; total_dropped = add64 s.total_dropped failed } in
      if serialized == 0
      then s1
      else if accepted
      then (record s1 {
        total_published = add64 s.total_published serialized;
        published = s.published ++ payloads;
      })
      else (record s1 { total_dropped = add64 s1.total_dropped serialized })

  -- One arrival, and whether the loop goes on. With an empty batch the loop waits for its first event,
  -- and neither the linger time nor the end of the channel causes a flush.
  unfoldable pub on_arrival : Arrival D → PubSubSink D → PubSubSink D × Bool
  unfolding flush
  on_arrival (event ev accepted) s =
      let s1 = record s { batch = s.batch ++ ev ∷ [] } in
      (if ltb (length s1.batch) s1.batch_max then s1 else flush accepted s1, true)
  on_arrival (linger_elapsed accepted) s = (if is_empty s.batch then s else flush accepted s, true)
  on_arrival (channel_closed accepted) s = (if is_empty s.batch then s else flush accepted s, false)

  unfoldable pub run : List (Arrival D) → PubSubSink D → PubSubSink D
  unfolding on_arrival
  run [] s = s
  run (a ∷ as') s =
      let (s1, goes_on) = on_arrival a s in let rest = run as' s1 in if goes_on then rest else s1

pub record SubscriberStats : Type 0 where
  pub events_received : ℕ
  pub events_forwarded : ℕ
  pub parse_failures : ℕ
  pub reconnects : ℕ

-- The counters and the events that the channel has taken.
pub record Subscriber (D : Type 0) : Type 0 where
  pub stats : SubscriberStats
  pub forwarded : List (Event D)

-- How a subscription ends.
pub data StreamEnd : Type 0 where
  stream_ended sink_closed panicked : StreamEnd

-- The log line's slice of a payload: a panic (`none`) if byte 200 is inside a character. Without the
-- ellipsis.
unfoldable pub preview : Text → Option Text
preview payload = if leb (byte_len payload) 200 then some payload else slice_to 200 payload

abbrev pub count_received : {D : Type 0} → Subscriber D → Subscriber D
count_received s = record s {
  stats = record s.stats { events_received = add64 s.stats.events_received 1 };
}

abbrev pub count_failure : {D : Type 0} → Subscriber D → Subscriber D
count_failure s = record s {
  stats = record s.stats { parse_failures = add64 s.stats.parse_failures 1 };
}

abbrev pub forward_event : {D : Type 0} → Event D → Subscriber D → Subscriber D
forward_event ev s = record {
  stats = record s.stats { events_forwarded = add64 s.stats.events_forwarded 1 };
  forwarded = s.forwarded ++ ev ∷ [];
}

module _ {D : Type 0} (dec : DecimalText D) (parse : String → Option Json) where
  -- `serde_json::from_str::<Event>`.
  unfoldable pub parse_event : String → Option (Event D)
  unfolding from_json
  parse_event payload = elim (parse payload) [
    | none ↦ none
    | some j ↦ elim (from_json dec j) [ ok ev ↦ some ev | err e ↦ none ]
  ]

  -- The loop of `subscribe_once`, over the messages (`none` for a payload that does not decode), each
  -- with whether the event channel is open.
  unfoldable pub subscribe_once :
      List (Option String × Bool) → Subscriber D → Subscriber D × StreamEnd
  unfolding parse_event preview
  subscribe_once [] s = (s, stream_ended)
  subscribe_once ((none, is_open) ∷ rest) s = subscribe_once rest (count_failure (count_received s))
  subscribe_once ((some payload, is_open) ∷ rest) s = elim (parse_event payload) [
    | none ↦ elim (preview (codes payload)) [
      | none ↦ (count_failure (count_received s), panicked)
      | some _ ↦ subscribe_once rest (count_failure (count_received s))
    ]
    | some ev ↦ elim is_open [
      | true ↦ subscribe_once rest (forward_event ev (count_received s))
      | false ↦ (count_received s, sink_closed)
    ]
  ]

  -- `run` of the subscriber: it reconnects after every subscription, also after one that found the event
  -- channel closed. The flag says whether its task is alive.
  unfoldable pub run_subscriber :
      List (List (Option String × Bool)) → Subscriber D → Subscriber D × Bool
  unfolding subscribe_once
  run_subscriber [] s = (s, true)
  run_subscriber (messages ∷ rest) s =
      let (s1, how) = subscribe_once messages s in
      let s2 = record s1 { stats = record s1.stats { reconnects = add64 s1.stats.reconnects 1 } } in
      let after = run_subscriber rest s2 in elim how [ panicked ↦ (s1, false) | _ ↦ after ]
