-- ===== src/Connection/Tests.antt =====
-- Examples for the theorems on ws/connection.rs.
use polymarket_orderbook_col.Base.{
  ℕ, zero, suc, ◌==◌, ◌+◌, ◌%◌, ◌^◌, ◌≤◌, ◌<◌, min, String, ◌≡◌, refl, none, some, List, [], ◌∷◌,
  ◌++◌, true, false, not, ◌&&◌, ◌||◌, arith, All, length, is_empty, keep, Result, ok, err, Text,
  u64_mod, if◌then◌else◌, string_key,
}
use polymarket_orderbook_col.Base.HashSet.{contains}
use polymarket_orderbook_col.Base.Utf8.{trim, trim_start, is_whitespace}
use polymarket_orderbook_col.Events.{WireMessage, WireFrame, into_iter}
use polymarket_orderbook_col.Events.Json.{
  DecimalText, Json, str, arr, obj, nil, cons, Fields, end, field, JsonError, str_field, required,
  find_field, has_field, as_str,
}
use polymarket_orderbook_col.Connection.Documents.{wire_frame, unknown_message_lem}
use polymarket_orderbook_col.Connection.{
  SessionOutcome, SubState, subscribe, unsubscribe, reset_session, seconds, reconnect_delay_max,
}
use polymarket_orderbook_col.Connection.Frames.{handle_text}
use polymarket_orderbook_col.Connection.Commands.{CommandState, do_command, payload, resubscribe}
use polymarket_orderbook_col.Connection.Session.{
  Session, continue, returns, panics, Slot, Turn, read_text, read_other, tick, Incoming, pong,
  snippet, on_tick, turn, turns,
}
use polymarket_orderbook_col.Connection.Run.{Round, default_stats, start, rounds}
use polymarket_orderbook_col.Connection.Filter.{frame_events, is_desired, counted, handle_text_lem}
use polymarket_orderbook_col.Connection.Loops.{Covered}
use polymarket_orderbook_col.Connection.Subscriptions.{
  subscription, do_command-Covered, subscribe_lem, unsubscribe_lem, resubscribe_lem,
}
use polymarket_orderbook_col.Connection.Heartbeat.{dead_connection_found, live_connection_kept}
use polymarket_orderbook_col.Connection.Backoff.{
  failing, replicate, delays_in_range, backoff_doubles,
}

abbrev text_decimals : DecimalText String
text_decimals = record { to_string = λ s. s; from_str = λ s. some s }

abbrev counting : List String → ℕ
counting = length

abbrev tick_change : WireMessage String
tick_change = WireMessage.tick_size_change (record {
  market = "0xbd";
  asset_id = "65";
  timestamp = "100000000";
  old_tick_size = "0.01";
  new_tick_size = "0.001";
})

abbrev a_frame : WireFrame String
a_frame = WireFrame.many (tick_change ∷ [])

-- A parser that takes one text only.
abbrev parse_brackets : Text → Result String (WireFrame String)
parse_brackets [] = err "expected value"
parse_brackets (c ∷ cs) = if c == b'[' then ok a_frame else err "expected value"

abbrev wanting : SubState
wanting = record { desired = "65" ∷ []; subscribed = []; initial_sent = false }

abbrev bracket : Text
bracket = b'[' ∷ b']' ∷ []

abbrev letters : Text
letters = b'h' ∷ b'i' ∷ []

handle_text_lem_example :
    let out = handle_text parse_brackets bracket wanting default_stats [] in
    let events = frame_events (into_iter a_frame) in
    (out.1 ≡ ok tt)
    × (out.0.1 ≡ [] ++ keep (is_desired wanting) events)
    × (counted out.0.0 % u64_mod ≡ (counted default_stats + length events) % u64_mod)
handle_text_lem_example =
    handle_text_lem parse_brackets bracket a_frame wanting default_stats [] refl

abbrev idle_core : CommandState
idle_core = record { sub = wanting; stats = default_stats; written = [] }

wanting-Covered : Covered wanting
unfolding contains
wanting-Covered = record { within = λ a h. cc }

do_command-Covered_example : Covered (do_command false (subscribe ("66" ∷ [])) idle_core).sub
do_command-Covered_example =
    do_command-Covered false (subscribe ("66" ∷ [])) idle_core wanting-Covered

subscribe_lem_example :
    let s' = do_command true (subscribe ("66" ∷ "65" ∷ [])) idle_core in
    ((a : String)
      → contains s'.sub.desired a ≡ (contains ("66" ∷ "65" ∷ []) a || contains wanting.desired a))
    × ((a : String)
        → contains s'.sub.subscribed a
          ≡ (contains ("66" ∷ "65" ∷ []) a || contains wanting.subscribed a))
    × (new : List String) × ((a : String)
        → contains new a ≡ (contains ("66" ∷ "65" ∷ []) a && not (contains wanting.subscribed a)))
    × (s'.written ≡ (if is_empty new then [] else [] ++ subscription wanting new ∷ []))
subscribe_lem_example = subscribe_lem true "66" ("65" ∷ []) idle_core

unsubscribe_lem_example :
    let s' = do_command true (unsubscribe ("65" ∷ [])) idle_core in
    ((a : String)
      → contains s'.sub.desired a ≡ (contains wanting.desired a && not (contains ("65" ∷ []) a)))
    × ((a : String) → (contains ("65" ∷ []) a && contains s'.sub.subscribed a) ≡ false)
unsubscribe_lem_example = unsubscribe_lem true "65" [] idle_core wanting-Covered

resubscribe_lem_example :
    let r = resubscribe true (record idle_core { sub = reset_session wanting }) in
    (r.1 ≡ true)
    × (r.0.sub.desired ≡ wanting.desired)
    × ((a : String) → contains r.0.sub.subscribed a ≡ contains wanting.desired a)
    × (r.0.written ≡ (
        if is_empty wanting.desired
        then []
        else [] ++ payload wanting.desired "type" "market" ∷ []))
resubscribe_lem_example = resubscribe_lem idle_core

abbrev idle : Session String
idle = record {
  core = idle_core;
  last_message_time = none;
  last_pong = 0;
  last_ping_sent = none;
  events_buf = [];
  forwarder = record {
    cache = record { current = []; previous = []; rotate_every = 1800; last_rotate = 0 };
    global_tx = [];
    dropped = 0;
    forwarded = 0;
  };
}

abbrev step : Turn → Session String → Session String
step t s = (turn text_decimals counting parse_brackets t s).0

dead_connection_found_example :
    let s1 = step (tick (seconds 10) (seconds 10) true) idle in
    let s2 = (turns text_decimals counting parse_brackets (read_other Incoming.binary ∷ []) s1).0 in
    (turn text_decimals counting parse_brackets (tick (seconds 20) (seconds 20) true) s2).1
    ≡ returns SessionOutcome.pong_timeout_outcome
unfolding turn on_tick
dead_connection_found_example =
    dead_connection_found text_decimals counting parse_brackets (seconds 10) (seconds 10)
      (seconds 20) (seconds 20) true (read_other Incoming.binary ∷ []) idle refl (omega arith)
      (tt, tt) (omega arith)

abbrev a_slot : ℕ → Slot
a_slot i = record { read = 0; reset = 0; answer = none }

-- A PONG nine seconds after its PING.
live_connection_kept_example :
    let s0 = record idle { last_ping_sent = some (seconds 10) } in
    let s1 = step (read_text pong (seconds 19) (seconds 19) a_slot) s0 in
    let s2 = (turns text_decimals counting parse_brackets [] s1).0 in
    (turn text_decimals counting parse_brackets (tick (seconds 30) (seconds 30) true) s2).1
    ≡ continue
unfolding trim trim_start is_whitespace
live_connection_kept_example =
    live_connection_kept text_decimals counting parse_brackets pong (seconds 19) (seconds 19)
      (seconds 10) (seconds 30) (seconds 30) a_slot []
      (record idle { last_ping_sent = some (seconds 10) }) refl (omega arith) refl tt

-- 199 letters, and a letter of two bytes.
abbrev long_line : Text
long_line = replicate 199 b'a'

long_line-ascii : (n : ℕ) → All (λ d. d < 0x80) (replicate n b'a')
long_line-ascii zero = tt
long_line-ascii (suc n) = (omega arith, long_line-ascii n)

-- A round that gets a socket and loses it again.
abbrev lost : Round
lost = record failing { connects = true }

delays_in_range_example :
    All
      (λ d. (seconds 1 ≤ d) × (d ≤ reconnect_delay_max))
      (rounds (failing ∷ lost ∷ failing ∷ []) start).0.slept
delays_in_range_example = delays_in_range (failing ∷ lost ∷ failing ∷ [])

backoff_doubles_example :
    ((rounds (replicate 8 failing) start).0.backoff ≡ min (seconds (2 ^ 7)) reconnect_delay_max)
    × ((rounds (replicate 8 failing) start).1 ≡ true)
backoff_doubles_example = backoff_doubles 7

-- A change of the tick size, and a message of a type that the code does not know.
abbrev known_fields : Fields
known_fields = field "event_type" (str "tick_size_change") (
    field "market" (str "0xbd") (
      field "asset_id" (str "65") (
        field "timestamp" (str "100000000")
          (field "old_tick_size" (str "0.01") (field "new_tick_size" (str "0.001") end)))))

abbrev unknown_fields : Fields
unknown_fields = field "event_type" (str "new_market") (field "market" (str "0xbd") end)

-- A parser of one document.
abbrev two_messages : Text → Result String Json
two_messages text = ok (arr (cons (obj known_fields) (cons (obj unknown_fields) nil)))

abbrev error_text : JsonError → String
error_text e = "parse wire frame"

names_new_market : str_field "event_type" unknown_fields ≡ ok "new_market"
unfolding str_field required find_field has_field as_str
names_new_market = refl

unknown_message_lem_example :
    let parse = wire_frame text_decimals two_messages error_text in
    let out = turn text_decimals counting parse (read_text bracket 1 1 a_slot) idle in
    (out.1 ≡ (elim (snippet (trim bracket)) [ none ↦ panics | some t ↦ continue ]))
    × (out.0.forwarder ≡ idle.forwarder)
    × (out.0.core ≡ idle.core)
unfolding trim trim_start is_whitespace
unknown_message_lem_example =
    unknown_message_lem text_decimals two_messages error_text counting bracket 1 1 a_slot idle
      known_fields (cons (obj unknown_fields) nil) 1 unknown_fields "new_market" refl refl refl refl
      names_new_market refl
