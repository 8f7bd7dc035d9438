-- ===== src/Connection/Filter.antt =====
-- What `handle_text` of ws/connection.rs lets through, and what it counts.
use polymarket_orderbook_col.Base.{
  ℕ, ◌+◌, ◌%◌, String, ◌≡◌, refl, sym, ◌∙◌, ap, List, [], ◌∷◌, ◌++◌, append-nil, append_assoc, Bool,
  arith, length, length-append, keep, Result, ok, err, u64_mod, Text, string_key,
}
use polymarket_orderbook_col.Base.HashSet.{contains}
use polymarket_orderbook_col.Events.{WireMessage, WireFrame, Event, into_iter, asset_id, explode}
use polymarket_orderbook_col.Events.Explode.{
  events_of, explode-append, wire_count, length-events_of,
}
use polymarket_orderbook_col.Connection.{ConnStats, SubState}
use polymarket_orderbook_col.Connection.Frames.{count_message, stage, push_desired, handle_text}

-- The sum of the four counters of the period.
abbrev pub counted : ConnStats → ℕ
counted s = s.books + s.price_changes + s.trades + s.tick_changes

module _ {D : Type 0} where
  -- The events of the messages of a frame, in order.
  unfoldable pub frame_events : List (WireMessage D) → List (Event D)
  frame_events [] = []
  frame_events (m ∷ ms) = events_of m ++ frame_events ms

  abbrev pub is_desired : SubState → Event D → Bool
  is_desired sub ev = contains sub.desired (asset_id ev)

  stage-events :
      (ms : List (WireMessage D)) (stats : ConnStats) (staged : List (Event D))
      → (stage ms stats staged).1 ≡ staged ++ frame_events ms
  unfolding stage frame_events
  stage-events [] stats staged = sym (append-nil staged)
  stage-events (m ∷ ms) stats staged =
      stage-events ms (count_message m stats) (explode m staged)
      ∙ rw (explode-append m staged) (append_assoc staged (events_of m) (frame_events ms))

  push_desired_lem :
      (sub : SubState) (evs buf : List (Event D))
      → push_desired sub evs buf ≡ buf ++ keep (is_desired sub) evs
  unfolding push_desired
  push_desired_lem sub [] buf = sym (append-nil buf)
  push_desired_lem sub (ev ∷ evs) buf = ground (
    arith,
    push_desired_lem sub evs buf,
    push_desired_lem sub evs (buf ++ ev ∷ []),
    append_assoc buf (ev ∷ []) (keep (is_desired sub) evs),
  )

  count_message_lem :
      (m : WireMessage D) (s : ConnStats)
      → counted (count_message m s) % u64_mod ≡ (counted s + wire_count m) % u64_mod
  unfolding count_message wire_count
  count_message_lem (WireMessage.book b) s = omega arith
  count_message_lem (WireMessage.price_change pc) s = omega arith
  count_message_lem (WireMessage.last_trade_price t) s = omega arith
  count_message_lem (WireMessage.tick_size_change c) s = omega arith

  stage-counted :
      (ms : List (WireMessage D)) (stats : ConnStats) (staged : List (Event D))
      → counted (stage ms stats staged).0 % u64_mod
        ≡ (counted stats + length (frame_events ms)) % u64_mod
  unfolding stage frame_events
  stage-counted [] stats staged = omega arith
  stage-counted (m ∷ ms) stats staged = omega (
    arith,
    stage-counted ms (count_message m stats) (explode m staged),
    count_message_lem m stats,
    length-append (events_of m) (frame_events ms),
    length-events_of m,
  )

  -- A frame that parses: the buffer gains the events of its messages, in order, whose asset is desired,
  -- and no other; the period's counters grow by the number of its events, desired or not, modulo 2 ^ 64.
  pub handle_text_lem :
      (from_str : Text → Result String (WireFrame D)) (text : Text) (frame : WireFrame D)
      (sub : SubState) (stats : ConnStats) (buf : List (Event D))
      → from_str text ≡ ok frame
      → let out = handle_text from_str text sub stats buf in
        let events = frame_events (into_iter frame) in
        (out.1 ≡ ok tt)
        × (out.0.1 ≡ buf ++ keep (is_desired sub) events)
        × (counted out.0.0 % u64_mod ≡ (counted stats + length events) % u64_mod)
  unfolding handle_text
  handle_text_lem from_str text frame sub stats buf h =
      rw (h, handle_text)
        (
          refl,
          push_desired_lem sub (stage (into_iter frame) stats []).1 buf
              ∙ ap (λ l. buf ++ keep (is_desired sub) l) (stage-events (into_iter frame) stats []),
          stage-counted (into_iter frame) stats [],
        )

  -- A text that does not parse changes neither the counters nor the buffer.
  pub handle_text-err :
      (from_str : Text → Result String (WireFrame D)) (text : Text) (e : String) (sub : SubState)
      (stats : ConnStats) (buf : List (Event D))
      → from_str text ≡ err e
      → handle_text from_str text sub stats buf ≡ ((stats, buf), err e)
  unfolding handle_text
  handle_text-err from_str text e sub stats buf h = rw (h, handle_text)
