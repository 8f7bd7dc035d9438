-- ===== src/Connection/Frames.antt =====
-- `handle_text` of ws/connection.rs: parse, count, explode, filter. `serde_json::from_str` is the
-- parameter `from_str`.
use polymarket_orderbook_col.Base.{
  String, List, [], ◌∷◌, ◌++◌, length, Result, ok, err, add64, Text, if◌then◌else◌, string_key,
}
use polymarket_orderbook_col.Base.HashSet.{contains}
use polymarket_orderbook_col.Events.{WireMessage, WireFrame, Event, into_iter, asset_id, explode}
use polymarket_orderbook_col.Connection.{ConnStats, SubState}

module _ {D : Type 0} where
  -- The counters of one wire message.
  unfoldable pub count_message : WireMessage D → ConnStats → ConnStats
  count_message (WireMessage.book b) s = record s { books = add64 s.books 1 }
  count_message (WireMessage.price_change pc) s = record s {
    price_changes = add64 s.price_changes (length pc.price_changes);
  }
  count_message (WireMessage.last_trade_price t) s = record s { trades = add64 s.trades 1 }
  count_message (WireMessage.tick_size_change c) s = record s {
    tick_changes = add64 s.tick_changes 1;
  }

  -- The loop over the messages of a frame.
  unfoldable pub stage :
      List (WireMessage D) → ConnStats → List (Event D) → ConnStats × List (Event D)
  unfolding count_message explode
  stage [] stats staged = (stats, staged)
  stage (m ∷ ms) stats staged = stage ms (count_message m stats) (explode m staged)

  -- The loop that keeps the events of desired assets.
  unfoldable pub push_desired : SubState → List (Event D) → List (Event D) → List (Event D)
  unfolding asset_id
  push_desired sub [] buf = buf
  push_desired sub (ev ∷ evs) buf =
      push_desired sub evs (if contains sub.desired (asset_id ev) then buf ++ ev ∷ [] else buf)

  unfoldable pub handle_frame :
      WireFrame D → SubState → ConnStats → List (Event D) → ConnStats × List (Event D)
  unfolding into_iter stage push_desired
  handle_frame frame sub stats events_buf =
      let staged = stage (into_iter frame) stats [] in
      (staged.0, push_desired sub staged.1 events_buf)

  -- The new counters and the new buffer; a parse error leaves both alone.
  unfoldable pub handle_text :
      (Text → Result String (WireFrame D))
      → Text
      → SubState
      → ConnStats
      → List (Event D)
      → (ConnStats × List (Event D)) × Result String (Unit {0})
  unfolding handle_frame
  handle_text from_str text sub stats events_buf = elim (from_str text) [
    | err e ↦ ((stats, events_buf), err e)
    | ok frame ↦ (handle_frame frame sub stats events_buf, ok tt)
  ]
