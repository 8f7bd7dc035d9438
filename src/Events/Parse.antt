-- ===== src/Events/Parse.antt =====
-- The JSON that serde derives `Deserialize` for, of `Event` in events.rs: an internally tagged enum, read from
-- an object with the tag among its fields, or from an array whose first item is the tag.
use polymarket_orderbook_col.Base.{String, Result, err, ◌>>=◌, ◌=?◌, string_key, if◌then◌else◌}
use polymarket_orderbook_col.Events.{Event}
use polymarket_orderbook_col.Events.Json.{
  Json, obj, arr, nil, cons, JsonError, invalid_type, missing_field, unknown_variant, DecimalText,
  as_str, str_field, as_decimal, as_opt_decimal, as_levels,
}
use polymarket_orderbook_col.Events.Sources.{
  Source, named, positional, next, next_opt_str, finished,
}

module _ {D : Type 0} (dec : DecimalText D) where
  unfoldable pub book_from : Source → Result JsonError (Event D)
  unfolding next next_opt_str finished as_str as_levels
  book_from s = do
    m ← next as_str "market" s
    a ← next as_str "asset_id" m.1
    t ← next as_str "timestamp" a.1
    bids ← next (as_levels dec) "bids" t.1
    asks ← next (as_levels dec) "asks" bids.1
    h ← next_opt_str "hash" asks.1
    finished h.1 (Event.book m.0 a.0 t.0 bids.0 asks.0 h.0)

  -- The best bid and ask have `with = "rust_decimal::serde::str_option"` and no `default`, so by name they
  -- must be there.
  unfoldable pub price_change_from : Source → Result JsonError (Event D)
  unfolding next next_opt_str finished as_str as_decimal as_opt_decimal
  price_change_from s = do
    m ← next as_str "market" s
    a ← next as_str "asset_id" m.1
    t ← next as_str "timestamp" a.1
    best_bid ← next (as_opt_decimal dec) "best_bid" t.1
    best_ask ← next (as_opt_decimal dec) "best_ask" best_bid.1
    h ← next_opt_str "hash" best_ask.1
    price ← next (as_decimal dec) "price" h.1
    size ← next (as_decimal dec) "size" price.1
    side ← next as_str "side" size.1
    finished side.1 (Event.price_change m.0 a.0 t.0 best_bid.0 best_ask.0 h.0 price.0 size.0 side.0)

  unfoldable pub last_trade_price_from : Source → Result JsonError (Event D)
  unfolding next finished as_str as_decimal
  last_trade_price_from s = do
    m ← next as_str "market" s
    a ← next as_str "asset_id" m.1
    t ← next as_str "timestamp" a.1
    price ← next (as_decimal dec) "price" t.1
    size ← next (as_decimal dec) "size" price.1
    side ← next as_str "side" size.1
    fee ← next as_str "fee_rate_bps" side.1
    tx ← next as_str "transaction_hash" fee.1
    finished tx.1 (Event.last_trade_price m.0 a.0 t.0 price.0 size.0 side.0 fee.0 tx.0)

  unfoldable pub tick_size_change_from : Source → Result JsonError (Event D)
  unfolding next finished as_str as_decimal
  tick_size_change_from s = do
    m ← next as_str "market" s
    a ← next as_str "asset_id" m.1
    t ← next as_str "timestamp" a.1
    old ← next (as_decimal dec) "old_tick_size" t.1
    new ← next (as_decimal dec) "new_tick_size" old.1
    finished new.1 (Event.tick_size_change m.0 a.0 t.0 old.0 new.0)

  -- The variant that the tag names.
  unfoldable pub event_from : String → Source → Result JsonError (Event D)
  unfolding book_from price_change_from last_trade_price_from tick_size_change_from
  event_from tag s =
      if tag =? "book"
      then book_from s
      else if tag =? "price_change"
      then price_change_from s
      else if tag =? "last_trade_price"
      then last_trade_price_from s
      else if tag =? "tick_size_change"
      then tick_size_change_from s
      else err (unknown_variant tag)

  -- `Deserialize for Event`. (The tag is no field of any variant, so it may stay in the object.)
  unfoldable pub from_json : Json → Result JsonError (Event D)
  unfolding str_field as_str event_from
  from_json (obj fs) = str_field "event_type" fs >>= λ tag. event_from tag (named fs)
  from_json (arr nil) = err (missing_field "event_type")
  from_json (arr (cons t vs)) = as_str t >>= λ tag. event_from tag (positional vs)
  from_json _ = err invalid_type
