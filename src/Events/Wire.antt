-- ===== src/Events/Wire.antt =====
-- The JSON that serde derives `Deserialize` for, of the wire layer of events.rs: structs, the internally
-- tagged `WireMessage` and the untagged `WireFrame`. serde takes a tagged enum
-- from an array whose first item is the tag as well.
use polymarket_orderbook_col.Base.{
  String, none, List, [], ◌∷◌, Result, ok, err, ◌>>=◌, ◌=?◌, string_key, if◌then◌else◌,
}
use polymarket_orderbook_col.Events.{
  WireLevel, WireBook, WirePriceChange, WirePriceChangeEntry, WireLastTradePrice,
  WireTickSizeChange, WireMessage, WireFrame,
}
use polymarket_orderbook_col.Events.Json.{
  Json, obj, arr, Items, nil, cons, JsonError, invalid_type, missing_field, unknown_variant,
  no_variant, DecimalText, as_str, str_field, as_decimal, as_opt_decimal,
}
use polymarket_orderbook_col.Events.Sources.{
  Source, named, positional, as_source, next, next_or, finished,
}

-- `Vec<A>`.
unfoldable pub each_item {ℓ} :
    {A : Type ℓ} → (Json → Result JsonError A) → Items → Result JsonError (List A)
each_item parse nil = ok []
each_item parse (cons v vs) = do a ← parse v; rest ← each_item parse vs; ok (a ∷ rest)

unfoldable pub as_vec {ℓ} :
    {A : Type ℓ} → (Json → Result JsonError A) → Json → Result JsonError (List A)
as_vec parse (arr vs) = each_item parse vs
as_vec parse _ = err invalid_type

module _ {D : Type 0} (dec : DecimalText D) where
  unfoldable pub wire_level_from : Json → Result JsonError (WireLevel D)
  wire_level_from j = do
    s ← as_source j
    price ← next (as_decimal dec) "price" s
    size ← next (as_decimal dec) "size" price.1
    finished size.1 (record { price = price.0; size = size.0 })

  unfoldable pub wire_book_from : Source → Result JsonError (WireBook D)
  wire_book_from s = do
    m ← next as_str "market" s
    a ← next as_str "asset_id" m.1
    t ← next as_str "timestamp" a.1
    bids ← next (as_vec wire_level_from) "bids" t.1
    asks ← next (as_vec wire_level_from) "asks" bids.1
    h ← next as_str "hash" asks.1
    finished h.1 (record {
      market = m.0;
      asset_id = a.0;
      timestamp = t.0;
      bids = bids.0;
      asks = asks.0;
      hash = h.0;
    })

  unfoldable pub wire_entry_from : Json → Result JsonError (WirePriceChangeEntry D)
  wire_entry_from j = do
    s ← as_source j
    a ← next as_str "asset_id" s
    price ← next (as_decimal dec) "price" a.1
    size ← next (as_decimal dec) "size" price.1
    side ← next as_str "side" size.1
    bid ← next_or none (as_opt_decimal dec) "best_bid" side.1
    ask ← next_or none (as_opt_decimal dec) "best_ask" bid.1
    h ← next as_str "hash" ask.1
    finished h.1 (record {
      asset_id = a.0;
      price = price.0;
      size = size.0;
      side = side.0;
      best_bid = bid.0;
      best_ask = ask.0;
      hash = h.0;
    })

  unfoldable pub wire_price_change_from : Source → Result JsonError (WirePriceChange D)
  wire_price_change_from s = do
    m ← next as_str "market" s
    t ← next as_str "timestamp" m.1
    changes ← next (as_vec wire_entry_from) "price_changes" t.1
    finished changes.1 (record { market = m.0; timestamp = t.0; price_changes = changes.0 })

  unfoldable pub wire_last_trade_price_from : Source → Result JsonError (WireLastTradePrice D)
  wire_last_trade_price_from s = do
    m ← next as_str "market" s
    a ← next as_str "asset_id" m.1
    t ← next as_str "timestamp" a.1
    price ← next (as_decimal dec) "price" t.1
    size ← next (as_decimal dec) "size" price.1
    side ← next as_str "side" size.1
    fee ← next as_str "fee_rate_bps" side.1
    tx ← next as_str "transaction_hash" fee.1
    finished tx.1 (record {
      market = m.0;
      asset_id = a.0;
      timestamp = t.0;
      price = price.0;
      size = size.0;
      side = side.0;
      fee_rate_bps = fee.0;
      transaction_hash = tx.0;
    })

  unfoldable pub wire_tick_size_change_from : Source → Result JsonError (WireTickSizeChange D)
  wire_tick_size_change_from s = do
    m ← next as_str "market" s
    a ← next as_str "asset_id" m.1
    t ← next as_str "timestamp" a.1
    old ← next (as_decimal dec) "old_tick_size" t.1
    new ← next (as_decimal dec) "new_tick_size" old.1
    finished new.1 (record {
      market = m.0;
      asset_id = a.0;
      timestamp = t.0;
      old_tick_size = old.0;
      new_tick_size = new.0;
    })

  -- The variant that the tag names.
  unfoldable pub variant_from : String → Source → Result JsonError (WireMessage D)
  variant_from tag s =
      if tag =? "book"
      then (wire_book_from s >>= λ b. ok (WireMessage.book b))
      else if tag =? "price_change"
      then (wire_price_change_from s >>= λ c. ok (WireMessage.price_change c))
      else if tag =? "last_trade_price"
      then (wire_last_trade_price_from s >>= λ t. ok (WireMessage.last_trade_price t))
      else if tag =? "tick_size_change"
      then (wire_tick_size_change_from s >>= λ t. ok (WireMessage.tick_size_change t))
      else err (unknown_variant tag)

  -- `WireMessage`. (The tag is no field of any variant, so it may stay in the object.)
  unfoldable pub message_from_json : Json → Result JsonError (WireMessage D)
  message_from_json (obj fs) = str_field "event_type" fs >>= λ tag. variant_from tag (named fs)
  message_from_json (arr nil) = err (missing_field "event_type")
  message_from_json (arr (cons t vs)) = as_str t >>= λ tag. variant_from tag (positional vs)
  message_from_json _ = err invalid_type

  -- `WireFrame`: an array of messages is tried first, then one message.
  unfoldable pub frame_from_json : Json → Result JsonError (WireFrame D)
  frame_from_json j = elim (as_vec message_from_json j) [
    | ok ms ↦ ok (WireFrame.many ms)
    | err e ↦ elim (message_from_json j) [ ok m ↦ ok (WireFrame.one m) | err e' ↦ err no_variant ]
  ]
