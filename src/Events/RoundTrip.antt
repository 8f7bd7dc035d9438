-- ===== src/Events/RoundTrip.antt =====
-- The round trip of an event through its JSON, as the two services on the pub/sub channel make it.
use polymarket_orderbook_col.Base.{◌≡◌, refl, none, some, List, [], ◌∷◌, Result, ok, err}
use polymarket_orderbook_col.Events.{Level, Event}
use polymarket_orderbook_col.Events.Json.{
  DecimalText, JsonError, missing_field, parse_decimal, levels_to_items, levels_from_items,
  level_from_json, to_json,
}
use polymarket_orderbook_col.Events.Parse.{from_json}

-- What is read back: the event, or the error for the best bid or ask that is not there.
unfoldable pub read_back : {D : Type 0} → Event D → Result JsonError (Event D)
read_back (Event.price_change m a t none best_ask h p s side) = err (missing_field "best_bid")
read_back (Event.price_change m a t (some b) none h p s side) = err (missing_field "best_ask")
read_back ev = ok ev

module _ {D : Type 0} (dec : DecimalText D)
    (law : (d : D) → dec.from_str (dec.to_string d) ≡ some d) where
  parse-to_string : (d : D) → parse_decimal dec (dec.to_string d) ≡ ok d
  unfolding parse_decimal
  parse-to_string d = rw (law d, parse_decimal)

  levels_from_items-to_items :
      (ls : List (Level D)) → levels_from_items dec (levels_to_items dec ls) ≡ ok ls
  unfolding levels_from_items levels_to_items level_from_json
  levels_from_items-to_items [] = refl
  levels_from_items-to_items (l ∷ ls) = simp (parse-to_string, levels_from_items-to_items ls)

  -- Reading the JSON of an event gives the event back, except that a price change without a best bid
  -- or ask gives the error of a missing field; the decimals must read back what they print.
  pub from_json-to_json : (ev : Event D) → from_json dec (to_json dec ev) ≡ read_back ev
  unfolding from_json to_json read_back
  from_json-to_json (Event.tick_size_change m a t old new) = simp parse-to_string
  from_json-to_json (Event.last_trade_price m a t p s side fee tx) = simp parse-to_string
  from_json-to_json (Event.book m a t bids asks none) = simp levels_from_items-to_items
  from_json-to_json (Event.book m a t bids asks (some h)) = simp levels_from_items-to_items
  from_json-to_json (Event.price_change m a t none none none p s side) = refl
  from_json-to_json (Event.price_change m a t none none (some h) p s side) = refl
  from_json-to_json (Event.price_change m a t none (some ba) none p s side) = refl
  from_json-to_json (Event.price_change m a t none (some ba) (some h) p s side) = refl
  from_json-to_json (Event.price_change m a t (some bb) none none p s side) = simp parse-to_string
  from_json-to_json (Event.price_change m a t (some bb) none (some h) p s side) =
      simp parse-to_string
  from_json-to_json (Event.price_change m a t (some bb) (some ba) none p s side) =
      simp parse-to_string
  from_json-to_json (Event.price_change m a t (some bb) (some ba) (some h) p s side) =
      simp parse-to_string
