-- ===== src/Events/Display.antt =====
-- `Display for Event` of events.rs: the line of an event, as code points. The decimal's printer is a parameter;
-- its `Debug` is the same text. A length has at most twenty digits.
use polymarket_orderbook_col.Base.{
  codes, ℕ, ◌≡◌, refl, Option, none, some, List, [], ◌∷◌, ◌++◌, length, Text,
}
use polymarket_orderbook_col.Base.Numbers.{digits_of}
use polymarket_orderbook_col.Events.{Event, kind, market, asset_id}
use polymarket_orderbook_col.Events.Json.{DecimalText}

abbrev pub count_text : ℕ → Text
count_text n = digits_of 20 n []

-- The pieces of a line, one after the other.
abbrev pub join : List Text → Text
join [] = []
join (t ∷ ts) = t ++ join ts

module _ {D : Type 0} (dec : DecimalText D) where
  abbrev pub decimal_text : D → Text
  decimal_text d = codes (dec.to_string d)

  -- `{:?}` of an optional decimal.
  abbrev pub debug_text : Option D → Text
  debug_text none = codes "None"
  debug_text (some d) = codes "Some(" ++ decimal_text d ++ codes ")"

  unfoldable pub display : Event D → Text
  display (Event.book m a t bids asks h) = join (
      codes "book market="
      ∷ codes m
      ∷ codes " asset="
      ∷ codes a
      ∷ codes " bids="
      ∷ count_text (length bids)
      ∷ codes " asks="
      ∷ count_text (length asks)
      ∷ [])
  display (Event.price_change m a t best_bid best_ask h price size side) = join (
      codes "price_change market="
      ∷ codes m
      ∷ codes " asset="
      ∷ codes a
      ∷ codes " side="
      ∷ codes side
      ∷ codes " price="
      ∷ decimal_text price
      ∷ codes " size="
      ∷ decimal_text size
      ∷ codes " bid="
      ∷ debug_text best_bid
      ∷ codes " ask="
      ∷ debug_text best_ask
      ∷ [])
  display (Event.last_trade_price m a t price size side fee tx) = join (
      codes "last_trade_price market="
      ∷ codes m
      ∷ codes " asset="
      ∷ codes a
      ∷ codes " side="
      ∷ codes side
      ∷ codes " price="
      ∷ decimal_text price
      ∷ codes " size="
      ∷ decimal_text size
      ∷ codes " tx="
      ∷ codes tx
      ∷ [])
  display (Event.tick_size_change m a t old new) = join (
      codes "tick_size_change market="
      ∷ codes m
      ∷ codes " asset="
      ∷ codes a
      ∷ codes " old="
      ∷ decimal_text old
      ∷ codes " new="
      ∷ decimal_text new
      ∷ [])

  -- What follows the kind, the market and the asset.
  abbrev details : Event D → List Text
  details (Event.book m a t bids asks h) =
      codes " bids=" ∷ count_text (length bids) ∷ codes " asks=" ∷ count_text (length asks) ∷ []
  details (Event.price_change m a t best_bid best_ask h price size side) =
      codes " side="
      ∷ codes side
      ∷ codes " price="
      ∷ decimal_text price
      ∷ codes " size="
      ∷ decimal_text size
      ∷ codes " bid="
      ∷ debug_text best_bid
      ∷ codes " ask="
      ∷ debug_text best_ask
      ∷ []
  details (Event.last_trade_price m a t price size side fee tx) =
      codes " side="
      ∷ codes side
      ∷ codes " price="
      ∷ decimal_text price
      ∷ codes " size="
      ∷ decimal_text size
      ∷ codes " tx="
      ∷ codes tx
      ∷ []
  details (Event.tick_size_change m a t old new) =
      codes " old=" ∷ decimal_text old ∷ codes " new=" ∷ decimal_text new ∷ []

  -- The line of an event begins with its kind, its market and its asset.
  pub display-prefix :
      (ev : Event D)
      → display ev
        ≡ join (
            codes (kind ev)
            ∷ codes " market="
            ∷ codes (market ev)
            ∷ codes " asset="
            ∷ codes (asset_id ev)
            ∷ details ev)
  unfolding display kind market asset_id
  display-prefix (Event.book m a t bids asks h) = refl
  display-prefix (Event.price_change m a t best_bid best_ask h price size side) = refl
  display-prefix (Event.last_trade_price m a t price size side fee tx) = refl
  display-prefix (Event.tick_size_change m a t old new) = refl
