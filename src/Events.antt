-- ===== src/Events.antt =====
-- shared/rust/polymarket-orderbook-rust/src/events.rs: the messages of the wire, the events that they
-- are exploded into, and the market identity. `rust_decimal::Decimal` is the parameter `D`.
pub mod Explode
pub mod Json
pub mod Sources
pub mod Parse
pub mod Wire
pub mod Frame
pub mod Display
pub mod RoundTrip
mod Tests
use polymarket_orderbook_col.Base.{ℕ, String, Option, none, some, List, [], ◌∷◌, ◌++◌, map}

-- The wire layer.
pub record WireLevel (D : Type 0) : Type 0 where
  pub price : D
  pub size : D

pub record WireBook (D : Type 0) : Type 0 where
  pub market : String
  pub asset_id : String
  pub timestamp : String
  pub bids : List (WireLevel D)
  pub asks : List (WireLevel D)
  pub hash : String

pub record WirePriceChangeEntry (D : Type 0) : Type 0 where
  pub asset_id : String
  pub price : D
  pub size : D
  pub side : String
  pub best_bid : Option D
  pub best_ask : Option D
  pub hash : String

pub record WirePriceChange (D : Type 0) : Type 0 where
  pub market : String
  pub timestamp : String
  pub price_changes : List (WirePriceChangeEntry D)

pub record WireLastTradePrice (D : Type 0) : Type 0 where
  pub market : String
  pub asset_id : String
  pub timestamp : String
  pub price : D
  pub size : D
  pub side : String
  pub fee_rate_bps : String
  pub transaction_hash : String

pub record WireTickSizeChange (D : Type 0) : Type 0 where
  pub market : String
  pub asset_id : String
  pub timestamp : String
  pub old_tick_size : D
  pub new_tick_size : D

pub data WireMessage (D : Type 0) : Type 0 where
  book : WireBook D → WireMessage D
  price_change : WirePriceChange D → WireMessage D
  last_trade_price : WireLastTradePrice D → WireMessage D
  tick_size_change : WireTickSizeChange D → WireMessage D

-- A frame is one message or an array of messages.
pub data WireFrame (D : Type 0) : Type 0 where
  many : List (WireMessage D) → WireFrame D
  one : WireMessage D → WireFrame D

-- The event layer.
pub record Level (D : Type 0) : Type 0 where
  pub price : D
  pub size : D

pub data Event (D : Type 0) : Type 0 where
  book :
      (market asset_id timestamp : String) (bids asks : List (Level D)) (hash : Option String)
      → Event D
  price_change :
      (market asset_id timestamp : String) (best_bid best_ask : Option D) (hash : Option String)
      (price size : D) (side : String)
      → Event D
  last_trade_price :
      (market asset_id timestamp : String) (price size : D)
      (side fee_rate_bps transaction_hash : String)
      → Event D
  tick_size_change :
      (market asset_id timestamp : String) (old_tick_size new_tick_size : D) → Event D

-- `From<WireLevel> for Level`.
abbrev pub level_from : {D : Type 0} → WireLevel D → Level D
level_from w = record { price = w.price; size = w.size }

module _ {D : Type 0} where
  -- `WireFrame::into_iter`.
  unfoldable pub into_iter : WireFrame D → List (WireMessage D)
  into_iter (WireFrame.one m) = m ∷ []
  into_iter (WireFrame.many v) = v

  unfoldable pub kind : Event D → String
  kind (Event.book m a t bids asks h) = "book"
  kind (Event.price_change m a t bb ba h p s side) = "price_change"
  kind (Event.last_trade_price m a t p s side fee tx) = "last_trade_price"
  kind (Event.tick_size_change m a t old new) = "tick_size_change"

  unfoldable pub asset_id : Event D → String
  asset_id (Event.book m a t bids asks h) = a
  asset_id (Event.price_change m a t bb ba h p s side) = a
  asset_id (Event.last_trade_price m a t p s side fee tx) = a
  asset_id (Event.tick_size_change m a t old new) = a

  unfoldable pub market : Event D → String
  market (Event.book m a t bids asks h) = m
  market (Event.price_change m a t bb ba h p s side) = m
  market (Event.last_trade_price m a t p s side fee tx) = m
  market (Event.tick_size_change m a t old new) = m

  unfoldable pub timestamp : Event D → String
  timestamp (Event.book m a t bids asks h) = t
  timestamp (Event.price_change m a t bb ba h p s side) = t
  timestamp (Event.last_trade_price m a t p s side fee tx) = t
  timestamp (Event.tick_size_change m a t old new) = t

  -- Nulls the content hash of books and price changes.
  unfoldable pub strip_hash : Event D → Event D
  strip_hash (Event.book m a t bids asks h) = Event.book m a t bids asks none
  strip_hash (Event.price_change m a t bb ba h p s side) =
      Event.price_change m a t bb ba none p s side
  strip_hash (Event.last_trade_price m a t p s side fee tx) =
      Event.last_trade_price m a t p s side fee tx
  strip_hash (Event.tick_size_change m a t old new) = Event.tick_size_change m a t old new

  -- The event of one entry of a `price_change` message.
  unfoldable pub entry_event : WirePriceChange D → WirePriceChangeEntry D → Event D
  entry_event pc e =
      Event.price_change pc.market e.asset_id pc.timestamp e.best_bid e.best_ask (some e.hash)
        e.price e.size e.side

  -- The loop over the entries of a `price_change` message.
  unfoldable pub push_entries :
      WirePriceChange D → List (WirePriceChangeEntry D) → List (Event D) → List (Event D)
  push_entries pc [] out = out
  push_entries pc (e ∷ es) out = push_entries pc es (out ++ entry_event pc e ∷ [])

  -- Appends the events of a message to `out`.
  unfoldable pub explode : WireMessage D → List (Event D) → List (Event D)
  explode (WireMessage.book b) out =
      out
      ++ Event.book b.market b.asset_id b.timestamp (map level_from b.bids) (map level_from b.asks)
          (some b.hash)
        ∷ []
  explode (WireMessage.price_change pc) out = push_entries pc pc.price_changes out
  explode (WireMessage.last_trade_price t) out =
      out
      ++ Event.last_trade_price t.market t.asset_id t.timestamp t.price t.size t.side t.fee_rate_bps
          t.transaction_hash
        ∷ []
  explode (WireMessage.tick_size_change c) out =
      out
      ++ Event.tick_size_change c.market c.asset_id c.timestamp c.old_tick_size c.new_tick_size ∷ []

-- A market with its two assets.
pub record Market : Type 0 where
  pub hash : String
  pub yes_asset : String
  pub no_asset : String
