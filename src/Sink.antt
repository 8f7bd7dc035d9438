-- ===== src/Sink.antt =====
-- shared/rust/polymarket-orderbook-rust/src/sink.rs: the ClickHouse sink's configuration and state, the
-- numbers that it parses, and the rows that it writes. Statements are in Statements, the buffer and
-- the loop in Flush; the theorems in the other children. The HTTP server's answers are arguments,
-- and serde_json's printer is a parameter.
pub mod Statements
pub mod Flush
pub mod Columns
pub mod Accounting
pub mod Delivery
pub mod Start
mod Tests
use polymarket_orderbook_col.Base.{
  codes, ℕ, ◌+◌, ◌-◌, ◌*◌, ◌^◌, String, Option, none, some, List, [], ◌∷◌, Bool, true, false, ◌&&◌,
  leb, ltb, ◌==◌, ◌=?◌, string_key, Text, if◌then◌else◌, ℤ, pos, negsuc,
}
use polymarket_orderbook_col.Events.{Level, Event, market, kind, strip_hash}
use polymarket_orderbook_col.Events.Json.{
  Json, num, str, arr, obj, nil, Fields, field, end, DecimalText, levels_to_items, to_json,
}
use polymarket_orderbook_col.Base.Numbers.{parse_magnitude, parse_unsigned}

pub data SinkSchema : Type 0 where
  raw typed : SinkSchema

-- Without the address and the credentials. The interval is in milliseconds.
pub record SinkConfig : Type 0 where
  pub database : String
  pub table : String
  pub drop_table_on_start : Bool
  pub exclude_hash : Bool
  pub batch_size : ℕ
  pub flush_interval : ℕ
  pub ttl_minutes : ℕ
  pub schema : SinkSchema

pub record Sink (D : Type 0) : Type 0 where
  pub cfg : SinkConfig
  pub buffer : List (Event D)
  pub total_flushed : ℕ
  pub total_dropped : ℕ
  pub total_failures : ℕ

-- The negative of a number.
abbrev pub negated : ℕ → ℤ
negated n = if n == 0 then pos 0 else negsuc (n - 1)

-- `parse::<i64>()`.
unfoldable pub parse_i64 : List ℕ → Option ℤ
unfolding parse_magnitude
parse_i64 [] = none
parse_i64 (c ∷ cs) =
    if c == b'-'
    then (elim (parse_magnitude (2 ^ 63) cs) [ none ↦ none | some n ↦ some (negated n) ])
    else if c == b'+'
    then (elim (parse_magnitude (2 ^ 63 - 1) cs) [ none ↦ none | some n ↦ some (pos n) ])
    else (elim (parse_magnitude (2 ^ 63 - 1) (c ∷ cs)) [ none ↦ none | some n ↦ some (pos n) ])

-- `parse::<u16>().unwrap_or(0)`.
unfoldable pub parse_u16_or_0 : List ℕ → ℕ
unfolding parse_unsigned
parse_u16_or_0 cs = elim (parse_unsigned 65_535 cs) [ none ↦ 0 | some n ↦ n ]

-- A row: its columns in order.
abbrev pub Row : Type 0
Row = List (String × Json)

abbrev pub row_to_json : Row → Fields
row_to_json [] = end
row_to_json ((k, v) ∷ row) = field k v (row_to_json row)

-- The order of the keys of a `serde_json::Map`, which is a `BTreeMap`: that of their code points.
abbrev pub is_before : Text → Text → Bool
is_before [] [] = false
is_before [] (d ∷ ds) = true
is_before (c ∷ cs) [] = false
is_before (c ∷ cs) (d ∷ ds) = if ltb c d then true else c == d && is_before cs ds

-- `BTreeMap::insert`.
unfoldable pub insert_key : String → Json → Row → Row
insert_key k v [] = (k, v) ∷ []
insert_key k v ((j, w) ∷ row) =
    let rest = insert_key k v row in
    if k =? j
    then (k, v) ∷ row
    else if is_before (codes k) (codes j)
    then (k, v) ∷ (j, w) ∷ row
    else (j, w) ∷ rest

-- `json!` of an object: its fields are inserted one after the other.
unfoldable pub json_map : Row → Row → Row
unfolding insert_key
json_map [] row = row
json_map ((k, v) ∷ fields) row = json_map fields (insert_key k v row)

module _ {D : Type 0} (dec : DecimalText D) where
  -- `write_raw_row`.
  unfoldable pub raw_row : (Json → String) → SinkConfig → Event D → ℤ → Row
  unfolding strip_hash to_json market kind
  raw_row print cfg ev timestamp_ms =
      let data_json = print (to_json dec (if cfg.exclude_hash then strip_hash ev else ev)) in
      ("timestamp", num timestamp_ms)
      ∷ ("market", str (market ev))
      ∷ ("event_type", str (kind ev))
      ∷ ("data", str data_json)
      ∷ []

  unfoldable pub dec_or_zero : Option D → Json
  dec_or_zero none = str "0"
  dec_or_zero (some d) = str (dec.to_string d)

  -- The fields of the `json!` objects, as they are written there.
  unfoldable pub typed_fields : Event D → ℤ → Row
  unfolding dec_or_zero levels_to_items parse_u16_or_0
  typed_fields (Event.book m a t bids asks h) timestamp_ms =
      ("timestamp", num timestamp_ms)
      ∷ ("market", str m)
      ∷ ("event_type", str "book")
      ∷ ("asset_id", str a)
      ∷ ("bids", arr (levels_to_items dec bids))
      ∷ ("asks", arr (levels_to_items dec asks))
      ∷ ("price", str "0")
      ∷ ("size", str "0")
      ∷ ("side", str "")
      ∷ ("best_bid", str "0")
      ∷ ("best_ask", str "0")
      ∷ ("fee_rate_bps", num (pos 0))
      ∷ ("transaction_hash", str "")
      ∷ ("old_tick_size", str "0")
      ∷ ("new_tick_size", str "0")
      ∷ []
  typed_fields (Event.price_change m a t best_bid best_ask h price size side) timestamp_ms =
      ("timestamp", num timestamp_ms)
      ∷ ("market", str m)
      ∷ ("event_type", str "price_change")
      ∷ ("asset_id", str a)
      ∷ ("bids", arr nil)
      ∷ ("asks", arr nil)
      ∷ ("price", str (dec.to_string price))
      ∷ ("size", str (dec.to_string size))
      ∷ ("side", str side)
      ∷ ("best_bid", dec_or_zero best_bid)
      ∷ ("best_ask", dec_or_zero best_ask)
      ∷ ("fee_rate_bps", num (pos 0))
      ∷ ("transaction_hash", str "")
      ∷ ("old_tick_size", str "0")
      ∷ ("new_tick_size", str "0")
      ∷ []
  typed_fields (Event.last_trade_price m a t price size side fee tx) timestamp_ms =
      ("timestamp", num timestamp_ms)
      ∷ ("market", str m)
      ∷ ("event_type", str "last_trade_price")
      ∷ ("asset_id", str a)
      ∷ ("bids", arr nil)
      ∷ ("asks", arr nil)
      ∷ ("price", str (dec.to_string price))
      ∷ ("size", str (dec.to_string size))
      ∷ ("side", str side)
      ∷ ("best_bid", str "0")
      ∷ ("best_ask", str "0")
      ∷ ("fee_rate_bps", num (pos (parse_u16_or_0 (codes fee))))
      ∷ ("transaction_hash", str tx)
      ∷ ("old_tick_size", str "0")
      ∷ ("new_tick_size", str "0")
      ∷ []
  typed_fields (Event.tick_size_change m a t old new) timestamp_ms =
      ("timestamp", num timestamp_ms)
      ∷ ("market", str m)
      ∷ ("event_type", str "tick_size_change")
      ∷ ("asset_id", str a)
      ∷ ("bids", arr nil)
      ∷ ("asks", arr nil)
      ∷ ("price", str "0")
      ∷ ("size", str "0")
      ∷ ("side", str "")
      ∷ ("best_bid", str "0")
      ∷ ("best_ask", str "0")
      ∷ ("fee_rate_bps", num (pos 0))
      ∷ ("transaction_hash", str "")
      ∷ ("old_tick_size", str (dec.to_string old))
      ∷ ("new_tick_size", str (dec.to_string new))
      ∷ []

  unfoldable pub typed_row_value : Event D → ℤ → Row
  unfolding typed_fields json_map
  typed_row_value ev timestamp_ms = json_map (typed_fields ev timestamp_ms) []

  -- The row of an event in the configured schema.
  unfoldable pub row_of : (Json → String) → SinkConfig → Event D → ℤ → Row
  unfolding raw_row typed_row_value
  row_of print cfg ev timestamp_ms = elim (cfg.schema) [
    | raw ↦ raw_row print cfg ev timestamp_ms
    | typed ↦ typed_row_value ev timestamp_ms
  ]
