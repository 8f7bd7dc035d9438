-- ===== src/Sink/Statements.antt =====
-- The statements of sink.rs: what the tables have as columns, what an insert names, and the start.
use polymarket_orderbook_col.Base.{
  ℕ, String, Option, none, some, List, [], ◌∷◌, ◌++◌, Bool, true, false, ltb, if◌then◌else◌,
}
use polymarket_orderbook_col.Sink.{SinkSchema, raw, typed, SinkConfig, Sink}

-- The columns of `INSERT INTO`.
unfoldable pub insert_columns : SinkSchema → List String
insert_columns raw = "timestamp" ∷ "market" ∷ "event_type" ∷ "data" ∷ []
insert_columns typed =
    "timestamp" ∷ "market" ∷ "event_type" ∷ "asset_id" ∷ "bids" ∷ "asks" ∷ "price" ∷ "size" ∷ "side"
    ∷ "best_bid" ∷ "best_ask" ∷ "fee_rate_bps" ∷ "transaction_hash" ∷ "old_tick_size"
    ∷ "new_tick_size" ∷ []

-- The columns of `CREATE TABLE`, with their types.
unfoldable pub table_columns : SinkSchema → List (String × String)
table_columns raw =
    ("timestamp_received", "DateTime64(3) DEFAULT now64(3)")
    ∷ ("timestamp", "DateTime64(3)")
    ∷ ("market", "String")
    ∷ ("event_type", "String")
    ∷ ("data", "String CODEC(ZSTD(3))")
    ∷ []
table_columns typed =
    ("timestamp_received", "DateTime64(3) DEFAULT now64(3) CODEC(Delta, ZSTD(3))")
    ∷ ("timestamp", "DateTime64(3) CODEC(Delta, ZSTD(3))")
    ∷ ("market", "LowCardinality(FixedString(66)) CODEC(ZSTD(3))")
    ∷ ("event_type", "LowCardinality(String) CODEC(ZSTD(3))")
    ∷ ("asset_id", "LowCardinality(String) CODEC(ZSTD(3))")
    ∷ ("bids", "Array(Tuple(Decimal32(4), Decimal64(6))) CODEC(ZSTD(3))")
    ∷ ("asks", "Array(Tuple(Decimal32(4), Decimal64(6))) CODEC(ZSTD(3))")
    ∷ ("price", "Decimal32(4) CODEC(ZSTD(3))")
    ∷ ("size", "Decimal64(6) CODEC(ZSTD(3))")
    ∷ ("side", "LowCardinality(String) CODEC(ZSTD(3))")
    ∷ ("best_bid", "Decimal32(4) CODEC(ZSTD(3))")
    ∷ ("best_ask", "Decimal32(4) CODEC(ZSTD(3))")
    ∷ ("fee_rate_bps", "UInt16 CODEC(ZSTD(3))")
    ∷ ("transaction_hash", "String CODEC(ZSTD(3))")
    ∷ ("old_tick_size", "Decimal32(4) CODEC(ZSTD(3))")
    ∷ ("new_tick_size", "Decimal32(4) CODEC(ZSTD(3))")
    ∷ []

-- The key of `ORDER BY`.
unfoldable pub order_columns : SinkSchema → List String
order_columns raw = "market" ∷ "timestamp_received" ∷ []
order_columns typed = "market" ∷ "asset_id" ∷ "timestamp_received" ∷ []

-- The statements, in place of their SQL text.
pub data Statement : Type 0 where
  create_database : String → Statement
  drop_table : String → Statement
  create_table :
      (table : String) (columns : List (String × String)) (order_by : List String) (ttl : Option ℕ)
      → Statement
  insert_into : (table : String) (columns : List String) → Statement

-- A request, with the database that it is bound to.
pub record Request : Type 0 where
  pub database : Option String
  pub statement : Statement

abbrev pub ensure_database : SinkConfig → Request
ensure_database cfg = record { database = none; statement = create_database cfg.database }

abbrev pub drop_request : SinkConfig → Request
drop_request cfg = record { database = some cfg.database; statement = drop_table cfg.table }

unfoldable pub ensure_table : SinkConfig → Request
unfolding table_columns order_columns
ensure_table cfg = record {
  database = some cfg.database;
  statement =
      create_table cfg.table (table_columns cfg.schema) (order_columns cfg.schema)
        (if ltb 0 cfg.ttl_minutes then some cfg.ttl_minutes else none);
}

unfoldable pub insert_request : SinkConfig → Request
unfolding insert_columns
insert_request cfg = record {
  database = some cfg.database;
  statement = insert_into cfg.table (insert_columns cfg.schema);
}

-- The requests of the start, up to the first that is refused.
unfoldable pub send_all : (Request → Bool) → List Request → List Request × Bool
send_all accepts [] = ([], true)
send_all accepts (r ∷ rs) =
    let rest = send_all accepts rs in if accepts r then (r ∷ rest.0, rest.1) else (r ∷ [], false)

abbrev pub start_requests : SinkConfig → List Request
start_requests cfg =
    ensure_database cfg
    ∷ ((if cfg.drop_table_on_start then drop_request cfg ∷ [] else []) ++ ensure_table cfg ∷ [])

abbrev pub empty_sink : {D : Type 0} → SinkConfig → Sink D
empty_sink cfg = record {
  cfg = cfg;
  buffer = [];
  total_flushed = 0;
  total_dropped = 0;
  total_failures = 0;
}

-- `Sink::connect`: what was sent, and the sink if all of it was accepted.
unfoldable pub connect :
    {D : Type 0} → (Request → Bool) → SinkConfig → List Request × Option (Sink D)
unfolding send_all ensure_table
connect accepts cfg =
    let (sent, accepted) = send_all accepts (start_requests cfg) in
    (sent, (if accepted then some (empty_sink cfg) else none))
