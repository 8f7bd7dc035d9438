-- ===== src/Sink/Tests.antt =====
-- Examples for the theorems on sink.rs.
use mathlib.Core.List.{Perm}
use polymarket_orderbook_col.Base.{
  ◌+◌, ◌%◌, ◌≡◌, refl, String, some, List, [], ◌∷◌, ◌++◌, Bool, true, false, length, add64, u64_mod,
  pos,
}
use polymarket_orderbook_col.Events.{Event, timestamp}
use polymarket_orderbook_col.Events.Json.{Json, DecimalText}
use polymarket_orderbook_col.Base.Numbers.{parse_digits, parse_magnitude}
use polymarket_orderbook_col.Sink.{typed, SinkConfig, Row, parse_i64, row_of}
use polymarket_orderbook_col.Sink.Statements.{
  Request, drop_table, insert_columns, table_columns, empty_sink,
}
use polymarket_orderbook_col.Sink.Flush.{
  Running, Wake, received, ticked, serialize_batch, flush, run,
}
use polymarket_orderbook_col.Sink.Columns.{names, row_of-names}
use polymarket_orderbook_col.Sink.Accounting.{events_received, accounted, run-accounted}
use polymarket_orderbook_col.Sink.Delivery.{run-inserted}
use polymarket_orderbook_col.Sink.Start.{flush-bad_timestamp}

abbrev text_decimals : DecimalText String
text_decimals = record { to_string = λ s. s; from_str = λ s. some s }

abbrev dots : Json → String
dots j = "..."

abbrev some_cfg : SinkConfig
some_cfg = record {
  database = "default";
  table = "test_table";
  drop_table_on_start = true;
  exclude_hash = false;
  batch_size = 2;
  flush_interval = 500;
  ttl_minutes = 0;
  schema = typed;
}

abbrev tick_change : Event String
tick_change = Event.tick_size_change "0xbd" "65" "100000000" "0.01" "0.001"

abbrev untimed : Event String
untimed = Event.tick_size_change "0xbd" "65" "soon" "0.01" "0.001"

abbrev idle : Running String
idle = record { sink = empty_sink some_cfg; inserted = [] }

abbrev wakes : List (Wake String)
wakes = received tick_change true ∷ ticked true ∷ received tick_change true ∷ []

abbrev the_row : Row
the_row = row_of text_decimals dots some_cfg tick_change (pos 100_000_000)

row_of-names_example :
    Perm (names (row_of text_decimals dots some_cfg tick_change (pos 7))) (insert_columns typed)
    × (names (table_columns typed) ≡ "timestamp_received" ∷ insert_columns typed)
row_of-names_example = row_of-names text_decimals dots some_cfg tick_change (pos 7)

run-accounted_example :
    let r' = run text_decimals dots wakes false idle in
    (r'.sink.buffer ≡ [])
    × ((r'.sink.total_flushed + r'.sink.total_dropped) % u64_mod
        ≡ (accounted idle + length (events_received wakes)) % u64_mod)
run-accounted_example = run-accounted text_decimals dots wakes false idle

run-inserted_example :
    (run text_decimals dots wakes true idle).inserted ≡ [] ++ the_row ∷ the_row ∷ []
unfolding serialize_batch timestamp parse_i64 parse_magnitude parse_digits
run-inserted_example =
    run-inserted text_decimals dots wakes idle (the_row ∷ the_row ∷ []) (refl, (refl, (refl, tt)))
      refl

abbrev refuses_drop : Request → Bool
refuses_drop r = elim (r.statement) [ drop_table t ↦ false | _ ↦ true ]

abbrev with_untimed : Running String
with_untimed = record {
  sink = record (empty_sink some_cfg) { buffer = tick_change ∷ untimed ∷ [] };
  inserted = [];
}

flush-bad_timestamp_example :
    let r' = flush text_decimals dots true with_untimed in
    (r'.inserted ≡ [])
    × (r'.sink.buffer ≡ [])
    × (r'.sink.total_flushed ≡ 0)
    × (r'.sink.total_dropped ≡ add64 0 2)
    × (r'.sink.total_failures ≡ add64 0 1)
unfolding timestamp parse_i64 parse_magnitude parse_digits
flush-bad_timestamp_example =
    flush-bad_timestamp text_decimals dots true with_untimed (tick_change ∷ []) [] untimed refl refl
