-- ===== src/Sink/Flush.antt =====
-- `serialize_batch`, `flush` and `run` of sink.rs.
use polymarket_orderbook_col.Base.{
  codes, String, Option, none, some, List, [], ◌∷◌, ◌++◌, Bool, leb, if◌then◌else◌, length, add64,
}
use polymarket_orderbook_col.Events.{Event, timestamp}
use polymarket_orderbook_col.Events.Json.{Json, DecimalText}
use polymarket_orderbook_col.Sink.{SinkConfig, Sink, parse_i64, Row, row_of}

-- A sink and the rows of the inserts that the server has accepted.
pub record Running (D : Type 0) : Type 0 where
  pub sink : Sink D
  pub inserted : List Row

-- What the loop of `run` selects: an event or a tick, each with the server's answer to the insert that
-- it may cause.
pub data Wake (D : Type 0) : Type 0 where
  received : Event D → (accepted : Bool) → Wake D
  ticked : (accepted : Bool) → Wake D

module _ {D : Type 0} (dec : DecimalText D) (print : Json → String) where
  -- The row of each event; `none` at a timestamp that does not parse.
  unfoldable pub serialize_batch : SinkConfig → List (Event D) → Option (List Row)
  unfolding timestamp parse_i64 row_of
  serialize_batch cfg [] = some []
  serialize_batch cfg (ev ∷ evs) =
      let rest = serialize_batch cfg evs in
      elim (parse_i64 (codes (timestamp ev))) [
        | none ↦ none
        | some timestamp_ms ↦ elim rest [
          | none ↦ none
          | some rows ↦ some (row_of dec print cfg ev timestamp_ms ∷ rows)
        ]
      ]

  -- A batch that is lost.
  abbrev pub drop_batch : Running D → Running D
  drop_batch r = record r {
    sink = record r.sink {
      buffer = [];
      total_dropped = add64 r.sink.total_dropped (length r.sink.buffer);
      total_failures = add64 r.sink.total_failures 1;
    };
  }

  -- A batch that is stored.
  abbrev pub store_batch : List Row → Running D → Running D
  store_batch rows r = record {
    sink = record r.sink {
      buffer = [];
      total_flushed = add64 r.sink.total_flushed (length r.sink.buffer);
    };
    inserted = r.inserted ++ rows;
  }

  -- `flush` of a buffer that is not empty.
  unfoldable pub flush_batch : Bool → Running D → Running D
  unfolding serialize_batch
  flush_batch accepted r = elim (serialize_batch r.sink.cfg r.sink.buffer) [
    | none ↦ drop_batch r
    | some rows ↦ if accepted then store_batch rows r else drop_batch r
  ]

  unfoldable pub flush : Bool → Running D → Running D
  unfolding flush_batch
  flush accepted r = elim (r.sink.buffer) [ [] ↦ r | _ ∷ _ ↦ flush_batch accepted r ]

  abbrev pub push : Event D → Running D → Running D
  push ev r = record r { sink = record r.sink { buffer = r.sink.buffer ++ ev ∷ [] } }

  unfoldable pub on_wake : Wake D → Running D → Running D
  unfolding flush
  on_wake (received ev accepted) r =
      let r1 = push ev r in
      if leb r1.sink.cfg.batch_size (length r1.sink.buffer) then flush accepted r1 else r1
  on_wake (ticked accepted) r = flush accepted r

  unfoldable pub on_wakes : List (Wake D) → Running D → Running D
  unfolding on_wake
  on_wakes [] r = r
  on_wakes (w ∷ ws) r = on_wakes ws (on_wake w r)

  -- `run`: the loop until the channel is closed, and the last flush.
  unfoldable pub run : List (Wake D) → Bool → Running D → Running D
  unfolding on_wakes flush
  run wakes last_accepted r = flush last_accepted (on_wakes wakes r)
