-- ===== src/Services/Writer.antt =====
-- services/polymarket/polymarket-orderbook-rust-from-pubsub/src/main.rs.
use polymarket_orderbook_col.Base.{
  ℕ, String, none, some, List, [], ◌∷◌, Bool, Result, ok, err, if◌then◌else◌,
}
use polymarket_orderbook_col.Sink.{SinkConfig, Sink, raw}
use polymarket_orderbook_col.Sink.Statements.{Request, connect}
use polymarket_orderbook_col.Config.{Env, ConfigError}
use polymarket_orderbook_col.Config.Writer

pub data StartError : Type 0 where
  bad_config : ConfigError → StartError
  channel_panicked sink_failed : StartError

-- The sink's configuration, without the address and the credentials. The schema is fixed.
unfoldable pub sink_config : Writer.Config → SinkConfig
sink_config cfg = record {
  database = cfg.clickhouse_database;
  table = cfg.clickhouse_table;
  drop_table_on_start = cfg.drop_table_on_start;
  exclude_hash = cfg.exclude_hash;
  batch_size = cfg.flush_batch_size;
  flush_interval = cfg.flush_interval;
  ttl_minutes = cfg.ttl_minutes;
  schema = raw;
}

pub record SubscriberConfig : Type 0 where
  pub redis_url : String
  pub channel : String
  pub reconnect_delay : ℕ

abbrev pub subscriber_config : Writer.Config → SubscriberConfig
subscriber_config cfg = record {
  redis_url = cfg.redis_url;
  channel = cfg.redis_pubsub_channel;
  reconnect_delay = cfg.pubsub_reconnect_delay;
}

-- `main` up to the wait for a signal. Whether tokio makes a channel of a size (it panics at 0) and what
-- ClickHouse accepts are arguments.
unfoldable pub start_service :
    {D : Type 0}
    → (channel_made : ℕ → Bool) (accepts : Request → Bool) → Env
    → Result StartError (Sink D × SubscriberConfig)
unfolding sink_config connect Writer.from_env
start_service channel_made accepts env = elim (Writer.from_env env) [
  | err e ↦ err (bad_config e)
  | ok cfg ↦
      let sink = (connect accepts (sink_config cfg)).1 in
      if channel_made cfg.queue_size
      then (elim sink [ none ↦ err sink_failed | some s ↦ ok (s, subscriber_config cfg) ])
      else err channel_panicked
]

-- What `main` does after the signal: the sink has ten seconds to drain, and is aborted after them.
pub data EndStep : Type 0 where
  stop_subscriber stop_stats drop_event_tx await_sink abort_sink : EndStep

unfoldable pub end_service : (drained_in_time : Bool) → List EndStep
end_service drained_in_time =
    stop_subscriber
    ∷ stop_stats
    ∷ drop_event_tx
    ∷ await_sink
    ∷ (if drained_in_time then [] else abort_sink ∷ [])
