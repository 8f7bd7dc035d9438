-- ===== src/Config/Samples.antt =====
-- A configuration for examples.
use polymarket_orderbook_col.Base.{
  codes, ◌≡◌, refl, none, some, true, false, ◌=?◌, string_key, if◌then◌else◌, ok,
}
use polymarket_orderbook_col.Base.Numbers.{digits_of}
use polymarket_orderbook_col.Config.{
  Env, require_env, env_or, env_parse, env_bool, env_bool_default, http_url,
}
use polymarket_orderbook_col.Config.Publisher
use polymarket_orderbook_col.Config.Writer

abbrev pub only_redis : Env
only_redis name = if name =? "REDIS_URL" then some "redis://r" else none

abbrev pub a_publisher : Publisher.Config
a_publisher = record {
  redis_url = "redis://r";
  redis_stream_market_events = "polymarket:market_events";
  redis_key_active_markets = "polymarket:active_markets:pubsub";
  redis_key_active_markets_count = "polymarket:active_markets:pubsub:count";
  stream_consumer_group = "orderbook-rust-pubsub";
  stream_consumer_name = "orderbook-rust-pubsub-1";
  redis_pubsub_channel = "polymarket:events";
  publish_batch_max = 200;
  publish_linger = 2;
  skip_active_markets_cache = false;
  queue_size = 5_000_000;
  max_assets_per_conn = 200;
  dedup_ttl = 10_000;
}

abbrev pub a_writer : Writer.Config
a_writer = record {
  redis_url = "redis://r";
  redis_pubsub_channel = "polymarket:events";
  pubsub_reconnect_delay = 2_000;
  clickhouse_url = codes "http://localhost:8123";
  clickhouse_user = "default";
  clickhouse_password = "";
  clickhouse_database = "default";
  clickhouse_table = "polymarket_orderbook_rust";
  drop_table_on_start = false;
  exclude_hash = true;
  flush_batch_size = 5_000;
  flush_interval = 500;
  ttl_minutes = 0;
  queue_size = 1_000_000;
}

pub publisher_default : Publisher.from_env only_redis ≡ ok a_publisher
unfolding Publisher.from_env require_env env_or env_parse env_bool env_bool_default
publisher_default = refl

pub writer_default : Writer.from_env only_redis ≡ ok a_writer
unfolding Writer.from_env require_env env_or env_parse env_bool env_bool_default http_url digits_of
writer_default = refl
