-- ===== src/Config/Writer.antt =====
-- services/polymarket/polymarket-orderbook-rust-from-pubsub/src/config.rs. `env_u16_or`, `env_u64_or` and
-- `env_usize_or` are `env_parse` at their types.
use polymarket_orderbook_col.Base.{ℕ, String, Bool, true, Text, Result, ok, ◌>>=◌}
use polymarket_orderbook_col.Config.{
  Env, ConfigError, max_u16, max_u64, require_env, env_or, env_parse, env_bool, env_bool_default,
  http_url,
}

pub record Config : Type 0 where
  pub redis_url : String
  pub redis_pubsub_channel : String
  pub pubsub_reconnect_delay : ℕ
  pub clickhouse_url : Text
  pub clickhouse_user : String
  pub clickhouse_password : String
  pub clickhouse_database : String
  pub clickhouse_table : String
  pub drop_table_on_start : Bool
  pub exclude_hash : Bool
  pub flush_batch_size : ℕ
  pub flush_interval : ℕ
  pub ttl_minutes : ℕ
  pub queue_size : ℕ

abbrev pub env_u16_or : Env → String → ℕ → Result ConfigError ℕ
env_u16_or env name default = env_parse env max_u16 name default

abbrev pub env_u64_or : Env → String → ℕ → Result ConfigError ℕ
env_u64_or env name default = env_parse env max_u64 name default

abbrev pub env_usize_or : Env → String → ℕ → Result ConfigError ℕ
env_usize_or env name default = env_parse env max_u64 name default

unfoldable pub from_env : Env → Result ConfigError Config
unfolding require_env env_or env_bool env_bool_default http_url
from_env env = do
  let clickhouse_host = env_or env "CLICKHOUSE_HOST" "localhost"
  clickhouse_port ← env_u16_or env "CLICKHOUSE_PORT" 8123
  url ← require_env env "REDIS_URL"
  reconnect ← env_u64_or env "PUBSUB_RECONNECT_DELAY_MS" 2_000
  batch ← env_usize_or env "FLUSH_BATCH_SIZE" 5_000
  interval ← env_u64_or env "FLUSH_INTERVAL_MS" 500
  minutes ← env_u64_or env "TTL_MINUTES" 0
  queue ← env_usize_or env "QUEUE_SIZE" 1_000_000
  ok (record {
    redis_url = url;
    redis_pubsub_channel = env_or env "REDIS_PUBSUB_CHANNEL" "polymarket:events";
    pubsub_reconnect_delay = reconnect;
    clickhouse_url = http_url clickhouse_host clickhouse_port;
    clickhouse_user = env_or env "CLICKHOUSE_USER" "default";
    clickhouse_password = env_or env "CLICKHOUSE_PASSWORD" "";
    clickhouse_database = env_or env "CLICKHOUSE_DATABASE" "default";
    clickhouse_table = env_or env "CLICKHOUSE_TABLE" "polymarket_orderbook_rust";
    drop_table_on_start = env_bool env "DROP_TABLE_ON_START";
    exclude_hash = env_bool_default env "EXCLUDE_HASH" true;
    flush_batch_size = batch;
    flush_interval = interval;
    ttl_minutes = minutes;
    queue_size = queue;
  })
