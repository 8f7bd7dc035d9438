-- ===== src/Config/Publisher.antt =====
-- services/polymarket/polymarket-orderbook-rust-pubsub/src/config.rs. Its helpers are copies of those of the
-- library's configuration.
use polymarket_orderbook_col.Base.{ℕ, ◌*◌, String, Bool, Result, ok, ◌>>=◌}
use polymarket_orderbook_col.Config.{
  Env, ConfigError, max_u64, require_env, env_or, env_parse, env_bool,
}

pub record Config : Type 0 where
  pub redis_url : String
  pub redis_stream_market_events : String
  pub redis_key_active_markets : String
  pub redis_key_active_markets_count : String
  pub stream_consumer_group : String
  pub stream_consumer_name : String
  pub redis_pubsub_channel : String
  pub publish_batch_max : ℕ
  pub publish_linger : ℕ
  pub skip_active_markets_cache : Bool
  pub queue_size : ℕ
  pub max_assets_per_conn : ℕ
  pub dedup_ttl : ℕ

unfoldable pub from_env : Env → Result ConfigError Config
unfolding require_env env_or env_parse env_bool
from_env env = do
  url ← require_env env "REDIS_URL"
  batch ← env_parse env max_u64 "MAX_BATCH" 200
  linger ← env_parse env max_u64 "LINGER_MS" 2
  queue ← env_parse env max_u64 "QUEUE_SIZE" 5_000_000
  max_assets ← env_parse env max_u64 "MAX_ASSETS_PER_CONN" 200
  ttl_seconds ← env_parse env max_u64 "DEDUP_TTL_SECONDS" 10
  ok (record {
    redis_url = url;
    redis_stream_market_events = env_or env "REDIS_STREAM_MARKET_EVENTS" "polymarket:market_events";
    redis_key_active_markets =
        env_or env "REDIS_KEY_ACTIVE_MARKETS" "polymarket:active_markets:pubsub";
    redis_key_active_markets_count =
        env_or env "REDIS_KEY_ACTIVE_MARKETS_COUNT" "polymarket:active_markets:pubsub:count";
    stream_consumer_group = env_or env "ORDERBOOK_CONSUMER_GROUP" "orderbook-rust-pubsub";
    stream_consumer_name = env_or env "ORDERBOOK_CONSUMER_NAME" "orderbook-rust-pubsub-1";
    redis_pubsub_channel = env_or env "REDIS_PUBSUB_CHANNEL" "polymarket:events";
    publish_batch_max = batch;
    publish_linger = linger;
    skip_active_markets_cache = env_bool env "SKIP_ACTIVE_MARKETS_CACHE";
    queue_size = queue;
    max_assets_per_conn = max_assets;
    dedup_ttl = ttl_seconds * 1000;
  })
