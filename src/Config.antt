-- ===== src/Config.antt =====
-- shared/rust/polymarket-orderbook-rust/src/config.rs, and what the configurations of the services
-- (Publisher and Writer) share with it: the helpers that read environment variables. An environment gives
-- the value of a variable, or `none` where it is not set or not Unicode. Durations are in milliseconds. The
-- texts of the errors are left out, but for the variable's name.
pub mod Publisher
pub mod Writer
pub mod Checks
pub mod Agreement
pub mod Samples
mod Tests
use polymarket_orderbook_col.Base.{
  codes, ℕ, ◌+◌, ◌*◌, ◌^◌, ◌-◌, String, Option, none, some, List, [], ◌∷◌, ◌++◌, map, Bool, true,
  false, ◌&&◌, ◌||◌, leb, eq_text, Text, Result, ok, err, ◌>>=◌, ok_or, if◌then◌else◌,
}
use polymarket_orderbook_col.Base.Numbers.{parse_unsigned, digits_of}

abbrev pub Env : Type 0
Env = String → Option String

pub data ConfigError : Type 0 where
  missing : String → ConfigError
  invalid : String → ConfigError

-- The greatest values of `u16`, and of `u64` and `usize`.
abbrev pub max_u16 : ℕ
max_u16 = 65_535

abbrev pub max_u64 : ℕ
max_u64 = 2 ^ 64 - 1

unfoldable pub require_env : Env → String → Result ConfigError String
require_env env name = ok_or (env name) (missing name)

unfoldable pub env_or : Env → String → String → String
env_or env name default = elim (env name) [ none ↦ default | some raw ↦ raw ]

-- `env_parse`, at an unsigned type with the given greatest value.
unfoldable pub env_parse : Env → ℕ → String → ℕ → Result ConfigError ℕ
unfolding parse_unsigned
env_parse env greatest name default = elim (env name) [
  | none ↦ ok default
  | some raw ↦ ok_or (parse_unsigned greatest (codes raw)) (invalid name)
]

-- `to_ascii_lowercase`.
abbrev pub to_lower : ℕ → ℕ
to_lower c = if leb b'A' c && leb c b'Z' then c + 32 else c

abbrev pub is_truthy : String → Bool
is_truthy raw =
    let lower = map to_lower (codes raw) in
    eq_text lower (codes "true") || eq_text lower (codes "1") || eq_text lower (codes "yes")

-- `env_bool_default` of the writer's configuration; with `false` it is also the others' `env_bool`.
unfoldable pub env_bool_default : Env → String → Bool → Bool
env_bool_default env name default = elim (env name) [ none ↦ default | some raw ↦ is_truthy raw ]

unfoldable pub env_bool : Env → String → Bool
unfolding env_bool_default
env_bool env name = env_bool_default env name false

-- `format!("http://{host}:{port}")`, for a port of at most five digits.
unfoldable pub http_url : String → ℕ → Text
unfolding digits_of
http_url host port = codes "http://" ++ codes host ++ b':' ∷ digits_of 5 port []

abbrev pub default_flush_batch_size : ℕ
default_flush_batch_size = 5_000

abbrev pub default_flush_interval : ℕ
default_flush_interval = 500

pub record Config : Type 0 where
  pub redis_url : String
  pub redis_stream_market_events : String
  pub redis_key_active_markets : String
  pub redis_key_active_markets_count : String
  pub stream_consumer_group : String
  pub stream_consumer_name : String
  pub clickhouse_url : Text
  pub clickhouse_user : String
  pub clickhouse_password : String
  pub clickhouse_database : String
  pub clickhouse_table : String
  pub drop_table_on_start : Bool
  pub exclude_hash : Bool
  pub skip_active_markets_cache : Bool
  pub queue_size : ℕ
  pub max_assets_per_conn : ℕ
  pub flush_batch_size : ℕ
  pub flush_interval : ℕ
  pub dedup_ttl : ℕ
  pub ttl_minutes : ℕ

-- `Config::from_env`: the port is read first.
unfoldable pub from_env : Env → Result ConfigError Config
unfolding require_env env_or env_parse env_bool http_url
from_env env = do
  let clickhouse_host = env_or env "CLICKHOUSE_HOST" "localhost"
  clickhouse_port ← env_parse env max_u16 "CLICKHOUSE_PORT" 8123
  url ← require_env env "REDIS_URL"
  queue ← env_parse env max_u64 "QUEUE_SIZE" 5_000_000
  max_assets ← env_parse env max_u64 "MAX_ASSETS_PER_CONN" 200
  ttl_seconds ← env_parse env max_u64 "DEDUP_TTL_SECONDS" 10
  minutes ← env_parse env max_u64 "TTL_MINUTES" 0
  ok (record {
    redis_url = url;
    redis_stream_market_events = env_or env "REDIS_STREAM_MARKET_EVENTS" "polymarket:market_events";
    redis_key_active_markets = env_or env "REDIS_KEY_ACTIVE_MARKETS" "polymarket:active_markets";
    redis_key_active_markets_count =
        env_or env "REDIS_KEY_ACTIVE_MARKETS_COUNT" "polymarket:active_markets:count";
    stream_consumer_group = env_or env "ORDERBOOK_CONSUMER_GROUP" "orderbook";
    stream_consumer_name = env_or env "ORDERBOOK_CONSUMER_NAME" "orderbook-1";
    clickhouse_url = http_url clickhouse_host clickhouse_port;
    clickhouse_user = env_or env "CLICKHOUSE_USER" "default";
    clickhouse_password = env_or env "CLICKHOUSE_PASSWORD" "";
    clickhouse_database = env_or env "CLICKHOUSE_DATABASE" "default";
    clickhouse_table = env_or env "CLICKHOUSE_TABLE" "polymarket_orderbook";
    drop_table_on_start = env_bool env "DROP_TABLE_ON_START";
    exclude_hash = env_bool env "EXCLUDE_HASH";
    skip_active_markets_cache = env_bool env "SKIP_ACTIVE_MARKETS_CACHE";
    queue_size = queue;
    max_assets_per_conn = max_assets;
    flush_batch_size = default_flush_batch_size;
    flush_interval = default_flush_interval;
    dedup_ttl = ttl_seconds * 1000;
    ttl_minutes = minutes;
  })
