-- ===== src/Services/Publisher.antt =====
-- services/polymarket/polymarket-orderbook-rust-pubsub/src/main.rs. What tokio, Redis and the Gamma API answer
-- are arguments.
use polymarket_orderbook_col.Base.{
  codes, ℕ, ◌-◌, String, Option, none, some, List, [], ◌∷◌, ◌++◌, Bool, true, false, not, Result,
  ok, err, ◌>>=◌, is_empty, if◌then◌else◌, map,
}
use polymarket_orderbook_col.Base.Numbers.{parse_unsigned}
use polymarket_orderbook_col.Events.{Market}
use polymarket_orderbook_col.Pool.{Pool, Panic, new}
use polymarket_orderbook_col.Pool.Subscribe.{subscribe_markets}
use polymarket_orderbook_col.Pool.Shutdown.{ShutdownStep, shutdown}
use polymarket_orderbook_col.Markets.{RawMarket, GammaError, CacheEntry, fetch_active_markets, load}
use polymarket_orderbook_col.Markets.Stream.{StreamConfig}
use polymarket_orderbook_col.Config.{Env, ConfigError, max_u64}
use polymarket_orderbook_col.Config.Publisher

pub record Cli : Type 0 where
  pub new_only : Bool
  pub skip_backlog : Bool

-- Why `main` ends before the service runs.
pub data StartError : Type 0 where
  bad_config : ConfigError → StartError
  sink_failed http_failed gamma_failed cache_failed : StartError
  panicked : Panic → StartError
  channel_panicked : StartError

-- What the world outside answers: whether the pub/sub sink's client opens, whether tokio makes a channel
-- of a size (it panics at 0), whether the HTTP client is built, the pages of the Gamma API, Redis's answer
-- for a key, and the two parsers of documents.
pub record World : Type 0 where
  pub sink_opens : String → Bool
  pub channel_made : ℕ → Bool
  pub http_built : Bool
  pub page : ℕ → Result GammaError (List RawMarket)
  pub redis_get : String → Option (Option String)
  pub decode_strings : String → Option (List String)
  pub parse_cache : String → Option (List CacheEntry)

-- The Gamma API if the cache is to be skipped, else the cache. (The paging ends, so `none` is not met.)
unfoldable pub preload_markets : World → Publisher.Config → Result StartError (List Market)
unfolding fetch_active_markets load
preload_markets w cfg =
    let gamma : Result StartError (List Market) =
      if w.http_built
      then (elim (fetch_active_markets w.decode_strings w.page) [
        | none ↦ err gamma_failed
        | some answer ↦ elim answer [ ok markets ↦ ok markets | err e ↦ err gamma_failed ]
      ])
      else err http_failed in
    let cache : Result StartError (List Market) =
      elim (load w.parse_cache (w.redis_get cfg.redis_key_active_markets)) [
        | none ↦ err cache_failed
        | some markets ↦ ok markets
      ] in
    if cfg.skip_active_markets_cache then gamma else cache

-- The panics of a pool's call, as those of `main`.
unfoldable pub of_pool : Result Panic Pool → Result StartError Pool
of_pool (ok p) = ok p
of_pool (err e) = err (panicked e)

abbrev pub stream_cfg : Cli → Publisher.Config → StreamConfig
stream_cfg cli cfg = record {
  redis_url = cfg.redis_url;
  stream_key = cfg.redis_stream_market_events;
  group = cfg.stream_consumer_group;
  consumer = cfg.stream_consumer_name;
  skip_backlog = cli.skip_backlog;
}

module _ (shuffle1 shuffle2 : List String → List String) where
  -- The pool with the markets that were loaded.
  unfoldable pub subscribe_loaded : Publisher.Config → List Market → Result StartError Pool
  subscribe_loaded cfg markets =
      let pool = new cfg.max_assets_per_conn in
      if is_empty markets
      then ok pool
      else of_pool (subscribe_markets shuffle1 shuffle2 markets pool)

  unfoldable pub preload : World → Cli → Publisher.Config → Result StartError Pool
  preload w cli cfg =
      if not cli.new_only
      then preload_markets w cfg >>= subscribe_loaded cfg
      else ok (new cfg.max_assets_per_conn)

  -- `main` up to the wait for a signal: the pool and the configuration of the stream's listener.
  unfoldable pub start_service : World → Env → Cli → Result StartError (Pool × StreamConfig)
  start_service w env cli = elim (Publisher.from_env env) [
    | err e ↦ err (bad_config e)
    | ok cfg ↦
        if w.sink_opens cfg.redis_url
        then (if w.channel_made cfg.queue_size
            then (preload w cli cfg >>= λ pool. ok (pool, stream_cfg cli cfg))
            else err channel_panicked)
        else err sink_failed
  ]

-- What `main` does after the signal. With another reference to the pool left it returns at once.
pub data EndStep : Type 0 where
  stop_stream stop_stats drop_event_tx leak_pool await_sink : EndStep
  pool_step : ShutdownStep → EndStep

unfoldable pub end_service : (sole_owner : Bool) → Pool → List EndStep
unfolding shutdown
end_service sole_owner p =
    stop_stream
    ∷ stop_stats
    ∷ drop_event_tx
    ∷ (if sole_owner then map pool_step (shutdown p) ++ await_sink ∷ [] else leak_pool ∷ [])

-- The part of `stats_loop` that asks Redis for the number of cached markets: whether the client was
-- opened, and whether there is a connection.
pub record StatsRedis : Type 0 where
  pub client_opened : Bool
  pub connected : Bool

-- Redis's answer to GET: an error, or a value if the key exists.
pub data GetAnswer : Type 0 where
  failed : GetAnswer
  value : Option String → GetAnswer

abbrev pub count_of : Option String → ℕ
count_of none = 0
count_of (some s) = elim (parse_unsigned max_u64 (codes s)) [ none ↦ 0 | some n ↦ n ]

-- One iteration: the number that is logged, and the connection afterwards.
unfoldable pub cache_active_markets : (connects : Bool) → GetAnswer → StatsRedis → ℕ × StatsRedis
cache_active_markets connects answer s =
    let asked : ℕ × StatsRedis = elim answer [
      | failed ↦ (0, record s { connected = false })
      | value v ↦ (count_of v, record s { connected = true })
    ] in
    if s.connected
    then asked
    else if s.client_opened
    then (if connects then asked else (0, s))
    else (0, s)

-- The events in the queue.
unfoldable pub queue_used : (max_capacity capacity : ℕ) → ℕ
queue_used max_capacity capacity = max_capacity - capacity
