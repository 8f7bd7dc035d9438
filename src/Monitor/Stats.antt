-- ===== src/Monitor/Stats.antt =====
-- `pool_stats` of ws/pool.rs: the pool's sizes and the monitor's counters. `as usize` keeps a u64 as it is.
use polymarket_orderbook_col.Base.{ℕ}
use polymarket_orderbook_col.Pool.{Pool, subscribed_market_count, connection_count}
use polymarket_orderbook_col.Monitor.{HealthCounters}

pub record PoolStats : Type 0 where
  pub market_count : ℕ
  pub connection_count : ℕ
  pub asset_down_events : ℕ
  pub asset_degraded_events : ℕ
  pub conn_down_events : ℕ
  pub conns_down : ℕ
  pub assets_down : ℕ
  pub assets_degraded : ℕ

unfoldable pub pool_stats : Pool → HealthCounters → PoolStats
unfolding subscribed_market_count connection_count
pool_stats p counters = record {
  market_count = subscribed_market_count p;
  connection_count = connection_count p;
  asset_down_events = counters.asset_down_events;
  asset_degraded_events = counters.asset_degraded_events;
  conn_down_events = counters.conn_down_events;
  conns_down = counters.conns_down;
  assets_down = counters.assets_down;
  assets_degraded = counters.assets_degraded;
}
