-- ===== src/Monitor/Turn.antt =====
-- The arms of the select loop of `run_health_monitor` in ws/pool.rs.
use polymarket_orderbook_col.Base.{
  ℕ, ◌-◌, String, none, some, List, [], ◌∷◌, Bool, true, false, not, ◌&&◌, is_empty, Result, ok,
  err, ◌>>=◌, add64, nat_key, string_key, if◌then◌else◌,
}
use polymarket_orderbook_col.Base.HashMap
use polymarket_orderbook_col.Connection.{ConnStatus, connected, disconnected}
use polymarket_orderbook_col.Pool.{Panic, missing_key}
use polymarket_orderbook_col.Monitor.{
  AssetState, healthy, degraded, down, is_disconnected, same_status, same_state, Mapping, Monitor,
  status_of, compute_asset_state, update_aggregate_gauges, rebuild_derived,
}

-- The transition of the connection itself.
unfoldable pub conn_transition : ConnStatus → ConnStatus → ℕ → ℕ → Monitor → Monitor
conn_transition connected disconnected changed_idx now m = record m {
  conn_down_since = HashMap.insert changed_idx (some now) m.conn_down_since;
  counters = record m.counters { conn_down_events = add64 m.counters.conn_down_events 1 };
}
conn_transition disconnected connected changed_idx now m =
    let cleared = record m { conn_down_since = HashMap.remove changed_idx m.conn_down_since } in
    elim (HashMap.get m.conn_down_since changed_idx) [
      | some (some since) ↦ record cleared {
        counters = record m.counters {
          conn_down_total_ms = add64 m.counters.conn_down_total_ms (now - since);
        };
      }
      | _ ↦ cleared
    ]
conn_transition _ _ changed_idx now m = m

-- Leaving a state: the time spent in it.
unfoldable pub leave_state : AssetState → String → ℕ → Monitor → Monitor
leave_state healthy asset now m = m
leave_state down asset now m = elim (HashMap.get m.asset_transition_time asset) [
  | none ↦ m
  | some since ↦ record m {
    asset_transition_time = HashMap.remove asset m.asset_transition_time;
    counters = record m.counters {
      asset_down_total_ms = add64 m.counters.asset_down_total_ms (now - since);
    };
  }
]
leave_state degraded asset now m = elim (HashMap.get m.asset_transition_time asset) [
  | none ↦ m
  | some since ↦ record m {
    asset_transition_time = HashMap.remove asset m.asset_transition_time;
    counters = record m.counters {
      asset_degraded_total_ms = add64 m.counters.asset_degraded_total_ms (now - since);
    };
  }
]

-- Entering a state.
unfoldable pub enter_state : AssetState → String → ℕ → Monitor → Monitor
enter_state healthy asset now m = m
enter_state down asset now m = record m {
  asset_transition_time = HashMap.insert asset now m.asset_transition_time;
  counters = record m.counters { asset_down_events = add64 m.counters.asset_down_events 1 };
}
enter_state degraded asset now m = record m {
  asset_transition_time = HashMap.insert asset now m.asset_transition_time;
  counters = record m.counters { asset_degraded_events = add64 m.counters.asset_degraded_events 1 };
}

-- An asset without a state counts as down.
unfoldable pub recorded_state : List (String × AssetState) → String → AssetState
recorded_state states asset = elim (HashMap.get states asset) [ none ↦ down | some s ↦ s ]

-- One affected asset. `asset_conns[asset]` panics when the asset is not in the mapping.
unfoldable pub update_asset : String → ℕ → Monitor → Result Panic Monitor
unfolding compute_asset_state recorded_state leave_state enter_state
update_asset asset now m =
    let new_state = compute_asset_state asset m.conn_status m.asset_conns in
    let m1 = record m { asset_states = HashMap.insert asset new_state m.asset_states } in
    let old_state = recorded_state m.asset_states asset in
    if same_state old_state new_state then ok m1 else elim (HashMap.get m.asset_conns asset) [
      | none ↦ err missing_key
      | some _ ↦ ok (enter_state new_state asset now (leave_state old_state asset now m1))
    ]

unfoldable pub update_assets : List String → ℕ → Monitor → Result Panic Monitor
unfolding update_asset
update_assets [] now m = ok m
update_assets (asset ∷ rest) now m = update_asset asset now m >>= (λ m1. update_assets rest now m1)

-- Whether every connection that has assets is known to be connected.
unfoldable pub all_connected : List (ℕ × List String) → List (ℕ × ConnStatus) → Bool
unfolding status_of
all_connected [] statuses = true
all_connected ((c, _) ∷ rest) statuses =
    not (is_disconnected (status_of statuses c)) && all_connected rest statuses

unfoldable pub finish_startup : Monitor → Monitor
unfolding all_connected
finish_startup m =
    if m.startup && not (is_empty m.conn_to_assets) && all_connected m.conn_to_assets m.conn_status
    then record m { startup = false }
    else m

unfoldable pub assets_of : List (ℕ × List String) → ℕ → List String
assets_of index c = elim (HashMap.get index c) [ none ↦ [] | some assets ↦ assets ]

-- The first arm of the select loop: a connection's status.
unfoldable pub on_status : ℕ → ConnStatus → ℕ → Monitor → Result Panic Monitor
unfolding status_of conn_transition assets_of update_assets update_aggregate_gauges finish_startup
on_status changed_idx new_status now m =
    let old_status = status_of m.conn_status changed_idx in
    let m1 = record m { conn_status = HashMap.insert changed_idx new_status m.conn_status } in
    if same_status old_status new_status
    then ok m1
    else update_assets (assets_of m.conn_to_assets changed_idx) now
        (conn_transition old_status new_status changed_idx now m1)
      >>= (λ m2. ok (
          finish_startup (record m2 {
            counters = update_aggregate_gauges m2.asset_states m2.conn_status m2.counters;
          })))

-- The second arm: the mapping that the pool has pushed.
unfoldable pub on_mapping : Mapping → Monitor → Monitor
unfolding rebuild_derived
on_mapping conns m = rebuild_derived (record m { asset_conns = conns })

-- What the select loop receives, with the time of a status.
pub data Notice : Type 0 where
  status : ℕ → ConnStatus → ℕ → Notice
  mapping : Mapping → Notice

unfoldable pub monitor_step : Notice → Monitor → Result Panic Monitor
unfolding on_status on_mapping
monitor_step (status c s now) m = on_status c s now m
monitor_step (mapping conns) m = ok (on_mapping conns m)

-- The loop, up to the point where all senders are dropped.
unfoldable pub run_health_monitor : List Notice → Monitor → Result Panic Monitor
unfolding monitor_step
run_health_monitor [] m = ok m
run_health_monitor (n ∷ rest) m = monitor_step n m >>= (λ m1. run_health_monitor rest m1)
