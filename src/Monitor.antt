-- ===== src/Monitor.antt =====
-- The health monitor of shared/rust/polymarket-orderbook-rust/src/ws/pool.rs (`run_health_monitor`): its
-- state and one turn of its select loop. Instants are in milliseconds; a turn reads the clock once.
-- Log lines are left out. The theorems are in the children.
pub mod Turn
pub mod Assets
pub mod Rebuilt
pub mod States
pub mod Reports
pub mod Stats
mod Tests
use polymarket_orderbook_col.Base.{
  ℕ, ◌+◌, ◌-◌, String, Option, none, some, List, [], ◌∷◌, Bool, true, false, not, ◌&&◌, length,
  keep, is_empty, Result, ok, err, ◌>>=◌, add64, nat_key, string_key, if◌then◌else◌,
}
use polymarket_orderbook_col.Base.HashMap
use polymarket_orderbook_col.Connection.{ConnStatus, connected, disconnected}
use polymarket_orderbook_col.Pool.{Panic, missing_key, push_pending}

pub data AssetState : Type 0 where
  healthy degraded down : AssetState

abbrev pub is_disconnected : ConnStatus → Bool
is_disconnected connected = false
is_disconnected disconnected = true

abbrev pub is_down : AssetState → Bool
is_down down = true
is_down _ = false

abbrev pub is_degraded : AssetState → Bool
is_degraded degraded = true
is_degraded _ = false

abbrev pub same_status : ConnStatus → ConnStatus → Bool
same_status connected connected = true
same_status disconnected disconnected = true
same_status _ _ = false

abbrev pub same_state : AssetState → AssetState → Bool
same_state healthy healthy = true
same_state degraded degraded = true
same_state down down = true
same_state _ _ = false

pub record HealthCounters : Type 0 where
  pub asset_down_events : ℕ
  pub asset_down_total_ms : ℕ
  pub asset_degraded_events : ℕ
  pub asset_degraded_total_ms : ℕ
  pub conn_down_events : ℕ
  pub conn_down_total_ms : ℕ
  pub conns_down : ℕ
  pub assets_down : ℕ
  pub assets_degraded : ℕ

abbrev pub Mapping : Type 0
Mapping = List (String × (ℕ × ℕ))

pub record Monitor : Type 0 where
  pub asset_conns : Mapping
  pub conn_to_assets : List (ℕ × List String)
  pub conn_status : List (ℕ × ConnStatus)
  pub asset_states : List (String × AssetState)
  pub asset_transition_time : List (String × ℕ)
  pub conn_down_since : List (ℕ × Option ℕ)
  pub startup : Bool
  pub counters : HealthCounters

abbrev zero_counters : HealthCounters
zero_counters = record {
  asset_down_events = 0;
  asset_down_total_ms = 0;
  asset_degraded_events = 0;
  asset_degraded_total_ms = 0;
  conn_down_events = 0;
  conn_down_total_ms = 0;
  conns_down = 0;
  assets_down = 0;
  assets_degraded = 0;
}

unfoldable pub start : Monitor
start = record {
  asset_conns = [];
  conn_to_assets = [];
  conn_status = [];
  asset_states = [];
  asset_transition_time = [];
  conn_down_since = [];
  startup = true;
  counters = zero_counters;
}

-- A connection that has not reported counts as disconnected.
unfoldable pub status_of : List (ℕ × ConnStatus) → ℕ → ConnStatus
status_of statuses c = elim (HashMap.get statuses c) [ none ↦ disconnected | some s ↦ s ]

abbrev pub state_of : ConnStatus → ConnStatus → AssetState
state_of connected connected = healthy
state_of disconnected disconnected = down
state_of _ _ = degraded

unfoldable pub compute_asset_state : String → List (ℕ × ConnStatus) → Mapping → AssetState
unfolding status_of
compute_asset_state asset statuses conns = elim (HashMap.get conns asset) [
  | none ↦ healthy
  | some (c1, c2) ↦ state_of (status_of statuses c1) (status_of statuses c2)
]

-- How many values of a map pass a test: `values().filter(..).count()`.
unfoldable pub count_values {ℓ κ} : {K : Type ℓ} {V : Type κ} → (V → Bool) → List (K × V) → ℕ
count_values p [] = 0
count_values p ((k, v) ∷ m) = let rest = count_values p m in if p v then 1 + rest else rest

unfoldable pub update_aggregate_gauges :
    List (String × AssetState) → List (ℕ × ConnStatus) → HealthCounters → HealthCounters
unfolding count_values
update_aggregate_gauges states statuses counters = record counters {
  assets_down = count_values is_down states;
  assets_degraded = count_values is_degraded states;
  conns_down = count_values is_disconnected statuses;
}

-- The first loop of `rebuild_derived`: the assets of each connection.
unfoldable pub index_conns : Mapping → List (ℕ × List String) → List (ℕ × List String)
unfolding push_pending
index_conns [] index = index
index_conns ((asset, (c1, c2)) ∷ rest) index =
    index_conns rest (push_pending c2 asset (push_pending c1 asset index))

-- `retain`: the states of assets that are still in the mapping.
unfoldable pub retain_states : Mapping → List (String × AssetState) → List (String × AssetState)
retain_states conns [] = []
retain_states conns ((a, s) ∷ rest) =
    let kept = retain_states conns rest in
    if HashMap.contains_key conns a then (a, s) ∷ kept else kept

-- The second loop of `rebuild_derived`: the state of each asset in the mapping.
unfoldable pub recompute_states :
    List (ℕ × ConnStatus) → Mapping → List (String × AssetState) → List (String × AssetState)
unfolding status_of
recompute_states statuses [] states = states
recompute_states statuses ((asset, (c1, c2)) ∷ rest) states =
    recompute_states statuses rest
      (HashMap.insert asset (state_of (status_of statuses c1) (status_of statuses c2)) states)

unfoldable pub rebuild_derived : Monitor → Monitor
unfolding index_conns retain_states recompute_states update_aggregate_gauges
rebuild_derived m =
    let states =
      recompute_states m.conn_status m.asset_conns (retain_states m.asset_conns m.asset_states) in
    record m {
      conn_to_assets = index_conns m.asset_conns [];
      asset_states = states;
      counters = update_aggregate_gauges states m.conn_status m.counters;
    }
