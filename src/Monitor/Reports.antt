-- ===== src/Monitor/Reports.antt =====
-- What `run_health_monitor` of ws/pool.rs says of the notices that it has received.
use polymarket_orderbook_col.Base.{
  ℕ, String, ◌≡◌, refl, sym, ap, ◌∙◌, Option, none, some, List, [], ◌∷◌, All, ok, nat_key,
  string_key, ◌=?◌, if◌then◌else◌, Option-cases, inl, inr,
}
use polymarket_orderbook_col.Base.HashMap
use polymarket_orderbook_col.Base.HashMap.{
  get-insert, Unique, get_some→contains_key, contains_key→get, get→contains_key,
}
use polymarket_orderbook_col.Connection.{ConnStatus, disconnected}
use polymarket_orderbook_col.Monitor.{
  is_down, is_degraded, Mapping, Monitor, start, status_of, count_values, rebuild_derived,
}
use polymarket_orderbook_col.Monitor.Turn.{
  on_mapping, Notice, status, mapping, monitor_step, run_health_monitor,
}
use polymarket_orderbook_col.Monitor.Rebuilt.{expected}
use polymarket_orderbook_col.Monitor.{AssetState, state_of}
use polymarket_orderbook_col.Monitor.States.{
  Consistent, start-Consistent, on_mapping-Consistent, on_status-Consistent, status_of-insert,
}

-- What a connection reported last, `s` if it did not.
unfoldable pub last_report : List Notice → ℕ → ConnStatus → ConnStatus
last_report [] c s = s
last_report (status d t now ∷ rest) c s = last_report rest c (if d =? c then t else s)
last_report (mapping conns ∷ rest) c s = last_report rest c s

-- The mapping that was pushed last, `conns` if there was none.
unfoldable pub last_mapping : List Notice → Mapping → Mapping
last_mapping [] conns = conns
last_mapping (status d t now ∷ rest) conns = last_mapping rest conns
last_mapping (mapping conns' ∷ rest) conns = last_mapping rest conns'

-- The state that reports give an asset of a mapping; none outside it.
unfoldable pub reported_state : (ℕ → ConnStatus) → Mapping → String → Option AssetState
reported_state reports conns a = elim (HashMap.get conns a) [
  | none ↦ none
  | some (c1, c2) ↦ some (state_of (reports c1) (reports c2))
]

-- The monitor knows the last report of every connection and the last mapping.
record Heard (notices : List Notice) (m m' : Monitor) : Type 0 where
  conns : m'.asset_conns ≡ last_mapping notices m.asset_conns
  reports : (c : ℕ) → status_of m'.conn_status c ≡ last_report notices c (status_of m.conn_status c)

-- A map that the pool pushes has each asset once.
abbrev pub IsMap : Notice → Type 0
IsMap (status c s now) = Unit
IsMap (mapping conns) = Unique conns

run_health_monitor-Heard :
    (notices : List Notice) (m : Monitor)
    → All IsMap notices
    → Consistent m
    → (m' : Monitor) × (run_health_monitor notices m ≡ ok m') × Consistent m' × Heard notices m m'
unfolding run_health_monitor monitor_step last_report last_mapping on_mapping rebuild_derived
run_health_monitor-Heard [] m maps w = (m, refl, w, record { conns = refl; reports = λ c. refl })
run_health_monitor-Heard (status c s now ∷ rest) m (_, maps) w =
    let (m1, ran, w1, r) = on_status-Consistent c s now m w in
    let (m2, ran_rest, w2, heard) = run_health_monitor-Heard rest m1 maps w1 in
    (
      m2,
      rw (ran, run_health_monitor) ran_rest,
      w2,
      record {
        conns = heard.conns ∙ ap (last_mapping rest) r.asset_conns;
        reports = λ d.
            heard.reports d
            ∙ ap (last_report rest d)
                (ap (λ t. status_of t d) r.conn_status ∙ status_of-insert c s m.conn_status d);
      },
    )
run_health_monitor-Heard (mapping conns ∷ rest) m (u, maps) w =
    let (m2, ran_rest, w2, heard) =
      run_health_monitor-Heard rest (on_mapping conns m) maps (on_mapping-Consistent conns m u) in
    (m2, ran_rest, w2, record { conns = heard.conns; reports = heard.reports })

-- The monitor's view of the notices.
pub record Watches (notices : List Notice) (m : Monitor) : Type 0 where
  pub states :
      (a : String)
      → HashMap.get m.asset_states a
        ≡ reported_state (λ c. last_report notices c disconnected) (last_mapping notices []) a
  pub down_gauge : m.counters.assets_down ≡ count_values is_down m.asset_states
  pub degraded_gauge : m.counters.assets_degraded ≡ count_values is_degraded m.asset_states

expected-reported :
    (notices : List Notice) (m : Monitor) (a : String)
    → Heard notices start m
    → expected m.conn_status m.asset_conns a
      ≡ reported_state (λ c. last_report notices c disconnected) (last_mapping notices []) a
unfolding expected reported_state start status_of HashMap.get
expected-reported notices m a h = elim (Option-cases (HashMap.get m.asset_conns a)) [
  | inl e ↦ rw (e, expected) (rw (sym h.conns) (rw (e, reported_state) refl))
  | inr ((c1, c2), e) ↦
      rw (e, expected)
        (rw (sym h.conns) (rw (e, reported_state) (rw (h.reports c1, h.reports c2) refl)))
]

-- For every sequence of connection statuses and of mappings (each with an asset at most once), the
-- health monitor never panics, and afterwards an asset has a state exactly when it is in the mapping
-- that was pushed last: healthy, degraded or down as both, one or neither of its two connections there
-- last reported to be connected (one that never reported counts as disconnected). The gauges of down
-- and degraded assets count exactly these states.
pub run_health_monitor_lem :
    (notices : List Notice)
    → All IsMap notices
    → (m : Monitor) × (run_health_monitor notices start ≡ ok m) × Watches notices m
run_health_monitor_lem notices maps =
    let (m, ran, w, heard) = run_health_monitor-Heard notices start maps start-Consistent in
    (
      m,
      ran,
      record {
        states = λ a. w.states a ∙ expected-reported notices m a heard;
        down_gauge = w.down_gauge;
        degraded_gauge = w.degraded_gauge;
      },
    )
