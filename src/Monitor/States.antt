-- ===== src/Monitor/States.antt =====
-- The health states of `run_health_monitor` in ws/pool.rs after one notice.
use polymarket_orderbook_col.Base.{
  ℕ, String, ◌≡◌, refl, sym, ap, ◌∙◌, some, List, [], true, false, not, ◌&&◌, arith, is_empty, ok,
  nat_key, string_key, ◌=?◌, if◌then◌else◌, Bool-cases, Option-cases, inl, inr,
}
use polymarket_orderbook_col.Base.HashMap
use polymarket_orderbook_col.Base.HashMap.{
  get-insert, Unique, get_some→contains_key, contains_key→get, get→contains_key,
}
use polymarket_orderbook_col.Base.HashSet
use polymarket_orderbook_col.Connection.{ConnStatus, connected, disconnected}
use polymarket_orderbook_col.Monitor.{
  is_down, is_degraded, same_status, Mapping, Monitor, start, status_of, count_values,
  compute_asset_state, update_aggregate_gauges, rebuild_derived,
}
use polymarket_orderbook_col.Monitor.Turn.{
  conn_transition, all_connected, finish_startup, assets_of, on_status, on_mapping,
}
use polymarket_orderbook_col.Monitor.Assets.{
  Keeps, Settled, conn_transition-Keeps, update_assets-Settled,
}
use polymarket_orderbook_col.Monitor.Rebuilt.{
  expected, index_conns-covers, index_conns-known, get-rebuilt_states,
}

-- Every asset of the mapping, and no other, has the state that the latest statuses of its two
-- connections give it; the index of connections is that of the mapping; the asset gauges count the
-- states.
pub record Consistent (m : Monitor) : Type 0 where
  pub states : (a : String) → HashMap.get m.asset_states a ≡ expected m.conn_status m.asset_conns a
  pub covers :
      (a : String) (c1 c2 : ℕ)
      → HashMap.get m.asset_conns a ≡ some (c1, c2)
      → (HashSet.contains (assets_of m.conn_to_assets c1) a ≡ true)
        × (HashSet.contains (assets_of m.conn_to_assets c2) a ≡ true)
  pub known :
      (c : ℕ) (a : String)
      → HashSet.contains (assets_of m.conn_to_assets c) a ≡ true
      → HashMap.contains_key m.asset_conns a ≡ true
  pub down_gauge : m.counters.assets_down ≡ count_values is_down m.asset_states
  pub degraded_gauge : m.counters.assets_degraded ≡ count_values is_degraded m.asset_states

pub start-Consistent : Consistent start
unfolding start expected HashMap.get HashSet.contains assets_of count_values
start-Consistent = record {
  states = λ a. refl;
  covers = λ a c1 c2 h. cc;
  known = λ c a h. cc;
  down_gauge = refl;
  degraded_gauge = refl;
}

pub on_mapping-Consistent :
    (conns : Mapping) (m : Monitor) → Unique conns → Consistent (on_mapping conns m)
unfolding on_mapping rebuild_derived update_aggregate_gauges
on_mapping-Consistent conns m u = record {
  states = λ a. get-rebuilt_states m.conn_status conns m.asset_states a u;
  covers = λ a c1 c2 h. index_conns-covers conns [] a c1 c2 h;
  known = λ c a h.
      unfold assets_of in
      unfold HashSet.contains in unfold HashMap.get in index_conns-known conns [] c a h;
  down_gauge = refl;
  degraded_gauge = refl;
}

pub status_of-insert :
    (c : ℕ) (s : ConnStatus) (statuses : List (ℕ × ConnStatus)) (d : ℕ)
    → status_of (HashMap.insert c s statuses) d ≡ (if c =? d then s else status_of statuses d)
unfolding status_of
status_of-insert c s statuses d = ground (arith, get-insert c s statuses d)

same_status→eq : (s t : ConnStatus) → same_status s t ≡ true → s ≡ t
same_status→eq connected connected h = refl
same_status→eq disconnected disconnected h = refl
same_status→eq connected disconnected h = cc
same_status→eq disconnected connected h = cc

-- A status that changes nothing changes no status.
status_of-insert_same :
    (c : ℕ) (s : ConnStatus) (statuses : List (ℕ × ConnStatus)) (d : ℕ)
    → same_status (status_of statuses c) s ≡ true
    → status_of (HashMap.insert c s statuses) d ≡ status_of statuses d
status_of-insert_same c s statuses d h =
    status_of-insert c s statuses d ∙ elim (Bool-cases (c =? d)) [
      | inl hit ↦ rw hit (
          sym (same_status→eq (status_of statuses c) s h)
          ∙ ap (status_of statuses) ((nat_key.same_iff c d).0 hit))
      | inr miss ↦ rw miss refl
    ]

expected-ext :
    (statuses statuses' : List (ℕ × ConnStatus)) (conns : Mapping) (a : String)
    → ((c1 c2 : ℕ)
        → HashMap.get conns a ≡ some (c1, c2)
        → (status_of statuses c1 ≡ status_of statuses' c1)
          × (status_of statuses c2 ≡ status_of statuses' c2))
    → expected statuses conns a ≡ expected statuses' conns a
unfolding expected
expected-ext statuses statuses' conns a h = elim (Option-cases (HashMap.get conns a)) [
  | inl e ↦ rw (e, expected) refl
  | inr ((c1, c2), e) ↦ let (h1, h2) = h c1 c2 e in rw (e, expected) (rw (h1, h2) refl)
]

some-compute_asset_state :
    (a : String) (statuses : List (ℕ × ConnStatus)) (conns : Mapping)
    → HashMap.contains_key conns a ≡ true
    → some (compute_asset_state a statuses conns) ≡ expected statuses conns a
unfolding compute_asset_state expected
some-compute_asset_state a statuses conns h =
    let (cs, e) = contains_key→get conns a h in rw (e, compute_asset_state) (rw (e, expected) refl)

same-Consistent :
    (c : ℕ) (s : ConnStatus) (m : Monitor)
    → same_status (status_of m.conn_status c) s ≡ true
    → Consistent m
    → Consistent (record m { conn_status = HashMap.insert c s m.conn_status })
same-Consistent c s m same w = record {
  states = λ a.
      w.states a
      ∙ expected-ext m.conn_status (HashMap.insert c s m.conn_status) m.asset_conns a (λ c1 c2 h. (
        sym (status_of-insert_same c s m.conn_status c1 same),
        sym (status_of-insert_same c s m.conn_status c2 same),
      ));
  covers = w.covers;
  known = w.known;
  down_gauge = w.down_gauge;
  degraded_gauge = w.degraded_gauge;
}

-- A connection that an asset is not indexed under is neither of its two.
elsewhere :
    (c : ℕ) (s : ConnStatus) (m : Monitor) (a : String) (d : ℕ)
    → HashSet.contains (assets_of m.conn_to_assets c) a ≡ false
    → HashSet.contains (assets_of m.conn_to_assets d) a ≡ true
    → status_of m.conn_status d ≡ status_of (HashMap.insert c s m.conn_status) d
elsewhere c s m a d absent present = sym (
    status_of-insert c s m.conn_status d ∙ elim (Bool-cases (c =? d)) [
      | inl hit ↦ absurd (
          ground (
            arith,
            absent,
            present,
            ap (λ i. HashSet.contains (assets_of m.conn_to_assets i) a)
                ((nat_key.same_iff c d).0 hit),
          ))
      | inr miss ↦ rw miss refl
    ])

Settled-get :
    (c : ℕ) (s : ConnStatus) (m m' : Monitor) (a : String)
    → Consistent m
    → Settled
        (assets_of m.conn_to_assets c)
        (record m { conn_status = HashMap.insert c s m.conn_status })
        m'
    → HashMap.get m'.asset_states a ≡ expected (HashMap.insert c s m.conn_status) m.asset_conns a
Settled-get c s m m' a w settled =
    let statuses = HashMap.insert c s m.conn_status in
    settled.asset_states a ∙ elim (Bool-cases (HashSet.contains (assets_of m.conn_to_assets c) a)) [
      | inl affected ↦
          rw affected (some-compute_asset_state a statuses m.asset_conns (w.known c a affected))
      | inr untouched ↦ rw untouched (
          w.states a
          ∙ expected-ext m.conn_status statuses m.asset_conns a (λ c1 c2 h.
            let (on1, on2) = w.covers a c1 c2 h in
            (elsewhere c s m a c1 untouched on1, elsewhere c s m a c2 untouched on2)))
    ]

Settled-Consistent :
    (c : ℕ) (s : ConnStatus) (m m' : Monitor)
    → Consistent m
    → Settled
        (assets_of m.conn_to_assets c)
        (record m { conn_status = HashMap.insert c s m.conn_status })
        m'
    → Consistent (record m' {
      counters = update_aggregate_gauges m'.asset_states m'.conn_status m'.counters;
    })
unfolding update_aggregate_gauges
Settled-Consistent c s m m' w settled = record {
  states = λ a. rw (settled.asset_conns, settled.conn_status) (Settled-get c s m m' a w settled);
  covers = λ a c1 c2 h.
      rw settled.conn_to_assets
        (w.covers a c1 c2 (ap (λ conns. HashMap.get conns a) (sym settled.asset_conns) ∙ h));
  known = λ d a h. rw settled.asset_conns (
      w.known d a
        (ap (λ index. HashSet.contains (assets_of index d) a) (sym settled.conn_to_assets) ∙ h));
  down_gauge = refl;
  degraded_gauge = refl;
}

finish_startup-Consistent : (m : Monitor) → Consistent m → Consistent (finish_startup m)
unfolding finish_startup
finish_startup-Consistent m w =
    elim (Bool-cases (
      m.startup
      && not (is_empty m.conn_to_assets)
      && all_connected m.conn_to_assets m.conn_status)) [
        | inl done ↦
            rw (done, finish_startup)
              (record {
                states = w.states;
                covers = w.covers;
                known = w.known;
                down_gauge = w.down_gauge;
                degraded_gauge = w.degraded_gauge;
              })
        | inr waiting ↦ rw (waiting, finish_startup) w
      ]

Keeps-Settled_after :
    (assets : List String) (m n o : Monitor) → Keeps m n → Settled assets n o → Settled assets m o
Keeps-Settled_after assets m n o f g = record {
  asset_conns = g.asset_conns ∙ f.asset_conns;
  conn_to_assets = g.conn_to_assets ∙ f.conn_to_assets;
  conn_status = g.conn_status ∙ f.conn_status;
  asset_states =
      λ a. rw (sym f.asset_conns, sym f.conn_status, sym f.asset_states) (g.asset_states a);
}

-- A status is recorded, and the mapping stays.
pub record Records (c : ℕ) (s : ConnStatus) (m m' : Monitor) : Type 0 where
  pub asset_conns : m'.asset_conns ≡ m.asset_conns
  pub conn_status : m'.conn_status ≡ HashMap.insert c s m.conn_status

finish_startup-Records :
    (c : ℕ) (s : ConnStatus) (m m' : Monitor) → Records c s m m' → Records c s m (finish_startup m')
unfolding finish_startup
finish_startup-Records c s m m' r =
    elim (Bool-cases (
      m'.startup
      && not (is_empty m'.conn_to_assets)
      && all_connected m'.conn_to_assets m'.conn_status)) [
        | inl done ↦
            rw (done, finish_startup)
              (record { asset_conns = r.asset_conns; conn_status = r.conn_status })
        | inr waiting ↦ rw (waiting, finish_startup) r
      ]

pub on_status-Consistent :
    (c : ℕ) (s : ConnStatus) (now : ℕ) (m : Monitor)
    → Consistent m
    → (m' : Monitor) × (on_status c s now m ≡ ok m') × Consistent m' × Records c s m m'
unfolding on_status update_aggregate_gauges
on_status-Consistent c s now m w =
    let old = status_of m.conn_status c in
    let m1 = record m { conn_status = HashMap.insert c s m.conn_status } in
    elim (Bool-cases (same_status old s)) [
      | inl same ↦ (
        m1,
        rw (same, on_status) refl,
        same-Consistent c s m same w,
        record { asset_conns = refl; conn_status = refl },
      )
      | inr change ↦
          let m2 = conn_transition old s c now m1 in
          let kept = conn_transition-Keeps old s c now m1 in
          let (m3, ran, settled) =
            update_assets-Settled (assets_of m.conn_to_assets c) now m2 (λ a h.
              ap (λ conns. HashMap.contains_key conns a) kept.asset_conns ∙ w.known c a h) in
          let after = Keeps-Settled_after (assets_of m.conn_to_assets c) m1 m2 m3 kept settled in
          let m4 = record m3 {
            counters = update_aggregate_gauges m3.asset_states m3.conn_status m3.counters;
          } in
          (
            finish_startup m4,
            rw (change, on_status) (rw ran refl),
            finish_startup-Consistent m4 (Settled-Consistent c s m m3 w after),
            finish_startup-Records c s m m4
                (record { asset_conns = after.asset_conns; conn_status = after.conn_status }),
          )
    ]
