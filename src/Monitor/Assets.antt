-- ===== src/Monitor/Assets.antt =====
-- What the asset loop of `run_health_monitor` in ws/pool.rs leaves alone, and which states it sets.
use polymarket_orderbook_col.Base.{
  ℕ, String, ◌≡◌, refl, ap, ◌∙◌, none, some, List, [], ◌∷◌, true, arith, ok, nat_key, string_key,
  ◌=?◌, same_refl, if◌then◌else◌, Bool-cases, Option-cases, inl, inr,
}
use polymarket_orderbook_col.Base.HashMap
use polymarket_orderbook_col.Base.HashMap.{get-insert, contains_key→get}
use polymarket_orderbook_col.Base.HashSet
use polymarket_orderbook_col.Connection.{ConnStatus, connected, disconnected}
use polymarket_orderbook_col.Monitor.{
  AssetState, healthy, degraded, down, same_state, Monitor, compute_asset_state,
}
use polymarket_orderbook_col.Monitor.Turn.{
  conn_transition, leave_state, enter_state, recorded_state, update_asset, update_assets,
}

-- The fields that book-keeping of times and counters does not touch.
pub record Keeps (m m' : Monitor) : Type 0 where
  pub asset_conns : m'.asset_conns ≡ m.asset_conns
  pub conn_to_assets : m'.conn_to_assets ≡ m.conn_to_assets
  pub conn_status : m'.conn_status ≡ m.conn_status
  pub asset_states : m'.asset_states ≡ m.asset_states

abbrev all_kept : (m : Monitor) → Keeps m m
all_kept m = record {
  asset_conns = refl;
  conn_to_assets = refl;
  conn_status = refl;
  asset_states = refl;
}

leave_state-Keeps :
    (s : AssetState) (a : String) (now : ℕ) (m : Monitor) → Keeps m (leave_state s a now m)
unfolding leave_state
leave_state-Keeps healthy a now m = all_kept m
leave_state-Keeps down a now m = elim (Option-cases (HashMap.get m.asset_transition_time a)) [
  | inl e ↦ rw (e, leave_state) (all_kept m)
  | inr (since, e) ↦
      rw (e, leave_state)
        (record {
          asset_conns = refl;
          conn_to_assets = refl;
          conn_status = refl;
          asset_states = refl;
        })
]
leave_state-Keeps degraded a now m = elim (Option-cases (HashMap.get m.asset_transition_time a)) [
  | inl e ↦ rw (e, leave_state) (all_kept m)
  | inr (since, e) ↦
      rw (e, leave_state)
        (record {
          asset_conns = refl;
          conn_to_assets = refl;
          conn_status = refl;
          asset_states = refl;
        })
]

enter_state-Keeps :
    (s : AssetState) (a : String) (now : ℕ) (m : Monitor) → Keeps m (enter_state s a now m)
unfolding enter_state
enter_state-Keeps healthy a now m = all_kept m
enter_state-Keeps down a now m = record {
  asset_conns = refl;
  conn_to_assets = refl;
  conn_status = refl;
  asset_states = refl;
}
enter_state-Keeps degraded a now m = record {
  asset_conns = refl;
  conn_to_assets = refl;
  conn_status = refl;
  asset_states = refl;
}

pub Keeps-trans : (m n o : Monitor) → Keeps m n → Keeps n o → Keeps m o
Keeps-trans m n o f g = record {
  asset_conns = g.asset_conns ∙ f.asset_conns;
  conn_to_assets = g.conn_to_assets ∙ f.conn_to_assets;
  conn_status = g.conn_status ∙ f.conn_status;
  asset_states = g.asset_states ∙ f.asset_states;
}

pub conn_transition-Keeps :
    (old s : ConnStatus) (c now : ℕ) (m : Monitor) → Keeps m (conn_transition old s c now m)
unfolding conn_transition
conn_transition-Keeps connected connected c now m = all_kept m
conn_transition-Keeps disconnected disconnected c now m = all_kept m
conn_transition-Keeps connected disconnected c now m = record {
  asset_conns = refl;
  conn_to_assets = refl;
  conn_status = refl;
  asset_states = refl;
}
conn_transition-Keeps disconnected connected c now m =
    elim (Option-cases (HashMap.get m.conn_down_since c)) [
      | inl e ↦
          rw (e, conn_transition)
            (record {
              asset_conns = refl;
              conn_to_assets = refl;
              conn_status = refl;
              asset_states = refl;
            })
      | inr (none, e) ↦
          rw (e, conn_transition)
            (record {
              asset_conns = refl;
              conn_to_assets = refl;
              conn_status = refl;
              asset_states = refl;
            })
      | inr (some since, e) ↦
          rw (e, conn_transition)
            (record {
              asset_conns = refl;
              conn_to_assets = refl;
              conn_status = refl;
              asset_states = refl;
            })
    ]

-- The assets of a list have the state that the statuses give them; the others keep theirs.
pub record Settled (assets : List String) (m m' : Monitor) : Type 0 where
  pub asset_conns : m'.asset_conns ≡ m.asset_conns
  pub conn_to_assets : m'.conn_to_assets ≡ m.conn_to_assets
  pub conn_status : m'.conn_status ≡ m.conn_status
  pub asset_states :
      (a : String)
      → HashMap.get m'.asset_states a ≡ (
          if HashSet.contains assets a
          then some (compute_asset_state a m.conn_status m.asset_conns)
          else HashMap.get m.asset_states a)

insert-one :
    (b : String) (m : Monitor) (a : String)
    → HashMap.get
        (HashMap.insert b (compute_asset_state b m.conn_status m.asset_conns) m.asset_states)
        a
      ≡ (if HashSet.contains (b ∷ []) a
          then some (compute_asset_state a m.conn_status m.asset_conns)
          else HashMap.get m.asset_states a)
unfolding HashSet.contains
insert-one b m a = rw get-insert (elim (Bool-cases (b =? a)) [
  | inl hit ↦ rw hit (
      ap (λ c. some (compute_asset_state c m.conn_status m.asset_conns))
        ((string_key.same_iff b a).0 hit))
  | inr miss ↦ rw miss refl
])

Keeps-Settled :
    (b : String) (m m' : Monitor)
    → Keeps
        (record m {
          asset_states =
              HashMap.insert b (compute_asset_state b m.conn_status m.asset_conns) m.asset_states;
        })
        m'
    → Settled (b ∷ []) m m'
Keeps-Settled b m m' k = record {
  asset_conns = k.asset_conns;
  conn_to_assets = k.conn_to_assets;
  conn_status = k.conn_status;
  asset_states = λ a. ap (λ states. HashMap.get states a) k.asset_states ∙ insert-one b m a;
}

update_asset-Settled :
    (b : String) (now : ℕ) (m : Monitor)
    → HashMap.contains_key m.asset_conns b ≡ true
    → (m' : Monitor) × (update_asset b now m ≡ ok m') × Settled (b ∷ []) m m'
unfolding update_asset
update_asset-Settled b now m known =
    let new_state = compute_asset_state b m.conn_status m.asset_conns in
    let old_state = recorded_state m.asset_states b in
    let m1 = record m { asset_states = HashMap.insert b new_state m.asset_states } in
    let m2 = leave_state old_state b now m1 in
    let m3 = enter_state new_state b now m2 in
    elim (Bool-cases (same_state old_state new_state)) [
      | inl same ↦ (m1, rw (same, update_asset) refl, Keeps-Settled b m m1 (all_kept m1))
      | inr other ↦
          let (conns, found) = contains_key→get m.asset_conns b known in
          (
            m3,
            rw (other, update_asset) (rw found refl),
            Keeps-Settled b m m3 (
                Keeps-trans m1 m2 m3 (leave_state-Keeps old_state b now m1)
                  (enter_state-Keeps new_state b now m2)),
          )
    ]

Settled-trans :
    (b : String) (rest : List String) (m n o : Monitor)
    → Settled (b ∷ []) m n
    → Settled rest n o
    → Settled (b ∷ rest) m o
unfolding HashSet.contains
Settled-trans b rest m n o f g = record {
  asset_conns = g.asset_conns ∙ f.asset_conns;
  conn_to_assets = g.conn_to_assets ∙ f.conn_to_assets;
  conn_status = g.conn_status ∙ f.conn_status;
  asset_states =
      λ a. ground (arith, f.asset_states a, g.asset_states a, f.asset_conns, f.conn_status);
}

pub update_assets-Settled :
    (assets : List String) (now : ℕ) (m : Monitor)
    → ((a : String)
        → HashSet.contains assets a ≡ true
        → HashMap.contains_key m.asset_conns a ≡ true)
    → (m' : Monitor) × (update_assets assets now m ≡ ok m') × Settled assets m m'
unfolding update_assets HashSet.contains
update_assets-Settled [] now m known = (
  m,
  refl,
  record {
    asset_conns = refl;
    conn_to_assets = refl;
    conn_status = refl;
    asset_states = λ a. refl;
  },
)
update_assets-Settled (b ∷ rest) now m known =
    let (n, ran, first) = update_asset-Settled b now m (known b (rw (same_refl b) refl)) in
    let (o, ran_rest, others) = update_assets-Settled rest now n (λ a h.
      ap (λ conns. HashMap.contains_key conns a) first.asset_conns ∙ known a (ground (arith, h))) in
    (o, rw (ran, update_assets) ran_rest, Settled-trans b rest m n o first others)
