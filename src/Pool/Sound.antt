-- ===== src/Pool/Sound.antt =====
-- ws/pool.rs: what makes a pool sound, and `subscribe_markets` keeps it.
use polymarket_orderbook_col.Base.{
  ok-eq, Result-cases, ℕ, zero, suc, ◌<◌, String, ◌≡◌, sym, subst, List, [], ◌∷◌, true, ◌||◌, ◌&&◌,
  arith, length, ok, ltb, ◌==◌, nat_key, string_key, Bool-cases, inl, inr,
}
use polymarket_orderbook_col.Base.HashMap
use polymarket_orderbook_col.Base.HashSet
use polymarket_orderbook_col.Base.HashSet.{contains-extend}
use polymarket_orderbook_col.Events.{Market}
use polymarket_orderbook_col.Pool.{
  ConnHandle, Pool, Pending, pending_of, spawn_connection, spawn_connections,
  update_monitor_mappings,
}
use polymarket_orderbook_col.Pool.Passes.{FirstPass, SecondPass}
use polymarket_orderbook_col.Pool.Subscribe.{
  collect, register, modify, deliver, dispatch, finish, subscribe_markets,
}
use polymarket_orderbook_col.Pool.Spawning.{Within}
use polymarket_orderbook_col.Pool.Total.{IsShuffle, subscribe_markets_lem}
use polymarket_orderbook_col.Pool.Steps.{Assigned, subscribe_markets-steps}
use polymarket_orderbook_col.Pool.Placed.{IsPlaced}
use polymarket_orderbook_col.Pool.Redundancy.{subscribe_markets-IsPlaced}
use polymarket_orderbook_col.Pool.Held.{
  assets_at, has, Holds, pass1-FirstHolds, IsHeld, pass2-IsHeld, place_overflow-Holds, Holds-spawn,
}

contains-deliver :
    (xs : List String) (i : ℕ) (conns : List ConnHandle) (c : ℕ) (a : String)
    → HashSet.contains (assets_at (modify (deliver xs) i conns) c) a ≡ (
        ((i == c) && (ltb c (length conns) && HashSet.contains xs a))
        || HashSet.contains (assets_at conns c) a)
unfolding modify assets_at
contains-deliver xs i [] c a = ground arith
contains-deliver xs zero (h ∷ hs) zero a = ground (arith, contains-extend xs h.assets a)
contains-deliver xs zero (h ∷ hs) (suc c) a = ground arith
contains-deliver xs (suc i) (h ∷ hs) zero a = ground arith
contains-deliver xs (suc i) (h ∷ hs) (suc c) a = ground (arith, contains-deliver xs i hs c a)

Holds-more :
    (conns : List ConnHandle) (pending : Pending) (index : List (String × (ℕ × ℕ)))
    → Holds conns [] index
    → Holds conns pending index
unfolding pending_of HashMap.get HashSet.contains
Holds-more conns pending index h a c1 c2 e =
    let (h1, h2) = h a c1 c2 e in (ground (arith, h1), ground (arith, h2))

has-dispatch :
    (pending : Pending) (conns conns' : List ConnHandle) (c : ℕ) (a : String)
    → dispatch pending conns ≡ ok conns'
    → has conns pending c a ≡ true
    → has conns' [] c a ≡ true
unfolding dispatch pending_of HashMap.get
has-dispatch [] conns conns' c a run h = subst (λ k. has k [] c a ≡ true) (ok-eq conns conns' run) h
has-dispatch ((i, xs) ∷ rest) conns conns' c a run h = elim (Bool-cases (ltb i (length conns))) [
  | inl e ↦
      has-dispatch rest (modify (deliver xs) i conns) conns' c a (rw (e, dispatch) at run)
        (ground (arith, contains-deliver xs i conns c a, h, e))
  | inr e ↦ cc (rw (e, dispatch) at run)
]

finish-Holds :
    (p : Pool) (s : SecondPass) (p' : Pool)
    → finish p s ≡ ok p'
    → Holds p.connections s.pending s.asset_to_conns
    → Holds p'.connections [] p'.asset_to_conns
unfolding finish update_monitor_mappings
finish-Holds p s p' run h = elim (Result-cases (dispatch s.pending p.connections)) [
  | inl (conns, e) ↦
      let e1 =
        ok-eq
          (update_monitor_mappings
            (record p { connections = conns; asset_to_conns = s.asset_to_conns }))
          p' (rw (e, finish) at run) in
      subst (λ (q : Pool). Holds q.connections [] q.asset_to_conns) e1
        (λ a c1 c2 found.
          let (h1, h2) = h a c1 c2 found in
          (
            has-dispatch s.pending p.connections conns c1 a e h1,
            has-dispatch s.pending p.connections conns c2 a e h2,
          ))
  | inr (bad, e) ↦ cc (rw (e, finish) at run)
]

module _ (shuffle1 shuffle2 : List String → List String) where
  Assigned-Holds :
      (xs : List String) (p p' : Pool)
      → Assigned shuffle1 shuffle2 xs p p'
      → Holds p.connections [] p.asset_to_conns
      → Holds p'.connections [] p'.asset_to_conns
  Assigned-Holds xs p p' r h =
      let none_yet : FirstPass = record { pending = []; first_conn = [] } in
      let start2 : SecondPass = record {
        pending = r.first.pending;
        asset_to_conns = p.asset_to_conns;
        overflow = [];
      } in
      let held : IsHeld p.connections r.first.first_conn start2 = record {
        first =
            pass1-FirstHolds p (shuffle1 xs) none_yet r.first r.run1
              (λ a c e. unfold HashMap.get in cc);
        holds = Holds-more p.connections r.first.pending p.asset_to_conns h;
      } in
      finish-Holds r.placed.0 r.placed.1 p' r.run4 (
        place_overflow-Holds r.first.first_conn p r.second r.placed r.run3
          (pass2-IsHeld p r.first.first_conn (shuffle2 (shuffle1 xs)) start2 r.second r.run2 held))

spawn_connections-Holds :
    (n : ℕ) (p : Pool)
    → Holds p.connections [] p.asset_to_conns
    → Holds (spawn_connections n p).connections [] (spawn_connections n p).asset_to_conns
unfolding spawn_connections spawn_connection
spawn_connections-Holds zero p h = h
spawn_connections-Holds (suc n) p h =
    spawn_connections-Holds n (spawn_connection p) (Holds-spawn p [] p.asset_to_conns h)

-- A sound pool: no connection has more assets than it may, every asset of the reverse index has two
-- different connections of the pool, and both have it.
pub record IsSound (p : Pool) : Type 0 where
  pub positive : 0 < p.max_assets_per_conn
  pub within : Within p.max_assets_per_conn p.connections
  pub placed : IsPlaced p
  pub holds : Holds p.connections [] p.asset_to_conns

module _ (shuffle1 shuffle2 : List String → List String) where
  subscribe_markets-Holds :
      (markets : List Market) (p p' : Pool)
      → subscribe_markets shuffle1 shuffle2 markets p ≡ ok p'
      → Holds p.connections [] p.asset_to_conns
      → Holds p'.connections [] p'.asset_to_conns
  subscribe_markets-Holds markets p p' run h =
      let found = collect p.markets markets [] [] in
      let p1 = record p { markets = register found.1 p.markets } in
      elim (subscribe_markets-steps shuffle1 shuffle2 markets p p' run) [
        | inl (nothing, same) ↦ subst (λ (q : Pool). Holds q.connections [] q.asset_to_conns) same h
        | inr (n, r) ↦
            Assigned-Holds shuffle1 shuffle2 found.0 (spawn_connections n p1) p' r
              (spawn_connections-Holds n p1 h)
      ]

  pub subscribe_markets-IsSound :
      IsShuffle shuffle1
      → IsShuffle shuffle2
      → (markets : List Market) (p : Pool) → IsSound p
      → (p' : Pool) × (subscribe_markets shuffle1 shuffle2 markets p ≡ ok p') × IsSound p'
  subscribe_markets-IsSound fair1 fair2 markets p s =
      let (p', run, within, limit) =
        subscribe_markets_lem shuffle1 shuffle2 fair1 fair2 markets p s.positive s.within in
      (
        p',
        run,
        record {
          positive = subst (λ n. 0 < n) (sym limit) s.positive;
          within = subst (λ n. Within n p'.connections) (sym limit) within;
          placed = subscribe_markets-IsPlaced shuffle1 shuffle2 markets p p' run s.placed;
          holds = subscribe_markets-Holds markets p p' run s.holds;
        },
      )
