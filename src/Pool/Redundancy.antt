-- ===== src/Pool/Redundancy.antt =====
-- `subscribe_markets` of ws/pool.rs keeps two different connections for every asset.
use polymarket_orderbook_col.Base.{
  ok-eq, Result-cases, ℕ, zero, suc, ◌-◌, ◌<◌, ◌≡◌, sym, ap, ◌∙◌, subst, String, List, [], ◌∷◌,
  arith, length, length-append, is_empty, ok, nat_key, string_key, ltb, Bool-cases, inl, inr,
}
use polymarket_orderbook_col.Base.HashMap
use polymarket_orderbook_col.Base.HashMap.{get-insert}
use polymarket_orderbook_col.Events.{Market}
use polymarket_orderbook_col.Pool.{
  ConnHandle, Pool, Pending, spawn_connection, spawn_connections, update_monitor_mappings,
}
use polymarket_orderbook_col.Pool.Passes.{FirstPass, SecondPass, pass3}
use polymarket_orderbook_col.Pool.Subscribe.{
  collect, register, modify, deliver, dispatch, place_overflow, finish, subscribe_markets,
}
use polymarket_orderbook_col.Pool.Gc.{length-modify}
use polymarket_orderbook_col.Pool.Spawning.{Within}
use polymarket_orderbook_col.Pool.Total.{IsShuffle, subscribe_markets_lem}
use polymarket_orderbook_col.Pool.Steps.{Assigned, subscribe_markets-steps}
use polymarket_orderbook_col.Pool.Placed.{
  PlacedIn, PlacedIn-more, FirstIn, pass1-FirstIn, pass2-PlacedIn, pass3-PlacedIn, IsPlaced,
}

length-spawn_connection :
    (p : Pool) → length (spawn_connection p).connections ≡ suc (length p.connections)
unfolding spawn_connection
length-spawn_connection p = length-append p.connections _ ∙ omega arith

place_overflow-PlacedIn :
    (first_conn : List (String × ℕ)) (p : Pool) (s : SecondPass) (q : Pool × SecondPass)
    → place_overflow first_conn p s ≡ ok q
    → FirstIn (length p.connections) first_conn
    → PlacedIn (length p.connections) s.asset_to_conns
    → PlacedIn (length q.0.connections) q.1.asset_to_conns
unfolding place_overflow
place_overflow-PlacedIn first_conn p s q run f w = elim (Bool-cases (is_empty s.overflow)) [
  | inl e ↦
      subst (λ t. PlacedIn (length t.0.connections) t.1.asset_to_conns)
        (ok-eq (p, s) q (rw (e, place_overflow) at run)) w
  | inr e ↦
      let n = length p.connections in
      let q1 = spawn_connection p in
      let grown : length q1.connections ≡ suc n = length-spawn_connection p in
      let idx : length q1.connections - 1 ≡ n = omega (arith, grown) in
      elim (Result-cases (pass3 (length q1.connections - 1) first_conn s.overflow s)) [
        | inl (s1, ran) ↦
            let placed =
              pass3-PlacedIn n first_conn s.overflow s s1
                (subst (λ k. pass3 k first_conn s.overflow s ≡ ok s1) idx ran) f
                (PlacedIn-more n (suc n) s.asset_to_conns (omega arith) w) in
            subst (λ t. PlacedIn (length t.0.connections) t.1.asset_to_conns)
              (ok-eq (q1, s1) q (rw ran at (rw (e, place_overflow) at run)))
              (subst (λ k. PlacedIn k s1.asset_to_conns) (sym grown) placed)
        | inr (bad, ran) ↦ cc (rw ran at (rw (e, place_overflow) at run))
      ]
]

length-dispatch :
    (pending : Pending) (conns conns' : List ConnHandle)
    → dispatch pending conns ≡ ok conns'
    → length conns' ≡ length conns
unfolding dispatch
length-dispatch [] conns conns' run = ap length (sym (ok-eq conns conns' run))
length-dispatch ((i, assets) ∷ rest) conns conns' run = elim (Bool-cases (ltb i (length conns))) [
  | inl e ↦
      length-dispatch rest (modify (deliver assets) i conns) conns' (rw (e, dispatch) at run)
      ∙ length-modify (deliver assets) i conns
  | inr e ↦ cc (rw (e, dispatch) at run)
]

finish-IsPlaced :
    (p : Pool) (s : SecondPass) (p' : Pool)
    → finish p s ≡ ok p'
    → PlacedIn (length p.connections) s.asset_to_conns
    → IsPlaced p'
unfolding finish update_monitor_mappings
finish-IsPlaced p s p' run w = elim (Result-cases (dispatch s.pending p.connections)) [
  | inl (conns, e) ↦
      let e1 =
        ok-eq
          (update_monitor_mappings
            (record p { connections = conns; asset_to_conns = s.asset_to_conns }))
          p' (rw (e, finish) at run) in
      subst IsPlaced e1 (
        subst (λ n. PlacedIn n s.asset_to_conns)
          (sym (length-dispatch s.pending p.connections conns e)) w)
  | inr (bad, e) ↦ cc (rw (e, finish) at run)
]

spawn_connections-IsPlaced : (n : ℕ) (p : Pool) → IsPlaced p → IsPlaced (spawn_connections n p)
unfolding spawn_connections spawn_connection
spawn_connections-IsPlaced zero p w = w
spawn_connections-IsPlaced (suc n) p w = spawn_connections-IsPlaced n (spawn_connection p) (
    PlacedIn-more (length p.connections) (length (spawn_connection p).connections) p.asset_to_conns
      (omega (arith, length-spawn_connection p)) w)

module _ (shuffle1 shuffle2 : List String → List String) where
  Assigned-IsPlaced :
      (xs : List String) (p p' : Pool)
      → Assigned shuffle1 shuffle2 xs p p'
      → IsPlaced p
      → IsPlaced p'
  Assigned-IsPlaced xs p p' r w =
      let none_yet : FirstPass = record { pending = []; first_conn = [] } in
      let start2 : SecondPass = record {
        pending = r.first.pending;
        asset_to_conns = p.asset_to_conns;
        overflow = [];
      } in
      let fin =
        pass1-FirstIn p (shuffle1 xs) none_yet r.first r.run1 (λ a c h. unfold HashMap.get in cc) in
      finish-IsPlaced r.placed.0 r.placed.1 p' r.run4 (
        place_overflow-PlacedIn r.first.first_conn p r.second r.placed r.run3 fin (
          pass2-PlacedIn p r.first.first_conn (shuffle2 (shuffle1 xs)) start2 r.second r.run2 fin
            w))

  pub subscribe_markets-IsPlaced :
      (markets : List Market) (p p' : Pool)
      → subscribe_markets shuffle1 shuffle2 markets p ≡ ok p'
      → IsPlaced p
      → IsPlaced p'
  subscribe_markets-IsPlaced markets p p' run w =
      let found = collect p.markets markets [] [] in
      let p1 = record p { markets = register found.1 p.markets } in
      elim (subscribe_markets-steps shuffle1 shuffle2 markets p p' run) [
        | inl (nothing, same) ↦ subst IsPlaced same w
        | inr (n, r) ↦
            Assigned-IsPlaced found.0 (spawn_connections n p1) p' r
              (spawn_connections-IsPlaced n p1 w)
      ]

module _ (shuffle1 shuffle2 : List String → List String) (fair1 : IsShuffle shuffle1)
    (fair2 : IsShuffle shuffle2) where
  -- Redundancy: `subscribe_markets` returns a pool in which every asset of the reverse index has two
  -- different connections, both of the pool, if that was so before, `max_assets_per_conn` is not 0 and
  -- no connection had more assets.
  two_connections :
      (markets : List Market) (p : Pool)
      → 0 < p.max_assets_per_conn
      → Within p.max_assets_per_conn p.connections
      → IsPlaced p
      → (p' : Pool) × (subscribe_markets shuffle1 shuffle2 markets p ≡ ok p') × IsPlaced p'
  two_connections markets p pos w placed =
      let (p', run, _, _) = subscribe_markets_lem shuffle1 shuffle2 fair1 fair2 markets p pos w in
      (p', run, subscribe_markets-IsPlaced shuffle1 shuffle2 markets p p' run placed)
