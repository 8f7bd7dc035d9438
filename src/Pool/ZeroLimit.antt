-- ===== src/Pool/ZeroLimit.antt =====
-- `subscribe_markets` of ws/pool.rs where a connection may hold no asset.
use polymarket_orderbook_col.Base.{
  ℕ, ◌-◌, ◌*◌, ◌<◌, String, ◌≡◌, refl, ap, ◌∙◌, List, [], ◌∷◌, map, true, false, arith, length,
  is_empty, sum, ltb, ◌==◌, err,
}
use polymarket_orderbook_col.Events.{Market}
use polymarket_orderbook_col.Pool.{ConnHandle, Pool, divide_by_zero}
use polymarket_orderbook_col.Pool.Subscribe.{
  collect, register, existing_free, new_conn_count, subscribe_markets,
}
use polymarket_orderbook_col.Pool.Registry.{unknown, assets_of, collect-new}

no_room :
    (limit : ℕ) (conns : List ConnHandle)
    → limit ≡ 0
    → sum (map (λ c. limit - length c.assets) conns) ≡ 0
no_room limit [] e = refl
no_room limit (c ∷ cs) e = omega (arith, e, no_room limit cs e)

new_conn_count-zero :
    (demand : ℕ) (p : Pool)
    → p.max_assets_per_conn ≡ 0
    → 0 < demand
    → new_conn_count demand p ≡ err divide_by_zero
unfolding new_conn_count existing_free
new_conn_count-zero demand p zero_limit some_demand =
    let free = no_room p.max_assets_per_conn p.connections zero_limit in
    let wants : ltb (existing_free p) demand ≡ true = ground (arith, free, some_demand) in
    let is_zero : (p.max_assets_per_conn == 0) ≡ true = ground (arith, zero_limit) in
    rw (wants, new_conn_count) (rw (is_zero, new_conn_count) refl)

positive : (xs : List String) → is_empty xs ≡ false → 0 < length xs * 2
positive [] h = cc
positive (x ∷ xs) h = omega arith

-- With `max_assets_per_conn` = 0, every batch with a market that is not yet known makes `subscribe_markets`
-- divide by zero, which panics.
pub subscribe_markets-zero :
    (shuffle1 shuffle2 : List String → List String) (ms : List Market) (p : Pool)
    → p.max_assets_per_conn ≡ 0
    → is_empty (assets_of (unknown p.markets ms)) ≡ false
    → subscribe_markets shuffle1 shuffle2 ms p ≡ err divide_by_zero
unfolding subscribe_markets
subscribe_markets-zero shuffle1 shuffle2 ms p zero_limit some_new =
    let found = collect p.markets ms [] [] in
    let p1 : Pool = record p { markets = register found.1 p.markets } in
    let new : is_empty found.0 ≡ false = ap is_empty (collect-new p.markets ms [] []) ∙ some_new in
    let demand : 0 < length found.0 * 2 = positive found.0 new in
    rw (new, subscribe_markets)
      (rw (new_conn_count-zero (length found.0 * 2) p1 zero_limit demand) refl)
