-- ===== src/Pool/Subscribe.antt =====
-- `subscribe_markets` of ws/pool.rs. The two shuffles are parameters, functions on lists: `rand` is not
-- part of the repository. Rust leaves open in which order the pending map is walked.
use polymarket_orderbook_col.Base.{
  ℕ, zero, suc, ◌+◌, ◌-◌, ◌*◌, ◌/◌, String, List, [], ◌∷◌, ◌++◌, map, length, is_empty, sum, ltb,
  ◌==◌, Result, ok, err, ◌>>=◌, string_key, if◌then◌else◌,
}
use polymarket_orderbook_col.Base.HashMap
use polymarket_orderbook_col.Base.HashSet
use polymarket_orderbook_col.Events.{Market}
use polymarket_orderbook_col.Connection.{subscribe}
use polymarket_orderbook_col.Pool.{
  send_command, ConnHandle, Pool, Panic, divide_by_zero, index_out_of_range, Pending,
  spawn_connection, spawn_connections, update_monitor_mappings,
}
use polymarket_orderbook_col.Pool.Passes.{SecondPass, pass1, pass2, pass3}

-- The assets of the markets that are not yet known, and these markets. Only the markets of earlier
-- calls count as known.
unfoldable pub collect :
    List (String × Market) → List Market → List String → List Market → List String × List Market
collect known [] new_assets to_register = (new_assets, to_register)
collect known (m ∷ ms) new_assets to_register =
    let skip = HashMap.contains_key known m.hash in
    collect known ms (if skip then new_assets else new_assets ++ m.yes_asset ∷ m.no_asset ∷ [])
      (if skip then to_register else to_register ++ m ∷ [])

unfoldable pub register : List Market → List (String × Market) → List (String × Market)
register [] markets = markets
register (m ∷ ms) markets = register ms (HashMap.insert m.hash m markets)

unfoldable pub existing_free : Pool → ℕ
existing_free p = sum (map (λ c. p.max_assets_per_conn - length c.assets) p.connections)

-- How many connections the demand wants, and at least two in all.
unfoldable pub new_conn_count : ℕ → Pool → Result Panic ℕ
unfolding existing_free
new_conn_count total_demand p =
    let limit = p.max_assets_per_conn in
    let wanted : Result Panic ℕ =
      if ltb (existing_free p) total_demand
      then (if limit == 0
          then err divide_by_zero
          else ok ((total_demand - existing_free p + limit - 1) / limit))
      else ok 0 in
    wanted >>= λ n.
    let total_after = length p.connections + n in
    ok (if ltb total_after 2 then n + (2 - total_after) else n)

unfoldable pub modify {ℓ} : {A : Type ℓ} → (A → A) → ℕ → List A → List A
modify f i [] = []
modify f zero (x ∷ xs) = f x ∷ xs
modify f (suc i) (x ∷ xs) = x ∷ modify f i xs

-- A `Subscribe` of the assets to one connection.
abbrev pub deliver : List String → ConnHandle → ConnHandle
deliver assets h = record h {
  assets = HashSet.extend assets h.assets;
  mailbox = send_command (subscribe assets) h;
}

unfoldable pub dispatch : Pending → List ConnHandle → Result Panic (List ConnHandle)
unfolding modify
dispatch [] conns = ok conns
dispatch ((i, assets) ∷ rest) conns =
    let done = dispatch rest (modify (deliver assets) i conns) in
    if ltb i (length conns) then done else err index_out_of_range

-- The overflow pass with its spawn; without an overflow nothing happens.
unfoldable pub place_overflow :
    List (String × ℕ) → Pool → SecondPass → Result Panic (Pool × SecondPass)
unfolding pass3 spawn_connection
place_overflow first_conn p s =
    if is_empty s.overflow
    then ok (p, s)
    else (let p' = spawn_connection p in
        pass3 (length p'.connections - 1) first_conn s.overflow s >>= λ s'. ok (p', s'))

unfoldable pub finish : Pool → SecondPass → Result Panic Pool
unfolding dispatch update_monitor_mappings
finish p s = dispatch s.pending p.connections >>= λ conns.
    ok (
      update_monitor_mappings (record p { connections = conns; asset_to_conns = s.asset_to_conns }))

module _ (shuffle1 shuffle2 : List String → List String) where
  -- The passes for the new assets, once the connections are there.
  unfoldable pub assign : List String → Pool → Result Panic Pool
  unfolding pass1 pass2 place_overflow finish
  assign new_assets p = do
    let order1 = shuffle1 new_assets
    first ← pass1 p order1 (record { pending = []; first_conn = [] })
    second ←
        pass2 p first.first_conn (shuffle2 order1)
          (record { pending = first.pending; asset_to_conns = p.asset_to_conns; overflow = [] })
    placed ← place_overflow first.first_conn p second
    finish placed.0 placed.1

  unfoldable pub subscribe_markets : List Market → Pool → Result Panic Pool
  unfolding collect register new_conn_count assign
  subscribe_markets markets p =
      let found = collect p.markets markets [] [] in
      if is_empty found.0
      then ok p
      else (let p' = record p { markets = register found.1 p.markets } in
          new_conn_count (length found.0 * 2) p' >>= λ n. assign found.0 (spawn_connections n p'))
