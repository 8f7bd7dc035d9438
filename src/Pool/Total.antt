-- ===== src/Pool/Total.antt =====
-- `subscribe_markets` of ws/pool.rs as a whole: it returns, and no connection holds more than
-- `max_assets_per_conn` assets.
use polymarket_orderbook_col.Base.{
  ◌*◌, ◌≤◌, ◌<◌, String, ◌≡◌, refl, sym, subst, ◌∙◌, List, [], true, arith, length, ok, is_empty,
  Bool-cases, inl, inr, string_key, nat_key,
}
use polymarket_orderbook_col.Base.HashMap
use polymarket_orderbook_col.Base.HashSet
use polymarket_orderbook_col.Base.HashSet.{All-contains}
use polymarket_orderbook_col.Events.{Market}
use polymarket_orderbook_col.Pool.{Pool, spawn_connections}
use polymarket_orderbook_col.Pool.Passes.{FirstPass, SecondPass, pass1}
use polymarket_orderbook_col.Pool.Subscribe.{collect, register, assign, subscribe_markets}
use polymarket_orderbook_col.Pool.Capacity.{
  IsReady, room, Keyed, pass1_lem, pass1-keys, IsPlaced2, pass2_lem, pass2-overflow,
}
use polymarket_orderbook_col.Pool.Spawning.{
  Within, Fits-Within, spawn_connections-Spawned, new_conn_count_lem,
}
use polymarket_orderbook_col.Pool.Overflow.{finish_lem, place_overflow_lem}

-- What the code relies on of a shuffle: the items stay, and none is made twice.
pub record IsShuffle (shuffle : List String → List String) : Type 0 where
  pub same_length : (xs : List String) → length (shuffle xs) ≡ length xs
  pub same_items :
      (xs : List String) (a : String) → HashSet.contains (shuffle xs) a ≡ HashSet.contains xs a

module _ (shuffle1 shuffle2 : List String → List String) (fair1 : IsShuffle shuffle1)
    (fair2 : IsShuffle shuffle2) where
  shuffled-Keyed :
      (p : Pool) (xs : List String) (s s' : FirstPass)
      → pass1 p (shuffle1 xs) s ≡ ok s'
      → Keyed s'.first_conn (shuffle2 (shuffle1 xs))
  shuffled-Keyed p xs s s' run =
      All-contains (λ a. HashMap.contains_key s'.first_conn a ≡ true) (shuffle2 (shuffle1 xs))
        λ a h.
          pass1-keys p (shuffle1 xs) s s' a run
            (rw (sym (fair2.same_items (shuffle1 xs) a) ∙ h) refl)

  -- The passes return, and leave every connection within the limit, if there is room for every asset
  -- twice.
  assign_lem :
      (p : Pool) (new_assets : List String)
      → Within p.max_assets_per_conn p.connections
      → length new_assets * 2 ≤ room p []
      → (p' : Pool) × (assign shuffle1 shuffle2 new_assets p ≡ ok p')
        × Within p.max_assets_per_conn p'.connections
        × (p'.max_assets_per_conn ≡ p.max_assets_per_conn)
  unfolding assign
  assign_lem p xs w r =
      let start : FirstPass = record { pending = []; first_conn = [] } in
      let ready0 : IsReady p [] = record {
        fits = Fits-Within p.max_assets_per_conn 0 p.connections w;
        unique = tt;
        in_range = tt;
      } in
      let len1 = fair1.same_length xs in
      let len2 = fair2.same_length (shuffle1 xs) in
      let (first, run1, ready1, left1) =
        pass1_lem p (shuffle1 xs) start ready0 (omega (arith, r, len1)) in
      let start2 : SecondPass = record {
        pending = first.pending;
        asset_to_conns = p.asset_to_conns;
        overflow = [];
      } in
      let keyed = shuffled-Keyed p xs start first run1 in
      let placed0 : IsPlaced2 p first.first_conn start2 = record { ready = ready1; keyed = tt } in
      let (second, run2, placed, _) =
        pass2_lem p first.first_conn (shuffle2 (shuffle1 xs)) start2 placed0 keyed in
      let few =
        pass2-overflow p first.first_conn (shuffle2 (shuffle1 xs)) start2 second run2 placed0 keyed
          (omega (arith, r, len1, len2, left1)) in
      let (q, run3, ready3, limit3) =
        place_overflow_lem p first.first_conn second placed (omega (arith, few)) in
      let (p', run4, within, limit4) = finish_lem q.0 q.1 p.max_assets_per_conn limit3 ready3 in
      (p', rw run1 (rw run2 (rw run3 run4)), within, limit4)

  -- `subscribe_markets` returns, whatever the markets and the shuffles, and leaves no connection with
  -- more assets than `max_assets_per_conn`, if that is not 0 and none had more before.
  pub subscribe_markets_lem :
      (markets : List Market) (p : Pool)
      → 0 < p.max_assets_per_conn
      → Within p.max_assets_per_conn p.connections
      → (p' : Pool) × (subscribe_markets shuffle1 shuffle2 markets p ≡ ok p')
        × Within p.max_assets_per_conn p'.connections
        × (p'.max_assets_per_conn ≡ p.max_assets_per_conn)
  unfolding subscribe_markets
  subscribe_markets_lem markets p pos w =
      let found = collect p.markets markets [] [] in
      let p1 = record p { markets = register found.1 p.markets } in
      elim (Bool-cases (is_empty found.0)) [
        | inl nothing ↦ (p, rw (nothing, subscribe_markets) refl, w, refl)
        | inr some_new ↦
            let (n, count, enough, _) = new_conn_count_lem (length found.0 * 2) p1 pos in
            let spawned = spawn_connections-Spawned n p1 w in
            let (p', run, within, limit) =
              assign_lem (spawn_connections n p1) found.0 spawned.within
                (omega (arith, enough, spawned.more_room)) in
            (
              p',
              rw (some_new, subscribe_markets) (rw (count, subscribe_markets) run),
              subst (λ l. Within l p'.connections) spawned.same_limit within,
              limit ∙ spawned.same_limit,
            )
      ]
