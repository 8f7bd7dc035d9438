-- ===== src/Pool/Steps.antt =====
-- The runs of `subscribe_markets` of ws/pool.rs that do not panic, taken apart into their passes.
use polymarket_orderbook_col.Base.{
  ok-eq, Result-cases, ℕ, ◌*◌, String, ◌≡◌, ◌⊎◌, List, [], length, is_empty, true, ok, Bool-cases,
  inl, inr,
}
use polymarket_orderbook_col.Events.{Market}
use polymarket_orderbook_col.Pool.{Pool, spawn_connections}
use polymarket_orderbook_col.Pool.Passes.{FirstPass, pass1, SecondPass, pass2}
use polymarket_orderbook_col.Pool.Subscribe.{
  collect, register, new_conn_count, place_overflow, finish, assign, subscribe_markets,
}

module _ (shuffle1 shuffle2 : List String → List String) where
  -- The states between the passes.
  pub record Assigned (xs : List String) (p p' : Pool) : Type 0 where
    pub first : FirstPass
    pub second : SecondPass
    pub placed : Pool × SecondPass
    pub run1 : pass1 p (shuffle1 xs) (record { pending = []; first_conn = [] }) ≡ ok first
    pub run2 :
        pass2 p first.first_conn
          (shuffle2 (shuffle1 xs))
          (record { pending = first.pending; asset_to_conns = p.asset_to_conns; overflow = [] })
        ≡ ok second
    pub run3 : place_overflow first.first_conn p second ≡ ok placed
    pub run4 : finish placed.0 placed.1 ≡ ok p'

  pub assign-steps :
      (xs : List String) (p p' : Pool) → assign shuffle1 shuffle2 xs p ≡ ok p' → Assigned xs p p'
  unfolding assign
  assign-steps xs p p' run =
      let none_yet : FirstPass = record { pending = []; first_conn = [] } in
      elim (Result-cases (pass1 p (shuffle1 xs) none_yet)) [
        | inr (bad, e1) ↦ cc (rw (e1, assign) at run)
        | inl (s1, e1) ↦
            let start2 : SecondPass = record {
              pending = s1.pending;
              asset_to_conns = p.asset_to_conns;
              overflow = [];
            } in
            let rest1 = rw (e1, assign) at run in
            elim (Result-cases (pass2 p s1.first_conn (shuffle2 (shuffle1 xs)) start2)) [
              | inr (bad, e2) ↦ cc (rw e2 at rest1)
              | inl (s2, e2) ↦
                  let rest2 = rw e2 at rest1 in
                  elim (Result-cases (place_overflow s1.first_conn p s2)) [
                    | inr (bad, e3) ↦ cc (rw e3 at rest2)
                    | inl (q, e3) ↦ record {
                      first = s1;
                      second = s2;
                      placed = q;
                      run1 = e1;
                      run2 = e2;
                      run3 = e3;
                      run4 = rw e3 at rest2;
                    }
                  ]
            ]
      ]

  -- Nothing is new, or connections are spawned and the new assets assigned.
  pub subscribe_markets-steps :
      (markets : List Market) (p p' : Pool)
      → subscribe_markets shuffle1 shuffle2 markets p ≡ ok p'
      → let found = collect p.markets markets [] [] in
        let p1 : Pool = record p { markets = register found.1 p.markets } in
        ((is_empty found.0 ≡ true) × (p ≡ p'))
        ⊎ ((n : ℕ) × Assigned found.0 (spawn_connections n p1) p')
  unfolding subscribe_markets
  subscribe_markets-steps markets p p' run =
      let found = collect p.markets markets [] [] in
      let p1 : Pool = record p { markets = register found.1 p.markets } in
      elim (Bool-cases (is_empty found.0)) [
        | inl nothing ↦ inl (nothing, ok-eq p p' (rw (nothing, subscribe_markets) at run))
        | inr some_new ↦
            let rest = rw (some_new, subscribe_markets) at run in
            elim (Result-cases (new_conn_count (length found.0 * 2) p1)) [
              | inr (bad, e) ↦ cc (rw e at rest)
              | inl (n, e) ↦
                  inr (n, assign-steps found.0 (spawn_connections n p1) p' (rw e at rest))
            ]
      ]
