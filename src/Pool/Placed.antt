-- ===== src/Pool/Placed.antt =====
-- The reverse index of ws/pool.rs: every asset has two different connections of the pool.
use polymarket_orderbook_col.Base.{
  ok-eq, ℕ, suc, ◌≤◌, ◌<◌, ◌≡◌, ◌≢◌, sym, ◌∙◌, subst, String, none, some, List, [], ◌∷◌, arith,
  length, ok, ◌=?◌, nat_key, string_key, Bool-cases, Option-cases, inl, inr,
}
use polymarket_orderbook_col.Base.HashMap
use polymarket_orderbook_col.Base.HashMap.{get-insert}
use polymarket_orderbook_col.Pool.{Pool, push_pending, find_conn_with_capacity}
use polymarket_orderbook_col.Pool.Passes.{FirstPass, pass1, SecondPass, place_second, pass2, pass3}
use polymarket_orderbook_col.Pool.Room.{find_from-some}

-- Two different connections for each asset, of the first `n`.
pub record PlacedIn (n : ℕ) (index : List (String × (ℕ × ℕ))) : Type 0 where
  pub entry :
      (a : String) (c1 c2 : ℕ)
      → HashMap.get index a ≡ some (c1, c2)
      → (c1 < n) × (c2 < n) × (c1 ≢ c2)

PlacedIn-insert :
    (n : ℕ) (index : List (String × (ℕ × ℕ))) (b : String) (d1 d2 : ℕ)
    → d1 < n
    → d2 < n
    → d1 ≢ d2
    → PlacedIn n index
    → PlacedIn n (HashMap.insert b (d1, d2) index)
PlacedIn-insert n index b d1 d2 h1 h2 h w = record {
  entry = λ a c1 c2 e. elim (Bool-cases (b =? a)) [
    | inl hit ↦
        let e1 : d1 ≡ c1 = ground (arith, hit, e, get-insert b (d1, d2) index a) in
        let e2 : d2 ≡ c2 = ground (arith, hit, e, get-insert b (d1, d2) index a) in
        (omega arith, omega arith, λ same. h (e1 ∙ same ∙ sym e2))
    | inr miss ↦ w.entry a c1 c2 (ground (arith, miss, e, get-insert b (d1, d2) index a))
  ];
}

pub PlacedIn-more :
    (n m : ℕ) (index : List (String × (ℕ × ℕ))) → n ≤ m → PlacedIn n index → PlacedIn m index
PlacedIn-more n m index h w = record {
  entry = λ a c1 c2 e. let (l1, l2, other) = w.entry a c1 c2 e in (omega arith, omega arith, other);
}

-- The first connections are among the first `n`.
abbrev pub FirstIn : ℕ → List (String × ℕ) → Type 0
FirstIn n first_conn = (a : String) (c : ℕ) → HashMap.get first_conn a ≡ some c → c < n

pub pass1-FirstIn :
    (p : Pool) (order : List String) (s s' : FirstPass)
    → pass1 p order s ≡ ok s'
    → FirstIn (length p.connections) s.first_conn
    → FirstIn (length p.connections) s'.first_conn
unfolding pass1 find_conn_with_capacity
pass1-FirstIn p [] s s' run w =
    subst (λ t. FirstIn (length p.connections) t.first_conn) (ok-eq s s' run) w
pass1-FirstIn p (b ∷ order) s s' run w =
    elim (Option-cases (find_conn_with_capacity p s.pending none)) [
      | inl e ↦ cc (rw (e, pass1) at run)
      | inr (i, e) ↦
          let facts = find_from-some p.max_assets_per_conn s.pending none b i 0 p.connections e in
          pass1-FirstIn p order
            (record {
              pending = push_pending i b s.pending;
              first_conn = HashMap.insert b i s.first_conn;
            })
            s' (rw (e, pass1) at run)
            (λ a c h. ground (arith, facts.1, h, get-insert b i s.first_conn a, w a c))
    ]

place_second-PlacedIn :
    (p : Pool) (b : String) (first : ℕ) (s : SecondPass)
    → first < length p.connections
    → PlacedIn (length p.connections) s.asset_to_conns
    → PlacedIn (length p.connections) (place_second p b first s).asset_to_conns
unfolding place_second find_conn_with_capacity
place_second-PlacedIn p b first s h w =
    elim (Option-cases (find_conn_with_capacity p s.pending (some first))) [
      | inl e ↦ rw (e, place_second) w
      | inr (i, e) ↦
          let facts =
            find_from-some p.max_assets_per_conn s.pending (some first) b i 0 p.connections e in
          rw (e, place_second)
            (PlacedIn-insert (length p.connections) s.asset_to_conns b first i h (omega arith)
              (λ same. ground (arith, facts.2, same)) w)
    ]

pub pass2-PlacedIn :
    (p : Pool) (first_conn : List (String × ℕ)) (order : List String) (s s' : SecondPass)
    → pass2 p first_conn order s ≡ ok s'
    → FirstIn (length p.connections) first_conn
    → PlacedIn (length p.connections) s.asset_to_conns
    → PlacedIn (length p.connections) s'.asset_to_conns
unfolding pass2
pass2-PlacedIn p first_conn [] s s' run f w =
    subst (λ t. PlacedIn (length p.connections) t.asset_to_conns) (ok-eq s s' run) w
pass2-PlacedIn p first_conn (b ∷ order) s s' run f w =
    elim (Option-cases (HashMap.get first_conn b)) [
      | inl e ↦ cc (rw (e, pass2) at run)
      | inr (first, e) ↦
          pass2-PlacedIn p first_conn order (place_second p b first s) s' (rw (e, pass2) at run) f
            (place_second-PlacedIn p b first s (f b first e) w)
    ]

pub pass3-PlacedIn :
    (n : ℕ) (first_conn : List (String × ℕ)) (order : List String) (s s' : SecondPass)
    → pass3 n first_conn order s ≡ ok s'
    → FirstIn n first_conn
    → PlacedIn (suc n) s.asset_to_conns
    → PlacedIn (suc n) s'.asset_to_conns
unfolding pass3
pass3-PlacedIn n first_conn [] s s' run f w =
    subst (λ t. PlacedIn (suc n) t.asset_to_conns) (ok-eq s s' run) w
pass3-PlacedIn n first_conn (b ∷ order) s s' run f w =
    elim (Option-cases (HashMap.get first_conn b)) [
      | inl e ↦ cc (rw (e, pass3) at run)
      | inr (first, e) ↦
          pass3-PlacedIn n first_conn order
            (record {
              pending = push_pending n b s.pending;
              asset_to_conns = HashMap.insert b (first, n) s.asset_to_conns;
              overflow = s.overflow;
            })
            s' (rw (e, pass3) at run) f
            (PlacedIn-insert (suc n) s.asset_to_conns b first n (omega (arith, f b first e))
              (omega arith) (λ same. omega (arith, f b first e, same)) w)
    ]

-- The reverse index of a pool leads to its own connections, two for each asset.
abbrev pub IsPlaced : Pool → Type 0
IsPlaced p = PlacedIn (length p.connections) p.asset_to_conns
