-- ===== src/Pool/Tracked.antt =====
-- `subscribe_markets` of ws/pool.rs: every asset of a new market gets an entry of the reverse index.
use polymarket_orderbook_col.Base.{
  ok-eq, Result-cases, ℕ, zero, suc, ◌-◌, String, ◌≡◌, sym, ap, ◌∙◌, subst, none, some, List, [],
  ◌∷◌, Bool, true, false, ◌||◌, arith, length, get_elem?, is_empty, ok, ◌=?◌, same_refl, ◌≢◌,
  string_key, Bool-cases, Option-cases, inl, inr,
}
use polymarket_orderbook_col.Base.HashMap
use polymarket_orderbook_col.Base.HashMap.{contains_key-insert, contains_key→get, get→contains_key}
use polymarket_orderbook_col.Base.HashSet
use polymarket_orderbook_col.Base.HashSet.{contains-append}
use polymarket_orderbook_col.Events.{Market}
use polymarket_orderbook_col.Pool.{
  Pool, push_pending, find_conn_with_capacity, spawn_connection, spawn_connections,
  update_monitor_mappings,
}
use polymarket_orderbook_col.Pool.Passes.{SecondPass, place_second, pass2, pass3}
use polymarket_orderbook_col.Pool.Subscribe.{
  collect, register, dispatch, place_overflow, finish, subscribe_markets,
}
use polymarket_orderbook_col.Pool.Held.{assets_at}
use polymarket_orderbook_col.Pool.Sound.{IsSound, subscribe_markets-IsSound}
use polymarket_orderbook_col.Pool.Unsubscribed.{no_assets, both_occupied}
use polymarket_orderbook_col.Pool.Steps.{Assigned, subscribe_markets-steps}
use polymarket_orderbook_col.Pool.Total.{IsShuffle}
use polymarket_orderbook_col.Pool.Registry.{registry, unknown, assets_of, collect-new}

-- An asset that has an entry, or will get one from the overflow.
abbrev seen : SecondPass → String → Bool
seen s a = HashSet.contains s.overflow a || HashMap.contains_key s.asset_to_conns a

seen-place_second :
    (p : Pool) (b : String) (first : ℕ) (s : SecondPass) (a : String)
    → seen (place_second p b first s) a ≡ ((b =? a) || seen s a)
unfolding place_second
seen-place_second p b first s a =
    elim (Option-cases (find_conn_with_capacity p s.pending (some first))) [
      | inl e ↦
          rw (e, place_second)
            (rw (contains-append s.overflow (b ∷ []) a) (unfold HashSet.contains in ground arith))
      | inr (i, e) ↦
          rw (e, place_second)
            (rw (contains_key-insert b (first, i) s.asset_to_conns a) (ground arith))
    ]

pass2-seen :
    (p : Pool) (first_conn : List (String × ℕ)) (order : List String) (s s' : SecondPass)
    → pass2 p first_conn order s ≡ ok s'
    → (a : String) → (HashSet.contains order a || seen s a) ≡ true
    → seen s' a ≡ true
unfolding pass2 HashSet.contains
pass2-seen p first_conn [] s s' run a h = subst (λ t. seen t a ≡ true) (ok-eq s s' run) h
pass2-seen p first_conn (b ∷ order) s s' run a h = elim (Option-cases (HashMap.get first_conn b)) [
  | inl e ↦ cc (rw (e, pass2) at run)
  | inr (first, e) ↦
      pass2-seen p first_conn order (place_second p b first s) s' (rw (e, pass2) at run) a
        (rw (seen-place_second p b first s a) (ground (arith, h)))
]

pass3-tracked :
    (n : ℕ) (first_conn : List (String × ℕ)) (order : List String) (s s' : SecondPass)
    → pass3 n first_conn order s ≡ ok s'
    → (a : String) → (HashSet.contains order a || HashMap.contains_key s.asset_to_conns a) ≡ true
    → HashMap.contains_key s'.asset_to_conns a ≡ true
unfolding pass3 HashSet.contains
pass3-tracked n first_conn [] s s' run a h =
    subst (λ (t : SecondPass). HashMap.contains_key t.asset_to_conns a ≡ true) (ok-eq s s' run) h
pass3-tracked n first_conn (b ∷ order) s s' run a h =
    elim (Option-cases (HashMap.get first_conn b)) [
      | inl e ↦ cc (rw (e, pass3) at run)
      | inr (first, e) ↦
          pass3-tracked n first_conn order
            (record {
              pending = push_pending n b s.pending;
              asset_to_conns = HashMap.insert b (first, n) s.asset_to_conns;
              overflow = s.overflow;
            })
            s' (rw (e, pass3) at run) a
            (ground (arith, contains_key-insert b (first, n) s.asset_to_conns a, h))
    ]

only_tracked :
    (overflow : List String) (b : Bool) (a : String)
    → is_empty overflow ≡ true
    → (HashSet.contains overflow a || b) ≡ true
    → b ≡ true
unfolding HashSet.contains
only_tracked [] b a e h = h
only_tracked (x ∷ xs) b a e h = cc

place_overflow-tracked :
    (first_conn : List (String × ℕ)) (p : Pool) (s : SecondPass) (q : Pool × SecondPass)
    → place_overflow first_conn p s ≡ ok q
    → (a : String) → seen s a ≡ true
    → HashMap.contains_key q.1.asset_to_conns a ≡ true
unfolding place_overflow
place_overflow-tracked first_conn p s q run a h = elim (Bool-cases (is_empty s.overflow)) [
  | inl e ↦
      subst (λ (t : Pool × SecondPass). HashMap.contains_key t.1.asset_to_conns a ≡ true)
        (ok-eq (p, s) q (rw (e, place_overflow) at run)) (only_tracked s.overflow _ a e h)
  | inr e ↦
      let q1 = spawn_connection p in
      elim (Result-cases (pass3 (length q1.connections - 1) first_conn s.overflow s)) [
        | inl (s1, ran) ↦
            subst (λ (t : Pool × SecondPass). HashMap.contains_key t.1.asset_to_conns a ≡ true)
              (ok-eq (q1, s1) q (rw ran at (rw (e, place_overflow) at run)))
              (pass3-tracked (length q1.connections - 1) first_conn s.overflow s s1 ran a h)
        | inr (bad, ran) ↦ cc (rw ran at (rw (e, place_overflow) at run))
      ]
]

finish-index :
    (p : Pool) (s : SecondPass) (p' : Pool)
    → finish p s ≡ ok p'
    → p'.asset_to_conns ≡ s.asset_to_conns
unfolding finish update_monitor_mappings
finish-index p s p' run = elim (Result-cases (dispatch s.pending p.connections)) [
  | inl (conns, e) ↦
      ap (λ (q : Pool). q.asset_to_conns)
        (sym (
          ok-eq
            (update_monitor_mappings
              (record p { connections = conns; asset_to_conns = s.asset_to_conns }))
            p' (rw (e, finish) at run)))
  | inr (bad, e) ↦ cc (rw (e, finish) at run)
]

assets_of-unknown :
    (known : List (String × Market)) (ms : List Market) (i : ℕ) (m : Market)
    → get_elem? ms i ≡ some m
    → HashMap.contains_key known m.hash ≡ false
    → let new = assets_of (unknown known ms) in
      (HashSet.contains new m.yes_asset ≡ true) × (HashSet.contains new m.no_asset ≡ true)
unfolding HashSet.contains
assets_of-unknown known [] i m h free = absurd cc
assets_of-unknown known (x ∷ ms) zero m h free =
    let same : x ≡ m = cc h in
    let new : HashMap.contains_key known x.hash ≡ false = rw same free in
    rw new (rw same (ground (arith, same_refl m.yes_asset), ground (arith, same_refl m.no_asset)))
assets_of-unknown known (x ∷ ms) (suc i) m h free =
    let (has_yes, has_no) = assets_of-unknown known ms i m h free in
    elim (Bool-cases (HashMap.contains_key known x.hash)) [
      | inl skip ↦ rw skip (has_yes, has_no)
      | inr new ↦ rw new (ground (arith, has_yes), ground (arith, has_no))
    ]

-- An asset that two different connections of the pool have, which the reverse index names.
pub record Served (p : Pool) (a : String) : Type 0 where
  pub c1 : ℕ
  pub c2 : ℕ
  pub entry : HashMap.get p.asset_to_conns a ≡ some (c1, c2)
  pub other : c1 ≢ c2
  pub has1 : HashSet.contains (assets_at p.connections c1) a ≡ true
  pub has2 : HashSet.contains (assets_at p.connections c2) a ≡ true

pub tracked-Served :
    (p : Pool) (a : String)
    → IsSound p
    → HashMap.contains_key p.asset_to_conns a ≡ true
    → Served p a
tracked-Served p a s h =
    let ((d1, d2), e) = contains_key→get p.asset_to_conns a h in
    let (_, _, apart) = s.placed.entry a d1 d2 e in
    let (h1, h2) = both_occupied p.connections p.asset_to_conns a d1 d2 s.holds e in
    record { c1 = d1; c2 = d2; entry = e; other = apart; has1 = h1; has2 = h2 }

module _ (shuffle1 shuffle2 : List String → List String) (fair1 : IsShuffle shuffle1)
    (fair2 : IsShuffle shuffle2) where
  pub Assigned-tracked :
      (xs : List String) (p p' : Pool)
      → Assigned shuffle1 shuffle2 xs p p'
      → (a : String) → (HashSet.contains xs a || HashMap.contains_key p.asset_to_conns a) ≡ true
      → HashMap.contains_key p'.asset_to_conns a ≡ true
  Assigned-tracked xs p p' r a h =
      let start2 : SecondPass = record {
        pending = r.first.pending;
        asset_to_conns = p.asset_to_conns;
        overflow = [];
      } in
      let shuffled = fair2.same_items (shuffle1 xs) a ∙ fair1.same_items xs a in
      rw (finish-index r.placed.0 r.placed.1 p' r.run4) (
        place_overflow-tracked r.first.first_conn p r.second r.placed r.run3 a (
          pass2-seen p r.first.first_conn (shuffle2 (shuffle1 xs)) start2 r.second r.run2 a
            (unfold HashSet.contains in ground (arith, shuffled, h))))

  pub tracked_after :
      (ms : List Market) (p p' : Pool) (i : ℕ) (m : Market)
      → subscribe_markets shuffle1 shuffle2 ms p ≡ ok p'
      → get_elem? ms i ≡ some m
      → registry p m.hash ≡ none
      → (HashMap.contains_key p'.asset_to_conns m.yes_asset ≡ true)
        × (HashMap.contains_key p'.asset_to_conns m.no_asset ≡ true)
  tracked_after ms p p' i m run at free =
      let found = collect p.markets ms [] [] in
      let p1 = record p { markets = register found.1 p.markets } in
      let new = collect-new p.markets ms [] [] in
      let (has_yes, has_no) =
        assets_of-unknown p.markets ms i m at (get→contains_key p.markets m.hash free) in
      elim (subscribe_markets-steps shuffle1 shuffle2 ms p p' run) [
        | inl (nothing, same) ↦ absurd (no_assets found.0 m.yes_asset nothing (rw new has_yes))
        | inr (n, r) ↦
            let q = spawn_connections n p1 in
            (
              Assigned-tracked found.0 q p' r m.yes_asset
                  (ground (arith, ap (λ xs. HashSet.contains xs m.yes_asset) new, has_yes)),
              Assigned-tracked found.0 q p' r m.no_asset
                  (ground (arith, ap (λ xs. HashSet.contains xs m.no_asset) new, has_no)),
            )
      ]

  -- `subscribe_markets` on a sound pool returns a sound pool in which both assets of every market of
  -- the batch whose hash was free have two different connections, both of which have the asset, if the
  -- shuffles keep the items.
  pub new_markets-Served :
      (ms : List Market) (p : Pool) (i : ℕ) (m : Market)
      → IsSound p
      → get_elem? ms i ≡ some m
      → registry p m.hash ≡ none
      → (p' : Pool) × (subscribe_markets shuffle1 shuffle2 ms p ≡ ok p')
        × IsSound p'
        × Served p' m.yes_asset
        × Served p' m.no_asset
  new_markets-Served ms p i m s at free =
      let (p', run, sound) = subscribe_markets-IsSound shuffle1 shuffle2 fair1 fair2 ms p s in
      let (has_yes, has_no) = tracked_after ms p p' i m run at free in
      (
        p',
        run,
        sound,
        tracked-Served p' m.yes_asset sound has_yes,
        tracked-Served p' m.no_asset sound has_no,
      )
