-- ===== src/Pool/Overflow.antt =====
-- The overflow connection of `subscribe_markets` in ws/pool.rs, and the end of the passes.
use polymarket_orderbook_col.Base.{
  true, ℕ, suc, ◌+◌, ◌-◌, ◌≤◌, ◌<◌, String, ◌≡◌, refl, sym, ap, subst, ◌∙◌, List, [], ◌∷◌, ◌++◌,
  arith, length, length-append, All, ok, is_empty, Bool-cases, inl, inr, string_key, nat_key,
}
use polymarket_orderbook_col.Base.HashMap
use polymarket_orderbook_col.Pool.{
  ConnHandle, Pool, Pending, pending_of, spawn_connection, update_monitor_mappings,
}
use polymarket_orderbook_col.Pool.Passes.{SecondPass}
use polymarket_orderbook_col.Pool.Subscribe.{place_overflow, finish}
use polymarket_orderbook_col.Pool.Room.{load}
use polymarket_orderbook_col.Pool.Capacity.{IsReady, IsPlaced2}
use polymarket_orderbook_col.Pool.Delivery.{Fits-append, IsOverflowing, pass3_lem, dispatch_lem}
use polymarket_orderbook_col.Pool.Spawning.{Within, Within-Fits}

-- The end of the passes: the overflow is placed, and all is sent.
pub finish_lem :
    (p : Pool) (s : SecondPass) (limit : ℕ)
    → p.max_assets_per_conn ≡ limit
    → IsReady p s.pending
    → (p' : Pool) × (finish p s ≡ ok p')
      × Within limit p'.connections
      × (p'.max_assets_per_conn ≡ limit)
unfolding finish update_monitor_mappings
finish_lem p s limit e r =
    let (conns, run, fits) =
      dispatch_lem p.max_assets_per_conn s.pending p.connections r.unique r.in_range r.fits in
    (
      update_monitor_mappings (record p { connections = conns; asset_to_conns = s.asset_to_conns }),
      rw (run, finish) refl,
      subst (λ l. Within l conns) e (Within-Fits p.max_assets_per_conn 0 conns fits),
      e,
    )

pub no_key_above :
    (n : ℕ) (m : Pending) → All (λ (e : ℕ × List String). e.0 < n) m → pending_of m n ≡ []
unfolding pending_of HashMap.get
no_key_above n [] h = refl
no_key_above n ((j, w) ∷ m) h = ground (arith, h.0, no_key_above n m h.1)

pub below_suc :
    (n : ℕ) (m : Pending)
    → All (λ (e : ℕ × List String). e.0 < n) m
    → All (λ (e : ℕ × List String). e.0 < suc n) m
below_suc n [] h = tt
below_suc n (x ∷ m) h = (omega (arith, h.0), below_suc n m h.1)

pub overflowing :
    (p : Pool) (first_conn : List (String × ℕ)) (s : SecondPass)
    → IsPlaced2 p first_conn s
    → length s.overflow ≤ p.max_assets_per_conn
    → IsOverflowing p.max_assets_per_conn p.connections s.pending (length s.overflow)
overflowing p first_conn s v few =
    let n = length p.connections in
    record {
      fits = v.ready.fits;
      few = omega (arith, few, ap {B = ℕ} length (no_key_above n s.pending v.ready.in_range));
      unique = v.ready.unique;
      in_range = below_suc n s.pending v.ready.in_range;
    }

pub spawned-IsReady :
    (p : Pool) (pending : Pending)
    → IsOverflowing p.max_assets_per_conn p.connections pending 0
    → IsReady (spawn_connection p) pending
unfolding spawn_connection
spawned-IsReady p pending v =
    let fresh : ConnHandle = record {
      conn_id = p.next_conn_id;
      assets = [];
      mailbox = [];
      is_open = true;
    } in
    let n = length p.connections in
    let count : length (p.connections ++ fresh ∷ []) ≡ suc n =
      length-append p.connections (fresh ∷ []) ∙ omega arith in
    record {
      fits = Fits-append p.max_assets_per_conn pending 0 p.connections fresh v.fits (
          subst (λ i. load pending i fresh ≤ p.max_assets_per_conn)
            (let e : n ≡ 0 + n = omega arith in e) (omega (arith, v.few)));
      unique = v.unique;
      in_range = subst (λ k. All (λ (e : ℕ × List String). e.0 < k) pending) (sym count) v.in_range;
    }

pub place_overflow_lem :
    (p : Pool) (first_conn : List (String × ℕ)) (s : SecondPass)
    → IsPlaced2 p first_conn s
    → length s.overflow ≤ p.max_assets_per_conn
    → (q : Pool × SecondPass) × (place_overflow first_conn p s ≡ ok q)
      × IsReady q.0 q.1.pending
      × (q.0.max_assets_per_conn ≡ p.max_assets_per_conn)
unfolding place_overflow
place_overflow_lem p first_conn s v few = elim (Bool-cases (is_empty s.overflow)) [
  | inl nothing ↦ ((p, s), rw (nothing, place_overflow) refl, v.ready, refl)
  | inr some_left ↦
      let n = length p.connections in
      let fresh : ConnHandle = record {
        conn_id = p.next_conn_id;
        assets = [];
        mailbox = [];
        is_open = true;
      } in
      let at : length (p.connections ++ fresh ∷ []) - 1 ≡ n =
        omega (arith, length-append p.connections (fresh ∷ [])) in
      let (s', run, v') =
        pass3_lem p.max_assets_per_conn p.connections first_conn s.overflow s
          (overflowing p first_conn s v few) v.keyed in
      (
        (spawn_connection p, s'),
        unfold spawn_connection in (rw (some_left, place_overflow) (rw at (rw run refl))),
        spawned-IsReady p s'.pending v',
        unfold spawn_connection in refl,
      )
]
