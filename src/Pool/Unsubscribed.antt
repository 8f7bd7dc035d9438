-- ===== src/Pool/Unsubscribed.antt =====
-- `unsubscribe_markets` of ws/pool.rs as a whole: it keeps a pool sound, and no connection without
-- assets is left.
use polymarket_orderbook_col.Base.{
  ℕ, zero, suc, ◌≤◌, ◌<◌, String, ◌≡◌, ◌≢◌, refl, sym, ap, ◌∙◌, subst, some, List, [], ◌∷◌, true,
  arith, length, All, get_elem?, is_empty, ltb, nat_key, string_key, Bool-cases, Option-cases, inl,
  inr,
}
use mathlib.Core.List.{reverse}
use polymarket_orderbook_col.Base.HashMap
use polymarket_orderbook_col.Base.HashSet
use polymarket_orderbook_col.Pool.{ConnHandle, Pool, pending_of, update_monitor_mappings}
use polymarket_orderbook_col.Pool.Subscribe.{modify}
use polymarket_orderbook_col.Pool.Unsubscribe.{
  Removal, remove_markets, withdraw_all, empty_indices, split_last, swap_remove, gc_step, gc_all,
  collect_garbage, unsubscribe_markets,
}
use polymarket_orderbook_col.Pool.Spawning.{Within}
use polymarket_orderbook_col.Pool.Placed.{IsPlaced}
use polymarket_orderbook_col.Pool.Held.{assets_at, Holds}
use polymarket_orderbook_col.Pool.Sound.{IsSound}
use polymarket_orderbook_col.Pool.Collect.{
  occupied, occupied-inside, occupied-same, rename, Follows, collect_garbage-Follows,
}
use polymarket_orderbook_col.Pool.Withdrawn.{
  IsLeft, remove_markets-IsLeft, contains-withdraw_all, length-withdraw_all, withdraw_all-Within,
}

module _ {ℓ κ} {A : Type ℓ} (P : A → Type κ) where
  split_last-All :
      (x : A) (xs : List A) → P x → All P xs → All P (split_last x xs).0 × P (split_last x xs).1
  unfolding split_last
  split_last-All x [] h hs = (tt, h)
  split_last-All x (y ∷ ys) h hs =
      let (front, last) = split_last-All y ys hs.0 hs.1 in ((h, front), last)

  modify-All : (y : A) (i : ℕ) (xs : List A) → P y → All P xs → All P (modify (λ _. y) i xs)
  unfolding modify
  modify-All y i [] h hs = tt
  modify-All y zero (x ∷ xs) h hs = (h, hs.1)
  modify-All y (suc i) (x ∷ xs) h hs = (hs.0, modify-All y i xs h hs.1)

  swap_remove-All : (i : ℕ) (xs : List A) → All P xs → All P (swap_remove i xs)
  unfolding swap_remove
  swap_remove-All i [] h = tt
  swap_remove-All i (x ∷ xs) h =
      let (front, last) = split_last-All x xs h.0 h.1 in
      modify-All (split_last x xs).1 i (split_last x xs).0 last front

gc_all-Within :
    (limit : ℕ) (is : List ℕ) (p : Pool)
    → Within limit p.connections
    → Within limit (gc_all is p).connections
unfolding gc_all gc_step
gc_all-Within limit [] p w = w
gc_all-Within limit (i ∷ is) p w =
    gc_all-Within limit is (gc_step i p)
      (swap_remove-All (λ h. length h.assets ≤ limit) i p.connections w)

gc_all-limit : (is : List ℕ) (p : Pool) → (gc_all is p).max_assets_per_conn ≡ p.max_assets_per_conn
unfolding gc_all gc_step
gc_all-limit [] p = refl
gc_all-limit (i ∷ is) p = gc_all-limit is (gc_step i p)

pub no_assets : (xs : List String) (a : String) → is_empty xs ≡ true → HashSet.contains xs a ≢ true
unfolding HashSet.contains
no_assets [] a h e = cc
no_assets (x ∷ xs) a h e = cc

-- A connection that has an asset is not empty.
contains-occupied :
    (conns : List ConnHandle) (c : ℕ) (a : String)
    → HashSet.contains (assets_at conns c) a ≡ true
    → occupied conns c ≡ true
unfolding assets_at occupied HashSet.contains
contains-occupied [] c a h = cc
contains-occupied (x ∷ hs) zero a h = elim (Bool-cases (is_empty x.assets)) [
  | inl e ↦ absurd (no_assets x.assets a e h)
  | inr e ↦ rw e refl
]
contains-occupied (x ∷ hs) (suc c) a h = contains-occupied hs c a h

-- What `occupied` and `Holds` say of an asset at an index.
pub both_occupied :
    (conns : List ConnHandle) (index : List (String × (ℕ × ℕ))) (a : String) (c1 c2 : ℕ)
    → Holds conns [] index
    → HashMap.get index a ≡ some (c1, c2)
    → (HashSet.contains (assets_at conns c1) a ≡ true)
      × (HashSet.contains (assets_at conns c2) a ≡ true)
unfolding pending_of HashMap.get HashSet.contains
both_occupied conns index a c1 c2 h e =
    let (h1, h2) = h a c1 c2 e in (ground (arith, h1), ground (arith, h2))

assets_at-same :
    (conns conns' : List ConnHandle) (c c' : ℕ)
    → get_elem? conns' c' ≡ get_elem? conns c
    → assets_at conns' c' ≡ assets_at conns c
unfolding assets_at
assets_at-same conns conns' c c' e = rw (e, assets_at)

-- An entry of the collected pool, and the old one that it is the new name of.
record Renamed (p : Pool) (f : Follows p (collect_garbage p)) (a : String) (d1 d2 : ℕ)
    : Type 0 where
  c1 : ℕ
  c2 : ℕ
  old : HashMap.get p.asset_to_conns a ≡ some (c1, c2)
  to1 : f.to c1 ≡ d1
  to2 : f.to c2 ≡ d2

from_source :
    (p : Pool) (f : Follows p (collect_garbage p)) (a : String) (d1 d2 : ℕ)
    → HashMap.get (collect_garbage p).asset_to_conns a ≡ some (d1, d2)
    → Renamed p f a d1 d2
from_source p f a d1 d2 e = elim (Option-cases (HashMap.get p.asset_to_conns a)) [
  | inl missing ↦ absurd (cc (e, f.index a, ap (rename f.to) missing))
  | inr ((b1, b2), there) ↦
      let same : some (f.to b1, f.to b2) ≡ some (d1, d2) =
        sym (f.index a ∙ ap (rename f.to) there) ∙ e in
      record { c1 = b1; c2 = b2; old = there; to1 = cc same; to2 = cc same }
]

-- A connection that has an asset still has it under its new index.
still_has :
    (p : Pool) (f : Follows p (collect_garbage p)) (a : String) (c d : ℕ)
    → HashSet.contains (assets_at p.connections c) a ≡ true
    → f.to c ≡ d
    → (d < length (collect_garbage p).connections)
      × (HashSet.contains (assets_at (collect_garbage p).connections d) a ≡ true)
still_has p f a c d h e =
    let conns' = (collect_garbage p).connections in
    let busy = contains-occupied p.connections c a h in
    let same = f.same_conn c busy in
    (
      subst (λ k. k < length conns') e
          (occupied-inside conns' (f.to c)
            (occupied-same p.connections conns' c (f.to c) same ∙ busy)),
      subst (λ k. HashSet.contains (assets_at conns' k) a ≡ true) e
          (rw (assets_at-same p.connections conns' c (f.to c) same) h),
    )

collect_garbage-IsPlaced :
    (p : Pool) → IsPlaced p → Holds p.connections [] p.asset_to_conns → IsPlaced (collect_garbage p)
collect_garbage-IsPlaced p w h =
    let f = collect_garbage-Follows p in
    record {
      entry = λ a d1 d2 e.
          let r = from_source p f a d1 d2 e in
          let (has1, has2) = both_occupied p.connections p.asset_to_conns a r.c1 r.c2 h r.old in
          let (_, _, other) = w.entry a r.c1 r.c2 r.old in
          (
            (still_has p f a r.c1 d1 has1 r.to1).0,
            (still_has p f a r.c2 d2 has2 r.to2).0,
            λ same.
                f.apart r.c1 r.c2 (contains-occupied p.connections r.c1 a has1)
                  (contains-occupied p.connections r.c2 a has2) other (r.to1 ∙ same ∙ sym r.to2),
          );
    }

collect_garbage-Holds :
    (p : Pool)
    → Holds p.connections [] p.asset_to_conns
    → Holds (collect_garbage p).connections [] (collect_garbage p).asset_to_conns
unfolding pending_of HashMap.get HashSet.contains
collect_garbage-Holds p h a d1 d2 e =
    let f = collect_garbage-Follows p in
    let r = from_source p f a d1 d2 e in
    let (has1, has2) = both_occupied p.connections p.asset_to_conns a r.c1 r.c2 h r.old in
    (
      ground (arith, (still_has p f a r.c1 d1 has1 r.to1).1),
      ground (arith, (still_has p f a r.c2 d2 has2 r.to2).1),
    )

collect_garbage-IsSound : (p : Pool) → IsSound p → IsSound (collect_garbage p)
unfolding collect_garbage
collect_garbage-IsSound p s =
    let is = reverse (empty_indices 0 p.connections) in
    record {
      positive = subst (λ n. 0 < n) (sym (gc_all-limit is p)) s.positive;
      within =
          subst (λ n. Within n (gc_all is p).connections) (sym (gc_all-limit is p))
            (gc_all-Within p.max_assets_per_conn is p s.within);
      placed = collect_garbage-IsPlaced p s.placed s.holds;
      holds = collect_garbage-Holds p s.holds;
    }

-- What the first two loops of `unsubscribe_markets` leave, before the garbage collection.
abbrev pub withdrawn : List String → Pool → Pool
withdrawn hashes p =
    let r = remove_markets hashes (record {
      markets = p.markets;
      asset_to_conns = p.asset_to_conns;
      conn_unsubs = [];
      removed_count = 0;
    }) in
    record p {
      markets = r.markets;
      asset_to_conns = r.asset_to_conns;
      connections = withdraw_all r.conn_unsubs p.connections;
    }

withdrawn-IsSound : (hashes : List String) (p : Pool) → IsSound p → IsSound (withdrawn hashes p)
withdrawn-IsSound hashes p s =
    let r0 : Removal = record {
      markets = p.markets;
      asset_to_conns = p.asset_to_conns;
      conn_unsubs = [];
      removed_count = 0;
    } in
    let r = remove_markets hashes r0 in
    let left : IsLeft p.asset_to_conns r =
      remove_markets-IsLeft p.asset_to_conns hashes r0 (record { entry = λ a c e. (e, tt) }) in
    record {
      positive = s.positive;
      within = withdraw_all-Within p.max_assets_per_conn r.conn_unsubs p.connections s.within;
      placed = record {
        entry = λ a c1 c2 e.
            subst (λ n. (c1 < n) × (c2 < n) × (c1 ≢ c2))
              (sym (length-withdraw_all r.conn_unsubs p.connections))
              (s.placed.entry a c1 c2 (left.entry a (c1, c2) e).0);
      };
      holds = λ a c1 c2 e.
          let (old, u) = left.entry a (c1, c2) e in
          let (h1, h2) = s.holds a c1 c2 old in
          (
            rw (contains-withdraw_all r.conn_unsubs p.connections c1 a u) h1,
            rw (contains-withdraw_all r.conn_unsubs p.connections c2 a u) h2,
          );
    }

update_monitor_mappings-IsSound : (p : Pool) → IsSound p → IsSound (update_monitor_mappings p)
unfolding update_monitor_mappings
update_monitor_mappings-IsSound p s = record {
  positive = s.positive;
  within = s.within;
  placed = s.placed;
  holds = s.holds;
}

-- A property of pools that the monitor's mapping plays no part in.
pub unsubscribe_markets-elim {κ} :
    (P : Pool → Type κ) (hashes : List String) (p : Pool)
    → ((q : Pool) → P q → P (update_monitor_mappings q))
    → P (collect_garbage (withdrawn hashes p))
    → P (unsubscribe_markets hashes p)
unfolding unsubscribe_markets
unsubscribe_markets-elim P hashes p step h =
    let r = remove_markets hashes (record {
      markets = p.markets;
      asset_to_conns = p.asset_to_conns;
      conn_unsubs = [];
      removed_count = 0;
    }) in
    elim (Bool-cases (ltb 0 r.removed_count)) [
      | inl some_removed ↦
          rw (some_removed, unsubscribe_markets) (step (collect_garbage (withdrawn hashes p)) h)
      | inr none_removed ↦ rw (none_removed, unsubscribe_markets) h
    ]

-- `unsubscribe_markets` keeps the pool sound: no connection has more assets than it may, and every
-- asset of the reverse index has two different connections of the pool, both of which have it.
pub unsubscribe_markets-IsSound :
    (hashes : List String) (p : Pool) → IsSound p → IsSound (unsubscribe_markets hashes p)
unsubscribe_markets-IsSound hashes p s =
    unsubscribe_markets-elim IsSound hashes p update_monitor_mappings-IsSound
      (collect_garbage-IsSound (withdrawn hashes p) (withdrawn-IsSound hashes p s))
