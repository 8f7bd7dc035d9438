-- ===== src/Pool/Spawning.antt =====
-- The room that `subscribe_markets` of ws/pool.rs makes: how many connections it spawns.
use native.Mathlib.Nat.{div-add-mod, mod-lt}
use polymarket_orderbook_col.Base.{
  true, ℕ, zero, suc, ◌+◌, ◌-◌, ◌*◌, ◌/◌, ◌≤◌, ◌<◌, ◌≡◌, refl, subst, List, [], ◌∷◌, ◌++◌, map,
  false, arith, length, length-append, All, All-append, ok, ltb, ltb→lt, ◌==◌, sum, if◌then◌else◌,
  Bool-cases, inl, inr, string_key, nat_key,
}
use polymarket_orderbook_col.Base.HashMap
use polymarket_orderbook_col.Pool.{
  ConnHandle, Pool, pending_of, spawn_connection, spawn_connections,
}
use polymarket_orderbook_col.Pool.Subscribe.{existing_free, new_conn_count}
use polymarket_orderbook_col.Pool.Room.{free_from}
use polymarket_orderbook_col.Pool.Capacity.{Fits, room}

-- No connection holds more than the limit.
abbrev pub Within : ℕ → List ConnHandle → Type 0
Within limit conns = All (λ h. length h.assets ≤ limit) conns

pub Fits-Within : (limit idx : ℕ) (hs : List ConnHandle) → Within limit hs → Fits limit [] idx hs
unfolding pending_of HashMap.get
Fits-Within limit idx [] w = tt
Fits-Within limit idx (h ∷ hs) w = (omega (arith, w.0), Fits-Within limit (suc idx) hs w.1)

pub Within-Fits : (limit idx : ℕ) (hs : List ConnHandle) → Fits limit [] idx hs → Within limit hs
unfolding pending_of HashMap.get
Within-Fits limit idx [] f = tt
Within-Fits limit idx (h ∷ hs) f = (omega (arith, f.0), Within-Fits limit (suc idx) hs f.1)

pub existing_free-room :
    (limit idx : ℕ) (hs : List ConnHandle)
    → sum (map (λ c. limit - length c.assets) hs) ≡ free_from limit [] idx hs
unfolding free_from pending_of HashMap.get
existing_free-room limit idx [] = refl
existing_free-room limit idx (h ∷ hs) = omega (arith, existing_free-room limit (suc idx) hs)

pub free_from-spawn :
    (limit n idx : ℕ) (hs : List ConnHandle)
    → free_from limit [] idx
        (hs ++ (record { conn_id = n; assets = []; mailbox = []; is_open = true }) ∷ [])
      ≡ free_from limit [] idx hs + limit
unfolding free_from pending_of HashMap.get
free_from-spawn limit n idx [] = omega arith
free_from-spawn limit n idx (h ∷ hs) = omega (arith, free_from-spawn limit n (suc idx) hs)

-- What `n` spawns do to a pool.
pub record Spawned (n : ℕ) (p p' : Pool) : Type 0 where
  pub same_limit : p'.max_assets_per_conn ≡ p.max_assets_per_conn
  pub more_room : room p' [] ≡ room p [] + n * p.max_assets_per_conn
  pub within : Within p'.max_assets_per_conn p'.connections
  pub count : length p'.connections ≡ length p.connections + n

pub spawn_connections-Spawned :
    (n : ℕ) (p : Pool)
    → Within p.max_assets_per_conn p.connections
    → Spawned n p (spawn_connections n p)
unfolding spawn_connections spawn_connection
spawn_connections-Spawned zero p w = record {
  same_limit = refl;
  more_room = omega arith;
  within = w;
  count = omega arith;
}
spawn_connections-Spawned (suc n) p w =
    let fresh : ConnHandle = record {
      conn_id = p.next_conn_id;
      assets = [];
      mailbox = [];
      is_open = true;
    } in
    let rest =
      spawn_connections-Spawned n (spawn_connection p)
        (All-append _ p.connections (fresh ∷ []) w (omega arith, tt)) in
    record {
      same_limit = rest.same_limit;
      more_room = grind (
        arith,
        rest.more_room,
        free_from-spawn p.max_assets_per_conn p.next_conn_id 0 p.connections,
      );
      within = rest.within;
      count = omega (arith, rest.count, length-append p.connections (fresh ∷ []));
    }

pub ceil_enough : (d f m : ℕ) → 0 < m → f < d → d ≤ f + (d - f + m - 1) / m * m
ceil_enough d f m pos more = grind (arith, div-add-mod, mod-lt)

pub more_is_enough : (d f n m k : ℕ) → d ≤ f + n * m → n ≤ k → d ≤ f + k * m
more_is_enough d f n m k h g = grind arith

pub at_least_two :
    (len n : ℕ)
    → let k = if ltb (len + n) 2 then n + (2 - (len + n)) else n in (n ≤ k) × (2 ≤ len + k)
at_least_two len n = (ground arith, ground arith)

-- The number of new connections is found and is enough.
pub new_conn_count_lem :
    (demand : ℕ) (p : Pool)
    → 0 < p.max_assets_per_conn
    → (n : ℕ) × (new_conn_count demand p ≡ ok n)
      × (demand ≤ room p [] + n * p.max_assets_per_conn)
      × (2 ≤ length p.connections + n)
unfolding new_conn_count
new_conn_count_lem demand p pos =
    let m = p.max_assets_per_conn in
    let len = length p.connections in
    let free = existing_free-room m 0 p.connections in
    elim (Bool-cases (ltb (existing_free p) demand)) [
      | inl more ↦
          let n = (demand - existing_free p + m - 1) / m in
          let k = if ltb (len + n) 2 then n + (2 - (len + n)) else n in
          let nonzero : (m == 0) ≡ false = ground (arith, pos) in
          let enough = ceil_enough demand (existing_free p) m pos (ltb→lt _ _ more) in
          let two = at_least_two len n in
          (
            k,
            rw (more, new_conn_count) (rw (nonzero, new_conn_count) refl),
            more_is_enough demand (room p []) n m k (subst (λ f. demand ≤ f + n * m) free enough)
                two.0,
            two.1,
          )
      | inr less ↦
          let k = if ltb (len + 0) 2 then 0 + (2 - (len + 0)) else 0 in
          let two = at_least_two len 0 in
          (
            k,
            rw (less, new_conn_count) refl,
            more_is_enough demand (room p []) 0 m k (ground (arith, less, free)) two.0,
            two.1,
          )
    ]
