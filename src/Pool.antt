-- ===== src/Pool.antt =====
-- shared/rust/polymarket-orderbook-rust/src/ws/pool.rs: the connection pool's state, and the search for
-- a connection with room. The operations are in the children: the passes (Passes), `subscribe_markets`
-- (Subscribe), `unsubscribe_markets` and the garbage collection (Unsubscribe). A handle's mailbox is
-- all that was sent to the connection's task, in order. (Its channel has 64 slots; the pool waits for one.)
pub mod Passes
pub mod Subscribe
pub mod Unsubscribe
pub mod Room
pub mod Capacity
pub mod Delivery
pub mod Spawning
pub mod Overflow
pub mod Total
pub mod Gc
pub mod Collect
pub mod Placed
pub mod Steps
pub mod Redundancy
pub mod Held
pub mod Sound
pub mod Withdrawn
pub mod Unsubscribed
pub mod Busy
pub mod Registry
pub mod Closed
pub mod Owned
pub mod Tracked
pub mod Serving
pub mod Shutdown
pub mod ZeroLimit
mod Tests
use polymarket_orderbook_col.Base.{
  ℕ, zero, suc, ◌+◌, ◌-◌, String, Option, none, some, List, [], ◌∷◌, ◌++◌, map, Bool, true, false,
  length, leb, ◌==◌, nat_key, if◌then◌else◌, sum,
}
use polymarket_orderbook_col.Base.HashMap
use polymarket_orderbook_col.Events.{Market}
use polymarket_orderbook_col.Connection.{Command}

pub record ConnHandle : Type 0 where
  pub conn_id : ℕ
  pub assets : List String
  pub mailbox : List Command
  -- Whether the task still takes commands. It is the task that ends it, never the pool.
  pub is_open : Bool

pub record Pool : Type 0 where
  pub max_assets_per_conn : ℕ
  pub connections : List ConnHandle
  pub markets : List (String × Market)
  pub asset_to_conns : List (String × (ℕ × ℕ))
  pub next_conn_id : ℕ
  pub asset_conns_tx : List (String × (ℕ × ℕ))

-- How the code can panic.
pub data Panic : Type 0 where
  divide_by_zero no_capacity missing_key index_out_of_range : Panic

-- `cmd_tx.send(..).await`: it fails when the task has ended, which is only logged.
abbrev pub send_command : Command → ConnHandle → List Command
send_command c h = if h.is_open then h.mailbox ++ c ∷ [] else h.mailbox

unfoldable pub new : ℕ → Pool
new max_assets_per_conn = record {
  max_assets_per_conn = max_assets_per_conn;
  connections = [];
  markets = [];
  asset_to_conns = [];
  next_conn_id = 0;
  asset_conns_tx = [];
}

-- Additions that are not yet sent, by connection index.
abbrev pub Pending : Type 0
Pending = List (ℕ × List String)

unfoldable pub pending_of : Pending → ℕ → List String
pending_of p i = elim (HashMap.get p i) [ none ↦ [] | some assets ↦ assets ]

-- `pending.entry(i).or_default().push(asset)`.
unfoldable pub push_pending : ℕ → String → Pending → Pending
unfolding pending_of
push_pending i asset p = HashMap.insert i (pending_of p i ++ asset ∷ []) p

abbrev pub excluded : Option ℕ → ℕ → Bool
excluded none idx = false
excluded (some e) idx = e == idx

-- The loop of `find_conn_with_capacity`, from the connection `idx` on.
unfoldable pub find_from : ℕ → Pending → Option ℕ → ℕ → List ConnHandle → Option ℕ
unfolding pending_of
find_from limit pending exclude idx [] = none
find_from limit pending exclude idx (h ∷ hs) =
    let rest = find_from limit pending exclude (suc idx) hs in
    if excluded exclude idx
    then rest
    else if leb (length h.assets + length (pending_of pending idx) + 1) limit
    then some idx
    else rest

unfoldable pub find_conn_with_capacity : Pool → Pending → Option ℕ → Option ℕ
unfolding find_from
find_conn_with_capacity p pending exclude =
    find_from p.max_assets_per_conn pending exclude 0 p.connections

unfoldable pub spawn_connection : Pool → Pool
spawn_connection p = record p {
  next_conn_id = p.next_conn_id + 1;
  connections =
      p.connections
      ++ (record { conn_id = p.next_conn_id; assets = []; mailbox = []; is_open = true }) ∷ [];
}

unfoldable pub spawn_connections : ℕ → Pool → Pool
unfolding spawn_connection
spawn_connections zero p = p
spawn_connections (suc n) p = spawn_connections n (spawn_connection p)

unfoldable pub update_monitor_mappings : Pool → Pool
update_monitor_mappings p = record p { asset_conns_tx = p.asset_to_conns }

unfoldable pub subscribed_market_count : Pool → ℕ
subscribed_market_count p = length p.markets

unfoldable pub connection_count : Pool → ℕ
connection_count p = length p.connections
