-- ===== src/Pool/Tests.antt =====
-- Examples for the theorems on ws/pool.rs.
use polymarket_orderbook_col.Base.{
  ℕ, String, ◌≡◌, refl, true, List, [], ◌∷◌, arith, ok, nat_key, string_key,
}
use polymarket_orderbook_col.Events.{Market}
use polymarket_orderbook_col.Pool.{ConnHandle, Pool, new}
use polymarket_orderbook_col.Pool.Subscribe.{subscribe_markets}
use polymarket_orderbook_col.Pool.Unsubscribe.{
  remove_market, remove_markets, withdraw_all, empty_indices, gc_all, collect_garbage,
  unsubscribe_markets,
}
use polymarket_orderbook_col.Pool.Spawning.{Within}
use polymarket_orderbook_col.Pool.Total.{IsShuffle, subscribe_markets_lem}
use polymarket_orderbook_col.Base.HashMap
use polymarket_orderbook_col.Pool.Placed.{IsPlaced}
use polymarket_orderbook_col.Pool.Sound.{IsSound}
use polymarket_orderbook_col.Pool.Tracked.{Served, new_markets-Served}
use polymarket_orderbook_col.Pool.Busy.{unsubscribe_markets-busy}
use polymarket_orderbook_col.Pool.Registry.{registry, close_markets}
use polymarket_orderbook_col.Pool.Closed.{unsubscribe_markets-registry}
use polymarket_orderbook_col.Pool.Serving.{
  IsServing, new-IsServing, subscribe_markets-IsServing, unsubscribe_markets-IsServing,
}
use polymarket_orderbook_col.Pool.Collect.{occupied, Follows, collect_garbage-Follows}

abbrev unshuffled : List String → List String
unshuffled xs = xs

unshuffled-IsShuffle : IsShuffle unshuffled
unshuffled-IsShuffle = record { same_length = λ xs. refl; same_items = λ xs a. refl }

abbrev two_markets : List Market
two_markets =
    (record { hash = "m1"; yes_asset = "y1"; no_asset = "n1" })
    ∷ (record { hash = "m2"; yes_asset = "y2"; no_asset = "n2" })
    ∷ []

abbrev handle_of : ℕ → List String → ConnHandle
handle_of id assets = record { conn_id = id; assets = assets; mailbox = []; is_open = true }

abbrev small_pool : Pool
small_pool = record {
  max_assets_per_conn = 3;
  connections = handle_of 0 ("y0" ∷ []) ∷ [];
  markets = [];
  asset_to_conns = [];
  next_conn_id = 1;
  asset_conns_tx = [];
}

subscribe_markets_lem_example :
    (p' : Pool) × (subscribe_markets unshuffled unshuffled two_markets small_pool ≡ ok p')
    × Within 3 p'.connections
    × (p'.max_assets_per_conn ≡ 3)
subscribe_markets_lem_example =
    subscribe_markets_lem unshuffled unshuffled unshuffled-IsShuffle unshuffled-IsShuffle
      two_markets small_pool (omega arith) (omega arith, tt)

small_pool-IsPlaced : IsPlaced small_pool
unfolding HashMap.get
small_pool-IsPlaced = record { entry = λ a c1 c2 e. cc }

-- Three connections, the first of them empty.
abbrev with_garbage : Pool
with_garbage = record {
  max_assets_per_conn = 3;
  connections = handle_of 0 [] ∷ handle_of 1 ("y1" ∷ []) ∷ handle_of 2 ("y1" ∷ []) ∷ [];
  markets = [];
  asset_to_conns = ("y1", (1, 2)) ∷ [];
  next_conn_id = 3;
  asset_conns_tx = [];
}

collect_garbage-Follows_example : Follows with_garbage (collect_garbage with_garbage)
collect_garbage-Follows_example = collect_garbage-Follows with_garbage

small_pool-IsSound : IsSound small_pool
unfolding HashMap.get
small_pool-IsSound = record {
  positive = omega arith;
  within = (omega arith, tt);
  placed = small_pool-IsPlaced;
  holds = λ a c1 c2 e. cc;
}

abbrev second_of_two : Market
second_of_two = record { hash = "m2"; yes_asset = "y2"; no_asset = "n2" }

new_markets-Served_example :
    (p' : Pool) × (subscribe_markets unshuffled unshuffled two_markets small_pool ≡ ok p')
    × IsSound p'
    × Served p' second_of_two.yes_asset
    × Served p' second_of_two.no_asset
new_markets-Served_example =
    new_markets-Served unshuffled unshuffled unshuffled-IsShuffle unshuffled-IsShuffle two_markets
      small_pool 1 second_of_two small_pool-IsSound refl (unfold HashMap.get in refl)

-- One market, subscribed at two connections.
abbrev one_market : Pool
one_market = record {
  max_assets_per_conn = 3;
  connections = handle_of 0 ("y1" ∷ "n1" ∷ []) ∷ handle_of 1 ("y1" ∷ "n1" ∷ []) ∷ [];
  markets = ("m1", record { hash = "m1"; yes_asset = "y1"; no_asset = "n1" }) ∷ [];
  asset_to_conns = ("y1", (0, 1)) ∷ ("n1", (0, 1)) ∷ [];
  next_conn_id = 2;
  asset_conns_tx = [];
}

unsubscribe_markets-busy_example :
    occupied (unsubscribe_markets ("m0" ∷ []) one_market).connections 1 ≡ true
unfolding unsubscribe_markets remove_markets remove_market HashMap.get withdraw_all collect_garbage
    empty_indices gc_all
unsubscribe_markets-busy_example = unsubscribe_markets-busy ("m0" ∷ []) one_market 1 (omega arith)

unsubscribe_markets-registry_example :
    registry (unsubscribe_markets ("m1" ∷ []) one_market) "m1"
    ≡ close_markets ("m1" ∷ []) (registry one_market) "m1"
unsubscribe_markets-registry_example = unsubscribe_markets-registry ("m1" ∷ []) one_market "m1"

-- Both assets belong to the market.
abbrev owner_m1 : String → String
owner_m1 a = "m1"

new_pool-IsServing : IsServing owner_m1 (new 3)
new_pool-IsServing = new-IsServing owner_m1 3 (omega arith)

abbrev just_m1 : List Market
just_m1 = (record { hash = "m1"; yes_asset = "y1"; no_asset = "n1" }) ∷ []

subscribe_markets-IsServing_example :
    (p' : Pool) × (subscribe_markets unshuffled unshuffled just_m1 (new 3) ≡ ok p')
    × IsServing owner_m1 p'
subscribe_markets-IsServing_example =
    subscribe_markets-IsServing unshuffled unshuffled unshuffled-IsShuffle unshuffled-IsShuffle
      owner_m1 just_m1 (new 3) ((refl, refl), tt) new_pool-IsServing

with_m1 :
    (p' : Pool) × (subscribe_markets unshuffled unshuffled just_m1 (new 3) ≡ ok p')
    × IsServing owner_m1 p'
with_m1 =
    subscribe_markets-IsServing unshuffled unshuffled unshuffled-IsShuffle unshuffled-IsShuffle
      owner_m1 just_m1 (new 3) ((refl, refl), tt) new_pool-IsServing

unsubscribe_markets-IsServing_example :
    IsServing owner_m1 (unsubscribe_markets ("m1" ∷ []) with_m1.0)
unsubscribe_markets-IsServing_example =
    unsubscribe_markets-IsServing owner_m1 ("m1" ∷ []) with_m1.0 with_m1.2
