-- ===== src/Events/Explode.antt =====
-- What `explode` and `strip_hash` of events.rs do to the events.
use polymarket_orderbook_col.Base.{
  ℕ, String, ◌≡◌, refl, ◌∙◌, ap, sym, Option, none, List, [], ◌∷◌, ◌++◌, map, append-nil,
  append_assoc, length, length-map, All,
}
use polymarket_orderbook_col.Events.{
  WirePriceChange, WirePriceChangeEntry, WireMessage, Event, kind, asset_id, market, timestamp,
  strip_hash, entry_event, push_entries, explode,
}

module _ {D : Type 0} where
  -- The events that a message stands for, independent of the buffer.
  unfoldable pub events_of : WireMessage D → List (Event D)
  unfolding explode
  events_of (WireMessage.price_change pc) = map (entry_event pc) pc.price_changes
  events_of m = explode m []

  push_entries_lem :
      (pc : WirePriceChange D) (es : List (WirePriceChangeEntry D)) (out : List (Event D))
      → push_entries pc es out ≡ out ++ map (entry_event pc) es
  unfolding push_entries
  push_entries_lem pc [] out = sym (append-nil out)
  push_entries_lem pc (e ∷ es) out =
      push_entries_lem pc es (out ++ entry_event pc e ∷ [])
      ∙ append_assoc out (entry_event pc e ∷ []) (map (entry_event pc) es)

  pub explode-append :
      (m : WireMessage D) (out : List (Event D)) → explode m out ≡ out ++ events_of m
  unfolding explode events_of
  explode-append (WireMessage.price_change pc) out = push_entries_lem pc pc.price_changes out
  explode-append (WireMessage.book b) out = refl
  explode-append (WireMessage.last_trade_price t) out = refl
  explode-append (WireMessage.tick_size_change c) out = refl

  -- The market, timestamp, kind and number of events of a message.
  unfoldable pub wire_market : WireMessage D → String
  wire_market (WireMessage.book b) = b.market
  wire_market (WireMessage.price_change pc) = pc.market
  wire_market (WireMessage.last_trade_price t) = t.market
  wire_market (WireMessage.tick_size_change c) = c.market

  unfoldable pub wire_timestamp : WireMessage D → String
  wire_timestamp (WireMessage.book b) = b.timestamp
  wire_timestamp (WireMessage.price_change pc) = pc.timestamp
  wire_timestamp (WireMessage.last_trade_price t) = t.timestamp
  wire_timestamp (WireMessage.tick_size_change c) = c.timestamp

  unfoldable pub wire_kind : WireMessage D → String
  wire_kind (WireMessage.book b) = "book"
  wire_kind (WireMessage.price_change pc) = "price_change"
  wire_kind (WireMessage.last_trade_price t) = "last_trade_price"
  wire_kind (WireMessage.tick_size_change c) = "tick_size_change"

  unfoldable pub wire_count : WireMessage D → ℕ
  wire_count (WireMessage.price_change pc) = length pc.price_changes
  wire_count m = 1

  -- The event carries what its message says.
  abbrev pub Carries : WireMessage D → Event D → Type 0
  Carries m ev =
      (market ev ≡ wire_market m) × (timestamp ev ≡ wire_timestamp m) × (kind ev ≡ wire_kind m)

  entries_carry :
      (pc : WirePriceChange D) (es : List (WirePriceChangeEntry D))
      → All (Carries (WireMessage.price_change pc)) (map (entry_event pc) es)
  unfolding market timestamp kind wire_market wire_timestamp wire_kind entry_event
  entries_carry pc [] = tt
  entries_carry pc (e ∷ es) = ((refl, refl, refl), entries_carry pc es)

  -- The assets of a message, one for each event.
  unfoldable pub wire_assets : WireMessage D → List String
  wire_assets (WireMessage.book b) = b.asset_id ∷ []
  wire_assets (WireMessage.price_change pc) = map (λ e. e.asset_id) pc.price_changes
  wire_assets (WireMessage.last_trade_price t) = t.asset_id ∷ []
  wire_assets (WireMessage.tick_size_change c) = c.asset_id ∷ []

  entries-assets :
      (pc : WirePriceChange D) (es : List (WirePriceChangeEntry D))
      → map asset_id (map (entry_event pc) es) ≡ map (λ e. e.asset_id) es
  unfolding asset_id entry_event
  entries-assets pc [] = refl
  entries-assets pc (e ∷ es) = ap (λ l. e.asset_id ∷ l) (entries-assets pc es)

  pub length-events_of : (m : WireMessage D) → length (events_of m) ≡ wire_count m
  unfolding explode events_of wire_count
  length-events_of (WireMessage.price_change pc) = length-map (entry_event pc) pc.price_changes
  length-events_of (WireMessage.book b) = refl
  length-events_of _ = refl

  events_of-Carries : (m : WireMessage D) → All (Carries m) (events_of m)
  unfolding explode events_of market timestamp kind wire_market wire_timestamp wire_kind
  events_of-Carries (WireMessage.price_change pc) = entries_carry pc pc.price_changes
  events_of-Carries (WireMessage.book b) = ((refl, refl, refl), tt)
  events_of-Carries _ = ((refl, refl, refl), tt)

  events_of-assets : (m : WireMessage D) → map asset_id (events_of m) ≡ wire_assets m
  unfolding explode events_of asset_id wire_assets
  events_of-assets (WireMessage.price_change pc) = entries-assets pc pc.price_changes
  events_of-assets (WireMessage.book b) = refl
  events_of-assets _ = refl

  -- `explode` keeps the buffer and appends as many events as the message stands for (one, or one for
  -- each entry of a price change), for the assets of the message in its order, each with the
  -- message's market, timestamp and kind.
  pub explode_lem :
      (m : WireMessage D) (out : List (Event D))
      → (added : List (Event D)) × (explode m out ≡ out ++ added)
        × (length added ≡ wire_count m)
        × (map asset_id added ≡ wire_assets m)
        × All (Carries m) added
  explode_lem m out = (
    events_of m,
    explode-append m out,
    length-events_of m,
    events_of-assets m,
    events_of-Carries m,
  )

  -- The content hash of an event, and the event with another one.
  unfoldable pub hash_of : Event D → Option String
  hash_of (Event.book m a t bids asks h) = h
  hash_of (Event.price_change m a t bb ba h p s side) = h
  hash_of _ = none

  unfoldable pub with_hash : Option String → Event D → Event D
  with_hash h (Event.book m a t bids asks _) = Event.book m a t bids asks h
  with_hash h (Event.price_change m a t bb ba _ p s side) =
      Event.price_change m a t bb ba h p s side
  with_hash h (Event.last_trade_price m a t p s side fee tx) =
      Event.last_trade_price m a t p s side fee tx
  with_hash h (Event.tick_size_change m a t old new) = Event.tick_size_change m a t old new

  -- `strip_hash` leaves no content hash, and changes nothing else: putting the old hash back gives
  -- the event.
  pub strip_hash_lem :
      (ev : Event D)
      → (hash_of (strip_hash ev) ≡ none) × (with_hash (hash_of ev) (strip_hash ev) ≡ ev)
  unfolding strip_hash hash_of with_hash
  strip_hash_lem (Event.book m a t bids asks h) = (refl, refl)
  strip_hash_lem _ = (refl, refl)
