-- ===== src/Pool/Room.antt =====
-- The room that the connections have left, under the pending additions of ws/pool.rs, and what the
-- search for a connection with room says of it.
use polymarket_orderbook_col.Base.{
  ℕ, suc, ◌+◌, ◌-◌, ◌≤◌, ◌<◌, String, ◌≡◌, refl, Option, none, some, List, [], ◌∷◌, ◌++◌, false,
  arith, length, length-append, ◌==◌, ==_iff, nat_key, if◌then◌else◌,
}
use polymarket_orderbook_col.Base.HashMap.{get-insert}
use polymarket_orderbook_col.Pool.{
  ConnHandle, Pending, pending_of, push_pending, excluded, find_from,
}

pub pending_of-push :
    (i : ℕ) (a : String) (p : Pending) (j : ℕ)
    → pending_of (push_pending i a p) j
      ≡ (if i == j then pending_of p i ++ a ∷ [] else pending_of p j)
unfolding push_pending pending_of
pending_of-push i a p j = ground (arith, get-insert i (pending_of p i ++ a ∷ []) p j)

pub length-pending_of-push :
    (i : ℕ) (a : String) (p : Pending) (j : ℕ)
    → length (pending_of (push_pending i a p) j)
      ≡ (if i == j then length (pending_of p j) + 1 else length (pending_of p j))
length-pending_of-push i a p j =
    ground (arith, pending_of-push i a p j, length-append (pending_of p i) (a ∷ []), ==_iff i j)

-- The assets of a connection, with those that are pending.
abbrev pub load : Pending → ℕ → ConnHandle → ℕ
load p i h = length h.assets + length (pending_of p i)

-- The room of the connections from the index `idx` on.
unfoldable pub free_from : ℕ → Pending → ℕ → List ConnHandle → ℕ
free_from limit p idx [] = 0
free_from limit p idx (h ∷ hs) = (limit - load p idx h) + free_from limit p (suc idx) hs

free_from-push_below :
    (limit : ℕ) (p : Pending) (i : ℕ) (a : String) (idx : ℕ) (hs : List ConnHandle)
    → i < idx
    → free_from limit (push_pending i a p) idx hs ≡ free_from limit p idx hs
unfolding free_from
free_from-push_below limit p i a idx [] h = refl
free_from-push_below limit p i a idx (c ∷ cs) h =
    ground (arith, length-pending_of-push i a p idx, free_from-push_below limit p i a (suc idx) cs)

-- No connection is found: there is no room.
pub find_from-none :
    (limit : ℕ) (p : Pending) (idx : ℕ) (hs : List ConnHandle)
    → find_from limit p none idx hs ≡ none
    → free_from limit p idx hs ≡ 0
unfolding find_from free_from
find_from-none limit p idx [] h = refl
find_from-none limit p idx (c ∷ cs) h = ground (arith, find_from-none limit p (suc idx) cs)

-- No connection but the excluded one is looked at: there is room at that one alone.
find_from-none_past :
    (limit : ℕ) (p : Pending) (e idx : ℕ) (hs : List ConnHandle)
    → e < idx
    → find_from limit p (some e) idx hs ≡ none
    → free_from limit p idx hs ≡ 0
unfolding find_from free_from
find_from-none_past limit p e idx [] g h = refl
find_from-none_past limit p e idx (c ∷ cs) g h =
    ground (arith, find_from-none_past limit p e (suc idx) cs)

pub find_from-none_other :
    (limit : ℕ) (p : Pending) (e idx : ℕ) (hs : List ConnHandle)
    → find_from limit p (some e) idx hs ≡ none
    → free_from limit p idx hs ≤ limit
unfolding find_from free_from
find_from-none_other limit p e idx [] h = omega arith
find_from-none_other limit p e idx (c ∷ cs) h =
    ground (
      arith,
      find_from-none_past limit p e (suc idx) cs,
      find_from-none_other limit p e (suc idx) cs,
    )

-- A connection that is found is another than the excluded one, is there, and has room.
pub find_from-some :
    (limit : ℕ) (p : Pending) (ex : Option ℕ) (a : String) (i idx : ℕ) (hs : List ConnHandle)
    → find_from limit p ex idx hs ≡ some i
    → (idx ≤ i)
      × (i < idx + length hs)
      × (excluded ex i ≡ false)
      × (free_from limit (push_pending i a p) idx hs + 1 ≡ free_from limit p idx hs)
unfolding find_from free_from
find_from-some limit p ex a i idx [] h = cc
find_from-some limit p ex a i idx (c ∷ cs) h = (
  ground (arith, find_from-some limit p ex a i (suc idx) cs),
  ground (arith, find_from-some limit p ex a i (suc idx) cs),
  ground (arith, find_from-some limit p ex a i (suc idx) cs),
  ground (
    arith,
    find_from-some limit p ex a i (suc idx) cs,
    length-pending_of-push i a p idx,
    free_from-push_below limit p i a (suc idx) cs,
  ),
)
