-- ===== src/Monitor/Rebuilt.antt =====
-- `rebuild_derived` of ws/pool.rs: what the index of connections and the states are afterwards.
use polymarket_orderbook_col.Base.{
  ℕ, String, ◌≡◌, refl, ap, ◌∙◌, subst, Option, none, some, List, [], ◌∷◌, ◌++◌, true, false, ◌||◌,
  ◌&&◌, arith, nat_key, string_key, ◌=?◌, same_refl, if◌then◌else◌, Bool-cases, Option-cases, inl,
  inr,
}
use polymarket_orderbook_col.Base.HashMap
use polymarket_orderbook_col.Base.HashMap.{
  get-insert, Unique, get→contains_key, get_some→contains_key,
}
use polymarket_orderbook_col.Base.HashSet
use polymarket_orderbook_col.Base.HashSet.{contains-append}
use polymarket_orderbook_col.Connection.{ConnStatus}
use polymarket_orderbook_col.Pool.{push_pending, pending_of}
use polymarket_orderbook_col.Monitor.{
  AssetState, Mapping, status_of, state_of, index_conns, retain_states, recompute_states,
}
use polymarket_orderbook_col.Monitor.Turn.{assets_of}

-- The state that the statuses of its two connections give an asset; none outside the mapping.
unfoldable pub expected : List (ℕ × ConnStatus) → Mapping → String → Option AssetState
expected statuses conns a = elim (HashMap.get conns a) [
  | none ↦ none
  | some (c1, c2) ↦ some (state_of (status_of statuses c1) (status_of statuses c2))
]

assets_of-push_pending :
    (c : ℕ) (b : String) (index : List (ℕ × List String)) (d : ℕ)
    → assets_of (push_pending c b index) d
      ≡ (if c =? d then assets_of index c ++ b ∷ [] else assets_of index d)
unfolding push_pending pending_of assets_of
assets_of-push_pending c b index d =
    ground (arith, get-insert c (assets_of index c ++ b ∷ []) index d)

contains-push_pending :
    (c : ℕ) (b : String) (index : List (ℕ × List String)) (d : ℕ) (a : String)
    → HashSet.contains (assets_of (push_pending c b index) d) a
      ≡ (((c =? d) && (b =? a)) || HashSet.contains (assets_of index d) a)
unfolding HashSet.contains
contains-push_pending c b index d a =
    rw (assets_of-push_pending c b index d) (elim (Bool-cases (c =? d)) [
      | inl hit ↦ rw hit (
          contains-append (assets_of index c) (b ∷ []) a
          ∙ ground (arith, ap (assets_of index) ((nat_key.same_iff c d).0 hit)))
      | inr miss ↦ rw miss refl
    ])

index_conns-grows :
    (conns : Mapping) (index : List (ℕ × List String)) (d : ℕ) (a : String)
    → HashSet.contains (assets_of index d) a ≡ true
    → HashSet.contains (assets_of (index_conns conns index) d) a ≡ true
unfolding index_conns
index_conns-grows [] index d a h = h
index_conns-grows ((b, (c1, c2)) ∷ rest) index d a h =
    index_conns-grows rest (push_pending c2 b (push_pending c1 b index)) d a (
      ground (
        arith,
        h,
        contains-push_pending c2 b (push_pending c1 b index) d a,
        contains-push_pending c1 b index d a,
      ))

pub index_conns-covers :
    (conns : Mapping) (index : List (ℕ × List String)) (a : String) (c1 c2 : ℕ)
    → HashMap.get conns a ≡ some (c1, c2)
    → (HashSet.contains (assets_of (index_conns conns index) c1) a ≡ true)
      × (HashSet.contains (assets_of (index_conns conns index) c2) a ≡ true)
unfolding index_conns HashMap.get
index_conns-covers [] index a c1 c2 h = cc
index_conns-covers ((b, (d1, d2)) ∷ rest) index a c1 c2 h = elim (Bool-cases (b =? a)) [
  | inl hit ↦
      let e1 : d1 ≡ c1 = ground (arith, h, hit) in
      let e2 : d2 ≡ c2 = ground (arith, h, hit) in
      let index1 = push_pending d1 b index in
      let here = index_conns-grows rest (push_pending d2 b index1) d1 a (
        ground (
          arith,
          hit,
          same_refl d1,
          contains-push_pending d2 b index1 d1 a,
          contains-push_pending d1 b index d1 a,
        )) in
      let there =
        index_conns-grows rest (push_pending d2 b index1) d2 a
          (ground (arith, hit, same_refl d2, contains-push_pending d2 b index1 d2 a)) in
      (
        subst
            (λ c.
              HashSet.contains (assets_of (index_conns rest (push_pending d2 b index1)) c) a ≡ true)
            e1 here,
        subst
            (λ c.
              HashSet.contains (assets_of (index_conns rest (push_pending d2 b index1)) c) a ≡ true)
            e2 there,
      )
  | inr miss ↦
      index_conns-covers rest (push_pending d2 b (push_pending d1 b index)) a c1 c2
        (ground (arith, h, miss))
]

pub index_conns-known :
    (conns : Mapping) (index : List (ℕ × List String)) (d : ℕ) (a : String)
    → HashSet.contains (assets_of (index_conns conns index) d) a ≡ true
    → (HashSet.contains (assets_of index d) a || HashMap.contains_key conns a) ≡ true
unfolding index_conns HashMap.contains_key
index_conns-known [] index d a h = ground (arith, h)
index_conns-known ((b, (c1, c2)) ∷ rest) index d a h = ground (
  arith,
  index_conns-known rest (push_pending c2 b (push_pending c1 b index)) d a h,
  contains-push_pending c2 b (push_pending c1 b index) d a,
  contains-push_pending c1 b index d a,
)

get-retain_states :
    (conns : Mapping) (states : List (String × AssetState)) (a : String)
    → HashMap.get (retain_states conns states) a
      ≡ (if HashMap.contains_key conns a then HashMap.get states a else none)
unfolding retain_states HashMap.get
get-retain_states conns [] a = ground arith
get-retain_states conns ((b, s) ∷ rest) a =
    ground (arith, string_key.same_iff b a, get-retain_states conns rest a)

get-recompute_states :
    (statuses : List (ℕ × ConnStatus)) (conns : Mapping) (states : List (String × AssetState))
    (a : String)
    → Unique conns
    → HashMap.get (recompute_states statuses conns states) a
      ≡ (if HashMap.contains_key conns a then expected statuses conns a else HashMap.get states a)
unfolding recompute_states expected HashMap.get HashMap.contains_key
get-recompute_states statuses [] states a u = refl
get-recompute_states statuses ((b, (c1, c2)) ∷ rest) states a (first, u) =
    get-recompute_states statuses rest
      (HashMap.insert b (state_of (status_of statuses c1) (status_of statuses c2)) states) a u
    ∙ (elim (Bool-cases (b =? a)) [
      | inl hit ↦
          let gone : HashMap.contains_key rest a ≡ false =
            subst (λ c. HashMap.contains_key rest c ≡ false) ((string_key.same_iff b a).0 hit)
              (get→contains_key rest b first) in
          rw (gone, get-insert) (ground (arith, hit))
      | inr miss ↦ rw get-insert (ground (arith, miss))
    ])

-- After a rebuild, exactly the assets of the mapping have a state, each the expected one.
pub get-rebuilt_states :
    (statuses : List (ℕ × ConnStatus)) (conns : Mapping) (states : List (String × AssetState))
    (a : String)
    → Unique conns
    → HashMap.get (recompute_states statuses conns (retain_states conns states)) a
      ≡ expected statuses conns a
unfolding expected
get-rebuilt_states statuses conns states a u =
    get-recompute_states statuses conns (retain_states conns states) a u
    ∙ (elim (Option-cases (HashMap.get conns a)) [
      | inl e ↦
          let gone = get→contains_key conns a e in
          rw (gone, get-retain_states) (rw (gone, expected) (rw (e, expected) refl))
      | inr (cs, e) ↦ rw (get_some→contains_key conns a cs e) refl
    ])
