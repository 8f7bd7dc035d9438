-- ===== src/Pool/Withdrawn.antt =====
-- `unsubscribe_markets` of ws/pool.rs: what is left keeps its connections, which keep holding it.
use polymarket_orderbook_col.Base.{
  ℕ, zero, suc, ◌+◌, ◌≤◌, String, ◌≡◌, refl, ◌∙◌, some, List, [], ◌∷◌, ◌++◌, false, arith, length,
  All, ◌==◌, ◌=?◌, nat_key, string_key, Bool-cases, Option-cases, inl, inr,
}
use polymarket_orderbook_col.Base.HashMap
use polymarket_orderbook_col.Base.HashMap.{get-remove}
use polymarket_orderbook_col.Base.HashSet
use polymarket_orderbook_col.Base.HashSet.{contains-append, contains-remove, length-remove-le}
use polymarket_orderbook_col.Pool.{ConnHandle, Pending, pending_of, push_pending}
use polymarket_orderbook_col.Pool.Subscribe.{modify}
use polymarket_orderbook_col.Pool.Unsubscribe.{
  Removal, remove_asset, remove_market, remove_markets, remove_each, withdraw, withdraw_all,
}
use polymarket_orderbook_col.Pool.Gc.{length-modify}
use polymarket_orderbook_col.Pool.Spawning.{Within}
use polymarket_orderbook_col.Pool.Held.{assets_at}

-- An asset that is not to be unsubscribed anywhere.
abbrev pub Unmentioned : String → Pending → Type 0
Unmentioned b p = All (λ (e : ℕ × List String). HashSet.contains e.1 b ≡ false) p

Unmentioned-pending_of :
    (b : String) (p : Pending) (i : ℕ)
    → Unmentioned b p
    → HashSet.contains (pending_of p i) b ≡ false
unfolding pending_of HashMap.get HashSet.contains
Unmentioned-pending_of b [] i u = refl
Unmentioned-pending_of b ((j, xs) ∷ p) i u = ground (arith, u.0, Unmentioned-pending_of b p i u.1)

Unmentioned-insert :
    (b : String) (i : ℕ) (xs : List String) (p : Pending)
    → HashSet.contains xs b ≡ false
    → Unmentioned b p
    → Unmentioned b (HashMap.insert i xs p)
unfolding HashMap.insert
Unmentioned-insert b i xs [] h u = (h, tt)
Unmentioned-insert b i xs ((j, ys) ∷ p) h u = elim (Bool-cases (j == i)) [
  | inl hit ↦ rw (hit, HashMap.insert) (h, u.1)
  | inr miss ↦ rw (miss, HashMap.insert) (u.0, Unmentioned-insert b i xs p h u.1)
]

Unmentioned-push :
    (b : String) (i : ℕ) (a : String) (p : Pending)
    → (a =? b) ≡ false
    → Unmentioned b p
    → Unmentioned b (push_pending i a p)
unfolding push_pending
Unmentioned-push b i a p other u =
    Unmentioned-insert b i (pending_of p i ++ a ∷ []) p
      (rw (contains-append (pending_of p i) (a ∷ []) b)
        (rw (Unmentioned-pending_of b p i u) (unfold HashSet.contains in ground (arith, other))))
      u

-- The entries that are left are old ones, of assets that are not to be unsubscribed.
pub record IsLeft (index : List (String × (ℕ × ℕ))) (r : Removal) : Type 0 where
  pub entry :
      (a : String) (c : ℕ × ℕ)
      → HashMap.get r.asset_to_conns a ≡ some c
      → (HashMap.get index a ≡ some c) × Unmentioned a r.conn_unsubs

remove_asset-IsLeft :
    (index : List (String × (ℕ × ℕ))) (b : String) (r : Removal)
    → IsLeft index r
    → IsLeft index (remove_asset b r)
unfolding remove_asset
remove_asset-IsLeft index b r v = elim (Option-cases (HashMap.get r.asset_to_conns b)) [
  | inl e ↦ rw (e, remove_asset) (record { entry = v.entry })
  | inr ((d1, d2), e) ↦
      rw (e, remove_asset)
        (record {
          entry = λ a c found. elim (Bool-cases (b =? a)) [
            | inl hit ↦ absurd (ground (arith, hit, found, get-remove b r.asset_to_conns a))
            | inr miss ↦
                let (old, u) =
                  v.entry a c (ground (arith, miss, found, get-remove b r.asset_to_conns a)) in
                (
                  old,
                  Unmentioned-push a d2 b (push_pending d1 b r.conn_unsubs) miss
                      (Unmentioned-push a d1 b r.conn_unsubs miss u),
                )
          ];
        })
]

remove_market-IsLeft :
    (index : List (String × (ℕ × ℕ))) (hash : String) (r : Removal)
    → IsLeft index r
    → IsLeft index (remove_market hash r)
unfolding remove_market
remove_market-IsLeft index hash r v = elim (Option-cases (HashMap.get r.markets hash)) [
  | inl e ↦ rw (e, remove_market) (record { entry = v.entry })
  | inr (market, e) ↦
      let r1 : Removal = record r {
        markets = HashMap.remove hash r.markets;
        removed_count = r.removed_count + 1;
      } in
      rw (e, remove_market)
        (remove_asset-IsLeft index market.no_asset (remove_asset market.yes_asset r1)
          (remove_asset-IsLeft index market.yes_asset r1 (record { entry = v.entry })))
]

pub remove_markets-IsLeft :
    (index : List (String × (ℕ × ℕ))) (hashes : List String) (r : Removal)
    → IsLeft index r
    → IsLeft index (remove_markets hashes r)
unfolding remove_markets
remove_markets-IsLeft index [] r v = v
remove_markets-IsLeft index (hash ∷ rest) r v =
    remove_markets-IsLeft index rest (remove_market hash r) (remove_market-IsLeft index hash r v)

contains-remove_each :
    (xs s : List String) (b : String)
    → HashSet.contains xs b ≡ false
    → HashSet.contains (remove_each xs s) b ≡ HashSet.contains s b
unfolding remove_each HashSet.contains
contains-remove_each [] s b h = refl
contains-remove_each (x ∷ xs) s b h =
    ground (arith, h, contains-remove_each xs (HashSet.remove x s) b, contains-remove x s b)

contains-withdraw :
    (xs : List String) (i : ℕ) (conns : List ConnHandle) (c : ℕ) (b : String)
    → HashSet.contains xs b ≡ false
    → HashSet.contains (assets_at (modify (withdraw xs) i conns) c) b
      ≡ HashSet.contains (assets_at conns c) b
unfolding modify assets_at
contains-withdraw xs i [] c b h = refl
contains-withdraw xs zero (x ∷ hs) zero b h = contains-remove_each xs x.assets b h
contains-withdraw xs zero (x ∷ hs) (suc c) b h = refl
contains-withdraw xs (suc i) (x ∷ hs) zero b h = refl
contains-withdraw xs (suc i) (x ∷ hs) (suc c) b h = contains-withdraw xs i hs c b h

pub contains-withdraw_all :
    (p : Pending) (conns : List ConnHandle) (c : ℕ) (b : String)
    → Unmentioned b p
    → HashSet.contains (assets_at (withdraw_all p conns) c) b
      ≡ HashSet.contains (assets_at conns c) b
unfolding withdraw_all
contains-withdraw_all [] conns c b u = refl
contains-withdraw_all ((i, xs) ∷ p) conns c b u =
    contains-withdraw_all p (modify (withdraw xs) i conns) c b u.1
    ∙ contains-withdraw xs i conns c b u.0

pub length-withdraw_all :
    (p : Pending) (conns : List ConnHandle) → length (withdraw_all p conns) ≡ length conns
unfolding withdraw_all
length-withdraw_all [] conns = refl
length-withdraw_all ((i, xs) ∷ p) conns =
    length-withdraw_all p (modify (withdraw xs) i conns) ∙ length-modify (withdraw xs) i conns

length-remove_each : (xs s : List String) → length (remove_each xs s) ≤ length s
unfolding remove_each
length-remove_each [] s = omega arith
length-remove_each (x ∷ xs) s =
    omega (arith, length-remove_each xs (HashSet.remove x s), length-remove-le x s)

withdraw-Within :
    (limit : ℕ) (xs : List String) (i : ℕ) (conns : List ConnHandle)
    → Within limit conns
    → Within limit (modify (withdraw xs) i conns)
unfolding modify
withdraw-Within limit xs i [] w = tt
withdraw-Within limit xs zero (x ∷ hs) w = (omega (arith, length-remove_each xs x.assets, w.0), w.1)
withdraw-Within limit xs (suc i) (x ∷ hs) w = (w.0, withdraw-Within limit xs i hs w.1)

pub withdraw_all-Within :
    (limit : ℕ) (p : Pending) (conns : List ConnHandle)
    → Within limit conns
    → Within limit (withdraw_all p conns)
unfolding withdraw_all
withdraw_all-Within limit [] conns w = w
withdraw_all-Within limit ((i, xs) ∷ p) conns w =
    withdraw_all-Within limit p (modify (withdraw xs) i conns) (withdraw-Within limit xs i conns w)
