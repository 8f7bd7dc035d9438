-- ===== src/Pool/Held.antt =====
-- `subscribe_markets` of ws/pool.rs: both connections of an asset hold it.
use polymarket_orderbook_col.Base.{
  ok-eq, Result-cases, ℕ, zero, suc, ◌-◌, String, ◌≡◌, refl, ap, subst, none, some, List, [], ◌∷◌,
  ◌++◌, Bool, true, ◌||◌, ◌&&◌, arith, length, get_elem?, is_empty, ok, ◌==◌, ==_iff, ◌=?◌, nat_key,
  string_key, Bool-cases, Option-cases, inl, inr,
}
use polymarket_orderbook_col.Base.HashMap
use polymarket_orderbook_col.Base.HashMap.{get-insert}
use polymarket_orderbook_col.Base.HashSet
use polymarket_orderbook_col.Base.HashSet.{contains-append, contains-extend}
use polymarket_orderbook_col.Pool.{
  ConnHandle, Pool, Pending, pending_of, push_pending, find_conn_with_capacity, spawn_connection,
}
use polymarket_orderbook_col.Pool.Passes.{FirstPass, pass1, SecondPass, place_second, pass2, pass3}
use polymarket_orderbook_col.Pool.Subscribe.{place_overflow}
use polymarket_orderbook_col.Pool.Room.{pending_of-push}

-- The assets of the connection at an index.
unfoldable pub assets_at : List ConnHandle → ℕ → List String
assets_at conns c = elim (get_elem? conns c) [ none ↦ [] | some h ↦ h.assets ]

-- Whether a connection has an asset, or it is pending there.
abbrev pub has : List ConnHandle → Pending → ℕ → String → Bool
has conns pending c a =
    HashSet.contains (assets_at conns c) a || HashSet.contains (pending_of pending c) a

-- Both connections of every asset have it.
abbrev pub Holds : List ConnHandle → Pending → List (String × (ℕ × ℕ)) → Type 0
Holds conns pending index =
    (a : String) (c1 c2 : ℕ)
    → HashMap.get index a ≡ some (c1, c2)
    → (has conns pending c1 a ≡ true) × (has conns pending c2 a ≡ true)

-- The first connections have their assets pending.
abbrev pub FirstHolds : Pending → List (String × ℕ) → Type 0
FirstHolds pending first_conn =
    (a : String) (c : ℕ)
    → HashMap.get first_conn a ≡ some c
    → HashSet.contains (pending_of pending c) a ≡ true

contains-push :
    (i : ℕ) (b : String) (p : Pending) (c : ℕ) (a : String)
    → HashSet.contains (pending_of (push_pending i b p) c) a
      ≡ (((i == c) && (b =? a)) || HashSet.contains (pending_of p c) a)
contains-push i b p c a = elim (Bool-cases (i == c)) [
  | inl here ↦
      let same : i ≡ c = (==_iff i c).0 here in
      rw (pending_of-push i b p c) (
        rw here (
          rw (contains-append (pending_of p i) (b ∷ []) a) (
            unfold HashSet.contains in
            ground (arith, ap (λ k. HashSet.contains (pending_of p k) a) same))))
  | inr there ↦ rw (pending_of-push i b p c) (rw there refl)
]

Holds-insert :
    (conns : List ConnHandle) (p : Pending) (index : List (String × (ℕ × ℕ))) (b : String)
    (d1 d2 : ℕ)
    → HashSet.contains (pending_of p d1) b ≡ true
    → Holds conns p index
    → Holds conns (push_pending d2 b p) (HashMap.insert b (d1, d2) index)
Holds-insert conns p index b d1 d2 first h a c1 c2 e = elim (Bool-cases (b =? a)) [
  | inl hit ↦
      let e1 : d1 ≡ c1 = ground (arith, hit, e, get-insert b (d1, d2) index a) in
      let e2 : d2 ≡ c2 = ground (arith, hit, e, get-insert b (d1, d2) index a) in
      let same : b ≡ a = (string_key.same_iff b a).0 hit in
      let pending : HashSet.contains (pending_of p c1) a ≡ true =
        subst (λ k. HashSet.contains (pending_of p k) a ≡ true) e1
          (subst (λ k. HashSet.contains (pending_of p d1) k ≡ true) same first) in
      (
        ground (arith, contains-push d2 b p c1 a, pending),
        ground (arith, contains-push d2 b p c2 a, hit, ==_iff d2 c2, e2),
      )
  | inr miss ↦
      let (h1, h2) = h a c1 c2 (ground (arith, miss, e, get-insert b (d1, d2) index a)) in
      (ground (arith, contains-push d2 b p c1 a, h1), ground (arith, contains-push d2 b p c2 a, h2))
]

pub pass1-FirstHolds :
    (p : Pool) (order : List String) (s s' : FirstPass)
    → pass1 p order s ≡ ok s'
    → FirstHolds s.pending s.first_conn
    → FirstHolds s'.pending s'.first_conn
unfolding pass1
pass1-FirstHolds p [] s s' run f = subst (λ t. FirstHolds t.pending t.first_conn) (ok-eq s s' run) f
pass1-FirstHolds p (b ∷ order) s s' run f =
    elim (Option-cases (find_conn_with_capacity p s.pending none)) [
      | inl e ↦ cc (rw (e, pass1) at run)
      | inr (i, e) ↦
          pass1-FirstHolds p order
            (record {
              pending = push_pending i b s.pending;
              first_conn = HashMap.insert b i s.first_conn;
            })
            s' (rw (e, pass1) at run)
            (λ a c h. ground (
              arith,
              h,
              contains-push i b s.pending c a,
              get-insert b i s.first_conn a,
              f a c,
              ==_iff i c,
            ))
    ]

FirstHolds-push :
    (i : ℕ) (b : String) (p : Pending) (first_conn : List (String × ℕ))
    → FirstHolds p first_conn
    → FirstHolds (push_pending i b p) first_conn
FirstHolds-push i b p first_conn f a c h = ground (arith, contains-push i b p c a, f a c h)

Holds-push :
    (conns : List ConnHandle) (i : ℕ) (b : String) (p : Pending) (index : List (String × (ℕ × ℕ)))
    → Holds conns p index
    → Holds conns (push_pending i b p) index
Holds-push conns i b p index h a c1 c2 e =
    let (h1, h2) = h a c1 c2 e in
    (ground (arith, contains-push i b p c1 a, h1), ground (arith, contains-push i b p c2 a, h2))

-- What pass 2 and pass 3 keep.
pub record IsHeld (conns : List ConnHandle) (first_conn : List (String × ℕ)) (s : SecondPass)
    : Type 0 where
  pub first : FirstHolds s.pending first_conn
  pub holds : Holds conns s.pending s.asset_to_conns

place_second-IsHeld :
    (p : Pool) (first_conn : List (String × ℕ)) (b : String) (first : ℕ) (s : SecondPass)
    → HashMap.get first_conn b ≡ some first
    → IsHeld p.connections first_conn s
    → IsHeld p.connections first_conn (place_second p b first s)
unfolding place_second
place_second-IsHeld p first_conn b first s key v =
    elim (Option-cases (find_conn_with_capacity p s.pending (some first))) [
      | inl e ↦ rw (e, place_second) (record { first = v.first; holds = v.holds })
      | inr (i, e) ↦
          rw (e, place_second)
            (record {
              first = FirstHolds-push i b s.pending first_conn v.first;
              holds =
                  Holds-insert p.connections s.pending s.asset_to_conns b first i
                    (v.first b first key) v.holds;
            })
    ]

pub pass2-IsHeld :
    (p : Pool) (first_conn : List (String × ℕ)) (order : List String) (s s' : SecondPass)
    → pass2 p first_conn order s ≡ ok s'
    → IsHeld p.connections first_conn s
    → IsHeld p.connections first_conn s'
unfolding pass2
pass2-IsHeld p first_conn [] s s' run v = subst (IsHeld p.connections first_conn) (ok-eq s s' run) v
pass2-IsHeld p first_conn (b ∷ order) s s' run v = elim (Option-cases (HashMap.get first_conn b)) [
  | inl e ↦ cc (rw (e, pass2) at run)
  | inr (first, e) ↦
      pass2-IsHeld p first_conn order (place_second p b first s) s' (rw (e, pass2) at run)
        (place_second-IsHeld p first_conn b first s e v)
]

pass3-IsHeld :
    (conns : List ConnHandle) (n : ℕ) (first_conn : List (String × ℕ)) (order : List String)
    (s s' : SecondPass)
    → pass3 n first_conn order s ≡ ok s'
    → IsHeld conns first_conn s
    → IsHeld conns first_conn s'
unfolding pass3
pass3-IsHeld conns n first_conn [] s s' run v = subst (IsHeld conns first_conn) (ok-eq s s' run) v
pass3-IsHeld conns n first_conn (b ∷ order) s s' run v =
    elim (Option-cases (HashMap.get first_conn b)) [
      | inl e ↦ cc (rw (e, pass3) at run)
      | inr (first, e) ↦
          pass3-IsHeld conns n first_conn order
            (record {
              pending = push_pending n b s.pending;
              asset_to_conns = HashMap.insert b (first, n) s.asset_to_conns;
              overflow = s.overflow;
            })
            s' (rw (e, pass3) at run)
            (record {
              first = FirstHolds-push n b s.pending first_conn v.first;
              holds =
                  Holds-insert conns s.pending s.asset_to_conns b first n (v.first b first e)
                    v.holds;
            })
    ]

-- A fresh connection has no assets.
assets_at-fresh :
    (conns : List ConnHandle) (n c : ℕ)
    → assets_at
        (conns ++ (record { conn_id = n; assets = []; mailbox = []; is_open = true }) ∷ [])
        c
      ≡ assets_at conns c
unfolding assets_at
assets_at-fresh [] n zero = refl
assets_at-fresh [] n (suc c) = refl
assets_at-fresh (h ∷ hs) n zero = refl
assets_at-fresh (h ∷ hs) n (suc c) = assets_at-fresh hs n c

pub Holds-spawn :
    (p : Pool) (pending : Pending) (index : List (String × (ℕ × ℕ)))
    → Holds p.connections pending index
    → Holds (spawn_connection p).connections pending index
unfolding spawn_connection
Holds-spawn p pending index h a c1 c2 e =
    let (h1, h2) = h a c1 c2 e in
    (
      rw (assets_at-fresh p.connections p.next_conn_id c1) h1,
      rw (assets_at-fresh p.connections p.next_conn_id c2) h2,
    )

pub place_overflow-Holds :
    (first_conn : List (String × ℕ)) (p : Pool) (s : SecondPass) (q : Pool × SecondPass)
    → place_overflow first_conn p s ≡ ok q
    → IsHeld p.connections first_conn s
    → Holds q.0.connections q.1.pending q.1.asset_to_conns
unfolding place_overflow
place_overflow-Holds first_conn p s q run v = elim (Bool-cases (is_empty s.overflow)) [
  | inl e ↦
      subst (λ t. Holds t.0.connections t.1.pending t.1.asset_to_conns)
        (ok-eq (p, s) q (rw (e, place_overflow) at run)) v.holds
  | inr e ↦
      let q1 = spawn_connection p in
      elim (Result-cases (pass3 (length q1.connections - 1) first_conn s.overflow s)) [
        | inl (s1, ran) ↦
            let held =
              pass3-IsHeld q1.connections (length q1.connections - 1) first_conn s.overflow s s1 ran
                (record {
                  first = v.first;
                  holds = Holds-spawn p s.pending s.asset_to_conns v.holds;
                }) in
            subst (λ t. Holds t.0.connections t.1.pending t.1.asset_to_conns)
              (ok-eq (q1, s1) q (rw ran at (rw (e, place_overflow) at run))) held.holds
        | inr (bad, ran) ↦ cc (rw ran at (rw (e, place_overflow) at run))
      ]
]
