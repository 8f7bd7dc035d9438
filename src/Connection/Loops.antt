-- ===== src/Connection/Loops.antt =====
-- The loops of the pool's commands in ws/connection.rs, and their effect on the two sets.
use polymarket_orderbook_col.Base.{
  String, ◌≡◌, refl, inl, inr, List, [], ◌∷◌, ◌++◌, Bool, true, ◌||◌, ◌&&◌, not, arith, string_key,
  eq_iff, Bool-cases, if◌then◌else◌,
}
use polymarket_orderbook_col.Base.HashSet
use polymarket_orderbook_col.Base.HashSet.{
  contains, contains-insert, contains-remove, contains-append, contains-extend,
}
use polymarket_orderbook_col.Connection.{SubState}
use polymarket_orderbook_col.Connection.Commands.{add_assets, remove_assets, send_subscribe}

-- What was subscribed in this session is desired.
pub record Covered (sub : SubState) : Type 0 where
  pub within : (a : String) → contains sub.subscribed a ≡ true → contains sub.desired a ≡ true

-- After the loop of a `Subscribe`.
pub add_assets-desired :
    (xs : List String) (sub : SubState) (new : List String) (a : String)
    → contains (add_assets xs sub new).0.desired a ≡ (contains xs a || contains sub.desired a)
unfolding add_assets contains
add_assets-desired [] sub new a = refl
add_assets-desired (x ∷ xs) sub new a = ground (
  arith,
  add_assets-desired xs
      (record sub {
        desired = HashSet.insert x sub.desired;
        subscribed = HashSet.insert x sub.subscribed;
      })
      (if contains sub.subscribed x then new else new ++ x ∷ []) a,
  contains-insert x sub.desired a,
)

pub add_assets-subscribed :
    (xs : List String) (sub : SubState) (new : List String) (a : String)
    → contains (add_assets xs sub new).0.subscribed a ≡ (contains xs a || contains sub.subscribed a)
unfolding add_assets contains
add_assets-subscribed [] sub new a = refl
add_assets-subscribed (x ∷ xs) sub new a = ground (
  arith,
  add_assets-subscribed xs
      (record sub {
        desired = HashSet.insert x sub.desired;
        subscribed = HashSet.insert x sub.subscribed;
      })
      (if contains sub.subscribed x then new else new ++ x ∷ []) a,
  contains-insert x sub.subscribed a,
)

-- Which assets the loop finds to be new in the session.
pub add_assets-new :
    (xs : List String) (sub : SubState) (new : List String) (a : String)
    → contains (add_assets xs sub new).1 a
      ≡ (contains new a || (contains xs a && not (contains sub.subscribed a)))
unfolding add_assets contains
add_assets-new [] sub new a = ground arith
add_assets-new (x ∷ xs) sub new a = ground (
  arith,
  eq_iff x a,
  add_assets-new xs
      (record sub {
        desired = HashSet.insert x sub.desired;
        subscribed = HashSet.insert x sub.subscribed;
      })
      (if contains sub.subscribed x then new else new ++ x ∷ []) a,
  contains-insert x sub.subscribed a,
  contains-append new (x ∷ []) a,
)

pub add_assets-initial_sent :
    (xs : List String) (sub : SubState) (new : List String)
    → (add_assets xs sub new).0.initial_sent ≡ sub.initial_sent
unfolding add_assets
add_assets-initial_sent [] sub new = refl
add_assets-initial_sent (x ∷ xs) sub new = add_assets-initial_sent xs _ _

pub remove_assets-desired :
    (xs : List String) (sub : SubState) (gone : List String) (a : String)
    → contains (remove_assets xs sub gone).0.desired a
      ≡ (contains sub.desired a && not (contains xs a))
unfolding remove_assets contains
remove_assets-desired [] sub gone a = ground arith
remove_assets-desired (x ∷ xs) sub gone a = elim (Bool-cases (contains sub.desired x)) [
  | inl wanted ↦
      rw (wanted, remove_assets)
        (ground (
          arith,
          remove_assets-desired xs
              (record sub {
                desired = HashSet.remove x sub.desired;
                subscribed = HashSet.remove x sub.subscribed;
              })
              (gone ++ x ∷ []) a,
          contains-remove x sub.desired a,
        ))
  | inr unwanted ↦
      rw (unwanted, remove_assets)
        (ground (arith, eq_iff x a, unwanted, remove_assets-desired xs sub gone a))
]

abbrev drop_asset : String → SubState → SubState
drop_asset x sub = record sub {
  desired = HashSet.remove x sub.desired;
  subscribed = HashSet.remove x sub.subscribed;
}

drop_asset-Covered : (x : String) (sub : SubState) → Covered sub → Covered (drop_asset x sub)
drop_asset-Covered x sub c = record {
  within = λ a h.
      ground
        (arith, contains-remove x sub.subscribed a, contains-remove x sub.desired a, c.within a);
}

pub remove_assets-Covered :
    (xs : List String) (sub : SubState) (gone : List String)
    → Covered sub
    → Covered (remove_assets xs sub gone).0
unfolding remove_assets
remove_assets-Covered [] sub gone c = c
remove_assets-Covered (x ∷ xs) sub gone c = elim (Bool-cases (contains sub.desired x)) [
  | inl wanted ↦
      rw (wanted, remove_assets)
        (remove_assets-Covered xs (drop_asset x sub) (gone ++ x ∷ []) (drop_asset-Covered x sub c))
  | inr unwanted ↦ rw (unwanted, remove_assets) (remove_assets-Covered xs sub gone c)
]

pub add_assets-Covered :
    (xs : List String) (sub : SubState) (new : List String)
    → Covered sub
    → Covered (add_assets xs sub new).0
add_assets-Covered xs sub new c = record {
  within = λ a h.
      ground
        (arith, add_assets-desired xs sub new a, add_assets-subscribed xs sub new a, c.within a);
}

pub send_subscribe-sets :
    (w : Bool) (sub : SubState) (xs : List String)
    → ((send_subscribe w sub xs).0.desired ≡ sub.desired)
      × ((send_subscribe w sub xs).0.subscribed ≡ sub.subscribed)
      × ((send_subscribe w sub xs).0.initial_sent ≡ true)
unfolding send_subscribe
send_subscribe-sets w sub xs = (ground arith, ground arith, ground arith)
