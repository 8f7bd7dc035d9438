-- ===== src/Connection/Subscriptions.antt =====
-- The subscription state of a connection under the pool's commands and over reconnects.
use polymarket_orderbook_col.Base.{
  String, ◌≡◌, refl, subst, ◌∙◌, ap, inl, inr, List, [], ◌∷◌, ◌++◌, Bool, true, false, ◌||◌, ◌&&◌,
  not, arith, is_empty, string_key, Bool-cases, if◌then◌else◌,
}
use polymarket_orderbook_col.Base.HashSet.{contains, contains-extend}
use polymarket_orderbook_col.Connection.{
  SubState, Command, subscribe, unsubscribe, OutMessage, reset_session,
}
use polymarket_orderbook_col.Connection.Commands.{
  CommandState, after_write, payload, add_assets, remove_assets, do_subscribe, do_unsubscribe,
  do_command, resubscribe, send_subscribe,
}
use polymarket_orderbook_col.Connection.Loops.{
  Covered, add_assets-desired, add_assets-subscribed, add_assets-new, add_assets-initial_sent,
  add_assets-Covered, remove_assets-desired, remove_assets-Covered, send_subscribe-sets,
}

-- A command that is not empty, written with the loop's result shut.
do_subscribe-loop :
    (w : Bool) (x : String) (xs : List String) (s : CommandState) (added : SubState × List String)
    → add_assets (x ∷ xs) s.sub [] ≡ added
    → ((do_subscribe w (x ∷ xs) s).sub.desired ≡ added.0.desired)
      × ((do_subscribe w (x ∷ xs) s).sub.subscribed ≡ added.0.subscribed)
      × ((do_subscribe w (x ∷ xs) s).written ≡ (
          if is_empty added.1
          then s.written
          else after_write w (send_subscribe w added.0 added.1).1 s.written))
unfolding do_subscribe
do_subscribe-loop w x xs s added e =
    rw (e, do_subscribe)
      (elim (Bool-cases (is_empty added.1)) [
        | inl none_new ↦ rw none_new (refl, refl, refl)
        | inr some_new ↦ rw some_new (
          (send_subscribe-sets w added.0 added.1).0,
          (send_subscribe-sets w added.0 added.1).1,
          refl,
        )
      ])

do_unsubscribe-loop :
    (w : Bool) (x : String) (xs : List String) (s : CommandState) (gone : SubState × List String)
    → remove_assets (x ∷ xs) s.sub [] ≡ gone
    → (do_unsubscribe w (x ∷ xs) s).sub ≡ gone.0
unfolding do_unsubscribe
do_unsubscribe-loop w x xs s gone e =
    rw (e, do_unsubscribe)
      (elim (Bool-cases (is_empty gone.1)) [ inl same ↦ rw same | inr more ↦ rw more ])

Covered-sets :
    (sub sub' : SubState)
    → sub'.desired ≡ sub.desired
    → sub'.subscribed ≡ sub.subscribed
    → Covered sub
    → Covered sub'
Covered-sets sub sub' d e c = record {
  within = λ a h. rw d (c.within a (subst (λ l. contains l a ≡ true) e h));
}

-- Every command of the pool, whether or not its write succeeds, keeps the assets of the session
-- within the desired ones.
pub do_command-Covered :
    (w : Bool) (c : Command) (s : CommandState) → Covered s.sub → Covered (do_command w c s).sub
unfolding do_command do_subscribe do_unsubscribe
do_command-Covered w (subscribe []) s v = v
do_command-Covered w (unsubscribe []) s v = v
do_command-Covered w (subscribe (x ∷ xs)) s v =
    let added = add_assets (x ∷ xs) s.sub [] in
    let sets = do_subscribe-loop w x xs s added refl in
    Covered-sets added.0 (do_subscribe w (x ∷ xs) s).sub sets.0 sets.1
      (add_assets-Covered (x ∷ xs) s.sub [] v)
do_command-Covered w (unsubscribe (x ∷ xs)) s v =
    rw (do_unsubscribe-loop w x xs s (remove_assets (x ∷ xs) s.sub []) refl)
      (remove_assets-Covered (x ∷ xs) s.sub [] v)

-- The subscription message for the assets: the first one of a session differs.
abbrev pub subscription : SubState → List String → OutMessage
subscription sub new =
    if sub.initial_sent then payload new "operation" "subscribe" else payload new "type" "market"

send_subscribe-message :
    (w : Bool) (sub : SubState) (xs : List String)
    → (send_subscribe w sub xs).1 ≡ subscription sub xs
unfolding send_subscribe
send_subscribe-message w sub xs = ground arith

same_flag :
    (sub sub' : SubState) (new : List String)
    → sub'.initial_sent ≡ sub.initial_sent
    → subscription sub' new ≡ subscription sub new
same_flag sub sub' new e = rw e

-- A `Subscribe` of some assets makes exactly these desired and subscribed, in addition to what was;
-- if the write succeeds, one message is written, for the assets that were not yet subscribed in this
-- session, and none if there are no such assets or the write fails.
pub subscribe_lem :
    (w : Bool) (x : String) (xs : List String) (s : CommandState)
    → let s' = do_command w (subscribe (x ∷ xs)) s in
      ((a : String) → contains s'.sub.desired a ≡ (contains (x ∷ xs) a || contains s.sub.desired a))
      × ((a : String)
          → contains s'.sub.subscribed a ≡ (contains (x ∷ xs) a || contains s.sub.subscribed a))
      × (new : List String) × ((a : String)
          → contains new a ≡ (contains (x ∷ xs) a && not (contains s.sub.subscribed a)))
      × (s'.written
          ≡ (if is_empty new then s.written else after_write w (subscription s.sub new) s.written))
unfolding do_command
subscribe_lem w x xs s =
    let added = add_assets (x ∷ xs) s.sub [] in
    let loop = do_subscribe-loop w x xs s added refl in
    let s' = do_subscribe w (x ∷ xs) s in
    let flag = same_flag s.sub added.0 added.1 (add_assets-initial_sent (x ∷ xs) s.sub []) in
    (
      λ a. rw loop.0 (add_assets-desired (x ∷ xs) s.sub [] a),
      λ a. rw loop.1 (add_assets-subscribed (x ∷ xs) s.sub [] a),
      added.1,
      λ a. add_assets-new (x ∷ xs) s.sub [] a ∙ unfold contains in refl,
      loop.2
          ∙ ap (λ m. if is_empty added.1 then s.written else after_write w m s.written)
              (send_subscribe-message w added.0 added.1 ∙ flag),
    )

-- An `Unsubscribe` of some assets makes exactly these not desired, and none of them stays subscribed.
pub unsubscribe_lem :
    (w : Bool) (x : String) (xs : List String) (s : CommandState)
    → Covered s.sub
    → let s' = do_command w (unsubscribe (x ∷ xs)) s in
      ((a : String)
        → contains s'.sub.desired a ≡ (contains s.sub.desired a && not (contains (x ∷ xs) a)))
      × ((a : String) → (contains (x ∷ xs) a && contains s'.sub.subscribed a) ≡ false)
unfolding do_command
unsubscribe_lem w x xs s v =
    let s' = do_unsubscribe w (x ∷ xs) s in
    let desired : (a : String)
        → contains s'.sub.desired a ≡ (contains s.sub.desired a && not (contains (x ∷ xs) a)) =
      λ a.
        rw (do_unsubscribe-loop w x xs s (remove_assets (x ∷ xs) s.sub []) refl)
          (remove_assets-desired (x ∷ xs) s.sub [] a) in
    let covered = do_command-Covered w (unsubscribe (x ∷ xs)) s v in
    (desired, λ a. ground (arith, desired a, covered.within a))

-- A reconnect re-sends everything: after the session's state is reset and the first message is written,
-- the subscribed assets are the desired ones, which are as before, and the message, of the form for
-- a fresh socket, names them all; nothing is written if there are none.
pub resubscribe_lem :
    (s : CommandState)
    → let r = resubscribe true (record s { sub = reset_session s.sub }) in
      (r.1 ≡ true)
      × (r.0.sub.desired ≡ s.sub.desired)
      × ((a : String) → contains r.0.sub.subscribed a ≡ contains s.sub.desired a)
      × (r.0.written ≡ (
          if is_empty s.sub.desired
          then s.written
          else s.written ++ payload s.sub.desired "type" "market" ∷ []))
unfolding resubscribe reset_session send_subscribe contains
resubscribe_lem s = (
  ground arith,
  ground arith,
  λ a. ground (arith, contains-extend s.sub.desired [] a, none_in a),
  ground arith,
)
  where
    none_in : (a : String) → contains {K = String} [] a ≡ false
    none_in a = refl
