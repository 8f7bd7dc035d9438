-- ===== src/Pool/Serving.antt =====
-- The pool of ws/pool.rs over time: every registered market has both its assets on two connections.
use polymarket_orderbook_col.Base.{
  ℕ, zero, suc, ◌<◌, String, ◌≡◌, refl, sym, ap, ◌∙◌, subst, some, List, [], ◌∷◌, Bool, true, false,
  arith, All, get_elem?, ok, ◌=?◌, string_key, Bool-cases, Option-cases, inl, inr,
}
use polymarket_orderbook_col.Base.HashMap
use polymarket_orderbook_col.Base.HashMap.{get-remove, contains_key→get, get_some→contains_key}
use polymarket_orderbook_col.Base.HashSet
use polymarket_orderbook_col.Events.{Market}
use polymarket_orderbook_col.Pool.{
  Pool, new, pending_of, spawn_connection, spawn_connections, update_monitor_mappings,
}
use polymarket_orderbook_col.Pool.Subscribe.{collect, register, subscribe_markets}
use polymarket_orderbook_col.Pool.Unsubscribe.{Removal, collect_garbage, unsubscribe_markets}
use polymarket_orderbook_col.Pool.Steps.{subscribe_markets-steps}
use polymarket_orderbook_col.Pool.Total.{IsShuffle}
use polymarket_orderbook_col.Pool.Sound.{IsSound, subscribe_markets-IsSound}
use polymarket_orderbook_col.Pool.Collect.{rename, collect_garbage-Follows}
use polymarket_orderbook_col.Pool.Unsubscribed.{
  withdrawn, unsubscribe_markets-elim, unsubscribe_markets-IsSound,
}
use polymarket_orderbook_col.Pool.Registry.{registry, last_with, subscribe_markets-registry}
use polymarket_orderbook_col.Pool.Closed.{unsubscribe_markets-registry}
use polymarket_orderbook_col.Pool.Tracked.{Served, tracked-Served, Assigned-tracked, tracked_after}
use polymarket_orderbook_col.Pool.Owned.{IsOwning, remove_markets-other}

abbrev pub tracked : Pool → String → Bool
tracked p a = HashMap.contains_key p.asset_to_conns a

-- The assets of a market belong to it: `owner` names the market of an asset.
abbrev pub Owns : (String → String) → Market → Type 0
Owns owner m = (owner m.yes_asset ≡ m.hash) × (owner m.no_asset ≡ m.hash)

-- What the registered markets of a pool look like.
pub record IsRegistered (owner : String → String) (p : Pool) (hash : String) (m : Market)
    : Type 0 where
  pub same_hash : m.hash ≡ hash
  pub owns : Owns owner m
  pub yes_tracked : tracked p m.yes_asset ≡ true
  pub no_tracked : tracked p m.no_asset ≡ true

-- A sound pool with both assets of every registered market in the reverse index.
pub record IsServing (owner : String → String) (p : Pool) : Type 0 where
  pub sound : IsSound p
  pub registered :
      (hash : String) (m : Market) → registry p hash ≡ some m → IsRegistered owner p hash m

-- Both assets of every registered market have two different connections, both of which have the asset.
pub registered-Served :
    (owner : String → String) (p : Pool) (hash : String) (m : Market)
    → IsServing owner p
    → registry p hash ≡ some m
    → Served p m.yes_asset × Served p m.no_asset
registered-Served owner p hash m s h =
    let r = s.registered hash m h in
    (
      tracked-Served p m.yes_asset s.sound r.yes_tracked,
      tracked-Served p m.no_asset s.sound r.no_tracked,
    )

-- Where the market with a hash stands in a batch.
last_with-place :
    (ms : List Market) (hash : String) (m : Market)
    → last_with ms hash ≡ some m
    → (i : ℕ) × (get_elem? ms i ≡ some m) × (m.hash ≡ hash)
last_with-place [] hash m h = cc
last_with-place (x ∷ ms) hash m h = elim (Option-cases (last_with ms hash)) [
  | inl nowhere ↦ elim (Bool-cases (x.hash =? hash)) [
    | inl here ↦
        let same : x ≡ m = cc (rw here at (rw nowhere at h)) in
        (
          0,
          ap some same,
          subst (λ (t : Market). t.hash ≡ hash) same ((string_key.same_iff x.hash hash).0 here),
        )
    | inr other ↦ cc (rw other at (rw nowhere at h))
  ]
  | inr (y, there) ↦
      let same : y ≡ m = cc (rw there at h) in
      let (i, at, e) = last_with-place ms hash m (there ∙ ap some same) in (suc i, at, e)
]

All-get_elem? {ℓ κ} :
    {A : Type ℓ} (P : A → Type κ) (xs : List A) (i : ℕ) (x : A)
    → All P xs
    → get_elem? xs i ≡ some x
    → P x
All-get_elem? P [] i x h e = absurd cc
All-get_elem? P (y ∷ ys) zero x h e = let same : y ≡ x = cc e in subst P same h.0
All-get_elem? P (y ∷ ys) (suc i) x h e = All-get_elem? P ys i x h.1 e

spawn_connections-tracked :
    (n : ℕ) (p : Pool) (a : String) → tracked (spawn_connections n p) a ≡ tracked p a
unfolding spawn_connections spawn_connection
spawn_connections-tracked zero p a = refl
spawn_connections-tracked (suc n) p a = spawn_connections-tracked n (spawn_connection p) a

module _ (shuffle1 shuffle2 : List String → List String) (fair1 : IsShuffle shuffle1)
    (fair2 : IsShuffle shuffle2) (owner : String → String) where
  still_tracked :
      (ms : List Market) (p p' : Pool) (a : String)
      → subscribe_markets shuffle1 shuffle2 ms p ≡ ok p'
      → tracked p a ≡ true
      → tracked p' a ≡ true
  still_tracked ms p p' a run h =
      let found = collect p.markets ms [] [] in
      let p1 = record p { markets = register found.1 p.markets } in
      elim (subscribe_markets-steps shuffle1 shuffle2 ms p p' run) [
        | inl (nothing, same) ↦ subst (λ (q : Pool). tracked q a ≡ true) same h
        | inr (n, r) ↦
            Assigned-tracked shuffle1 shuffle2 fair1 fair2 found.0 (spawn_connections n p1) p' r a
              (ground (arith, spawn_connections-tracked n p1 a, h))
      ]

  -- `subscribe_markets` returns and keeps the pool serving (both assets of every registered market in the
  -- reverse index, each with two different connections that have it, no connection above its limit), if
  -- the shuffles keep the items and the assets of the batch's markets belong to their markets.
  pub subscribe_markets-IsServing :
      (ms : List Market) (p : Pool)
      → All (Owns owner) ms
      → IsServing owner p
      → (p' : Pool) × (subscribe_markets shuffle1 shuffle2 ms p ≡ ok p') × IsServing owner p'
  subscribe_markets-IsServing ms p owns s =
      let (p', run, sound) = subscribe_markets-IsSound shuffle1 shuffle2 fair1 fair2 ms p s.sound in
      (
        p',
        run,
        record {
          sound = sound;
          registered = λ hash m h.
              let e = sym (subscribe_markets-registry shuffle1 shuffle2 ms p p' run hash) ∙ h in
              elim (Option-cases (registry p hash)) [
                | inr (old, there) ↦
                    let same : old ≡ m = cc (rw there at e) in
                    let r = s.registered hash m (there ∙ ap some same) in
                    record {
                      same_hash = r.same_hash;
                      owns = r.owns;
                      yes_tracked = still_tracked ms p p' m.yes_asset run r.yes_tracked;
                      no_tracked = still_tracked ms p p' m.no_asset run r.no_tracked;
                    }
                | inl free ↦
                    let (i, at, name) = last_with-place ms hash m (rw free at e) in
                    let (has_yes, has_no) =
                      tracked_after shuffle1 shuffle2 fair1 fair2 ms p p' i m run at
                        (ap (registry p) name ∙ free) in
                    record {
                      same_hash = name;
                      owns = All-get_elem? (Owns owner) ms i m owns at;
                      yes_tracked = has_yes;
                      no_tracked = has_no;
                    }
              ];
        },
      )

module _ (owner : String → String) where
  collect_garbage-tracked :
      (p : Pool) (a : String) → tracked p a ≡ true → tracked (collect_garbage p) a ≡ true
  collect_garbage-tracked p a h =
      let f = collect_garbage-Follows p in
      let ((c1, c2), e) = contains_key→get p.asset_to_conns a h in
      get_some→contains_key (collect_garbage p).asset_to_conns a (f.to c1, f.to c2)
        (f.index a ∙ ap (rename f.to) e)

  -- `unsubscribe_markets` keeps the pool serving the markets that are left, with the garbage collection and
  -- the renaming of connections.
  pub unsubscribe_markets-IsServing :
      (hashes : List String) (p : Pool)
      → IsServing owner p
      → IsServing owner (unsubscribe_markets hashes p)
  unsubscribe_markets-IsServing hashes p s =
      let r0 : Removal = record {
        markets = p.markets;
        asset_to_conns = p.asset_to_conns;
        conn_unsubs = [];
        removed_count = 0;
      } in
      let owning : IsOwning owner r0 = λ hash m h.
        let r = s.registered hash m h in (r.owns.0 ∙ r.same_hash, r.owns.1 ∙ r.same_hash) in
      let kept : (a : String)
          → HashSet.contains hashes (owner a) ≡ false
          → tracked p a ≡ true
          → tracked (unsubscribe_markets hashes p) a ≡ true =
        λ a other h.
          unsubscribe_markets-elim (λ q. tracked q a ≡ true) hashes p
            (λ q t. unfold update_monitor_mappings in t)
            (collect_garbage-tracked (withdrawn hashes p) a (
              let ((c1, c2), e) = contains_key→get p.asset_to_conns a h in
              get_some→contains_key (withdrawn hashes p).asset_to_conns a (c1, c2)
                (remove_markets-other owner hashes r0 a owning other ∙ e))) in
      record {
        sound = unsubscribe_markets-IsSound hashes p s.sound;
        registered = λ hash m h.
            let e = sym (unsubscribe_markets-registry hashes p hash) ∙ h in
            elim (Bool-cases (HashSet.contains hashes hash)) [
              | inl closed ↦ cc (rw closed at e)
              | inr left ↦
                  let r = s.registered hash m (rw left at e) in
                  record {
                    same_hash = r.same_hash;
                    owns = r.owns;
                    yes_tracked =
                        kept m.yes_asset
                          (ap (HashSet.contains hashes) (r.owns.0 ∙ r.same_hash) ∙ left)
                          r.yes_tracked;
                    no_tracked =
                        kept m.no_asset
                          (ap (HashSet.contains hashes) (r.owns.1 ∙ r.same_hash) ∙ left)
                          r.no_tracked;
                  }
            ];
      }

-- A pool that is new serves nothing, if it may give a connection an asset.
pub new-IsServing : (owner : String → String) (n : ℕ) → 0 < n → IsServing owner (new n)
unfolding new pending_of HashMap.get
new-IsServing owner n pos = record {
  sound = record {
    positive = pos;
    within = tt;
    placed = record { entry = λ a c1 c2 e. cc };
    holds = λ a c1 c2 e. cc;
  };
  registered = λ hash m h. cc;
}
