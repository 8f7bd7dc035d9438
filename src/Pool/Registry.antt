-- ===== src/Pool/Registry.antt =====
-- The markets of the pool of ws/pool.rs as a map from hashes, and what `subscribe_markets` does to it.
use polymarket_orderbook_col.Base.{
  ok-eq, Result-cases, ℕ, zero, suc, ◌-◌, String, ◌≡◌, refl, sym, ap, ◌∙◌, Option, none, some, List,
  [], ◌∷◌, ◌++◌, append-nil, append_assoc, Bool, true, false, not, arith, length, is_empty, keep,
  ok, ◌=?◌, string_key, if◌then◌else◌, Bool-cases, Option-cases, inl, inr,
}
use polymarket_orderbook_col.Base.HashMap
use polymarket_orderbook_col.Base.HashMap.{
  get-insert, get-remove, get→contains_key, get_some→contains_key,
}
use polymarket_orderbook_col.Base.HashSet
use polymarket_orderbook_col.Events.{Market}
use polymarket_orderbook_col.Pool.{
  Pool, spawn_connection, spawn_connections, update_monitor_mappings,
}
use polymarket_orderbook_col.Pool.Passes.{SecondPass, pass3}
use polymarket_orderbook_col.Pool.Subscribe.{
  collect, register, dispatch, place_overflow, finish, subscribe_markets,
}
use polymarket_orderbook_col.Pool.Steps.{subscribe_markets-steps}

-- A map from market hashes to markets, as a function.
abbrev pub Registry : Type 0
Registry = String → Option Market

abbrev pub or_else : Option Market → Option Market → Option Market
or_else none y = y
or_else (some m) y = some m

or_else-none : (x : Option Market) → x ≡ or_else x none
or_else-none none = refl
or_else-none (some m) = refl

-- The last market of a batch with a hash.
abbrev pub last_with : List Market → Registry
last_with [] hash = none
last_with (m ∷ ms) hash = or_else (last_with ms hash) (if m.hash =? hash then some m else none)

-- A batch opens the markets whose hash is free; a hash that stands in it twice gets the later one.
abbrev pub open_markets : List Market → Registry → Registry
open_markets ms r hash = or_else (r hash) (last_with ms hash)

abbrev pub close_markets : List String → Registry → Registry
close_markets hashes r hash = if HashSet.contains hashes hash then none else r hash

abbrev pub registry : Pool → Registry
registry p hash = HashMap.get p.markets hash

-- The markets of a batch that are not yet known.
abbrev pub unknown : List (String × Market) → List Market → List Market
unknown known ms = keep (λ (m : Market). not (HashMap.contains_key known m.hash)) ms

abbrev pub assets_of : List Market → List String
assets_of [] = []
assets_of (m ∷ ms) = m.yes_asset ∷ m.no_asset ∷ assets_of ms

pub collect-new :
    (known : List (String × Market)) (ms : List Market) (assets : List String) (to : List Market)
    → (collect known ms assets to).0 ≡ assets ++ assets_of (unknown known ms)
unfolding collect
collect-new known [] assets to = sym (append-nil assets)
collect-new known (m ∷ ms) assets to = elim (Bool-cases (HashMap.contains_key known m.hash)) [
  | inl skip ↦ rw (skip, collect) (collect-new known ms assets to)
  | inr new ↦
      rw (new, collect)
        (collect-new known ms (assets ++ m.yes_asset ∷ m.no_asset ∷ []) (to ++ m ∷ [])
          ∙ append_assoc assets (m.yes_asset ∷ m.no_asset ∷ []) (assets_of (unknown known ms)))
]

collect-to :
    (known : List (String × Market)) (ms : List Market) (assets : List String) (to : List Market)
    → (collect known ms assets to).1 ≡ to ++ unknown known ms
unfolding collect
collect-to known [] assets to = sym (append-nil to)
collect-to known (m ∷ ms) assets to = elim (Bool-cases (HashMap.contains_key known m.hash)) [
  | inl skip ↦ rw (skip, collect) (collect-to known ms assets to)
  | inr new ↦
      rw (new, collect)
        (collect-to known ms (assets ++ m.yes_asset ∷ m.no_asset ∷ []) (to ++ m ∷ [])
          ∙ append_assoc to (m ∷ []) (unknown known ms))
]

get-register :
    (ms : List Market) (markets : List (String × Market)) (hash : String)
    → HashMap.get (register ms markets) hash
      ≡ or_else (last_with ms hash) (HashMap.get markets hash)
unfolding register
get-register [] markets hash = refl
get-register (m ∷ ms) markets hash =
    get-register ms (HashMap.insert m.hash m markets) hash
    ∙ ground (arith, get-insert m.hash m markets hash)

keys_differ :
    (known : List (String × Market)) (a b : String) (x : Bool)
    → HashMap.contains_key known a ≡ x
    → HashMap.contains_key known b ≡ not x
    → (a =? b) ≡ false
keys_differ known a b x h g = elim (Bool-cases (a =? b)) [
  | inl same ↦
      absurd
        (ground (arith, h, g, ap (HashMap.contains_key known) ((string_key.same_iff a b).0 same)))
  | inr other ↦ other
]

last_with-unknown :
    (known : List (String × Market)) (ms : List Market) (hash : String)
    → HashMap.get known hash ≡ none
    → last_with (unknown known ms) hash ≡ last_with ms hash
last_with-unknown known [] hash free = refl
last_with-unknown known (m ∷ ms) hash free =
    let rest = last_with-unknown known ms hash free in
    elim (Bool-cases (HashMap.contains_key known m.hash)) [
      | inl skip ↦
          let other = keys_differ known m.hash hash true skip (get→contains_key known hash free) in
          rw skip (rw rest (rw other (or_else-none (last_with ms hash))))
      | inr new ↦ rw new (rw rest refl)
    ]

last_with-known :
    (known : List (String × Market)) (ms : List Market) (hash : String) (old : Market)
    → HashMap.get known hash ≡ some old
    → last_with (unknown known ms) hash ≡ none
last_with-known known [] hash old there = refl
last_with-known known (m ∷ ms) hash old there =
    let rest = last_with-known known ms hash old there in
    elim (Bool-cases (HashMap.contains_key known m.hash)) [
      | inl skip ↦ rw skip rest
      | inr new ↦
          let there' = get_some→contains_key known hash old there in
          rw new (rw rest (rw (keys_differ known m.hash hash false new there') refl))
    ]

-- What `subscribe_markets` registers.
register_found :
    (p : Pool) (ms : List Market) (hash : String)
    → HashMap.get (register (collect p.markets ms [] []).1 p.markets) hash
      ≡ open_markets ms (registry p) hash
register_found p ms hash = rw (collect-to p.markets ms [] []) (
    get-register (unknown p.markets ms) p.markets hash
    ∙ elim (Option-cases (HashMap.get p.markets hash)) [
      | inl free ↦
          rw free
            (rw (last_with-unknown p.markets ms hash free) (sym (or_else-none (last_with ms hash))))
      | inr (old, there) ↦ rw there (rw (last_with-known p.markets ms hash old there) refl)
    ])

no_assets_of : (ms : List Market) → is_empty (assets_of ms) ≡ true → ms ≡ []
no_assets_of [] h = refl
no_assets_of (m ∷ ms) h = cc

spawn_connections-markets : (n : ℕ) (p : Pool) → (spawn_connections n p).markets ≡ p.markets
unfolding spawn_connections spawn_connection
spawn_connections-markets zero p = refl
spawn_connections-markets (suc n) p = spawn_connections-markets n (spawn_connection p)

place_overflow-markets :
    (first_conn : List (String × ℕ)) (p : Pool) (s : SecondPass) (q : Pool × SecondPass)
    → place_overflow first_conn p s ≡ ok q
    → q.0.markets ≡ p.markets
unfolding place_overflow spawn_connection
place_overflow-markets first_conn p s q run = elim (Bool-cases (is_empty s.overflow)) [
  | inl e ↦
      ap (λ (t : Pool × SecondPass). t.0.markets)
        (sym (ok-eq (p, s) q (rw (e, place_overflow) at run)))
  | inr e ↦
      let q1 = spawn_connection p in
      elim (Result-cases (pass3 (length q1.connections - 1) first_conn s.overflow s)) [
        | inl (s1, ran) ↦
            ap (λ (t : Pool × SecondPass). t.0.markets)
              (sym (ok-eq (q1, s1) q (rw ran at (rw (e, place_overflow) at run))))
        | inr (bad, ran) ↦ cc (rw ran at (rw (e, place_overflow) at run))
      ]
]

finish-markets :
    (p : Pool) (s : SecondPass) (p' : Pool) → finish p s ≡ ok p' → p'.markets ≡ p.markets
unfolding finish update_monitor_mappings
finish-markets p s p' run = elim (Result-cases (dispatch s.pending p.connections)) [
  | inl (conns, e) ↦
      ap (λ (q : Pool). q.markets)
        (sym (
          ok-eq
            (update_monitor_mappings
              (record p { connections = conns; asset_to_conns = s.asset_to_conns }))
            p' (rw (e, finish) at run)))
  | inr (bad, e) ↦ cc (rw (e, finish) at run)
]

module _ (shuffle1 shuffle2 : List String → List String) where
  -- After a run of `subscribe_markets` that does not panic, the pool's markets are those of before and
  -- the new ones of the batch: a hash that was taken keeps its market.
  pub subscribe_markets-registry :
      (ms : List Market) (p p' : Pool)
      → subscribe_markets shuffle1 shuffle2 ms p ≡ ok p'
      → (hash : String) → registry p' hash ≡ open_markets ms (registry p) hash
  subscribe_markets-registry ms p p' run hash =
      let found = collect p.markets ms [] [] in
      let p1 = record p { markets = register found.1 p.markets } in
      elim (subscribe_markets-steps shuffle1 shuffle2 ms p p' run) [
        | inl (nothing, same) ↦
            let none_new : unknown p.markets ms ≡ [] =
              no_assets_of (unknown p.markets ms)
                (rw (collect-new p.markets ms [] []) at nothing) in
            let kept : HashMap.get (register (collect p.markets ms [] []).1 p.markets) hash
                ≡ registry p hash =
              rw (collect-to p.markets ms [] []) (rw none_new (unfold register in refl)) in
            ap (λ (q : Pool). registry q hash) (sym same) ∙ sym kept ∙ register_found p ms hash
        | inr (n, r) ↦
            let q = spawn_connections n p1 in
            let same : p'.markets ≡ p1.markets =
              finish-markets r.placed.0 r.placed.1 p' r.run4
              ∙ place_overflow-markets r.first.first_conn q r.second r.placed r.run3
              ∙ spawn_connections-markets n p1 in
            ap (λ (m : List (String × Market)). HashMap.get m hash) same ∙ register_found p ms hash
      ]
