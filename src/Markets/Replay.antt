-- ===== src/Markets/Replay.antt =====
-- markets/stream.rs: what the entries of the stream say of the markets, and `dispatch` does it.
use polymarket_orderbook_col.Base.{
  String, ◌≡◌, refl, sym, ◌∙◌, subst, Option, none, some, [], ◌∷◌, ok, ◌=?◌, string_key,
  if◌then◌else◌, Bool-cases, Option-cases, inl, inr,
}
use mathlib.Core.Path.{fun_ext}
use polymarket_orderbook_col.Events.{Market}
use polymarket_orderbook_col.Events.Json.{Json}
use polymarket_orderbook_col.Pool.{Pool}
use polymarket_orderbook_col.Pool.Unsubscribe.{unsubscribe_markets}
use polymarket_orderbook_col.Pool.Total.{IsShuffle}
use polymarket_orderbook_col.Pool.Registry.{
  Registry, registry, open_markets, close_markets, subscribe_markets-registry,
}
use polymarket_orderbook_col.Pool.Closed.{unsubscribe_markets-registry}
use polymarket_orderbook_col.Pool.Serving.{
  Owns, IsServing, subscribe_markets-IsServing, unsubscribe_markets-IsServing,
}
use polymarket_orderbook_col.Markets.{binary_market_from_outcomes}
use polymarket_orderbook_col.Markets.Payloads.{StreamId, stream_entry_to_map}
use polymarket_orderbook_col.Markets.Stream.{
  DispatchError, bad_new_market, text_or, Delivery, parse_new_market, parse_market_resolved,
  on_new_market, on_market_resolved, dispatch,
}

-- What an entry of the stream says.
pub data Meaning : Type 0 where
  opens : Market → Meaning
  closes : String → Meaning
  nothing : Meaning

-- What that does to the map of markets.
abbrev pub effect : Meaning → Registry → Registry
effect (opens m) r = open_markets (m ∷ []) r
effect (closes hash) r = close_markets (hash ∷ []) r
effect nothing r = r

-- A pool that serves the markets of `r`.
pub record Serves (owner : String → String) (p : Pool) (r : Registry) : Type 0 where
  pub serving : IsServing owner p
  pub same : registry p ≡ r

module _ (parse : String → Option Json) where
  unfoldable pub new_meaning : String → Meaning
  new_meaning raw = elim (parse_new_market parse raw) [
    | none ↦ nothing
    | some payload ↦
        elim (binary_market_from_outcomes payload.market payload.outcomes payload.assets_ids) [
          | none ↦ nothing
          | some m ↦ opens m
        ]
  ]

  unfoldable pub resolved_meaning : String → Meaning
  resolved_meaning raw = elim (parse_market_resolved parse raw) [
    | none ↦ nothing
    | some payload ↦ if payload.market =? "" then nothing else closes payload.market
  ]

  unfoldable pub meaning : StreamId → Meaning
  unfolding new_meaning resolved_meaning
  meaning entry =
      let data_map = stream_entry_to_map entry in
      let event_type = text_or "" "event_type" data_map in
      let raw = text_or "{}" "payload" data_map in
      if event_type =? "new_market"
      then new_meaning raw
      else if event_type =? "market_resolved"
      then resolved_meaning raw
      else nothing

  -- What the code relies on of an entry and its shuffles: the assets of the market that it opens belong to
  -- that market, and shuffles keep the items.
  pub record IsFair (owner : String → String) (d : Delivery) : Type 0 where
    pub fair1 : IsShuffle d.shuffle1
    pub fair2 : IsShuffle d.shuffle2
    pub owned : (m : Market) → meaning d.entry ≡ opens m → Owns owner m

  on_new_market-Serves :
      (owner : String → String) (d : Delivery) (raw : String) (p : Pool)
      → IsShuffle d.shuffle1
      → IsShuffle d.shuffle2
      → ((m : Market) → new_meaning raw ≡ opens m → Owns owner m)
      → IsServing owner p
      → (p' : Pool) × (e : Option DispatchError) × (on_new_market parse d.shuffle1 d.shuffle2 raw p
          ≡ ok (p', e))
        × Serves owner p' (effect (new_meaning raw) (registry p))
  unfolding on_new_market new_meaning
  on_new_market-Serves owner d raw p fair1 fair2 owned s =
      elim (Option-cases (parse_new_market parse raw)) [
        | inl bad ↦
            let e : new_meaning raw ≡ nothing = rw (bad, new_meaning) refl in
            (
              p,
              some bad_new_market,
              rw (bad, on_new_market) refl,
              subst (λ k. Serves owner p (effect k (registry p))) (sym e)
                  (record { serving = s; same = refl }),
            )
        | inr (payload, good) ↦
            elim (Option-cases
              (binary_market_from_outcomes payload.market payload.outcomes payload.assets_ids)) [
                | inl other ↦
                    let e : new_meaning raw ≡ nothing =
                      rw (good, new_meaning) (rw (other, new_meaning) refl) in
                    (
                      p,
                      none,
                      rw (good, on_new_market) (rw (other, on_new_market) refl),
                      subst (λ k. Serves owner p (effect k (registry p))) (sym e)
                          (record { serving = s; same = refl }),
                    )
                | inr (m, binary) ↦
                    let e : new_meaning raw ≡ opens m =
                      rw (good, new_meaning) (rw (binary, new_meaning) refl) in
                    let (p', run, s') =
                      subscribe_markets-IsServing d.shuffle1 d.shuffle2 fair1 fair2 owner (m ∷ []) p
                        (owned m e, tt) s in
                    let same =
                      fun_ext
                        (subscribe_markets-registry d.shuffle1 d.shuffle2 (m ∷ []) p p' run) in
                    (
                      p',
                      none,
                      rw (good, on_new_market) (rw (binary, on_new_market) (rw run refl)),
                      subst (λ k. Serves owner p' (effect k (registry p))) (sym e)
                          (record { serving = s'; same = same }),
                    )
              ]
      ]

  on_market_resolved-Serves :
      (owner : String → String) (raw : String) (p : Pool)
      → IsServing owner p
      → Serves owner (on_market_resolved parse raw p).0 (effect (resolved_meaning raw) (registry p))
  unfolding on_market_resolved resolved_meaning
  on_market_resolved-Serves owner raw p s = elim (Option-cases (parse_market_resolved parse raw)) [
    | inl bad ↦
        let e : resolved_meaning raw ≡ nothing = rw (bad, resolved_meaning) refl in
        rw (bad, on_market_resolved)
          (subst (λ k. Serves owner p (effect k (registry p))) (sym e)
            (record { serving = s; same = refl }))
    | inr (payload, good) ↦ elim (Bool-cases (payload.market =? "")) [
      | inl no_market ↦
          let e : resolved_meaning raw ≡ nothing =
            rw (good, resolved_meaning) (rw no_market refl) in
          rw (good, on_market_resolved)
            (rw no_market (
              subst (λ k. Serves owner p (effect k (registry p))) (sym e)
                (record { serving = s; same = refl })))
      | inr named ↦
          let e : resolved_meaning raw ≡ closes payload.market =
            rw (good, resolved_meaning) (rw named refl) in
          let p' = unsubscribe_markets (payload.market ∷ []) p in
          rw (good, on_market_resolved)
            (rw named (
              subst (λ k. Serves owner p' (effect k (registry p))) (sym e)
                (record {
                  serving = unsubscribe_markets-IsServing owner (payload.market ∷ []) p s;
                  same = fun_ext (unsubscribe_markets-registry (payload.market ∷ []) p);
                })))
    ]
  ]

  -- `dispatch` does not panic, and does what the entry says.
  pub dispatch-Serves :
      (owner : String → String) (d : Delivery) (p : Pool)
      → IsFair owner d
      → IsServing owner p
      → (p' : Pool) × (e : Option DispatchError) × (dispatch parse d.shuffle1 d.shuffle2
            (stream_entry_to_map d.entry)
            p
          ≡ ok (p', e))
        × Serves owner p' (effect (meaning d.entry) (registry p))
  unfolding dispatch meaning
  dispatch-Serves owner d p f s =
      let data_map = stream_entry_to_map d.entry in
      let raw = text_or "{}" "payload" data_map in
      let event_type = text_or "" "event_type" data_map in
      elim (Bool-cases (event_type =? "new_market")) [
        | inl is_new ↦
            let e : meaning d.entry ≡ new_meaning raw = rw (is_new, meaning) refl in
            let (p', error, run, s') =
              on_new_market-Serves owner d raw p f.fair1 f.fair2 (λ m h. f.owned m (e ∙ h)) s in
            (
              p',
              error,
              rw (is_new, dispatch) run,
              subst (λ k. Serves owner p' (effect k (registry p))) (sym e) s',
            )
        | inr not_new ↦ elim (Bool-cases (event_type =? "market_resolved")) [
          | inl is_resolved ↦
              let e : meaning d.entry ≡ resolved_meaning raw =
                rw (not_new, meaning) (rw (is_resolved, meaning) refl) in
              let done = on_market_resolved parse raw p in
              (
                done.0,
                done.1,
                rw (not_new, dispatch) (rw (is_resolved, dispatch) refl),
                subst (λ k. Serves owner done.0 (effect k (registry p))) (sym e)
                    (on_market_resolved-Serves owner raw p s),
              )
          | inr ignored ↦
              let e : meaning d.entry ≡ nothing =
                rw (not_new, meaning) (rw (ignored, meaning) refl) in
              (
                p,
                none,
                rw (not_new, dispatch) (rw (ignored, dispatch) refl),
                subst (λ k. Serves owner p (effect k (registry p))) (sym e)
                    (record { serving = s; same = refl }),
              )
        ]
      ]
