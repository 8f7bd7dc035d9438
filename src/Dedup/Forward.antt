-- ===== src/Dedup/Forward.antt =====
-- `DedupForwarder::try_send` of ws/dedup.rs: what reaches the global channel, and the counters.
use polymarket_orderbook_col.Base.{
  ℕ, ◌+◌, ◌%◌, ◌≤◌, ◌<◌, String, ◌≡◌, ◌∙◌, ap, Option, none, some, List, [], ◌∷◌, ◌++◌, map,
  map-append, subst, true, false, arith, length, length-append, Result, ok, err, add64, u64_mod,
  Bool-cases, Option-cases, inl, inr,
}
use polymarket_orderbook_col.Events.{Event}
use polymarket_orderbook_col.Events.Json.{DecimalText}
use polymarket_orderbook_col.Dedup.{DedupForwarder, Answer, TrySendError, dedup_key, try_send}
use polymarket_orderbook_col.Dedup.Window.{Sighting, observe, run, InOrder, accepted_once}

-- One call of `try_send`: the event, the instants that it reads, and the channel's answer.
pub record Call (D : Type 0) : Type 0 where
  pub event : Event D
  pub read : ℕ
  pub reset : ℕ
  pub answer : Answer

-- The counter of forwarded events is the number of events that the channel took, as a `u64`.
abbrev pub Counts : {D : Type 0} → DedupForwarder D → Type 0
Counts f = f.forwarded ≡ length f.global_tx % u64_mod

module _ {D : Type 0} (dec : DecimalText D) (hasher : List String → ℕ) where
  abbrev pub send :
      Call D → DedupForwarder D → Option (DedupForwarder D × Result TrySendError (Unit {0}))
  send c f = try_send dec hasher c.read c.reset c.answer c.event f

  unfoldable pub key_of : Call D → ℕ
  key_of c = elim (dedup_key dec hasher c.event) [ none ↦ 0 | some k ↦ k ]

  abbrev pub sighting : Call D → Sighting
  sighting c = record { read = c.read; reset = c.reset; key = key_of c }

  -- The calls of all connections in the order in which they take the lock; `none` if one panics.
  unfoldable pub send_all : List (Call D) → DedupForwarder D → Option (DedupForwarder D)
  send_all [] f = some f
  send_all (c ∷ cs) f = elim (send c f) [ none ↦ none | some r ↦ send_all cs r.0 ]

  -- What one call does, beside the cache.
  pub data Outcome (c : Call D) (f g : DedupForwarder D) (out : Result TrySendError (Unit {0}))
      : Type 0 where
    absorbed :
        (observe (sighting c) f.cache).1 ≡ false
        → out ≡ ok tt
        → g.global_tx ≡ f.global_tx
        → g.forwarded ≡ f.forwarded
        → g.dropped ≡ add64 f.dropped 1
        → Outcome c f g out
    sent :
        (observe (sighting c) f.cache).1 ≡ true
        → c.answer ≡ none
        → out ≡ ok tt
        → g.global_tx ≡ f.global_tx ++ c.event ∷ []
        → g.forwarded ≡ add64 f.forwarded 1
        → g.dropped ≡ f.dropped
        → Outcome c f g out
    refused :
        (e : TrySendError)
        → (observe (sighting c) f.cache).1 ≡ true
        → c.answer ≡ some e
        → out ≡ err e
        → g.global_tx ≡ f.global_tx
        → g.forwarded ≡ f.forwarded
        → g.dropped ≡ f.dropped
        → Outcome c f g out

  send-cache :
      (c : Call D) (f g : DedupForwarder D) (out : Result TrySendError (Unit {0}))
      → send c f ≡ some (g, out)
      → g.cache ≡ (observe (sighting c) f.cache).0
  unfolding try_send key_of observe
  send-cache c f g out h = ground (arith, Option-cases c.answer)

  -- A call either absorbs its event as a duplicate and counts it as dropped, or sends it and counts it
  -- as forwarded, or fails with the channel's own error and counts nothing. In each case the cache has
  -- observed the key.
  pub try_send_lem :
      (c : Call D) (f g : DedupForwarder D) (out : Result TrySendError (Unit {0}))
      → send c f ≡ some (g, out)
      → (g.cache ≡ (observe (sighting c) f.cache).0) × Outcome c f g out
  try_send_lem c f g out h = (
    send-cache c f g out h,
    elim (Bool-cases (observe (sighting c) f.cache).1) [
      | inl new ↦ elim (Option-cases c.answer) [
        | inl taken ↦
            unfold try_send key_of observe in
            sent new taken (ground arith) (ground arith) (ground arith) (ground arith)
        | inr (e, answer) ↦
            unfold try_send key_of observe in
            refused e new answer (ground arith) (ground arith) (ground arith) (ground arith)
      ]
      | inr old ↦
          unfold try_send key_of observe in
          absorbed old (ground arith) (ground arith) (ground arith) (ground arith)
    ],
  )

  send_all-cache :
      (cs : List (Call D)) (f g : DedupForwarder D)
      → send_all cs f ≡ some g
      → g.cache ≡ run (map sighting cs) f.cache
  unfolding send_all run
  send_all-cache [] f g h = ground arith
  send_all-cache (c ∷ cs) f g h = elim (Option-cases (send c f)) [
    | inl e ↦ cc (rw (e, send_all) at h)
    | inr ((f', out), e) ↦
        subst (λ d. g.cache ≡ run (map sighting cs) d) (send-cache c f f' out e)
          (send_all-cache cs f' g (rw (e, send_all) at h))
  ]

  -- The sink gets no event twice: once a call has found its key new, every later call with that key,
  -- by whichever connection and whatever calls come in between, is answered Ok and sends nothing,
  -- until `rotate_every` has passed. This holds also if the channel refused the first event.
  pub forwarded_once :
      (c c' : Call D) (cs : List (Call D)) (f g h k : DedupForwarder D)
      (out out' : Result TrySendError (Unit {0}))
      → send c f ≡ some (g, out)
      → (observe (sighting c) f.cache).1 ≡ true
      → send_all cs g ≡ some h
      → send c' h ≡ some (k, out')
      → f.cache.last_rotate ≤ c.read
      → InOrder c.read (map sighting (c ∷ (cs ++ c' ∷ [])))
      → key_of c' ≡ key_of c
      → c'.read < c.read + f.cache.rotate_every
      → (out' ≡ ok tt) × (k.global_tx ≡ h.global_tx) × (k.dropped ≡ add64 h.dropped 1)
  forwarded_once c c' cs f g h k out out' first new between second last order same soon =
      from_outcome (try_send_lem c' h k out' second).1
    where
      order' : InOrder c.read (sighting c ∷ (map sighting cs ++ sighting c' ∷ []))
      order' = subst (λ l. InOrder c.read (sighting c ∷ l)) (map-append _ _ _) order

      cache : h.cache ≡ run (map sighting cs) (observe (sighting c) f.cache).0
      cache =
          send_all-cache cs g h between ∙ ap (run (map sighting cs)) (send-cache c f g out first)

      old : (observe (sighting c') h.cache).1 ≡ false
      old = rw cache (
          accepted_once (sighting c) (map sighting cs) (sighting c') f.cache new last order' same
            soon)

      from_outcome :
          Outcome c' h k out'
          → (out' ≡ ok tt) × (k.global_tx ≡ h.global_tx) × (k.dropped ≡ add64 h.dropped 1)
      from_outcome (absorbed _ o t _ d) = (o, t, d)
      from_outcome (sent n _ _ _ _ _) = cc (old, n)
      from_outcome (refused e n _ _ _ _ _) = cc (old, n)

  -- Every call keeps the counter of forwarded events equal to the number of events that the channel
  -- took.
  send-Counts :
      (c : Call D) (f g : DedupForwarder D) (out : Result TrySendError (Unit {0}))
      → Counts f
      → send c f ≡ some (g, out)
      → Counts g
  send-Counts c f g out counts h = from_outcome (try_send_lem c f g out h).1
    where
      from_outcome : Outcome c f g out → Counts g
      from_outcome (absorbed _ _ t w _) = rw (t, w) counts
      from_outcome (sent _ _ _ t w _) =
          rw (t, w) (omega (arith, counts, length-append f.global_tx (c.event ∷ [])))
      from_outcome (refused _ _ _ _ t w _) = rw (t, w) counts
