-- ===== src/Sink/Accounting.antt =====
-- What becomes of the events that the sink of sink.rs receives.
use polymarket_orderbook_col.Base.{
  ℕ, ◌+◌, ◌%◌, ◌≡◌, refl, ap, ◌∙◌, ◌⊎◌, String, none, some, List, [], ◌∷◌, ◌++◌, Bool, false, leb,
  length, length-append, arith, u64_mod, Bool-cases, Option-cases, inl, inr,
}
use polymarket_orderbook_col.Events.{Event}
use polymarket_orderbook_col.Events.Json.{Json, DecimalText}
use polymarket_orderbook_col.Sink.{Row}
use polymarket_orderbook_col.Sink.Flush.{
  Running, Wake, received, ticked, serialize_batch, flush_batch, flush, push, on_wake, on_wakes,
  run, drop_batch, store_batch,
}

-- The events that the loop receives.
abbrev pub events_received : {D : Type 0} → List (Wake D) → List (Event D)
events_received [] = []
events_received (received ev a ∷ ws) = ev ∷ events_received ws
events_received (ticked a ∷ ws) = events_received ws

-- Flushed, dropped or in the buffer.
abbrev pub accounted : {D : Type 0} → Running D → ℕ
accounted r = r.sink.total_flushed + r.sink.total_dropped + length r.sink.buffer

module _ {D : Type 0} (dec : DecimalText D) (print : Json → String) where
  -- A flush does nothing, drops the batch, or stores it.
  pub data Flushed (a : Bool) (r : Running D) : Type 0 where
    nothing : r.sink.buffer ≡ [] → flush dec print a r ≡ r → Flushed a r
    dropped :
        a ≡ false ⊎ (serialize_batch dec print r.sink.cfg r.sink.buffer ≡ none)
        → flush dec print a r ≡ drop_batch dec print r
        → Flushed a r
    stored :
        (rows : List Row)
        → serialize_batch dec print r.sink.cfg r.sink.buffer ≡ some rows
        → flush dec print a r ≡ store_batch dec print rows r
        → Flushed a r

  by_buffer :
      (a : Bool) (r : Running D) {xs : List (Event D)}
      → r.sink.buffer ≡ xs
      → flush dec print a r
        ≡ (elim xs as (λ _. Running D) [ [] ↦ r | _ ∷ _ ↦ flush_batch dec print a r ])
  unfolding flush
  by_buffer a r =
      ap (λ xs. elim xs as (λ _. Running D) [ [] ↦ r | _ ∷ _ ↦ flush_batch dec print a r ])

  batch-Flushed :
      (a : Bool) (r : Running D) (x : Event D) (xs : List (Event D))
      → r.sink.buffer ≡ x ∷ xs
      → Flushed a r
  unfolding flush flush_batch
  batch-Flushed a r x xs e =
      let all : flush dec print a r ≡ flush_batch dec print a r = by_buffer a r e in
      elim (Option-cases (serialize_batch dec print r.sink.cfg r.sink.buffer)) [
        | inl bad ↦ dropped (inr bad) (all ∙ rw (bad, flush_batch) refl)
        | inr (rows, fine) ↦ elim (Bool-cases a) [
          | inl taken ↦ stored rows fine (all ∙ rw (fine, flush_batch) (rw taken refl))
          | inr refused ↦ dropped (inl refused) (all ∙ rw (fine, flush_batch) (rw refused refl))
        ]
      ]

  buffer-cases :
      (xs : List (Event D)) → (xs ≡ []) ⊎ ((x : Event D) × (ys : List (Event D)) × (xs ≡ x ∷ ys))
  buffer-cases [] = inl refl
  buffer-cases (x ∷ xs) = inr (x, xs, refl)

  pub flush-Flushed : (a : Bool) (r : Running D) → Flushed a r
  unfolding flush
  flush-Flushed a r = elim (buffer-cases r.sink.buffer) [
    | inl e ↦ nothing e (by_buffer a r e)
    | inr (x, xs, e) ↦ batch-Flushed a r x xs e
  ]

  flush-accounted :
      (a : Bool) (r : Running D) → accounted (flush dec print a r) % u64_mod ≡ accounted r % u64_mod
  flush-accounted a r = elim (flush-Flushed a r) [
    | nothing e f ↦ rw f refl
    | dropped e f ↦ rw f (omega arith)
    | stored rows e f ↦ rw f (omega arith)
  ]

  pub flush-empty : (a : Bool) (r : Running D) → (flush dec print a r).sink.buffer ≡ []
  flush-empty a r = elim (flush-Flushed a r) [
    | nothing e f ↦ rw f e
    | dropped e f ↦ rw f refl
    | stored rows e f ↦ rw f refl
  ]

  pub flush-cfg : (a : Bool) (r : Running D) → (flush dec print a r).sink.cfg ≡ r.sink.cfg
  flush-cfg a r = elim (flush-Flushed a r) [
    | nothing e f ↦ rw f refl
    | dropped e f ↦ rw f refl
    | stored rows e f ↦ rw f refl
  ]

  -- An event is buffered, and the buffer is flushed if that makes a batch of it.
  pub on_wake-cases :
      (ev : Event D) (a : Bool) (r : Running D)
      → (on_wake dec print (received ev a) r ≡ flush dec print a (push dec print ev r))
        ⊎ ((on_wake dec print (received ev a) r ≡ push dec print ev r)
            × (leb r.sink.cfg.batch_size (length (r.sink.buffer ++ ev ∷ [])) ≡ false))
  unfolding on_wake
  on_wake-cases ev a r =
      elim (Bool-cases (leb r.sink.cfg.batch_size (length (r.sink.buffer ++ ev ∷ [])))) [
        | inl full ↦ inl (rw (full, on_wake) refl)
        | inr room ↦ inr (rw (room, on_wake) refl, room)
      ]

  on_wake-accounted :
      (ev : Event D) (a : Bool) (r : Running D)
      → accounted (on_wake dec print (received ev a) r) % u64_mod ≡ (accounted r + 1) % u64_mod
  on_wake-accounted ev a r =
      let size = length-append r.sink.buffer (ev ∷ []) in
      elim (on_wake-cases ev a r) [
        | inl e ↦ rw e (omega (arith, flush-accounted a (push dec print ev r), size))
        | inr (e, room) ↦ rw e (omega (arith, size))
      ]

  on_wakes-accounted :
      (ws : List (Wake D)) (r : Running D)
      → accounted (on_wakes dec print ws r) % u64_mod
        ≡ (accounted r + length (events_received ws)) % u64_mod
  unfolding on_wakes on_wake
  on_wakes-accounted [] r = omega arith
  on_wakes-accounted (ticked a ∷ ws) r =
      omega (arith, on_wakes-accounted ws (flush dec print a r), flush-accounted a r)
  on_wakes-accounted (received ev a ∷ ws) r =
      omega (
        arith,
        on_wakes-accounted ws (on_wake dec print (received ev a) r),
        on_wake-accounted ev a r,
      )

  -- Every event is accounted for: when `run` returns, the buffer is empty, and the flushed and the
  -- dropped events are together those that were so before, or in the buffer, and those received since,
  -- modulo 2 ^ 64.
  pub run-accounted :
      (ws : List (Wake D)) (a : Bool) (r : Running D)
      → let r' = run dec print ws a r in
        (r'.sink.buffer ≡ [])
        × ((r'.sink.total_flushed + r'.sink.total_dropped) % u64_mod
            ≡ (accounted r + length (events_received ws)) % u64_mod)
  unfolding run
  run-accounted ws a r =
      let r1 = on_wakes dec print ws r in
      let empty = flush-empty a r1 in
      (empty, omega (arith, flush-accounted a r1, on_wakes-accounted ws r, ap length empty))
