-- ===== src/Sink/Delivery.antt =====
-- Which rows the sink of sink.rs stores, and how large its buffer gets.
use polymarket_orderbook_col.Base.{
  codes, ℕ, ◌<◌, ◌≡◌, refl, sym, ap, ◌∙◌, String, some, List, [], ◌∷◌, ◌++◌, append-nil,
  append_assoc, Bool, true, length, arith, All, Option-cases, inl, inr,
}
use polymarket_orderbook_col.Events.{Event, timestamp}
use polymarket_orderbook_col.Events.Json.{Json, DecimalText}
use polymarket_orderbook_col.Sink.{SinkConfig, Row, parse_i64, row_of}
use polymarket_orderbook_col.Sink.Flush.{
  Running, Wake, received, ticked, serialize_batch, flush, push, on_wake, on_wakes, run,
}
use polymarket_orderbook_col.Sink.Accounting.{
  events_received, nothing, dropped, stored, flush-Flushed, on_wake-cases, flush-empty, flush-cfg,
}

-- The server takes the insert that the wake may cause.
abbrev pub IsAccepted : {D : Type 0} → Wake D → Type 0
IsAccepted (received ev a) = a ≡ true
IsAccepted (ticked a) = a ≡ true

module _ {D : Type 0} (dec : DecimalText D) (print : Json → String) where
  serialize_batch-append :
      (cfg : SinkConfig) (xs ys : List (Event D)) (rows : List Row)
      → serialize_batch dec print cfg (xs ++ ys) ≡ some rows
      → (r1 : List Row) × (r2 : List Row) × (serialize_batch dec print cfg xs ≡ some r1)
        × (serialize_batch dec print cfg ys ≡ some r2)
        × (rows ≡ r1 ++ r2)
  unfolding serialize_batch
  serialize_batch-append cfg [] ys rows h = ([], rows, refl, h, refl)
  serialize_batch-append cfg (x ∷ xs) ys rows h =
      elim (Option-cases (parse_i64 (codes (timestamp x)))) [
        | inl bad ↦ absurd (ground (arith, h, bad))
        | inr (ts, fine) ↦ elim (Option-cases (serialize_batch dec print cfg (xs ++ ys))) [
          | inl bad ↦ absurd (ground (arith, h, bad, fine))
          | inr (rest, tail) ↦
              let (r1, r2, e1, e2, e) = serialize_batch-append cfg xs ys rest tail in
              (
                row_of dec print cfg x ts ∷ r1,
                r2,
                rw (fine, serialize_batch) (rw (e1, serialize_batch) refl),
                e2,
                ground (arith, h, fine, tail, e),
              )
        ]
      ]

  -- The rows of the buffer and of events that are still to come, after those that are stored, are the
  -- rows `total`.
  Owes : Running D → List (Event D) → List Row → Type 0
  Owes r evs total =
      (rows : List Row) × (serialize_batch dec print r.sink.cfg (r.sink.buffer ++ evs) ≡ some rows)
      × (r.inserted ++ rows ≡ total)

  flush-Owes :
      (a : Bool) (r : Running D) (evs : List (Event D)) (total : List Row)
      → a ≡ true
      → Owes r evs total
      → Owes (flush dec print a r) evs total
  unfolding Owes
  flush-Owes a r evs total h (rows, all, e) = elim (flush-Flushed dec print a r) [
    | nothing _ f ↦ rw f (rows, all, e)
    | dropped (inl refused) f ↦ absurd (ground (arith, h, refused))
    | dropped (inr bad) f ↦
        let (r1, r2, e1, e2, split) =
          serialize_batch-append r.sink.cfg r.sink.buffer evs rows all in
        absurd (ground (arith, e1, bad))
    | stored stored_rows fine f ↦
        let (r1, r2, e1, e2, split) =
          serialize_batch-append r.sink.cfg r.sink.buffer evs rows all in
        let same : stored_rows ≡ r1 = ground (arith, e1, fine) in
        rw f (
          r2,
          e2,
          append_assoc r.inserted stored_rows r2
              ∙ ap (λ rs. r.inserted ++ (rs ++ r2)) same
              ∙ ap (λ rs. r.inserted ++ rs) (sym split)
              ∙ e,
        )
  ]

  push-Owes :
      (ev : Event D) (r : Running D) (evs : List (Event D)) (total : List Row)
      → Owes r (ev ∷ evs) total
      → Owes (push dec print ev r) evs total
  unfolding Owes
  push-Owes ev r evs total (rows, all, e) = (
    rows,
    ap (serialize_batch dec print r.sink.cfg) (append_assoc r.sink.buffer (ev ∷ []) evs) ∙ all,
    e,
  )

  on_wake-Owes :
      (ev : Event D) (a : Bool) (r : Running D) (evs : List (Event D)) (total : List Row)
      → a ≡ true
      → Owes r (ev ∷ evs) total
      → Owes (on_wake dec print (received ev a) r) evs total
  on_wake-Owes ev a r evs total h owes = elim (on_wake-cases dec print ev a r) [
    | inl e ↦ rw e (flush-Owes a (push dec print ev r) evs total h (push-Owes ev r evs total owes))
    | inr (e, room) ↦ rw e (push-Owes ev r evs total owes)
  ]

  on_wakes-Owes :
      (ws : List (Wake D)) (r : Running D) (total : List Row)
      → All IsAccepted ws
      → Owes r (events_received ws) total
      → Owes (on_wakes dec print ws r) [] total
  unfolding on_wakes on_wake
  on_wakes-Owes [] r total h owes = owes
  on_wakes-Owes (received ev a ∷ ws) r total (yes_a, h) owes =
      on_wakes-Owes ws (on_wake dec print (received ev a) r) total h
        (on_wake-Owes ev a r (events_received ws) total yes_a owes)
  on_wakes-Owes (ticked a ∷ ws) r total (yes_a, h) owes =
      on_wakes-Owes ws (flush dec print a r) total h
        (flush-Owes a r (events_received ws) total yes_a owes)

  settled-inserted :
      (r : Running D) (total : List Row) → r.sink.buffer ≡ [] → Owes r [] total → r.inserted ≡ total
  unfolding Owes serialize_batch
  settled-inserted r total h (rows, all, e) =
      let none_left : rows ≡ [] = ground (arith, h, all) in
      sym (append-nil r.inserted) ∙ ap (λ rs. r.inserted ++ rs) (sym none_left) ∙ e

  -- Nothing is lost, doubled or reordered: if the server takes every insert and every timestamp parses,
  -- then after `run` the stored rows are the earlier ones and then the rows of all events, those in the
  -- buffer and those received, in the order of their arrival.
  pub run-inserted :
      (ws : List (Wake D)) (r : Running D) (rows : List Row)
      → All IsAccepted ws
      → serialize_batch dec print r.sink.cfg (r.sink.buffer ++ events_received ws) ≡ some rows
      → (run dec print ws true r).inserted ≡ r.inserted ++ rows
  unfolding run Owes
  run-inserted ws r rows h all =
      let r1 = on_wakes dec print ws r in
      settled-inserted (flush dec print true r1) (r.inserted ++ rows)
        (flush-empty dec print true r1)
        (flush-Owes true r1 [] (r.inserted ++ rows) refl
          (on_wakes-Owes ws r (r.inserted ++ rows) h (rows, all, refl)))

  -- A batch size of the sink, and fewer events in the buffer.
  abbrev IsBelow : ℕ → Running D → Type 0
  IsBelow limit r = (r.sink.cfg.batch_size ≡ limit) × (length r.sink.buffer < limit)

  flush-IsBelow :
      (limit : ℕ) (a : Bool) (r : Running D)
      → r.sink.cfg.batch_size ≡ limit
      → 0 < limit
      → IsBelow limit (flush dec print a r)
  flush-IsBelow limit a r e h = (
    ap (λ c. c.batch_size) (flush-cfg dec print a r) ∙ e,
    omega (arith, ap length (flush-empty dec print a r)),
  )

  on_wake-IsBelow :
      (limit : ℕ) (ev : Event D) (a : Bool) (r : Running D)
      → IsBelow limit r
      → IsBelow limit (on_wake dec print (received ev a) r)
  on_wake-IsBelow limit ev a r (e, h) = elim (on_wake-cases dec print ev a r) [
    | inl f ↦ rw f (flush-IsBelow limit a (push dec print ev r) e (omega arith))
    | inr (f, room) ↦ rw f (e, ground (arith, room, e))
  ]

  on_wakes-IsBelow :
      (limit : ℕ) (ws : List (Wake D)) (r : Running D)
      → IsBelow limit r
      → IsBelow limit (on_wakes dec print ws r)
  unfolding on_wakes on_wake
  on_wakes-IsBelow limit [] r below = below
  on_wakes-IsBelow limit (ticked a ∷ ws) r (e, h) =
      on_wakes-IsBelow limit ws (flush dec print a r) (flush-IsBelow limit a r e (omega arith))
  on_wakes-IsBelow limit (received ev a ∷ ws) r below =
      on_wakes-IsBelow limit ws (on_wake dec print (received ev a) r)
        (on_wake-IsBelow limit ev a r below)

  -- Between two wakes, the buffer holds fewer events than a batch, if it did so at first.
  on_wakes-buffer :
      (ws : List (Wake D)) (r : Running D)
      → length r.sink.buffer < r.sink.cfg.batch_size
      → length (on_wakes dec print ws r).sink.buffer < r.sink.cfg.batch_size
  on_wakes-buffer ws r h = (on_wakes-IsBelow r.sink.cfg.batch_size ws r (refl, h)).1
