-- ===== src/Sink/Start.antt =====
-- `Sink::connect` of sink.rs, and what a timestamp that does not parse costs.
use polymarket_orderbook_col.Base.{
  codes, ◌≡◌, refl, ap, ◌∙◌, String, none, some, List, [], ◌∷◌, ◌++◌, Bool, true, false,
  if◌then◌else◌, All, arith, add64, length, length-append, Bool-cases, Option-cases, inl, inr,
}
use polymarket_orderbook_col.Events.{Event, timestamp}
use polymarket_orderbook_col.Events.Json.{Json, DecimalText}
use polymarket_orderbook_col.Sink.{SinkConfig, parse_i64}
use polymarket_orderbook_col.Sink.Statements.{
  Request, send_all, start_requests, empty_sink, connect,
}
use polymarket_orderbook_col.Sink.Flush.{Running, serialize_batch, flush}
use polymarket_orderbook_col.Sink.Accounting.{nothing, dropped, stored, flush-Flushed}

-- All requests were accepted, or the last of those that were sent is the first that was not.
pub data Sent (accepts : Request → Bool) (rs sent : List Request) : Bool → Type 0 where
  all_accepted : All (λ r. accepts r ≡ true) rs → sent ≡ rs → Sent accepts rs sent true
  refused :
      (before : List Request) (r : Request) (after : List Request)
      → All (λ q. accepts q ≡ true) before
      → accepts r ≡ false
      → rs ≡ before ++ r ∷ after
      → sent ≡ before ++ r ∷ []
      → Sent accepts rs sent false

Sent-cons :
    (accepts : Request → Bool) (r : Request) (rs sent : List Request) (b : Bool)
    → accepts r ≡ true
    → Sent accepts rs sent b
    → Sent accepts (r ∷ rs) (r ∷ sent) b
Sent-cons accepts r rs sent _ h (all_accepted a e) = all_accepted (h, a) (ap (λ q. r ∷ q) e)
Sent-cons accepts r rs sent _ h (refused before q after a g e f) =
    refused (r ∷ before) q after (h, a) g (ap (λ q. r ∷ q) e) (ap (λ q. r ∷ q) f)

send_all-Sent :
    (accepts : Request → Bool) (rs : List Request)
    → Sent accepts rs (send_all accepts rs).0 (send_all accepts rs).1
unfolding send_all
send_all-Sent accepts [] = all_accepted tt refl
send_all-Sent accepts (r ∷ rs) = elim (Bool-cases (accepts r)) [
  | inl h ↦
      rw (h, send_all)
        (Sent-cons accepts r rs (send_all accepts rs).0 (send_all accepts rs).1 h
          (send_all-Sent accepts rs))
  | inr h ↦ rw (h, send_all) (refused [] r rs tt h refl refl)
]

-- The start sends its requests in order (the database, the drop if it is configured, the table) up to
-- the first that is refused; it gives a sink, with an empty buffer and no counts, exactly if all were
-- accepted.
connect_lem :
    {D : Type 0} (accepts : Request → Bool) (cfg : SinkConfig)
    → let (sent, sink) = connect {D = D} accepts cfg in
      (all : Bool) × Sent accepts (start_requests cfg) sent all
      × (sink ≡ (if all then some (empty_sink cfg) else none))
unfolding connect
connect_lem accepts cfg =
    ((send_all accepts (start_requests cfg)).1, send_all-Sent accepts (start_requests cfg), refl)

module _ {D : Type 0} (dec : DecimalText D) (print : Json → String) where
  serialize_batch-bad :
      (cfg : SinkConfig) (xs ys : List (Event D)) (ev : Event D)
      → parse_i64 (codes (timestamp ev)) ≡ none
      → serialize_batch dec print cfg (xs ++ ev ∷ ys) ≡ none
  unfolding serialize_batch
  serialize_batch-bad cfg [] ys ev h = rw (h, serialize_batch) refl
  serialize_batch-bad cfg (x ∷ xs) ys ev h = elim (Option-cases (parse_i64 (codes (timestamp x)))) [
    | inl bad ↦ rw (bad, serialize_batch) refl
    | inr (ts, fine) ↦
        rw (fine, serialize_batch) (rw (serialize_batch-bad cfg xs ys ev h, serialize_batch) refl)
  ]

  -- One event whose timestamp does not parse costs the whole batch, whatever the server would say:
  -- nothing is stored, and all events of the buffer count as dropped, in one failure.
  pub flush-bad_timestamp :
      (a : Bool) (r : Running D) (xs ys : List (Event D)) (ev : Event D)
      → r.sink.buffer ≡ xs ++ ev ∷ ys
      → parse_i64 (codes (timestamp ev)) ≡ none
      → let r' = flush dec print a r in
        (r'.inserted ≡ r.inserted)
        × (r'.sink.buffer ≡ [])
        × (r'.sink.total_flushed ≡ r.sink.total_flushed)
        × (r'.sink.total_dropped ≡ add64 r.sink.total_dropped (length r.sink.buffer))
        × (r'.sink.total_failures ≡ add64 r.sink.total_failures 1)
  flush-bad_timestamp a r xs ys ev e h =
      let bad : serialize_batch dec print r.sink.cfg r.sink.buffer ≡ none =
        ap (serialize_batch dec print r.sink.cfg) e ∙ serialize_batch-bad r.sink.cfg xs ys ev h in
      elim (flush-Flushed dec print a r) [
        | nothing empty f ↦
            absurd (omega (arith, ap length e, ap length empty, length-append xs (ev ∷ ys)))
        | dropped why f ↦ rw f (refl, refl, refl, refl, refl)
        | stored rows fine f ↦ absurd (ground (arith, fine, bad))
      ]
