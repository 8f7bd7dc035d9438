-- ===== src/Connection/Heartbeat.antt =====
-- The PING and PONG of a session of ws/connection.rs, and the log line of a frame that does not parse.
use polymarket_orderbook_col.Base.{
  ℕ, suc, ◌+◌, ◌≤◌, ◌<◌, min, String, ◌≡◌, ◌≢◌, refl, sym, ◌∙◌, subst, none, some, List, [], ◌∷◌,
  ◌++◌, Bool, true, false, arith, All, length, is_empty, Result, ok, err, Text, trim, eq_text,
  byte_len, slice_to-ascii, slice_to-split, byte_len-split, Bool-cases, inl, inr,
}
use polymarket_orderbook_col.Events.{WireFrame, Event}
use polymarket_orderbook_col.Events.Json.{DecimalText}
use polymarket_orderbook_col.Connection.{SessionOutcome, ConnStats, pong_timeout}
use polymarket_orderbook_col.Connection.Frames.{handle_text}
use polymarket_orderbook_col.Connection.Session.{
  Session, Flow, continue, returns, panics, Slot, Turn, read_text, read_other, tick, recv, Incoming,
  pong, snippet, on_tick, on_command, on_other, after_parse, on_text, turn, turns,
}

-- A turn that neither ticks nor reads a PONG.
abbrev pub IsQuiet : Turn → Type 0
IsQuiet (read_text raw now pong_now slots) = eq_text (trim raw) pong ≡ false
IsQuiet (read_other i) = Unit
IsQuiet (tick check_now sent_now write_ok) = ⊥
IsQuiet (recv write_ok c) = Unit

pong_full : (t : Text) → eq_text t pong ≡ true → is_empty t ≡ false
pong_full [] h = cc
pong_full (c ∷ cs) h = refl

snippet-ascii : (t : Text) → All (λ c. c < 0x80) t → snippet t ≢ none
unfolding snippet
snippet-ascii t h = slice_to-ascii (min (byte_len t) 200) t h (omega arith)

-- The log line panics for a text of 199 ASCII characters and then one that is not ASCII, whatever
-- follows.
snippet_may_panic :
    (pre rest : Text) (c : ℕ)
    → All (λ d. d < 0x80) pre
    → length pre ≡ 199
    → 0x80 ≤ c
    → snippet (pre ++ c ∷ rest) ≡ none
unfolding snippet
snippet_may_panic pre rest c ascii n wide =
    let cut : min (byte_len (pre ++ c ∷ rest)) 200 ≡ suc (length pre) =
      omega (arith, byte_len-split pre rest c wide) in
    rw cut (slice_to-split pre rest c ascii wide)

tick_sends :
    {D : Type 0} (check sent : ℕ) (s : Session D)
    → (on_tick check sent true s).1 ≡ continue
    → ((on_tick check sent true s).0.last_pong ≡ s.last_pong)
      × ((on_tick check sent true s).0.last_ping_sent ≡ some sent)
unfolding on_tick
tick_sends check sent s h = (ground arith, ground arith)

tick_times_out :
    {D : Type 0} (now later : ℕ) (w : Bool) (s : Session D) (sent : ℕ)
    → s.last_ping_sent ≡ some sent
    → s.last_pong < sent
    → sent + pong_timeout ≤ now
    → (on_tick now later w s).1 ≡ returns SessionOutcome.pong_timeout_outcome
unfolding on_tick
tick_times_out now later w s sent e h late = ground arith

tick_goes_on :
    {D : Type 0} (now later : ℕ) (s : Session D) (sent : ℕ)
    → s.last_ping_sent ≡ some sent
    → sent ≤ s.last_pong
    → (on_tick now later true s).1 ≡ continue
unfolding on_tick
tick_goes_on now later s sent e h = ground arith

module _ {D : Type 0} (dec : DecimalText D) (hasher : List String → ℕ)
    (from_str : Text → Result String (WireFrame D)) where
  abbrev Same : Session D → Session D → Type 0
  Same s s' = (s'.last_pong ≡ s.last_pong) × (s'.last_ping_sent ≡ s.last_ping_sent)

  after_parse-Same :
      (slots : ℕ → Slot) (t : Text)
      (parsed : (ConnStats × List (Event D)) × Result String (Unit {0})) (s : Session D)
      → Same s (after_parse dec hasher from_str slots t parsed s).0
  unfolding after_parse
  after_parse-Same slots t ((stats, buf), ok u) s = (refl, refl)
  after_parse-Same slots t ((stats, buf), err e) s = (refl, refl)

  turn-Same : (t : Turn) (s : Session D) → IsQuiet t → Same s (turn dec hasher from_str t s).0
  unfolding turn on_command on_other on_text
  turn-Same (read_text raw now pong_now slots) s q = elim (Bool-cases (is_empty (trim raw))) [
    | inl nothing ↦ rw (nothing, on_text) (refl, refl)
    | inr something ↦
        rw (something, on_text)
          (rw q (
            after_parse-Same slots (trim raw)
              (handle_text from_str (trim raw) s.core.sub s.core.stats s.events_buf)
              (record s { last_message_time = some now })))
  ]
  turn-Same (read_other i) s q = other i
    where
      other : (i : Incoming) → Same s (on_other i s).0
      other Incoming.ws_ping = (refl, refl)
      other _ = (refl, refl)
  turn-Same (tick check_now sent_now write_ok) s q = absurd q
  turn-Same (recv write_ok none) s q = (refl, refl)
  turn-Same (recv write_ok (some c)) s q = (refl, refl)

  turns-Same :
      (ts : List Turn) (s : Session D) → All IsQuiet ts → Same s (turns dec hasher from_str ts s).0
  unfolding turns
  turns-Same [] s q = (refl, refl)
  turns-Same (t ∷ ts) s (q, qs) =
      let (p1, p2) = turn-Same t s q in
      let s' = (turn dec hasher from_str t s).0 in
      let (r1, r2) = turns-Same ts s' qs in
      by_flow (turn dec hasher from_str t s).1 (p1, p2) (r1 ∙ p1, r2 ∙ p2)
    where
      by_flow :
          (f : Flow)
          → Same s (turn dec hasher from_str t s).0
          → Same s (turns dec hasher from_str ts (turn dec hasher from_str t s).0).0
          → Same s
              (elim f as (λ _. Session D × Flow) [
                | continue ↦ turns dec hasher from_str ts (turn dec hasher from_str t s).0
                | g ↦ ((turn dec hasher from_str t s).0, g)
              ]).0
      by_flow continue a b = b
      by_flow (returns o) a b = a
      by_flow (Flow.exits n) a b = a
      by_flow panics a b = a

  on_text-pong :
      (raw : Text) (at pong_at : ℕ) (slots : ℕ → Slot) (s : Session D)
      → eq_text (trim raw) pong ≡ true
      → ((on_text dec hasher from_str raw at pong_at slots s).0.last_pong ≡ pong_at)
        × ((on_text dec hasher from_str raw at pong_at slots s).0.last_ping_sent ≡ s.last_ping_sent)
  unfolding on_text
  on_text-pong raw at pong_at slots s h =
      let full = pong_full (trim raw) h in
      (rw (full, on_text) (rw h refl), rw (full, on_text) (rw h refl))

  -- A dead connection is found: if a PING was written at `sent` and no PONG is read until the next tick
  -- of the ticker, and five seconds have passed by then, that tick ends the session with the PONG timeout,
  -- whatever else the session did in between. (The last PONG was read before the PING was sent.)
  pub dead_connection_found :
      (check sent now later : ℕ) (w : Bool) (ts : List Turn) (s : Session D)
      → (turn dec hasher from_str (tick check sent true) s).1 ≡ continue
      → s.last_pong < sent
      → All IsQuiet ts
      → sent + pong_timeout ≤ now
      → let s1 = (turn dec hasher from_str (tick check sent true) s).0 in
        let s2 = (turns dec hasher from_str ts s1).0 in
        (turn dec hasher from_str (tick now later w) s2).1
        ≡ returns SessionOutcome.pong_timeout_outcome
  unfolding turn
  dead_connection_found check sent now later w ts s goes_on before quiet late =
      let first = tick_sends check sent s goes_on in
      let s1 = (on_tick check sent true s).0 in
      let s2 = (turns dec hasher from_str ts s1).0 in
      let same = turns-Same ts s1 quiet in
      tick_times_out now later w s2 sent (same.1 ∙ first.1)
        (subst (λ n. n < sent) (sym (same.0 ∙ first.0)) before) late

  -- A live connection is kept: after a PONG that was read no earlier than the last PING was sent, the
  -- next tick that can write does not end the session, however late it comes, and also if the PONG was
  -- read more than five seconds after the PING: only a tick looks at the time, and not how late a PONG was.
  pub live_connection_kept :
      (raw : Text) (at pong_at sent now later : ℕ) (slots : ℕ → Slot) (ts : List Turn)
      (s : Session D)
      → s.last_ping_sent ≡ some sent
      → sent ≤ pong_at
      → eq_text (trim raw) pong ≡ true
      → All IsQuiet ts
      → let s1 = (turn dec hasher from_str (read_text raw at pong_at slots) s).0 in
        let s2 = (turns dec hasher from_str ts s1).0 in
        (turn dec hasher from_str (tick now later true) s2).1 ≡ continue
  unfolding turn on_text
  live_connection_kept raw at pong_at sent now later slots ts s e h is_pong quiet =
      let read = on_text-pong raw at pong_at slots s is_pong in
      let s1 = (on_text dec hasher from_str raw at pong_at slots s).0 in
      let s2 = (turns dec hasher from_str ts s1).0 in
      let same = turns-Same ts s1 quiet in
      tick_goes_on now later s2 sent (same.1 ∙ read.1 ∙ e)
        (subst (λ n. sent ≤ n) (sym (same.0 ∙ read.0)) h)

  -- A frame that does not parse ends the connection's task with a panic exactly if the log line's slice
  -- of the trimmed text is inside a character; else the session goes on. The forwarder gets nothing.
  pub parse_failure_lem :
      (raw : Text) (at pong_at : ℕ) (slots : ℕ → Slot) (s : Session D) (e : String)
      → is_empty (trim raw) ≡ false
      → eq_text (trim raw) pong ≡ false
      → from_str (trim raw) ≡ err e
      → let out = turn dec hasher from_str (read_text raw at pong_at slots) s in
        (out.1 ≡ (elim (snippet (trim raw)) [ none ↦ panics | some t ↦ continue ]))
        × (out.0.forwarder ≡ s.forwarder)
        × (out.0.core ≡ s.core)
  unfolding turn on_text after_parse handle_text
  parse_failure_lem raw at pong_at slots s e full not_pong bad = ground arith
