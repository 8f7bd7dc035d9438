-- ===== src/Connection/Session.antt =====
-- `run_session` of ws/connection.rs: the select loop of one connected session. Each turn of the loop
-- is given by the branch that `select!` takes, with the instants that it reads, what the parser and
-- the forwarder answer, and whether the writes succeed.
use polymarket_orderbook_col.Base.{
  true, ℕ, suc, ◌-◌, String, Option, none, some, List, [], ◌∷◌, Bool, ◌&&◌, ltb, leb, min, is_empty,
  Result, ok, err, Text, trim, eq_text, byte_len, slice_to, if◌then◌else◌,
}
use polymarket_orderbook_col.Events.{WireFrame, Event}
use polymarket_orderbook_col.Events.Json.{DecimalText}
use polymarket_orderbook_col.Dedup.{DedupForwarder, Answer, full, closed, try_send}
use polymarket_orderbook_col.Connection.{
  ConnStats, Command, SessionOutcome, OutMessage, ping_text, ws_pong, close, pong_timeout,
}
use polymarket_orderbook_col.Connection.Frames.{handle_text}
use polymarket_orderbook_col.Connection.Commands.{after_write, CommandState, do_command}

-- The locals of `run_session`, the connection's state that it borrows, and the shared forwarder.
pub record Session (D : Type 0) : Type 0 where
  pub core : CommandState
  pub last_message_time : Option ℕ
  pub last_pong : ℕ
  pub last_ping_sent : Option ℕ
  pub events_buf : List (Event D)
  pub forwarder : DedupForwarder D

-- How a turn ends: the loop goes on, the function returns, the process exits, the task panics.
pub data Flow : Type 0 where
  continue : Flow
  returns : SessionOutcome → Flow
  exits : ℕ → Flow
  panics : Flow

-- What one call of the forwarder reads and is answered.
pub record Slot : Type 0 where
  pub read : ℕ
  pub reset : ℕ
  pub answer : Answer

-- What the socket's read side yields.
pub data Incoming : Type 0 where
  text ws_ping ws_pong_frame binary close_frame raw_frame read_error stream_end : Incoming

pub data Turn : Type 0 where
  read_text : Text → (now pong_now : ℕ) → (ℕ → Slot) → Turn
  read_other : Incoming → Turn
  tick : (check_now sent_now : ℕ) (write_ok : Bool) → Turn
  recv : (write_ok : Bool) → Option Command → Turn

abbrev pub write : {D : Type 0} → Bool → OutMessage → Session D → Session D
write write_ok m s = record s {
  core = record (s.core) { written = after_write write_ok m s.core.written };
}

abbrev pub pong : Text
pong = b'P' ∷ b'O' ∷ b'N' ∷ b'G' ∷ []

-- The log line of a parse failure slices the text by bytes.
unfoldable pub snippet : Text → Option Text
snippet stripped = slice_to (min (byte_len stripped) 200) stripped

-- The branch of the PING ticker.
unfoldable pub on_tick : {D : Type 0} → ℕ → ℕ → Bool → Session D → Session D × Flow
on_tick check_now sent_now write_ok s =
    let ping =
      if write_ok
      then (record (write true ping_text s) { last_ping_sent = some sent_now }, continue)
      else (s, returns SessionOutcome.closed) in
    elim (s.last_ping_sent) [
      | none ↦ ping
      | some sent_at ↦
          if ltb s.last_pong sent_at && leb pong_timeout (check_now - sent_at)
          then (write write_ok close s, returns SessionOutcome.pong_timeout_outcome)
          else ping
    ]

-- The branch of the pool's commands.
unfoldable pub on_command : {D : Type 0} → Bool → Option Command → Session D → Session D × Flow
on_command write_ok none s = (write write_ok close s, returns SessionOutcome.shutdown)
on_command write_ok (some c) s = (record s { core = do_command write_ok c s.core }, continue)

-- The frames that carry no text. (Whether the answer to a ping is written is not looked at.)
unfoldable pub on_other : {D : Type 0} → Incoming → Session D → Session D × Flow
on_other ws_ping s = (write true ws_pong s, continue)
on_other close_frame s = (s, returns SessionOutcome.closed)
on_other read_error s = (s, returns SessionOutcome.closed)
on_other stream_end s = (s, returns SessionOutcome.closed)
on_other _ s = (s, continue)

module _ {D : Type 0} (dec : DecimalText D) (hasher : List String → ℕ) where
  -- The loop that drains the buffer into the forwarder; the `i`-th call reads slot `i`.
  unfoldable pub drain :
      (ℕ → Slot) → ℕ → List (Event D) → DedupForwarder D → DedupForwarder D × Flow
  drain slots i [] f = (f, continue)
  drain slots i (ev ∷ evs) f =
      elim (try_send dec hasher (slots i).read (slots i).reset (slots i).answer ev f) [
        | none ↦ (f, panics)
        | some (f', ok _) ↦ drain slots (suc i) evs f'
        | some (f', err full) ↦ (f', exits 1)
        | some (f', err closed) ↦ (f', returns SessionOutcome.channel_closed)
      ]

  module _ (from_str : Text → Result String (WireFrame D)) where
    -- What follows `handle_text`: the drain, or the log line of a parse failure.
    unfoldable pub after_parse :
        (ℕ → Slot)
        → Text
        → (ConnStats × List (Event D)) × Result String (Unit {0})
        → Session D
        → Session D × Flow
    unfolding drain snippet
    after_parse slots stripped ((stats, buf), ok _) s =
        let drained = drain slots 0 buf s.forwarder in
        (
          record s {
            core = record (s.core) { stats = stats };
            events_buf = [];
            forwarder = drained.0;
          },
          drained.1,
        )
    after_parse slots stripped ((stats, buf), err e) s = (
      record s { core = record (s.core) { stats = stats }; events_buf = buf },
      (elim (snippet stripped) [ none ↦ panics | some t ↦ continue ]),
    )

    -- The branch of a text frame.
    unfoldable pub on_text : Text → ℕ → ℕ → (ℕ → Slot) → Session D → Session D × Flow
    unfolding handle_text after_parse
    on_text raw now pong_now slots s =
        let s' = record s { last_message_time = some now } in
        let stripped = trim raw in
        if is_empty stripped
        then (s', continue)
        else if eq_text stripped pong
        then (record s' { last_pong = pong_now }, continue)
        else after_parse slots stripped
            (handle_text from_str stripped s.core.sub s.core.stats s.events_buf) s'

    unfoldable pub turn : Turn → Session D → Session D × Flow
    unfolding on_text on_other on_tick on_command
    turn (read_text raw now pong_now slots) s = on_text raw now pong_now slots s
    turn (read_other i) s = on_other i s
    turn (tick check_now sent_now write_ok) s = on_tick check_now sent_now write_ok s
    turn (recv write_ok c) s = on_command write_ok c s

    -- The loop, over the turns that `select!` takes, until one of them ends it.
    unfoldable pub turns : List Turn → Session D → Session D × Flow
    unfolding turn
    turns [] s = (s, continue)
    turns (t ∷ ts) s =
        let (s', flow) = turn t s in elim flow [ continue ↦ turns ts s' | f ↦ (s', f) ]
