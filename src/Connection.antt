-- ===== src/Connection.antt =====
-- shared/rust/polymarket-orderbook-rust/src/ws/connection.rs: the types of one WebSocket connection.
-- Its code is in the children: text frames (Frames), pool commands (Commands), the select loop of a
-- session (Session) and the reconnect loop (Run). Instants and durations are in nanoseconds.
pub mod Frames
pub mod Commands
pub mod Session
pub mod Run
pub mod Filter
pub mod Loops
pub mod Subscriptions
pub mod Heartbeat
pub mod Backoff
pub mod Documents
mod Tests
use polymarket_orderbook_col.Base.{
  ℕ, ◌*◌, ◌^◌, String, Option, none, some, List, [], ◌∷◌, Bool, true, false, Text,
}
use polymarket_orderbook_col.Events.Json.{Json}

pub data ConnStatus : Type 0 where
  connected disconnected : ConnStatus

abbrev pub seconds : ℕ → ℕ
seconds n = n * 1_000_000_000

abbrev pub ping_interval : ℕ
ping_interval = seconds 10

abbrev pub pong_timeout : ℕ
pong_timeout = seconds 5

abbrev pub reconnect_delay_max : ℕ
reconnect_delay_max = seconds 60

pub record ConnStats : Type 0 where
  pub books : ℕ
  pub price_changes : ℕ
  pub trades : ℕ
  pub tick_changes : ℕ
  pub reconnects : ℕ
  pub desired_count : ℕ

pub record PeriodStats : Type 0 where
  pub books : ℕ
  pub price_changes : ℕ
  pub trades : ℕ
  pub tick_changes : ℕ

-- Reads the counters of the period and sets them to 0.
unfoldable pub drain_period : ConnStats → ConnStats × PeriodStats
drain_period s = (
  record s { books = 0; price_changes = 0; trades = 0; tick_changes = 0 },
  record {
    books = s.books;
    price_changes = s.price_changes;
    trades = s.trades;
    tick_changes = s.tick_changes;
  },
)

pub data Command : Type 0 where
  subscribe : List String → Command
  unsubscribe : List String → Command

-- The durable intent, and what was sent in the current session.
pub record SubState : Type 0 where
  pub desired : List String
  pub subscribed : List String
  pub initial_sent : Bool

abbrev pub default_sub : SubState
default_sub = record { desired = []; subscribed = []; initial_sent = false }

unfoldable pub reset_session : SubState → SubState
reset_session s = record s { subscribed = []; initial_sent = false }

-- Why a session ended. The text of an `anyhow::Error` is left out.
pub data SessionOutcome : Type 0 where
  pong_timeout_outcome closed channel_closed shutdown error : SessionOutcome

-- What is written to the socket.
pub data OutMessage : Type 0 where
  text : Json → OutMessage
  ping_text : OutMessage
  ws_pong : OutMessage
  close : OutMessage
