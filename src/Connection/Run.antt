-- ===== src/Connection/Run.antt =====
-- `Connection::run` of ws/connection.rs: connect, run a session, reconnect with backoff. Each round of
-- the loop is given by what the environment does: whether the command channel is closed and empty,
-- whether the connect succeeds, and what the session does with the state.
use polymarket_orderbook_col.Base.{
  ℕ, ◌*◌, min, Option, none, some, List, [], ◌∷◌, ◌++◌, Bool, true, false, add64, if◌then◌else◌,
}
use polymarket_orderbook_col.Connection.{
  ConnStatus, connected, disconnected, ConnStats, SubState, default_sub, reset_session,
  SessionOutcome, pong_timeout_outcome, closed, channel_closed, shutdown, error, seconds,
  reconnect_delay_max,
}

-- The locals of `run`, with what it has published and how long it has slept, in order.
pub record RunState : Type 0 where
  pub sub : SubState
  pub stats : ConnStats
  pub backoff : ℕ
  pub last_message_time : Option ℕ
  pub pong_timed_out : Bool
  pub first_attempt : Bool
  pub status_tx : List ConnStatus
  pub slept : List ℕ

abbrev pub default_stats : ConnStats
default_stats = record {
  books = 0;
  price_changes = 0;
  trades = 0;
  tick_changes = 0;
  reconnects = 0;
  desired_count = 0;
}

unfoldable pub start : RunState
start = record {
  sub = default_sub;
  stats = default_stats;
  backoff = seconds 1;
  last_message_time = none;
  pong_timed_out = false;
  first_attempt = true;
  status_tx = [];
  slept = [];
}

-- What a session leaves behind.
pub record SessionEnd : Type 0 where
  pub sub : SubState
  pub stats : ConnStats
  pub last_message_time : Option ℕ
  pub outcome : SessionOutcome

pub record Round : Type 0 where
  pub shutdown_requested : Bool
  pub connects : Bool
  pub session : SubState → ConnStats → Option ℕ → SessionEnd

-- The reconnect delay.
unfoldable pub delay : RunState → RunState
delay r =
    if r.first_attempt
    then record r { first_attempt = false }
    else if r.pong_timed_out
    then record r { pong_timed_out = false }
    else record r {
      slept = r.slept ++ r.backoff ∷ [];
      backoff = min (r.backoff * 2) reconnect_delay_max;
    }

abbrev pub publish : ConnStatus → RunState → RunState
publish c r = record r { status_tx = r.status_tx ++ c ∷ [] }

unfoldable pub count_reconnect : RunState → RunState
count_reconnect r = elim (r.last_message_time) [
  | none ↦ r
  | some last ↦ record r { stats = record (r.stats) { reconnects = add64 r.stats.reconnects 1 } }
]

-- After a session. The flag says whether the loop goes on; where it does not, `run` returns `Ok`.
unfoldable pub after_session : SessionOutcome → RunState → RunState × Bool
after_session pong_timeout_outcome r =
    (record r { pong_timed_out = true; backoff = seconds 1 }, true)
after_session closed r = (record r { backoff = seconds 1 }, true)
after_session channel_closed r = (r, false)
after_session shutdown r = (r, false)
after_session error r = (r, true)

-- The connected part of a round.
unfoldable pub connected_round :
    (SubState → ConnStats → Option ℕ → SessionEnd) → RunState → RunState × Bool
unfolding count_reconnect after_session
connected_round session r =
    let r1 = count_reconnect (record r { sub = reset_session r.sub }) in
    let r2 = publish connected r1 in
    let e = session r2.sub r2.stats r2.last_message_time in
    after_session e.outcome (
      publish disconnected
        (record r2 { sub = e.sub; stats = e.stats; last_message_time = e.last_message_time }))

-- One round of the loop.
unfoldable pub round : Round → RunState → RunState × Bool
unfolding delay connected_round
round env r =
    let r' = delay r in
    if env.shutdown_requested
    then (publish disconnected r', false)
    else if env.connects
    then connected_round env.session r'
    else (publish disconnected r', true)

-- The loop, over the rounds that the environment makes. The flag is false once `run` has returned.
unfoldable pub rounds : List Round → RunState → RunState × Bool
rounds [] r = (r, true)
rounds (e ∷ es) r =
    let (r', more) = round e r in elim more [ true ↦ rounds es r' | false ↦ (r', false) ]
