-- ===== src/Connection/Backoff.antt =====
-- The reconnect loop of ws/connection.rs: its delays, what it publishes, and how it ends.
use polymarket_orderbook_col.Base.{
  ℕ, zero, suc, ◌*◌, ◌^◌, ◌≤◌, min, ◌≡◌, refl, ◌∙◌, ap, Option, List, [], ◌∷◌, ◌++◌, append_assoc,
  Bool, true, false, arith, All, All-append, if◌then◌else◌, Bool-cases, Option-cases, inl, inr,
}
use polymarket_orderbook_col.Connection.{
  ConnStatus, connected, disconnected, ConnStats, SubState, reset_session, SessionOutcome,
  pong_timeout_outcome, closed, channel_closed, shutdown, error, seconds, reconnect_delay_max,
}
use native.Mathlib.Nat.{pow-suc}
use polymarket_orderbook_col.Connection.Run.{
  RunState, Round, SessionEnd, start, delay, after_session, connected_round, count_reconnect, round,
  rounds,
}

-- The next delay and every delay that was slept are between one second and one minute.
pub record IsPaced (r : RunState) : Type 0 where
  pub next : (seconds 1 ≤ r.backoff) × (r.backoff ≤ reconnect_delay_max)
  pub past : All (λ d. (seconds 1 ≤ d) × (d ≤ reconnect_delay_max)) r.slept

delay-IsPaced : (r : RunState) → IsPaced r → IsPaced (delay r)
unfolding delay
delay-IsPaced r p = elim (Bool-cases r.first_attempt) [
  | inl first ↦ rw (first, delay) (record { next = p.next; past = p.past })
  | inr again ↦ elim (Bool-cases r.pong_timed_out) [
    | inl pong ↦ rw (again, delay) (rw (pong, delay) (record { next = p.next; past = p.past }))
    | inr slow ↦
        rw (again, delay)
          (rw (slow, delay)
            (record {
              next = (omega (arith, p.next), omega (arith, p.next));
              past = All-append _ r.slept (r.backoff ∷ []) p.past (p.next, tt);
            }))
  ]
]

after_session-IsPaced :
    (o : SessionOutcome) (r : RunState) → IsPaced r → IsPaced (after_session o r).0
unfolding after_session
after_session-IsPaced pong_timeout_outcome r p = record {
  next = (omega arith, omega arith);
  past = p.past;
}
after_session-IsPaced closed r p = record { next = (omega arith, omega arith); past = p.past }
after_session-IsPaced channel_closed r p = p
after_session-IsPaced shutdown r p = p
after_session-IsPaced error r p = p

count_reconnect-IsPaced : (r : RunState) → IsPaced r → IsPaced (count_reconnect r)
unfolding count_reconnect
count_reconnect-IsPaced r p = elim (Option-cases r.last_message_time) [
  | inl e ↦ rw (e, count_reconnect) p
  | inr (t, e) ↦ rw (e, count_reconnect) (record { next = p.next; past = p.past })
]

connected_round-IsPaced :
    (f : SubState → ConnStats → Option ℕ → SessionEnd) (r : RunState)
    → IsPaced r
    → IsPaced (connected_round f r).0
unfolding connected_round
connected_round-IsPaced f r p =
    let r1 = count_reconnect (record r { sub = reset_session r.sub }) in
    let q =
      count_reconnect-IsPaced (record r { sub = reset_session r.sub })
        (record { next = p.next; past = p.past }) in
    let e = f r1.sub r1.stats r1.last_message_time in
    let r2 = record r1 {
      sub = e.sub;
      stats = e.stats;
      last_message_time = e.last_message_time;
      status_tx = (r1.status_tx ++ connected ∷ []) ++ disconnected ∷ [];
    } in
    after_session-IsPaced e.outcome r2 (record { next = q.next; past = q.past })

round-IsPaced : (env : Round) (r : RunState) → IsPaced r → IsPaced (round env r).0
unfolding round
round-IsPaced env r p =
    let q = delay-IsPaced r p in
    elim (Bool-cases env.shutdown_requested) [
      | inl stop ↦ rw (stop, round) (record { next = q.next; past = q.past })
      | inr go ↦ elim (Bool-cases env.connects) [
        | inl up ↦ rw (go, round) (rw (up, round) (connected_round-IsPaced env.session (delay r) q))
        | inr down ↦ rw (go, round) (rw (down, round) (record { next = q.next; past = q.past }))
      ]
    ]

rounds-IsPaced : (es : List Round) (r : RunState) → IsPaced r → IsPaced (rounds es r).0
unfolding rounds
rounds-IsPaced [] r p = p
rounds-IsPaced (e ∷ es) r p = elim (Bool-cases (round e r).1) [
  | inl more ↦ rw (more, rounds) (rounds-IsPaced es (round e r).0 (round-IsPaced e r p))
  | inr done ↦ rw (done, rounds) (round-IsPaced e r p)
]

start-IsPaced : IsPaced start
unfolding start
start-IsPaced = record { next = (omega arith, omega arith); past = tt }

-- Whatever the sessions and the network do, each reconnect delay of a connection is at least a second
-- and at most a minute.
pub delays_in_range :
    (es : List Round)
    → All (λ d. (seconds 1 ≤ d) × (d ≤ reconnect_delay_max)) (rounds es start).0.slept
delays_in_range es = (rounds-IsPaced es start start-IsPaced).past

-- What a round publishes.
unfoldable pub published : Round → List ConnStatus
published env =
    if env.shutdown_requested
    then disconnected ∷ []
    else if env.connects
    then connected ∷ disconnected ∷ []
    else disconnected ∷ []

after_session-status_tx :
    (o : SessionOutcome) (r : RunState) → (after_session o r).0.status_tx ≡ r.status_tx
unfolding after_session
after_session-status_tx pong_timeout_outcome r = refl
after_session-status_tx _ r = refl

delay-status_tx : (r : RunState) → (delay r).status_tx ≡ r.status_tx
unfolding delay
delay-status_tx r = ground arith

count_reconnect-status_tx : (r : RunState) → (count_reconnect r).status_tx ≡ r.status_tx
unfolding count_reconnect
count_reconnect-status_tx r = ground arith

connected_round-status_tx :
    (f : SubState → ConnStats → Option ℕ → SessionEnd) (r : RunState)
    → (connected_round f r).0.status_tx ≡ r.status_tx ++ connected ∷ disconnected ∷ []
unfolding connected_round
connected_round-status_tx f r =
    let r1 = count_reconnect (record r { sub = reset_session r.sub }) in
    let e = f r1.sub r1.stats r1.last_message_time in
    let r2 = record r1 {
      sub = e.sub;
      stats = e.stats;
      last_message_time = e.last_message_time;
      status_tx = (r1.status_tx ++ connected ∷ []) ++ disconnected ∷ [];
    } in
    after_session-status_tx e.outcome r2
    ∙ append_assoc r1.status_tx (connected ∷ []) (disconnected ∷ [])
    ∙ ap (λ l. l ++ connected ∷ disconnected ∷ [])
        (count_reconnect-status_tx (record r { sub = reset_session r.sub }))

-- Each round publishes `Connected` exactly if it gets a socket, and `Disconnected` at its end in any
-- case, also if the connection was not up.
round-status_tx :
    (env : Round) (r : RunState) → (round env r).0.status_tx ≡ r.status_tx ++ published env
unfolding round published
round-status_tx env r =
    ground (arith, delay-status_tx r, connected_round-status_tx env.session (delay r))

-- A connect that fails.
abbrev pub failing : Round
failing = record {
  shutdown_requested = false;
  connects = false;
  session = λ sub stats t. record {
    sub = sub;
    stats = stats;
    last_message_time = t;
    outcome = SessionOutcome.error;
  };
}

abbrev pub replicate {ℓ} : {A : Type ℓ} → ℕ → A → List A
replicate zero a = []
replicate (suc n) a = a ∷ replicate n a

failing_step :
    (r : RunState)
    → r.first_attempt ≡ false
    → r.pong_timed_out ≡ false
    → round failing r ≡ (
      record r {
        slept = r.slept ++ r.backoff ∷ [];
        backoff = min (r.backoff * 2) reconnect_delay_max;
        status_tx = r.status_tx ++ disconnected ∷ [];
      },
      true,
    )
unfolding round delay
failing_step r h g = rw (h, delay) (rw (g, delay) refl)

failed : RunState → RunState
failed r = record r {
  slept = r.slept ++ r.backoff ∷ [];
  backoff = min (r.backoff * 2) reconnect_delay_max;
  status_tx = r.status_tx ++ disconnected ∷ [];
}

doubled : (n p : ℕ) → 2 ^ n * (2 * p) ≡ 2 ^ suc n * p
doubled n p = rw (pow-suc 2 n) (grind arith)

rounds-cons :
    (e : Round) (es : List Round) (r r' : RunState)
    → round e r ≡ (r', true)
    → rounds (e ∷ es) r ≡ rounds es r'
unfolding rounds
rounds-cons e es r r' h =
    ap
      (λ (q : RunState × Bool). elim q.1 as (λ _. RunState × Bool) [
        | true ↦ rounds es q.0
        | false ↦ (q.0, false)
      ])
      h

failing_run :
    (n p : ℕ) (r : RunState)
    → r.first_attempt ≡ false
    → r.pong_timed_out ≡ false
    → r.backoff ≡ min (seconds p) reconnect_delay_max
    → ((rounds (replicate n failing) r).0.backoff ≡ min (seconds (2 ^ n * p)) reconnect_delay_max)
      × ((rounds (replicate n failing) r).1 ≡ true)
unfolding failed
failing_run zero p r h g e = unfold rounds in (omega (arith, e), refl)
failing_run (suc n) p r h g e =
    let rest = failing_run n (2 * p) (failed r) h g (omega (arith, e)) in
    rw (rounds-cons failing (replicate n failing) r (failed r) (failing_step r h g))
      (rest.0 ∙ ap (λ k. min (seconds k) reconnect_delay_max) (doubled n p), rest.1)

-- After `n + 1` connects that failed from the start, the loop still runs, and the next delay is
-- 2 ^ n seconds, but never more than a minute.
pub backoff_doubles :
    (n : ℕ)
    → ((rounds (replicate (suc n) failing) start).0.backoff
        ≡ min (seconds (2 ^ n)) reconnect_delay_max)
      × ((rounds (replicate (suc n) failing) start).1 ≡ true)
backoff_doubles n =
    let first = record start { first_attempt = false; status_tx = disconnected ∷ [] } in
    let rest =
      failing_run n 1 first (unfold start in refl) (unfold start in refl)
        (unfold start in omega arith) in
    rw (rounds-cons failing (replicate n failing) start first (unfold start round delay in refl))
      (rest.0 ∙ ap (λ k. min (seconds k) reconnect_delay_max) (omega arith), rest.1)
