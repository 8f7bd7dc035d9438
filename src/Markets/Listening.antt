-- ===== src/Markets/Listening.antt =====
-- The loop of `run` in markets/stream.rs: it never panics, acknowledges what it reads, and keeps the pool
-- at what the entries say.
use polymarket_orderbook_col.Base.{
  String, ◌≡◌, refl, sym, ap, ◌∙◌, Option, none, some, List, [], ◌∷◌, ◌++◌, append-nil,
  append_assoc, map, map-append, Bool, true, false, not, ◌&&◌, ◌||◌, arith, All, All-take, All-drop,
  is_empty, ok, err, if◌then◌else◌, Bool-cases, inl, inr,
}
use polymarket_orderbook_col.Events.Json.{Json}
use polymarket_orderbook_col.Pool.Registry.{registry}
use polymarket_orderbook_col.Pool.Serving.{IsServing}
use polymarket_orderbook_col.Markets.Stream.{
  read_failed, xreadgroup, Listener, Delivery, Reply, send, read_id, got_any, on_reply, listen,
}
use polymarket_orderbook_col.Markets.Replay.{IsFair, Serves}
use polymarket_orderbook_col.Markets.Entries.{
  acks, reads, acks-append, reads-append, id_of, entries, last_id, replay, replay-append,
  Handled-none, on_streams-Handled,
}

-- The replies before the first read that fails, and whether none fails.
abbrev pub answered : List (Option Reply) → List Reply
answered [] = []
answered (none ∷ rest) = []
answered (some reply ∷ rest) = reply ∷ answered rest

abbrev pub all_answered : List (Option Reply) → Bool
all_answered [] = true
all_answered (none ∷ rest) = false
all_answered (some reply ∷ rest) = all_answered rest

abbrev pub all_entries : List Reply → List Delivery
all_entries [] = []
all_entries (reply ∷ rest) = entries reply ++ all_entries rest

-- The ids from which the loop reads: in the pending phase the last id that it has seen, then `>`.
abbrev pub cursors : Bool → String → List (Option Reply) → List String
cursors pending_done id [] = []
cursors pending_done id (none ∷ rest) = (if pending_done then ">" else id) ∷ []
cursors pending_done id (some reply ∷ rest) =
    (if pending_done then ">" else id)
    ∷ cursors (pending_done || is_empty (entries reply)) (last_id (entries reply) id) rest

got_any-entries : (reply : Reply) → got_any reply ≡ not (is_empty (entries reply))
unfolding got_any
got_any-entries [] = refl
got_any-entries ([] ∷ rest) = got_any-entries rest
got_any-entries ((d ∷ ds) ∷ rest) = refl

module _ (parse : String → Option Json) where
  -- The state after a reply.
  record Replied (owner : String → String) (reply : Reply) (s s' : Listener) : Type 0 where
    acked : acks s'.requests ≡ acks s.requests ++ map id_of (entries reply)
    unread : reads s'.requests ≡ reads s.requests
    last : s'.last_pending_id ≡ last_id (entries reply) s.last_pending_id
    phase : s'.pending_done ≡ (s.pending_done || is_empty (entries reply))
    serves : Serves owner s'.pool (replay parse (entries reply) (registry s.pool))

  on_reply-Replied :
      (owner : String → String) (reply : Reply) (s : Listener)
      → All (IsFair parse owner) (entries reply)
      → IsServing owner s.pool
      → (s' : Listener) × (on_reply parse reply s ≡ ok s') × Replied owner reply s s'
  unfolding on_reply
  on_reply-Replied owner [] s f v =
      let h = Handled-none parse owner s v in
      (
        record s { pending_done = true },
        refl,
        record {
          acked = h.acked;
          unread = refl;
          last = refl;
          phase = ground arith;
          serves = record { serving = v; same = refl };
        },
      )
  on_reply-Replied owner (ids ∷ rest) s f v =
      let reply = ids ∷ rest in
      let (s1, run, h) = on_streams-Handled parse owner reply s f v in
      elim (Bool-cases (not (got_any reply) && not s1.pending_done)) [
        | inl switch ↦ (
          record s1 { pending_done = true },
          rw run (rw switch refl),
          record {
            acked = h.acked;
            unread = h.unread;
            last = h.last;
            phase = ground (arith, switch, got_any-entries reply);
            serves = record { serving = h.serves.serving; same = h.serves.same };
          },
        )
        | inr stay ↦ (
          s1,
          rw run (rw stay refl),
          record {
            acked = h.acked;
            unread = h.unread;
            last = h.last;
            phase = ground (arith, stay, got_any-entries reply, h.same_phase);
            serves = record { serving = h.serves.serving; same = h.serves.same };
          },
        )
      ]

  -- What the loop has done when it stands or has ended with a failed read: every entry read has been
  -- acknowledged once, in order, the reads were those of the phases, and the pool serves the markets that
  -- the entries leave.
  pub record Listened (owner : String → String) (replies : List (Option Reply)) (s s' : Listener)
      : Type 0 where
    pub acked : acks s'.requests ≡ acks s.requests ++ map id_of (all_entries (answered replies))
    pub read :
        reads s'.requests ≡ reads s.requests ++ cursors s.pending_done s.last_pending_id replies
    pub serves :
        Serves owner s'.pool (replay parse (all_entries (answered replies)) (registry s.pool))

  -- The loop never panics: it goes on until a read fails. Whatever the replies, every entry read is
  -- acknowledged once and in order, each read is the one of its phase, and the pool serves exactly the
  -- markets that the entries leave, if it was serving, the shuffles keep the items and the assets of every
  -- market that is opened belong to it.
  pub listen_lem :
      (owner : String → String) (replies : List (Option Reply)) (s : Listener)
      → All (IsFair parse owner) (all_entries (answered replies))
      → IsServing owner s.pool
      → (s' : Listener) × (listen parse replies s
          ≡ (if all_answered replies then ok s' else err (read_failed, s')))
        × Listened owner replies s s'
  unfolding listen send read_id
  listen_lem owner [] s f v = (
    s,
    refl,
    record {
      acked = sym (append-nil (acks s.requests));
      read = sym (append-nil (reads s.requests));
      serves = record { serving = v; same = refl };
    },
  )
  listen_lem owner (none ∷ rest) s f v = (
    send (xreadgroup (read_id s)) s,
    refl,
    record {
      acked = acks-append s.requests (xreadgroup (read_id s) ∷ []);
      read = reads-append s.requests (xreadgroup (read_id s) ∷ []);
      serves = record { serving = v; same = refl };
    },
  )
  listen_lem owner (some reply ∷ rest) s f v =
      let s0 = send (xreadgroup (read_id s)) s in
      let later = all_entries (answered rest) in
      let (s1, run, r) = on_reply-Replied owner reply s0 (All-take _ (entries reply) later f) v in
      let (s2, runs, l) =
        listen_lem owner rest s1 (All-drop _ (entries reply) later f) r.serves.serving in
      let not_acked : acks s0.requests ≡ acks s.requests =
        acks-append s.requests (xreadgroup (read_id s) ∷ []) ∙ append-nil (acks s.requests) in
      (
        s2,
        rw run runs,
        record {
          acked =
              l.acked
              ∙ ap (λ t. t ++ map id_of later)
                  (r.acked ∙ ap (λ t. t ++ map id_of (entries reply)) not_acked)
              ∙ append_assoc (acks s.requests) (map id_of (entries reply)) (map id_of later)
              ∙ ap (λ t. acks s.requests ++ t) (sym (map-append id_of (entries reply) later));
          read =
              l.read
              ∙ ap (λ t. t ++ cursors s1.pending_done s1.last_pending_id rest)
                  (r.unread ∙ reads-append s.requests (xreadgroup (read_id s) ∷ []))
              ∙ append_assoc (reads s.requests) (read_id s ∷ [])
                  (cursors s1.pending_done s1.last_pending_id rest)
              ∙ ap (λ t. reads s.requests ++ read_id s ∷ t)
                  (ap (λ b. cursors b s1.last_pending_id rest) r.phase
                    ∙ ap (λ k. cursors (s.pending_done || is_empty (entries reply)) k rest) r.last);
          serves = record {
            serving = l.serves.serving;
            same =
                l.serves.same
                ∙ ap (replay parse later) r.serves.same
                ∙ sym (replay-append parse (entries reply) later (registry s.pool));
          };
        },
      )
