-- ===== src/Markets/Start.antt =====
-- `run` of markets/stream.rs from its start: the consumer group, the pending phase and then the new
-- entries.
use polymarket_orderbook_col.Base.{
  String, ◌≡◌, refl, ap, ◌∙◌, Option, none, some, List, [], ◌∷◌, ◌++◌, append_assoc, map, Bool,
  true, false, not, ◌&&◌, All, is_empty, Result, ok, err, if◌then◌else◌, Bool-cases, inl, inr,
}
use polymarket_orderbook_col.Events.Json.{Json}
use polymarket_orderbook_col.Pool.{Pool}
use polymarket_orderbook_col.Pool.Registry.{registry}
use polymarket_orderbook_col.Pool.Serving.{IsServing}
use polymarket_orderbook_col.Markets.Stream.{
  StreamConfig, StreamError, open_failed, connect_failed, create_failed, setid_failed, read_failed,
  Request, xgroup_create, xgroup_setid, Listener, CreateAnswer, created, busy_group, refused, Reply,
  send, start_id, ensure_consumer_group, run,
}
use polymarket_orderbook_col.Markets.Replay.{IsFair, Serves}
use polymarket_orderbook_col.Markets.Entries.{acks, reads, id_of, entries, last_id, replay}
use polymarket_orderbook_col.Markets.Listening.{
  answered, all_answered, all_entries, cursors, listen_lem,
}

-- The commands for the group: SETID only where the group is there already and the backlog is skipped.
abbrev pub group_requests : StreamConfig → CreateAnswer → List Request
group_requests cfg busy_group =
    if cfg.skip_backlog then xgroup_create "$" ∷ xgroup_setid "$" ∷ [] else xgroup_create "0" ∷ []
group_requests cfg created = xgroup_create (if cfg.skip_backlog then "$" else "0") ∷ []
group_requests cfg refused = xgroup_create (if cfg.skip_backlog then "$" else "0") ∷ []

-- Why the group is not there, if it is not.
abbrev pub group_error : StreamConfig → CreateAnswer → (setid_ok : Bool) → Option StreamError
group_error cfg created setid_ok = none
group_error cfg refused setid_ok = some create_failed
group_error cfg busy_group setid_ok =
    if cfg.skip_backlog && not setid_ok then some setid_failed else none

abbrev pub outcome : Option StreamError → Listener → Result (StreamError × Listener) Listener
outcome none s = ok s
outcome (some e) s = err (e, s)

twice :
    (rs : List Request) (id : String)
    → (rs ++ xgroup_create id ∷ []) ++ xgroup_setid id ∷ []
      ≡ rs ++ xgroup_create id ∷ xgroup_setid id ∷ []
twice rs id = append_assoc rs (xgroup_create id ∷ []) (xgroup_setid id ∷ [])

-- `ensure_consumer_group` sends XGROUP CREATE, from the end of the stream if the backlog is skipped and
-- from its start if not, and a SETID to the end exactly if the group was there and the backlog is
-- skipped. It fails exactly if the group cannot be created for another reason or the SETID fails.
ensure_consumer_group_lem :
    (cfg : StreamConfig) (answer : CreateAnswer) (setid_ok : Bool) (s : Listener)
    → ensure_consumer_group cfg answer setid_ok s
      ≡ outcome
          (group_error cfg answer setid_ok)
          (record s { requests = s.requests ++ group_requests cfg answer })
unfolding ensure_consumer_group send start_id
ensure_consumer_group_lem cfg created setid_ok s = refl
ensure_consumer_group_lem cfg refused setid_ok s = refl
ensure_consumer_group_lem cfg busy_group setid_ok s = elim (Bool-cases cfg.skip_backlog) [
  | inr keep_it ↦ rw keep_it refl
  | inl skip_it ↦ elim (Bool-cases setid_ok) [
    | inl is_set ↦
        rw skip_it (rw is_set (ap (λ q. ok (record s { requests = q })) (twice s.requests "$")))
    | inr not_set ↦ rw skip_it (
        rw not_set (ap (λ q. err (setid_failed, record s { requests = q })) (twice s.requests "$")))
  ]
]

acks-group : (cfg : StreamConfig) (answer : CreateAnswer) → acks (group_requests cfg answer) ≡ []
acks-group cfg created = refl
acks-group cfg refused = refl
acks-group cfg busy_group = elim (Bool-cases cfg.skip_backlog) [
  | inl e ↦ rw e refl
  | inr e ↦ rw e refl
]

reads-group : (cfg : StreamConfig) (answer : CreateAnswer) → reads (group_requests cfg answer) ≡ []
reads-group cfg created = refl
reads-group cfg refused = refl
reads-group cfg busy_group = elim (Bool-cases cfg.skip_backlog) [
  | inl e ↦ rw e refl
  | inr e ↦ rw e refl
]

-- The reads of the pending phase: from the start, and then after the last entry of each reply.
abbrev pub resume : String → List Reply → List String
resume id [] = id ∷ []
resume id (reply ∷ rest) = id ∷ resume (last_id (entries reply) id) rest

cursors-new :
    (id : String) (replies : List Reply)
    → cursors true id (map some replies) ≡ map (λ reply. ">") replies
cursors-new id [] = refl
cursors-new id (reply ∷ rest) = ap (λ t. ">" ∷ t) (cursors-new (last_id (entries reply) id) rest)

cursors-pending :
    (id : String) (before : List Reply) (none_left : Reply) (after : List Reply)
    → All (λ reply. is_empty (entries reply) ≡ false) before
    → is_empty (entries none_left) ≡ true
    → cursors false id (map some before ++ some none_left ∷ map some after)
      ≡ resume id before ++ map (λ reply. ">") after
cursors-pending id [] none_left after h e =
    rw e (ap (λ t. id ∷ t) (cursors-new (last_id (entries none_left) id) after))
cursors-pending id (reply ∷ before) none_left after (h, hs) e =
    rw h
      (ap (λ t. id ∷ t) (cursors-pending (last_id (entries reply) id) before none_left after hs e))

answers :
    (before : List Reply) (none_left : Reply) (after : List Reply)
    → all_answered (map some before ++ some none_left ∷ map some after) ≡ true
answers [] none_left [] = refl
answers [] none_left (reply ∷ after) = answers [] none_left after
answers (reply ∷ before) none_left after = answers before none_left after

module _ (parse : String → Option Json) where
  -- What `run` has done: it acknowledged the entries that it read, once and in order, read as the phases
  -- say from "0" on, and the pool serves the markets that the entries leave.
  pub record HasRun (owner : String → String) (replies : List (Option Reply)) (p : Pool)
      (s : Listener) : Type 0 where
    pub acked : acks s.requests ≡ map id_of (all_entries (answered replies))
    pub read : reads s.requests ≡ cursors false "0" replies
    pub serves : Serves owner s.pool (replay parse (all_entries (answered replies)) (registry p))

  -- With a connection and a group, `run` goes on until a read fails, without a panic. By then it has
  -- acknowledged each entry that it read once and in order, and the pool serves exactly the markets that
  -- the entries leave of those before, if it was serving, the shuffles keep the items and the assets of
  -- every market that is opened belong to it.
  pub run_lem :
      (cfg : StreamConfig) (answer : CreateAnswer) (setid_ok : Bool) (owner : String → String)
      (replies : List (Option Reply)) (p : Pool)
      → group_error cfg answer setid_ok ≡ none
      → All (IsFair parse owner) (all_entries (answered replies))
      → IsServing owner p
      → (s : Listener) × (run parse cfg true true answer setid_ok replies p
          ≡ (if all_answered replies then ok s else err (read_failed, s)))
        × HasRun owner replies p s
  unfolding run
  run_lem cfg answer setid_ok owner replies p good f v =
      let start : Listener = record {
        pending_done = false;
        last_pending_id = "0";
        pool = p;
        requests = [];
      } in
      let grouped : Listener = record start { requests = group_requests cfg answer } in
      let (s, ran, l) = listen_lem parse owner replies grouped f v in
      (
        s,
        rw (ensure_consumer_group_lem cfg answer setid_ok start) (rw good ran),
        record {
          acked =
              l.acked
              ∙ ap (λ t. t ++ map id_of (all_entries (answered replies))) (acks-group cfg answer);
          read = l.read ∙ ap (λ t. t ++ cursors false "0" replies) (reads-group cfg answer);
          serves = record { serving = l.serves.serving; same = l.serves.same };
        },
      )

  -- The pending entries come first, also with `skip_backlog`: with a connection and a group, `run` reads
  -- from "0", which are the entries delivered to this consumer and not yet acknowledged, then after the
  -- last entry of each reply, until a reply has no entries, and from then on only new entries, if the
  -- pool was serving, the shuffles keep the items and the assets of every market that is opened belong
  -- to it.
  pub pending_then_new :
      (cfg : StreamConfig) (answer : CreateAnswer) (setid_ok : Bool) (owner : String → String)
      (before : List Reply) (none_left : Reply) (after : List Reply) (p : Pool)
      → group_error cfg answer setid_ok ≡ none
      → All
          (IsFair parse owner)
          (all_entries (answered (map some before ++ some none_left ∷ map some after)))
      → IsServing owner p
      → All (λ reply. is_empty (entries reply) ≡ false) before
      → is_empty (entries none_left) ≡ true
      → (s : Listener) × (run parse cfg true true answer setid_ok
            (map some before ++ some none_left ∷ map some after)
            p
          ≡ ok s)
        × (reads s.requests ≡ resume "0" before ++ map (λ reply. ">") after)
  pending_then_new cfg answer setid_ok owner before none_left after p good f v h e =
      let replies = map some before ++ some none_left ∷ map some after in
      let (s, ran, r) = run_lem cfg answer setid_ok owner replies p good f v in
      (
        s,
        ran ∙ ap (λ b. if b then ok s else err (read_failed, s)) (answers before none_left after),
        r.read ∙ cursors-pending "0" before none_left after h e,
      )

  -- Without a connection or a group `run` ends at once: nothing is read, and the pool is not touched.
  run-failed :
      (cfg : StreamConfig) (opened connected : Bool) (answer : CreateAnswer) (setid_ok : Bool)
      (replies : List (Option Reply)) (p : Pool) (e : StreamError)
      → (if opened
          then (if connected then group_error cfg answer setid_ok else some connect_failed)
          else some open_failed)
        ≡ some e
      → (s : Listener) × (run parse cfg opened connected answer setid_ok replies p ≡ err (e, s))
        × (reads s.requests ≡ [])
        × (acks s.requests ≡ [])
        × (s.pool ≡ p)
  unfolding run
  run-failed cfg opened connected answer setid_ok replies p e h =
      let start : Listener = record {
        pending_done = false;
        last_pending_id = "0";
        pool = p;
        requests = [];
      } in
      elim (Bool-cases opened) [
        | inr closed ↦
            (start, rw closed (ap (λ k. err (k, start)) (cc (rw closed at h))), refl, refl, refl)
        | inl is_open ↦ elim (Bool-cases connected) [
          | inr apart ↦ (
            start,
            rw is_open (rw apart (ap (λ k. err (k, start)) (cc (rw apart at (rw is_open at h))))),
            refl,
            refl,
            refl,
          )
          | inl linked ↦
              let bad = rw linked at (rw is_open at h) in
              let s : Listener = record start { requests = group_requests cfg answer } in
              (
                s,
                rw is_open (
                    rw linked
                      (rw (ensure_consumer_group_lem cfg answer setid_ok start) (rw bad refl))),
                reads-group cfg answer,
                acks-group cfg answer,
                refl,
              )
        ]
      ]
