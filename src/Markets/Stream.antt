-- ===== src/Markets/Stream.antt =====
-- shared/rust/polymarket-orderbook-rust/src/markets/stream.rs: `dispatch`, `ensure_consumer_group` and the loop of
-- `run`. serde_json's parser of documents, Redis's answers and the shuffles of each call of the pool are
-- arguments. Log lines are left out, with the results that only they show: a dispatch that fails, and
-- whether an acknowledgement is accepted.
use polymarket_orderbook_col.Base.{
  String, Option, none, some, List, [], ◌∷◌, ◌++◌, Bool, true, false, not, ◌&&◌, Result, ok, err,
  ◌>>=◌, ◌=?◌, string_key, is_empty, if◌then◌else◌,
}
use polymarket_orderbook_col.Base.HashMap
use polymarket_orderbook_col.Events.Json.{Json}
use polymarket_orderbook_col.Pool.{Pool, Panic}
use polymarket_orderbook_col.Pool.Subscribe.{subscribe_markets}
use polymarket_orderbook_col.Pool.Unsubscribe.{unsubscribe_markets}
use polymarket_orderbook_col.Markets.{binary_market_from_outcomes}
use polymarket_orderbook_col.Markets.Payloads.{
  NewMarketPayload, new_market_from_json, MarketResolvedPayload, market_resolved_from_json,
  StreamId, stream_entry_to_map,
}

pub record StreamConfig : Type 0 where
  pub redis_url : String
  pub stream_key : String
  pub group : String
  pub consumer : String
  pub skip_backlog : Bool

pub data DispatchError : Type 0 where
  bad_new_market bad_market_resolved : DispatchError

-- The commands sent to Redis.
pub data Request : Type 0 where
  xgroup_create : String → Request
  xgroup_setid : String → Request
  xreadgroup : String → Request
  xack : String → Request

pub data StreamError : Type 0 where
  open_failed connect_failed create_failed setid_failed read_failed : StreamError
  panicked : Panic → StreamError

-- The locals of `run`, the pool, and the commands sent so far.
pub record Listener : Type 0 where
  pub pending_done : Bool
  pub last_pending_id : String
  pub pool : Pool
  pub requests : List Request

-- An entry of a reply, with the shuffles of the pool's call that it may cause.
pub record Delivery : Type 0 where
  pub entry : StreamId
  pub shuffle1 : List String → List String
  pub shuffle2 : List String → List String

-- `StreamReadReply`: the entries, by stream.
abbrev pub Reply : Type 0
Reply = List (List Delivery)

-- The answers to XGROUP CREATE.
pub data CreateAnswer : Type 0 where
  created busy_group refused : CreateAnswer

unfoldable pub text_or : String → String → List (String × String) → String
text_or default k data_map = elim (HashMap.get data_map k) [ none ↦ default | some s ↦ s ]

unfoldable pub send : Request → Listener → Listener
send r s = record s { requests = s.requests ++ r ∷ [] }

unfoldable pub start_id : StreamConfig → String
start_id cfg = if cfg.skip_backlog then "$" else "0"

-- `ensure_consumer_group`: SETID is sent if the group is there and the backlog is to be skipped.
unfoldable pub ensure_consumer_group :
    StreamConfig
    → CreateAnswer
    → (setid_ok : Bool) → Listener
    → Result (StreamError × Listener) Listener
unfolding send start_id
ensure_consumer_group cfg created setid_ok s = ok (send (xgroup_create (start_id cfg)) s)
ensure_consumer_group cfg busy_group setid_ok s =
    let s1 = send (xgroup_create (start_id cfg)) s in
    if cfg.skip_backlog
    then (let s2 = send (xgroup_setid (start_id cfg)) s1 in
        if setid_ok then ok s2 else err (setid_failed, s2))
    else ok s1
ensure_consumer_group cfg refused setid_ok s =
    err (create_failed, send (xgroup_create (start_id cfg)) s)

unfoldable pub read_id : Listener → String
read_id s = if s.pending_done then ">" else s.last_pending_id

-- `got_any`.
unfoldable pub got_any : Reply → Bool
got_any [] = false
got_any (ids ∷ rest) = let later = got_any rest in if is_empty ids then later else true

module _ (parse : String → Option Json) where
  unfoldable pub parse_new_market : String → Option NewMarketPayload
  unfolding new_market_from_json
  parse_new_market raw = elim (parse raw) [
    | none ↦ none
    | some v ↦ elim (new_market_from_json v) [ ok payload ↦ some payload | err e ↦ none ]
  ]

  unfoldable pub parse_market_resolved : String → Option MarketResolvedPayload
  unfolding market_resolved_from_json
  parse_market_resolved raw = elim (parse raw) [
    | none ↦ none
    | some v ↦ elim (market_resolved_from_json v) [ ok payload ↦ some payload | err e ↦ none ]
  ]

  -- A `new_market`; a market that is not binary is skipped.
  unfoldable pub on_new_market :
      (shuffle1 shuffle2 : List String → List String)
      → String
      → Pool
      → Result Panic (Pool × Option DispatchError)
  unfolding parse_new_market binary_market_from_outcomes subscribe_markets
  on_new_market shuffle1 shuffle2 payload_raw p = elim (parse_new_market payload_raw) [
    | none ↦ ok (p, some bad_new_market)
    | some payload ↦
        elim (binary_market_from_outcomes payload.market payload.outcomes payload.assets_ids) [
          | none ↦ ok (p, none)
          | some market ↦
              subscribe_markets shuffle1 shuffle2 (market ∷ []) p >>= λ p'. ok (p', none)
        ]
  ]

  unfoldable pub on_market_resolved : String → Pool → Pool × Option DispatchError
  unfolding parse_market_resolved unsubscribe_markets
  on_market_resolved payload_raw p = elim (parse_market_resolved payload_raw) [
    | none ↦ (p, some bad_market_resolved)
    | some payload ↦
        if payload.market =? ""
        then (p, none)
        else (unsubscribe_markets (payload.market ∷ []) p, none)
  ]

  -- `dispatch`: an unknown event type is ignored.
  unfoldable pub dispatch :
      (shuffle1 shuffle2 : List String → List String)
      → List (String × String)
      → Pool
      → Result Panic (Pool × Option DispatchError)
  unfolding text_or on_new_market on_market_resolved
  dispatch shuffle1 shuffle2 data_map p =
      let event_type = text_or "" "event_type" data_map in
      let payload_raw = text_or "{}" "payload" data_map in
      if event_type =? "new_market"
      then on_new_market shuffle1 shuffle2 payload_raw p
      else if event_type =? "market_resolved"
      then ok (on_market_resolved payload_raw p)
      else ok (p, none)

  -- One entry: it is acknowledged whatever `dispatch` answers.
  unfoldable pub on_entry : Delivery → Listener → Result (StreamError × Listener) Listener
  unfolding dispatch send stream_entry_to_map
  on_entry d s =
      let s1 = record s { last_pending_id = d.entry.id } in
      elim (dispatch d.shuffle1 d.shuffle2 (stream_entry_to_map d.entry) s.pool) [
        | err e ↦ err (panicked e, s1)
        | ok (p, error) ↦ ok (send (xack d.entry.id) (record s1 { pool = p }))
      ]

  unfoldable pub on_entries : List Delivery → Listener → Result (StreamError × Listener) Listener
  unfolding on_entry
  on_entries [] s = ok s
  on_entries (d ∷ ds) s = on_entry d s >>= on_entries ds

  unfoldable pub on_streams : Reply → Listener → Result (StreamError × Listener) Listener
  unfolding on_entries
  on_streams [] s = ok s
  on_streams (ids ∷ rest) s = on_entries ids s >>= on_streams rest

  -- The rest of the loop's body once the reply is there. Both places set `pending_done`.
  unfoldable pub on_reply : Reply → Listener → Result (StreamError × Listener) Listener
  unfolding on_streams got_any
  on_reply reply s =
      if is_empty reply
      then ok (record s { pending_done = true })
      else on_streams reply s >>= λ s'. ok (
          if not (got_any reply) && not s'.pending_done
          then record s' { pending_done = true }
          else s')

  -- The loop, for the replies that are read; `none` is an error of the read.
  unfoldable pub listen : List (Option Reply) → Listener → Result (StreamError × Listener) Listener
  unfolding read_id send on_reply
  listen [] s = ok s
  listen (none ∷ rest) s = err (read_failed, send (xreadgroup (read_id s)) s)
  listen (some reply ∷ rest) s = on_reply reply (send (xreadgroup (read_id s)) s) >>= listen rest

  unfoldable pub run :
      StreamConfig
      → (opened connected : Bool) → CreateAnswer
      → (setid_ok : Bool) → List (Option Reply)
      → Pool
      → Result (StreamError × Listener) Listener
  unfolding ensure_consumer_group listen
  run cfg opened connected answer setid_ok replies p =
      let s : Listener = record {
        pending_done = false;
        last_pending_id = "0";
        pool = p;
        requests = [];
      } in
      if opened
      then (if connected
          then ensure_consumer_group cfg answer setid_ok s >>= listen replies
          else err (connect_failed, s))
      else err (open_failed, s)
