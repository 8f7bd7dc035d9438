-- ===== src/Connection/Commands.antt =====
-- The subscription messages and the pool's commands of ws/connection.rs. Whether a write to the socket
-- succeeds is an argument; a message whose write succeeds goes to the list `written`.
use polymarket_orderbook_col.Base.{
  String, List, [], ◌∷◌, ◌++◌, Bool, true, false, not, length, is_empty, Result, ok, err,
  if◌then◌else◌, string_key,
}
use polymarket_orderbook_col.Base.HashSet
use polymarket_orderbook_col.Events.Json.{arr, obj, str, Items, nil, cons, end, field}
use polymarket_orderbook_col.Connection.{
  ConnStats, SubState, Command, subscribe, unsubscribe, OutMessage, text,
}

unfoldable pub strings : List String → Items
strings [] = nil
strings (a ∷ as') = cons (str a) (strings as')

-- `{"assets_ids": [...], key: value}`.
unfoldable pub payload : List String → String → String → OutMessage
unfolding strings
payload assets key value =
    text (obj (field "assets_ids" (arr (strings assets)) (field key (str value) end)))

abbrev pub written_ok : Bool → Result (Unit {0}) (Unit {0})
written_ok true = ok tt
written_ok false = err tt

-- The first message of a session has `type: market`; later ones are operations.
unfoldable pub send_subscribe :
    Bool → SubState → List String → SubState × OutMessage × Result (Unit {0}) (Unit {0})
unfolding payload
send_subscribe write_ok sub assets =
    if not sub.initial_sent
    then (record sub { initial_sent = true }, payload assets "type" "market", written_ok write_ok)
    else (sub, payload assets "operation" "subscribe", written_ok write_ok)

unfoldable pub send_unsubscribe : Bool → List String → OutMessage × Result (Unit {0}) (Unit {0})
unfolding payload
send_unsubscribe write_ok assets = (payload assets "operation" "unsubscribe", written_ok write_ok)

-- The loop of `Command::Subscribe`: the new state and the assets that are new in this session.
unfoldable pub add_assets : List String → SubState → List String → SubState × List String
add_assets [] sub new_in_session = (sub, new_in_session)
add_assets (a ∷ as') sub new_in_session =
    add_assets as'
      (record sub {
        desired = HashSet.insert a sub.desired;
        subscribed = HashSet.insert a sub.subscribed;
      })
      (if HashSet.contains sub.subscribed a then new_in_session else new_in_session ++ a ∷ [])

-- The loop of `Command::Unsubscribe`: the new state and the assets that were desired.
unfoldable pub remove_assets : List String → SubState → List String → SubState × List String
remove_assets [] sub removed = (sub, removed)
remove_assets (a ∷ as') sub removed =
    let wanted = HashSet.contains sub.desired a in
    remove_assets as'
      (if wanted
        then (record sub {
          desired = HashSet.remove a sub.desired;
          subscribed = HashSet.remove a sub.subscribed;
        })
        else sub)
      (if wanted then removed ++ a ∷ [] else removed)

-- The messages on the socket, after the write of one more.
abbrev pub after_write : Bool → OutMessage → List OutMessage → List OutMessage
after_write true message written = written ++ message ∷ []
after_write false message written = written

-- The state of a session that a command touches.
pub record CommandState : Type 0 where
  pub sub : SubState
  pub stats : ConnStats
  pub written : List OutMessage

unfoldable pub do_subscribe : Bool → List String → CommandState → CommandState
unfolding add_assets send_subscribe
do_subscribe write_ok [] s = s
do_subscribe write_ok assets s =
    let added = add_assets assets s.sub [] in
    let stats = record (s.stats) { desired_count = length added.0.desired } in
    if is_empty added.1
    then (record s { sub = added.0; stats = stats })
    else (let sent = send_subscribe write_ok added.0 added.1 in
        record { sub = sent.0; stats = stats; written = after_write write_ok sent.1 s.written })

unfoldable pub do_unsubscribe : Bool → List String → CommandState → CommandState
unfolding remove_assets send_unsubscribe
do_unsubscribe write_ok [] s = s
do_unsubscribe write_ok assets s =
    let gone = remove_assets assets s.sub [] in
    let stats = record (s.stats) { desired_count = length gone.0.desired } in
    if is_empty gone.1 then (record s { sub = gone.0; stats = stats }) else (record {
      sub = gone.0;
      stats = stats;
      written = after_write write_ok (send_unsubscribe write_ok gone.1).0 s.written;
    })

unfoldable pub do_command : Bool → Command → CommandState → CommandState
unfolding do_subscribe do_unsubscribe
do_command write_ok (subscribe assets) s = do_subscribe write_ok assets s
do_command write_ok (unsubscribe assets) s = do_unsubscribe write_ok assets s

-- The start of a session: subscribe to all that is desired. The flag says whether the session goes on.
unfoldable pub resubscribe : Bool → CommandState → CommandState × Bool
unfolding send_subscribe
resubscribe write_ok s =
    if is_empty s.sub.desired
    then (s, true)
    else (let sent = send_subscribe write_ok s.sub s.sub.desired in
        let s' = record s { sub = sent.0; written = after_write write_ok sent.1 s.written } in
        if write_ok
        then (
          record s' {
            sub = record (sent.0) { subscribed = HashSet.extend sent.0.desired sent.0.subscribed };
          },
          true,
        )
        else (s', false))
