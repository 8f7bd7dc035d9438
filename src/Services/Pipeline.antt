-- ===== src/Services/Pipeline.antt =====
-- The way of an event through both services: the publisher's batches, the pub/sub channel, the subscriber and
-- the sink that the writer starts.
use polymarket_orderbook_col.Base.{
  ◌≡◌, refl, ap, ◌∙◌, String, Option, some, List, [], ◌∷◌, ◌++◌, ℕ, Bool, true, All, ok,
}
use polymarket_orderbook_col.Events.Json.{Json, DecimalText}
use polymarket_orderbook_col.Events.RoundTrip.{read_back}
use polymarket_orderbook_col.PubSub
use polymarket_orderbook_col.PubSub.{PubSubSink, Arrival, Subscriber, serialize, subscribe_once}
use polymarket_orderbook_col.PubSub.Bridge.{events_before_close, closes, delivered, bridge_lem}
use polymarket_orderbook_col.PubSub.Published.{IsTaken, run-published}
use polymarket_orderbook_col.Config.{Env}
use polymarket_orderbook_col.Config.Writer
use polymarket_orderbook_col.Sink.{Sink, Row}
use polymarket_orderbook_col.Sink.Statements.{
  Request, connect, send_all, start_requests, empty_sink,
}
use polymarket_orderbook_col.Sink.Flush
use polymarket_orderbook_col.Sink.Flush.{Running, Wake, serialize_batch}
use polymarket_orderbook_col.Sink.Accounting.{events_received}
use polymarket_orderbook_col.Sink.Delivery.{IsAccepted, run-inserted}
use polymarket_orderbook_col.Services.Writer.{subscriber_config, sink_config, start_service}

send_all-accepted :
    (accepts : Request → Bool) (rs : List Request)
    → All (λ r. accepts r ≡ true) rs
    → (send_all accepts rs).1 ≡ true
unfolding send_all
send_all-accepted accepts [] h = refl
send_all-accepted accepts (r ∷ rs) (yes_r, h) =
    rw (yes_r, send_all) (send_all-accepted accepts rs h)

module _ {D : Type 0} where
  start_service-started :
      (channel_made : ℕ → Bool) (accepts : Request → Bool) (env : Env) (d : Writer.Config)
      → Writer.from_env env ≡ ok d
      → channel_made d.queue_size ≡ true
      → All (λ r. accepts r ≡ true) (start_requests (sink_config d))
      → start_service {D = D} channel_made accepts env
        ≡ ok (empty_sink (sink_config d), subscriber_config d)
  unfolding start_service connect
  start_service-started channel_made accepts env d good made all =
      rw (good, start_service)
        (rw made (rw (send_all-accepted accepts (start_requests (sink_config d)) all) refl))

module _ {D : Type 0} (dec : DecimalText D)
    (law : (d : D) → dec.from_str (dec.to_string d) ≡ some d) (print : Json → Option String)
    (parse : String → Option Json)
    (parse-print : (j : Json) (payload : String) → print j ≡ some payload → parse payload ≡ some j)
    (print_row : Json → String) where
  -- From the publisher's events to the writer's rows. The writer starts, if its configuration is
  -- good and the channel and ClickHouse take what it asks; and if nothing is in the publisher's
  -- batch, published or forwarded at first, Redis takes every pipeline and delivers it, the
  -- publisher's channel is closed, every event serialises and each price change has both its
  -- quotes, the events reach the sink as the subscriber forwards them, every insert is accepted and
  -- every timestamp parses, then the rows that are stored are those of exactly the publisher's
  -- events, in order. (Decimals and JSON are read back as they are printed.)
  pub pipeline_lem :
      (channel_made : ℕ → Bool) (accepts : Request → Bool) (env : Env) (d : Writer.Config)
      (as' : List (Arrival D)) (s : PubSubSink D) (sub : Subscriber D) (ws : List (Wake D))
      (rows : List Row)
      → Writer.from_env env ≡ ok d
      → channel_made d.queue_size ≡ true
      → All (λ r. accepts r ≡ true) (start_requests (sink_config d))
      → s.batch ≡ []
      → s.published ≡ []
      → sub.forwarded ≡ []
      → All IsTaken as'
      → closes dec print as' ≡ true
      → (serialize dec print (events_before_close dec print as')).1 ≡ 0
      → All (λ ev. read_back ev ≡ ok ev) (events_before_close dec print as')
      → events_received ws
        ≡ (subscribe_once dec parse
            (delivered (PubSub.run dec print as' s).published)
            sub).0.forwarded
      → All IsAccepted ws
      → serialize_batch dec print_row (sink_config d) (events_before_close dec print as')
        ≡ some rows
      → (k : Sink D) × (start_service channel_made accepts env ≡ ok (k, subscriber_config d))
        × ((Flush.run dec print_row ws true (record { sink = k; inserted = [] })).inserted ≡ rows)
  pipeline_lem channel_made accepts env d as' s sub ws rows good made all no_batch none_yet
        none_sent taken closed serial quoted flow accepted parsed =
      let evs = events_before_close dec print as' in
      let payloads : (PubSub.run dec print as' s).published ≡ (serialize dec print evs).0 =
        run-published dec print as' s taken closed
        ∙ ap (λ t. t ++ (serialize dec print (s.batch ++ evs)).0) none_yet
        ∙ ap (λ b. (serialize dec print (b ++ evs)).0) no_batch in
      let (how, sent, failures) =
        bridge_lem dec law print parse parse-print evs sub serial quoted in
      let reached : events_received ws ≡ evs =
        flow
        ∙ ap (λ t. (subscribe_once dec parse (delivered t) sub).0.forwarded) payloads
        ∙ sent
        ∙ ap (λ t. t ++ evs) none_sent in
      let k = empty_sink (sink_config d) in
      (
        k,
        start_service-started channel_made accepts env d good made all,
        run-inserted dec print_row ws (record { sink = k; inserted = [] }) rows accepted
            (ap (serialize_batch dec print_row (sink_config d)) reached ∙ parsed),
      )
