-- ===== src/Lib.antt =====
-- The WebSocket order book collector: shared/rust/polymarket-orderbook-rust/src, the library of the
-- services under services/polymarket.
--
-- The pool (ws/pool.rs) gives each asset of a market two WebSocket connections and sends them
-- `Subscribe` and `Unsubscribe` commands. A connection (ws/connection.rs) runs sessions over a socket,
-- reconnects with a backoff, parses the text frames, explodes the messages into events (events.rs),
-- keeps those of desired assets and hands them to the forwarder (ws/dedup.rs), which drops what the
-- other connection has sent already and passes the rest to the event channel. Each connection
-- publishes its status to the health monitor (ws/pool.rs, `run_health_monitor`). The sink (sink.rs)
-- takes events from the channel and inserts them into ClickHouse in batches.
--
-- The publisher service starts a pool with the markets of the Gamma API or of a Redis cache (markets/) and
-- a listener (markets/stream.rs), which opens and closes markets as the entries of a Redis stream say; its
-- events go to a Redis pub/sub channel. The writer service takes them from there to the sink. Both read
-- their configuration from the environment.
--
--   Base        The standard library: hash maps and sets as association lists and lists without
--               repetitions, `Result`, 64-bit counters with their wrap-around, texts as code points.
--   Events      events.rs. `explode`, `strip_hash` and the accessors; Json is how serde prints an
--               `Event`, as a tree of its data model, Parse how it reads one, RoundTrip joins them. Sources is
--               what serde takes a struct from, Wire how it reads the frames, Frame says what a bad message does to one, Display is the line of an event.
--   Dedup       ws/dedup.rs. `DedupCache`, `dedup_key`, `hex_prefix_u64`, `DedupForwarder`; Window is the
--               cache over time, Forward what reaches the channel.
--   Connection  ws/connection.rs. Frames is `handle_text`, Commands what `Subscribe` and `Unsubscribe` do,
--               Session the branches of `run_session`'s select, Run the loop of `run`; Documents
--               joins `run_session` to the frames that serde reads.
--   Pool        ws/pool.rs. Passes and Subscribe are `subscribe_markets`, Unsubscribe is
--               `unsubscribe_markets` with its garbage collection, Shutdown is `shutdown`. Steps takes
--               `subscribe_markets` apart for the proofs: Total, Redundancy, Held, Sound and Tracked are what
--               its passes do, Registry the map of markets; Gc, Collect, Withdrawn, Unsubscribed, Closed, Owned
--               and Busy are the same for `unsubscribe_markets`, and Serving is the invariant of both.
--   Monitor     ws/pool.rs, `run_health_monitor`. Turn has the two arms of its select, States is what
--               one notice does to the states, Reports what they are after all; Stats is `pool_stats`.
--   Sink        sink.rs. Statements has the requests of `connect` and the columns, Flush the buffer, `flush`
--               and the loop of `run`.
--   PubSub      services/polymarket/polymarket-orderbook-rust-pubsub/src/pubsub_sink.rs and
--               services/polymarket/polymarket-orderbook-rust-from-pubsub/src/pubsub_subscriber.rs; Bridge
--               joins the two, Published is what reaches Redis.
--   Markets     markets/mod.rs, markets/gamma.rs and markets/redis_cache.rs; Payloads and Stream are
--               markets/stream.rs. Replay is what an entry means for the map of open markets, Entries, Listening
--               and Start follow the loop of `run` by it.
--   Config      config.rs, with Publisher and Writer for the config.rs of the two services. Checks is an
--               independent list of what each asks of the environment, Agreement what they have in common.
--   Services    The main.rs of the two services: how they start and what they do after the signal. Startup
--               joins the configuration, the pool and the listener, Pipeline the publisher's channel, the
--               subscriber and the sink.
--
-- The state of each part is a record, passed explicitly; a panic is `none` or an error value. The
-- loops are by recursion on the list of what they receive (frames, ticks, commands, rounds, notices,
-- replies), so no fuel is needed; the paging of the Gamma API has fuel for 120 pages, which is enough.
-- A number is printed with room for five digits where it is a port and twenty where it is a length,
-- which is enough for both types. The instants that the code reads and what sockets, channels and
-- Redis answer are arguments, as are the environment, and the shuffles of each call of the pool; a
-- shuffle keeps the items. `rust_decimal::Decimal` with its printer and parser, std's `DefaultHasher`,
-- serde's parser of wire frames in a connection, and the printer and parser of documents are
-- parameters; a decimal reads back what it prints. A `HashMap` iterates in the order of insertion.
-- Addition of list lengths and the arithmetic of `subscribe_markets` with `max_assets_per_conn`
-- (`usize`) are not bounded; in a release build the latter wraps for limits close to 2 ^ 64, which the
-- configuration accepts. A connection's mailbox is all that the pool sent to it, so that its channel
-- has 64 slots, for which the pool waits, does not show; a send to a task that has ended fails, and
-- which tasks have ended is the flag of their handles, which the pool never changes. The answer to a
-- protocol ping counts as written. Theorems on the pool over time assume that an asset belongs to one
-- market, named by `owner`.
--
-- Not modelled: log lines (but for the slices that they take of a text), and of the error messages all
-- but what they name; the logger, the signals and the parser of the command line; the percentage of
-- the queue in the statistics, which is a float; the capacity accessors of the forwarder, which only a
-- log line reads; the text of the SQL statements.
pub mod Base
pub mod Events
pub mod Dedup
pub mod Connection
pub mod Pool
pub mod Monitor
pub mod Sink
pub mod PubSub
pub mod Markets
pub mod Config
pub mod Services
