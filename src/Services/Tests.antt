-- ===== src/Services/Tests.antt =====
-- Examples for the theorems on the start of the services.
use polymarket_orderbook_col.Base.{
  pos, List, String, ◌≡◌, refl, none, some, [], ◌∷◌, true, false, arith, All, ok, err, ◌==◌, not,
  ◌=?◌, string_key, if◌then◌else◌,
}
use polymarket_orderbook_col.Pool.{Pool, divide_by_zero}
use polymarket_orderbook_col.Pool.Serving.{Owns}
use polymarket_orderbook_col.Pool.Registry.{last_with}
use polymarket_orderbook_col.Markets.{request_failed, load}
use polymarket_orderbook_col.Markets.Samples.{
  m1, any_document, owner_m1, opens-IsFair, closes-IsFair, opening, closing, no-IsShuffle,
}
use polymarket_orderbook_col.Markets.Stream.{created, read_failed, Listener, run}
use polymarket_orderbook_col.Markets.Replay.{Serves}
use polymarket_orderbook_col.Markets.Entries.{replay}
use polymarket_orderbook_col.Markets.Listening.{all_entries}
use polymarket_orderbook_col.Base.Numbers.{parse_unsigned, parse_magnitude, parse_digits}
use polymarket_orderbook_col.Config.{
  Env, require_env, env_or, env_parse, env_bool, env_bool_default,
}
use polymarket_orderbook_col.Config.Publisher
use polymarket_orderbook_col.Config.Samples.{only_redis, a_publisher, publisher_default}
use polymarket_orderbook_col.Services.Publisher.{
  Cli, World, panicked, preload_markets, stream_cfg, start_service,
}
use polymarket_orderbook_col.Services.Startup.{service_lem, start_service-zero}
use polymarket_orderbook_col.Events.{timestamp, market, kind}
use polymarket_orderbook_col.Events.Json.{num, str, to_json, decimal}
use polymarket_orderbook_col.Events.RoundTrip.{read_back}
use polymarket_orderbook_col.PubSub
use polymarket_orderbook_col.PubSub.{
  Arrival, event, channel_closed, serialize, on_arrival, subscribe_once, parse_event,
}
use polymarket_orderbook_col.PubSub.Bridge.{delivered, events_before_close}
use polymarket_orderbook_col.PubSub.Samples.{
  text_decimals, tick_change, same_fields, same_json, print_one, parse_one, parse_one-print, idle,
  empty_sink,
}
use polymarket_orderbook_col.Config.Samples.{a_writer, writer_default}
use polymarket_orderbook_col.Sink.{Sink, Row, parse_i64, raw_row, row_of}
use polymarket_orderbook_col.Sink.Flush
use polymarket_orderbook_col.Sink.Flush.{received, serialize_batch}
use polymarket_orderbook_col.Services.Writer
use polymarket_orderbook_col.Services.Writer.{subscriber_config, sink_config}
use polymarket_orderbook_col.Services.Pipeline.{pipeline_lem}

-- Redis has one market in its cache.
abbrev a_world : World
a_world = record {
  sink_opens = λ url. true;
  channel_made = λ n. not (n == 0);
  http_built = true;
  page = λ offset. err request_failed;
  redis_get = λ key. some (some "[...]");
  decode_strings = λ s. none;
  parse_cache =
      λ s. some ((record { market = "m1"; yes_asset_id = "y1"; no_asset_id = "n1" }) ∷ []);
}

abbrev plain : Cli
plain = record { new_only = false; skip_backlog = false }

loaded_m1 : preload_markets a_world a_publisher ≡ ok (m1 ∷ [])
unfolding preload_markets load
loaded_m1 = refl

owned_m1 : All (Owns owner_m1) (m1 ∷ [])
owned_m1 = ((refl, refl), tt)

service_lem_example :
    (p : Pool) × (s : Listener) × (start_service (λ xs. xs) (λ xs. xs) a_world only_redis plain
      ≡ ok (p, stream_cfg plain a_publisher))
    × (run any_document
          (stream_cfg plain a_publisher)
          true
          true
          created
          true
          (some opening ∷ some closing ∷ none ∷ [])
          p
        ≡ err (read_failed, s))
    × Serves owner_m1 s.pool
        (replay any_document (all_entries (opening ∷ closing ∷ [])) (last_with (m1 ∷ [])))
service_lem_example =
    service_lem (λ xs. xs) (λ xs. xs) no-IsShuffle no-IsShuffle owner_m1 any_document a_world
      only_redis plain a_publisher (m1 ∷ []) created true (some opening ∷ some closing ∷ none ∷ [])
      publisher_default refl refl refl loaded_m1 (omega arith) owned_m1 refl
      (opens-IsFair, (closes-IsFair, tt))

-- The same environment with a limit of 0.
abbrev zero_limit : Env
zero_limit name = if name =? "MAX_ASSETS_PER_CONN" then some "0" else only_redis name

abbrev zero_publisher : Publisher.Config
zero_publisher = record a_publisher { max_assets_per_conn = 0 }

publisher_zero : Publisher.from_env zero_limit ≡ ok zero_publisher
unfolding Publisher.from_env require_env env_or env_parse env_bool env_bool_default parse_unsigned
    parse_magnitude parse_digits
publisher_zero = refl

loaded_zero : preload_markets a_world zero_publisher ≡ ok (m1 ∷ [])
unfolding preload_markets load
loaded_zero = refl

start_service-zero_example :
    start_service (λ xs. xs) (λ xs. xs) a_world zero_limit plain ≡ err (panicked divide_by_zero)
start_service-zero_example =
    start_service-zero (λ xs. xs) (λ xs. xs) a_world zero_limit plain zero_publisher m1 []
      publisher_zero refl refl refl loaded_zero refl

-- The row of a change of the tick size.
abbrev tick_row : Row
tick_row =
    ("timestamp", num (pos 100_000_000))
    ∷ ("market", str "0xbd")
    ∷ ("event_type", str "tick_size_change")
    ∷ ("data", str "{...}")
    ∷ []

abbrev one_event : List (Arrival String)
one_event = event tick_change true ∷ channel_closed true ∷ []

one_event-serialised : (serialize text_decimals print_one (tick_change ∷ [])).1 ≡ 0
unfolding serialize print_one same_json same_fields to_json decimal
one_event-serialised = refl

tick_quoted : read_back tick_change ≡ ok tick_change
unfolding read_back
tick_quoted = refl

-- What the subscriber hands on.
one_event-forwarded :
    tick_change ∷ []
    ≡ (subscribe_once text_decimals parse_one
        (delivered (PubSub.run text_decimals print_one one_event empty_sink).published)
        idle).0.forwarded
unfolding PubSub.run on_arrival PubSub.flush serialize print_one same_json same_fields to_json
    decimal subscribe_once parse_event
one_event-forwarded = refl

tick_serialised :
    serialize_batch text_decimals (λ j. "{...}") (sink_config a_writer) (tick_change ∷ [])
    ≡ some (tick_row ∷ [])
unfolding serialize_batch timestamp parse_i64 parse_magnitude parse_digits row_of raw_row market
    kind sink_config
tick_serialised = refl

pipeline_lem_example :
    (k : Sink String) × (Writer.start_service (λ n. true) (λ r. true) only_redis
      ≡ ok (k, subscriber_config a_writer))
    × ((Flush.run text_decimals
          (λ j. "{...}")
          (received tick_change true ∷ [])
          true
          (record { sink = k; inserted = [] })).inserted
        ≡ tick_row ∷ [])
unfolding sink_config events_before_close
pipeline_lem_example =
    pipeline_lem text_decimals (λ d. refl) print_one parse_one parse_one-print (λ j. "{...}")
      (λ n. true) (λ r. true) only_redis a_writer one_event empty_sink idle
      (received tick_change true ∷ []) (tick_row ∷ []) writer_default refl (refl, (refl, tt)) refl
      refl refl (refl, (refl, tt)) refl one_event-serialised (tick_quoted, tt) one_event-forwarded
      (refl, tt) tick_serialised
