-- ===== src/Services/Startup.antt =====
-- The start of the services: what the publisher's pool serves before and after its listener runs, and what
-- the writer stores.
use mathlib.Core.Path.{fun_ext}
use polymarket_orderbook_col.Base.{
  ℕ, ◌<◌, String, ◌≡◌, refl, ap, ◌∙◌, Option, none, List, [], ◌∷◌, Bool, true, false, ℤ, All, ok,
  err, if◌then◌else◌, string_key,
}
use polymarket_orderbook_col.Base.HashMap
use polymarket_orderbook_col.Events.{Market, Event, strip_hash, market, kind}
use polymarket_orderbook_col.Events.Json.{Json, num, str, DecimalText, to_json}
use polymarket_orderbook_col.Pool.{Pool, new, divide_by_zero}
use polymarket_orderbook_col.Pool.Total.{IsShuffle}
use polymarket_orderbook_col.Pool.ZeroLimit.{subscribe_markets-zero}
use polymarket_orderbook_col.Pool.Registry.{registry, last_with, subscribe_markets-registry}
use polymarket_orderbook_col.Pool.Serving.{Owns, new-IsServing, subscribe_markets-IsServing}
use polymarket_orderbook_col.Markets.Stream.{CreateAnswer, Listener, Reply, read_failed, run}
use polymarket_orderbook_col.Markets.Replay.{IsFair, Serves}
use polymarket_orderbook_col.Markets.Entries.{replay}
use polymarket_orderbook_col.Markets.Listening.{all_answered, answered, all_entries}
use polymarket_orderbook_col.Markets.Start.{group_error, run_lem}
use polymarket_orderbook_col.Config.{Env, env_bool_default}
use polymarket_orderbook_col.Config.Publisher
use polymarket_orderbook_col.Config.Writer
use polymarket_orderbook_col.Config.Agreement.{writer-exclude_hash}
use polymarket_orderbook_col.Sink.{row_of, raw_row}
use polymarket_orderbook_col.Services.Writer.{sink_config}
use polymarket_orderbook_col.Events.Explode.{hash_of, strip_hash_lem}
use polymarket_orderbook_col.Services.Publisher.{
  Cli, World, panicked, preload_markets, subscribe_loaded, preload, of_pool, stream_cfg,
  start_service,
}

registry-new : (n : ℕ) → registry (new n) ≡ (λ hash. none)
unfolding new HashMap.get
registry-new n = refl

module _ (shuffle1 shuffle2 : List String → List String) (fair1 : IsShuffle shuffle1)
    (fair2 : IsShuffle shuffle2) (owner : String → String) where
  subscribe_loaded-Serves :
      (cfg : Publisher.Config) (ms : List Market)
      → 0 < cfg.max_assets_per_conn
      → All (Owns owner) ms
      → (p : Pool) × (subscribe_loaded shuffle1 shuffle2 cfg ms ≡ ok p)
        × Serves owner p (last_with ms)
  unfolding subscribe_loaded
  subscribe_loaded-Serves cfg [] pos owns = (
    new cfg.max_assets_per_conn,
    refl,
    record {
      serving = new-IsServing owner cfg.max_assets_per_conn pos;
      same = registry-new cfg.max_assets_per_conn;
    },
  )
  subscribe_loaded-Serves cfg (m ∷ ms) pos owns =
      let pool = new cfg.max_assets_per_conn in
      let (p, ran, v) =
        subscribe_markets-IsServing shuffle1 shuffle2 fair1 fair2 owner (m ∷ ms) pool owns
          (new-IsServing owner cfg.max_assets_per_conn pos) in
      (
        p,
        rw ran (unfold of_pool in refl),
        record {
          serving = v;
          same = fun_ext (λ hash.
              subscribe_markets-registry shuffle1 shuffle2 (m ∷ ms) pool p ran hash
              ∙ (unfold new HashMap.get in refl));
        },
      )

  -- With a good configuration, a limit that is not 0 and a source of markets that answers, the publisher
  -- starts, and its pool serves exactly the markets that the source gave (of two with one hash the later).
  start_service-Serves :
      (w : World) (env : Env) (cli : Cli) (cfg : Publisher.Config) (ms : List Market)
      → Publisher.from_env env ≡ ok cfg
      → w.sink_opens cfg.redis_url ≡ true
      → w.channel_made cfg.queue_size ≡ true
      → cli.new_only ≡ false
      → preload_markets w cfg ≡ ok ms
      → 0 < cfg.max_assets_per_conn
      → All (Owns owner) ms
      → (p : Pool) × (start_service shuffle1 shuffle2 w env cli ≡ ok (p, stream_cfg cli cfg))
        × Serves owner p (last_with ms)
  unfolding start_service preload
  start_service-Serves w env cli cfg ms good opens made all loaded pos owns =
      let (p, ran, v) = subscribe_loaded-Serves cfg ms pos owns in
      (
        p,
        rw (good, start_service) (rw opens (rw made (rw (all, preload) (rw loaded (rw ran refl))))),
        v,
      )

  -- The publisher as a whole, if its configuration is good, Redis opens, the channel is made, the markets to
  -- preload are there, the limit of a connection is not 0 and the consumer group is: the start returns
  -- a pool, and the listener then runs until a read fails, without a panic, and leaves a pool that serves
  -- exactly the markets that the entries leave of those that were loaded. (The shuffles keep the items,
  -- and the assets of every market that is opened belong to it.)
  pub service_lem :
      (parse : String → Option Json) (w : World) (env : Env) (cli : Cli) (cfg : Publisher.Config)
      (ms : List Market) (answer : CreateAnswer) (setid_ok : Bool) (replies : List (Option Reply))
      → Publisher.from_env env ≡ ok cfg
      → w.sink_opens cfg.redis_url ≡ true
      → w.channel_made cfg.queue_size ≡ true
      → cli.new_only ≡ false
      → preload_markets w cfg ≡ ok ms
      → 0 < cfg.max_assets_per_conn
      → All (Owns owner) ms
      → group_error (stream_cfg cli cfg) answer setid_ok ≡ none
      → All (IsFair parse owner) (all_entries (answered replies))
      → (p : Pool) × (s : Listener) × (start_service shuffle1 shuffle2 w env cli
          ≡ ok (p, stream_cfg cli cfg))
        × (run parse (stream_cfg cli cfg) true true answer setid_ok replies p
            ≡ (if all_answered replies then ok s else err (read_failed, s)))
        × Serves owner s.pool (replay parse (all_entries (answered replies)) (last_with ms))
  service_lem parse w env cli cfg ms answer setid_ok replies good opens made all loaded pos owns
        group fair =
      let (p, started, v) =
        start_service-Serves w env cli cfg ms good opens made all loaded pos owns in
      let (s, ran, h) =
        run_lem parse (stream_cfg cli cfg) answer setid_ok owner replies p group fair v.serving in
      (
        p,
        s,
        started,
        ran,
        record {
          serving = h.serves.serving;
          same = h.serves.same ∙ ap (replay parse (all_entries (answered replies))) v.same;
        },
      )

-- With MAX_ASSETS_PER_CONN=0, which the configuration accepts, the start of the publisher panics with a
-- division by zero if the source of markets, which is not skipped, gives one.
pub start_service-zero :
    (shuffle1 shuffle2 : List String → List String) (w : World) (env : Env) (cli : Cli)
    (cfg : Publisher.Config) (m : Market) (ms : List Market)
    → Publisher.from_env env ≡ ok cfg
    → w.sink_opens cfg.redis_url ≡ true
    → w.channel_made cfg.queue_size ≡ true
    → cli.new_only ≡ false
    → preload_markets w cfg ≡ ok (m ∷ ms)
    → cfg.max_assets_per_conn ≡ 0
    → start_service shuffle1 shuffle2 w env cli ≡ err (panicked divide_by_zero)
unfolding start_service preload subscribe_loaded of_pool
start_service-zero shuffle1 shuffle2 w env cli cfg m ms good opens made all loaded zero_limit =
    let panics =
      subscribe_markets-zero shuffle1 shuffle2 (m ∷ ms) (new cfg.max_assets_per_conn)
        (unfold new in zero_limit) (unfold new HashMap.contains_key in refl) in
    rw (good, start_service)
      (rw opens (rw made (rw (all, preload) (rw loaded (rw (panics, subscribe_loaded) refl)))))

module _ {D : Type 0} (dec : DecimalText D) (print : Json → String) where
  -- The writer stores raw rows, and without EXCLUDE_HASH in the environment no content hash: the data of an
  -- event's row is printed from the event without it.
  writer_row :
      (env : Env) (d : Writer.Config) (ev : Event D) (timestamp_ms : ℤ)
      → Writer.from_env env ≡ ok d
      → env "EXCLUDE_HASH" ≡ none
      → (row_of dec print (sink_config d) ev timestamp_ms
          ≡ ("timestamp", num timestamp_ms)
            ∷ ("market", str (market ev))
            ∷ ("event_type", str (kind ev))
            ∷ ("data", str (print (to_json dec (strip_hash ev))))
            ∷ [])
        × (hash_of (strip_hash ev) ≡ none)
  unfolding row_of raw_row sink_config env_bool_default
  writer_row env d ev timestamp_ms good unset =
      let drops : d.exclude_hash ≡ true =
        writer-exclude_hash env d good ∙ rw (unset, env_bool_default) refl in
      (rw drops refl, (strip_hash_lem ev).0)
