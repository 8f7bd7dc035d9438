-- ===== src/PubSub/Tests.antt =====
-- Examples for the theorems on the pub/sub bridge.
use polymarket_orderbook_col.Base.{
  ◌+◌, ◌%◌, ◌≡◌, refl, String, List, [], ◌∷◌, ◌++◌, true, false, string_key, length, u64_mod,
}
use polymarket_orderbook_col.Events.Json.{to_json, decimal}
use polymarket_orderbook_col.Events.RoundTrip.{read_back}
use polymarket_orderbook_col.PubSub.{
  Arrival, event, linger_elapsed, channel_closed, serialize, run, stream_ended, subscribe_once,
}
use polymarket_orderbook_col.PubSub.Bridge.{
  accounted, events_before_close, run-publishes, delivered, bridge_lem,
}
use polymarket_orderbook_col.PubSub.Samples.{
  text_decimals, tick_change, same_fields, same_json, print_one, parse_one, parse_one-print, idle,
  empty_sink,
}

bridge_lem_example :
    let messages = delivered (serialize text_decimals print_one (tick_change ∷ [])).0 in
    let (s', how) = subscribe_once text_decimals parse_one messages idle in
    (how ≡ stream_ended) × (s'.forwarded ≡ [] ++ tick_change ∷ []) × (s'.stats.parse_failures ≡ 0)
unfolding serialize print_one same_json same_fields to_json decimal read_back
bridge_lem_example =
    bridge_lem text_decimals (λ d. refl) print_one parse_one parse_one-print (tick_change ∷ []) idle
      refl (refl, tt)

abbrev arrivals : List (Arrival String)
arrivals =
    event tick_change true
    ∷ linger_elapsed true
    ∷ event tick_change true
    ∷ event tick_change false
    ∷ channel_closed true
    ∷ []

run-publishes_example :
    let s' = run text_decimals print_one arrivals empty_sink in
    (s'.batch ≡ [])
    × ((s'.total_published + s'.total_dropped) % u64_mod
        ≡ (accounted empty_sink + length (events_before_close text_decimals print_one arrivals))
          % u64_mod)
run-publishes_example = run-publishes text_decimals print_one arrivals empty_sink refl
