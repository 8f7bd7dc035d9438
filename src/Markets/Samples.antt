-- ===== src/Markets/Samples.antt =====
-- Entries of the stream of market events for examples.
use polymarket_orderbook_col.Base.{true, sym, ap, ◌∙◌, ◌≡◌, refl, String, Option, some, [], ◌∷◌}
use polymarket_orderbook_col.Events.{Market}
use polymarket_orderbook_col.Markets.{binary_market_from_outcomes}
use polymarket_orderbook_col.Base.HashMap
use polymarket_orderbook_col.Events.Json.{
  Json, str, arr, obj, nil, cons, end, field, find_field, has_field, as_str, as_opt_str,
}
use polymarket_orderbook_col.Markets.Payloads.{
  StreamId, bulk_string, stream_entry_to_map, texts_of, new_market_from_json,
  market_resolved_from_json, default_field, as_strings, as_strings_items,
}
use polymarket_orderbook_col.Markets.Stream.{
  StreamConfig, Delivery, Reply, text_or, parse_new_market, parse_market_resolved,
}
use polymarket_orderbook_col.Markets.Replay.{
  Meaning, nothing, opens, closes, meaning, new_meaning, resolved_meaning, IsFair,
}
use polymarket_orderbook_col.Pool.Total.{IsShuffle}

-- Two entries of the stream: a market that opens, and the same market resolved.
abbrev pub m1 : Market
m1 = record { hash = "m1"; yes_asset = "y1"; no_asset = "n1" }

abbrev pub payload_json : Json
payload_json = obj (
    field "market" (str "m1") (
      field "assets_ids" (arr (cons (str "y1") (cons (str "n1") nil)))
        (field "outcomes" (arr (cons (str "Yes") (cons (str "No") nil))) end)))

abbrev pub any_document : String → Option Json
any_document raw = some payload_json

abbrev pub entry_of : String → String → StreamId
entry_of id event_type = record {
  id = id;
  fields =
      ("event_type", bulk_string (some event_type)) ∷ ("payload", bulk_string (some "{...}")) ∷ [];
}

abbrev pub delivery_of : String → String → Delivery
delivery_of id event_type = record {
  entry = entry_of id event_type;
  shuffle1 = λ xs. xs;
  shuffle2 = λ xs. xs;
}

abbrev pub owner_m1 : String → String
owner_m1 a = "m1"

pub meaning-opens : meaning any_document (entry_of "1-0" "new_market") ≡ opens m1
unfolding meaning new_meaning stream_entry_to_map texts_of HashMap.insert HashMap.get text_or
    parse_new_market new_market_from_json default_field find_field has_field as_str as_strings
    as_strings_items as_opt_str binary_market_from_outcomes
meaning-opens = refl

pub meaning-closes : meaning any_document (entry_of "2-0" "market_resolved") ≡ closes "m1"
unfolding meaning resolved_meaning stream_entry_to_map texts_of HashMap.insert HashMap.get text_or
    parse_market_resolved market_resolved_from_json default_field find_field has_field as_str
    as_opt_str
meaning-closes = refl

pub no-IsShuffle : IsShuffle (λ xs. xs)
no-IsShuffle = record { same_length = λ xs. refl; same_items = λ xs a. refl }

pub opened_market : (m m' : Market) → Path Meaning (opens m) (opens m') → m ≡ m'
opened_market m m' = ap (λ k. elim k as (λ _. Market) [ opens x ↦ x | closes h ↦ m | nothing ↦ m ])

pub opens-IsFair : IsFair any_document owner_m1 (delivery_of "1-0" "new_market")
opens-IsFair = record {
  fair1 = no-IsShuffle;
  fair2 = no-IsShuffle;
  owned = λ m h.
      let same = opened_market m1 m (sym meaning-opens ∙ h) in
      (ap (λ (k : Market). k.hash) same, ap (λ (k : Market). k.hash) same);
}

pub closes-IsFair : IsFair any_document owner_m1 (delivery_of "2-0" "market_resolved")
closes-IsFair = record {
  fair1 = no-IsShuffle;
  fair2 = no-IsShuffle;
  owned = λ m h. absurd (cc (sym meaning-closes ∙ h));
}

abbrev pub a_config : StreamConfig
a_config = record {
  redis_url = "redis://localhost";
  stream_key = "polymarket:market_events";
  group = "orderbook";
  consumer = "orderbook-1";
  skip_backlog = true;
}

abbrev pub opening : Reply
opening = (delivery_of "1-0" "new_market" ∷ []) ∷ []

abbrev pub no_entries : Reply
no_entries = [] ∷ []

abbrev pub closing : Reply
closing = (delivery_of "2-0" "market_resolved" ∷ []) ∷ []
