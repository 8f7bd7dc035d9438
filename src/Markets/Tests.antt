-- ===== src/Markets/Tests.antt =====
-- Examples for the theorems on the sources of markets.
use polymarket_orderbook_col.Base.{
  none, err, false, true, arith, ℕ, ◌≡◌, refl, String, Option, some, List, [], ◌∷◌, Result, ok,
}
use polymarket_orderbook_col.Events.{Market}
use polymarket_orderbook_col.Markets.{
  binary_market_from_outcomes, array, encoded, RawMarket, GammaError, into_strings, parse_market,
  fetch_active_markets,
}
use polymarket_orderbook_col.Pool.{new}
use polymarket_orderbook_col.Pool.Serving.{new-IsServing}
use polymarket_orderbook_col.Markets.Stream.{Listener, read_failed, busy_group, created, run}
use polymarket_orderbook_col.Markets.Entries.{reads}
use polymarket_orderbook_col.Markets.Start.{HasRun, run_lem, pending_then_new}
use polymarket_orderbook_col.Markets.Samples.{
  any_document, owner_m1, opens-IsFair, closes-IsFair, a_config, opening, no_entries, closing,
}
use polymarket_orderbook_col.Markets.Gamma.{parse_market_lem, fetch_active_markets_lem}

-- A decoder of one text.
abbrev yes_no : String → Option (List String)
yes_no s = some ("No" ∷ "Yes" ∷ [])

abbrev a_raw_market : RawMarket
a_raw_market = record {
  condition_id = "0xdef";
  clob_token_ids = array ("t1" ∷ "t2" ∷ []);
  outcomes = encoded "[\"No\",\"Yes\"]";
}

parse_market_lem_example :
    parse_market yes_no a_raw_market
    ≡ binary_market_from_outcomes "0xdef" ("No" ∷ "Yes" ∷ []) ("t1" ∷ "t2" ∷ [])
unfolding into_strings
parse_market_lem_example =
    parse_market_lem yes_no a_raw_market ("t1" ∷ "t2" ∷ []) ("No" ∷ "Yes" ∷ []) refl refl

abbrev one_short_page : ℕ → Result GammaError (List RawMarket)
one_short_page offset = ok (a_raw_market ∷ [])

fetch_active_markets_lem_example :
    (r : Result GammaError (List Market)) × (fetch_active_markets yes_no one_short_page ≡ some r)
fetch_active_markets_lem_example = fetch_active_markets_lem yes_no one_short_page

run_lem_example :
    (s : Listener) × (run any_document a_config true true busy_group true
        (some opening ∷ some no_entries ∷ some closing ∷ none ∷ [])
        (new 3)
      ≡ err (read_failed, s))
    × HasRun any_document owner_m1
        (some opening ∷ some no_entries ∷ some closing ∷ none ∷ [])
        (new 3)
        s
run_lem_example =
    run_lem any_document a_config busy_group true owner_m1
      (some opening ∷ some no_entries ∷ some closing ∷ none ∷ []) (new 3) refl
      (opens-IsFair, (closes-IsFair, tt)) (new-IsServing owner_m1 3 (omega arith))

pending_then_new_example :
    (s : Listener) × (run any_document a_config true true created true
        (some opening ∷ some no_entries ∷ some closing ∷ [])
        (new 3)
      ≡ ok s)
    × (reads s.requests ≡ "0" ∷ "1-0" ∷ ">" ∷ [])
pending_then_new_example =
    pending_then_new any_document a_config created true owner_m1 (opening ∷ []) no_entries
      (closing ∷ []) (new 3) refl (opens-IsFair, (closes-IsFair, tt))
      (new-IsServing owner_m1 3 (omega arith)) (refl, tt) refl

abbrev start_of_run : Listener
start_of_run = record { pending_done = false; last_pending_id = "0"; pool = new 3; requests = [] }
