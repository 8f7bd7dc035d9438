-- ===== src/Events/Tests.antt =====
-- Examples for the theorems on events.rs.
use polymarket_orderbook_col.Base.{
  ◌≡◌, refl, map, String, none, some, List, [], ◌∷◌, ◌++◌, All, length, ok,
}
use polymarket_orderbook_col.Events.{WireMessage, Event, asset_id, explode}
use polymarket_orderbook_col.Events.Explode.{wire_count, wire_assets, Carries, explode_lem}
use polymarket_orderbook_col.Events.Json.{DecimalText, to_json}
use polymarket_orderbook_col.Events.Parse.{from_json}
use polymarket_orderbook_col.Events.RoundTrip.{read_back, from_json-to_json}

-- Decimals that are their own text.
abbrev text_decimals : DecimalText String
text_decimals = record { to_string = λ s. s; from_str = λ s. some s }

abbrev two_entries : WireMessage String
two_entries = WireMessage.price_change (record {
  market = "0x17";
  timestamp = "1757908892351";
  price_changes =
      (record {
        asset_id = "71";
        price = "0.5";
        size = "200";
        side = "BUY";
        best_bid = some "0.5";
        best_ask = some "1";
        hash = "56621a121a47ed9333273e21c83b660cff37ae50";
      })
      ∷ (record {
        asset_id = "52";
        price = "0.5";
        size = "200";
        side = "SELL";
        best_bid = none;
        best_ask = none;
        hash = "1895759e4df7a796bf4f1c5a5950b748306923e2";
      })
      ∷ [];
})

abbrev a_trade : Event String
a_trade = Event.last_trade_price "0x6a" "11" "1750428146322" "0.456" "219.2" "BUY" "0" "0xeeef"

abbrev a_book : Event String
a_book =
    Event.book "0xbd" "65" "123456789000" ((record { price = ".48"; size = "30" }) ∷ []) []
      (some "0x0000")

abbrev a_quote : Event String
a_quote =
    Event.price_change "0x17" "71" "1757908892351" (some "0.5") (some "1") none "0.5" "200" "BUY"

explode_lem_example :
    (added : List (Event String)) × (explode two_entries (a_trade ∷ []) ≡ a_trade ∷ [] ++ added)
    × (length added ≡ wire_count two_entries)
    × (map asset_id added ≡ wire_assets two_entries)
    × All (Carries two_entries) added
explode_lem_example = explode_lem two_entries (a_trade ∷ [])

from_json-to_json_example :
    from_json text_decimals (to_json text_decimals a_quote) ≡ read_back a_quote
from_json-to_json_example = from_json-to_json text_decimals (λ d. refl) a_quote

quote_read_back : read_back a_quote ≡ ok a_quote
unfolding read_back
quote_read_back = refl
