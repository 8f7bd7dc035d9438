-- ===== src/PubSub/Samples.antt =====
-- Events, printers and parsers for examples.
use polymarket_orderbook_col.Base.{
  ◌≡◌, refl, sym, ap, String, Option, none, some, [], Bool, true, false, ◌&&◌, ◌=?◌, string_key,
  if◌then◌else◌, arith, Bool-cases, inl, inr,
}
use polymarket_orderbook_col.Events.{Event}
use polymarket_orderbook_col.Events.Json.{Json, str, obj, Fields, end, field, DecimalText, to_json}
use polymarket_orderbook_col.PubSub.{PubSubSink, SubscriberStats, Subscriber}

abbrev pub text_decimals : DecimalText String
text_decimals = record { to_string = λ s. s; from_str = λ s. some s }

abbrev pub tick_change : Event String
tick_change = Event.tick_size_change "0xbd" "65" "100000000" "0.01" "0.001"

-- A printer of one document, and its parser.
unfoldable pub same_fields : Fields → Fields → Bool
same_fields end end = true
same_fields (field j (str v) fs) (field k (str w) gs) = (j =? k) && (v =? w) && same_fields fs gs
same_fields _ _ = false

unfoldable pub same_json : Json → Json → Bool
same_json (obj fs) (obj gs) = same_fields fs gs
same_json _ _ = false

abbrev pub the_json : Json
the_json = to_json text_decimals tick_change

unfoldable pub print_one : Json → Option String
print_one j = if same_json j the_json then some "tick" else none

abbrev pub parse_one : String → Option Json
parse_one payload = some the_json

same_fields-eq : (fs gs : Fields) → same_fields fs gs ≡ true → fs ≡ gs
unfolding same_fields
same_fields-eq end end h = refl
same_fields-eq (field j (str v) fs) (field k (str w) gs) h =
    grind (arith, h, string_key.same_iff j k, string_key.same_iff v w, same_fields-eq fs gs)
same_fields-eq _ _ h = cc

same_json-eq : (j k : Json) → same_json j k ≡ true → j ≡ k
unfolding same_json
same_json-eq (obj fs) (obj gs) h = ap obj (same_fields-eq fs gs h)
same_json-eq _ _ h = cc

pub parse_one-print :
    (j : Json) (payload : String) → print_one j ≡ some payload → parse_one payload ≡ some j
unfolding print_one
parse_one-print j payload h = elim (Bool-cases (same_json j the_json)) [
  | inl same ↦ ap some (sym (same_json-eq j the_json same))
  | inr other ↦ absurd (ground (arith, h, other))
]

abbrev pub idle_stats : SubscriberStats
idle_stats = record {
  events_received = 0;
  events_forwarded = 0;
  parse_failures = 0;
  reconnects = 0;
}

abbrev pub idle : Subscriber String
idle = record { stats = idle_stats; forwarded = [] }

abbrev pub empty_sink : PubSubSink String
empty_sink = record {
  batch_max = 2;
  batch = [];
  total_published = 0;
  total_dropped = 0;
  published = [];
}
