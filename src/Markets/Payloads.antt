-- ===== src/Markets/Payloads.antt =====
-- shared/rust/polymarket-orderbook-rust/src/markets/stream.rs: the payloads of the market events, as serde
-- derives their `Deserialize` with `#[serde(default)]` on each field, and `stream_entry_to_map`.
-- Unknown fields are passed over. serde takes a struct from a JSON array as well, field by field.
use polymarket_orderbook_col.Base.{
  String, Option, none, some, List, [], ◌∷◌, Result, ok, err, ◌>>=◌, string_key, Text, slice_to,
  floor_char_boundary, IsLongest, slice_to-floor, ◌≡◌, refl, false, ◌=?◌,
}
use polymarket_orderbook_col.Base.HashMap
use polymarket_orderbook_col.Events.Json.{
  Json, arr, obj, Items, nil, cons, Fields, field, JsonError, invalid_type, find_field, as_str,
  as_opt_str,
}

pub record NewMarketPayload : Type 0 where
  pub market : String
  pub assets_ids : List String
  pub outcomes : List String
  pub question : Option String

pub record MarketResolvedPayload : Type 0 where
  pub market : String
  pub winning_outcome : Option String

unfoldable pub as_strings_items : Items → Result JsonError (List String)
unfolding as_str
as_strings_items nil = ok []
as_strings_items (cons v vs) = do s ← as_str v; rest ← as_strings_items vs; ok (s ∷ rest)

-- `Vec<String>`.
unfoldable pub as_strings : Json → Result JsonError (List String)
unfolding as_strings_items
as_strings (arr vs) = as_strings_items vs
as_strings _ = err invalid_type

-- A field with `#[serde(default)]`.
unfoldable pub default_field :
    {A : Type 0} → A → (Json → Result JsonError A) → String → Fields → Result JsonError A
unfolding find_field
default_field d parse k fs =
    find_field k fs >>= λ found. elim found [ none ↦ ok d | some v ↦ parse v ]

-- The same in an array: the next item, or the default at the end.
unfoldable pub default_item :
    {A : Type 0} → A → (Json → Result JsonError A) → Items → Result JsonError (A × Items)
default_item d parse nil = ok (d, nil)
default_item d parse (cons v vs) = parse v >>= λ a. ok (a, vs)

-- No item may be left.
unfoldable pub all_read {ℓ} : {A : Type ℓ} → Items → A → Result JsonError A
all_read nil a = ok a
all_read (cons v vs) a = err invalid_type

unfoldable pub new_market_from_json : Json → Result JsonError NewMarketPayload
unfolding default_field default_item all_read as_str as_strings as_opt_str
new_market_from_json (obj fs) = do
  m ← default_field "" as_str "market" fs
  a ← default_field [] as_strings "assets_ids" fs
  o ← default_field [] as_strings "outcomes" fs
  q ← default_field none as_opt_str "question" fs
  ok (record { market = m; assets_ids = a; outcomes = o; question = q })
new_market_from_json (arr vs) = do
  m ← default_item "" as_str vs
  a ← default_item [] as_strings m.1
  o ← default_item [] as_strings a.1
  q ← default_item none as_opt_str o.1
  all_read q.1 (record { market = m.0; assets_ids = a.0; outcomes = o.0; question = q.0 })
new_market_from_json _ = err invalid_type

unfoldable pub market_resolved_from_json : Json → Result JsonError MarketResolvedPayload
unfolding default_field default_item all_read as_str as_opt_str
market_resolved_from_json (obj fs) = do
  m ← default_field "" as_str "market" fs
  w ← default_field none as_opt_str "winning_outcome" fs
  ok (record { market = m; winning_outcome = w })
market_resolved_from_json (arr vs) = do
  m ← default_item "" as_str vs
  w ← default_item none as_opt_str m.1
  all_read w.1 (record { market = m.0; winning_outcome = w.0 })
market_resolved_from_json _ = err invalid_type

-- What the code uses of redis's `Value`: a bulk string, with the text that its bytes are in UTF-8 if
-- they are one.
pub data Value : Type 0 where
  bulk_string : Option String → Value
  other_value : Value

pub record StreamId : Type 0 where
  pub id : String
  pub fields : List (String × Value)

unfoldable pub texts_of : List (String × Value) → List (String × String) → List (String × String)
texts_of [] out = out
texts_of ((k, bulk_string (some s)) ∷ rest) out = texts_of rest (HashMap.insert k s out)
texts_of ((k, bulk_string none) ∷ rest) out = texts_of rest out
texts_of ((k, other_value) ∷ rest) out = texts_of rest out

unfoldable pub stream_entry_to_map : StreamId → List (String × String)
unfolding texts_of
stream_entry_to_map entry = texts_of entry.fields []

-- `short`, for the log lines: a panic would be `none`.
unfoldable pub short : Text → Option Text
short s = slice_to (floor_char_boundary 16 s) s

-- `short` never panics: it gives the longest start of the text that has at most 16 bytes.
short_lem : (s : Text) → (pre : Text) × (short s ≡ some pre) × IsLongest 16 pre s
unfolding short
short_lem s = slice_to-floor 16 s

find_field-other :
    (k j : String) (v : Json) (fs : Fields)
    → (j =? k) ≡ false
    → find_field k (field j v fs) ≡ find_field k fs
unfolding find_field
find_field-other k j v fs h = rw h refl

-- A field of another name changes nothing of how a `new_market` payload is read.
pub new_market_from_json-extra :
    (k : String) (v : Json) (fs : Fields)
    → (k =? "market") ≡ false
    → (k =? "assets_ids") ≡ false
    → (k =? "outcomes") ≡ false
    → (k =? "question") ≡ false
    → new_market_from_json (obj (field k v fs)) ≡ new_market_from_json (obj fs)
unfolding new_market_from_json default_field
new_market_from_json-extra k v fs h1 h2 h3 h4 = rw (find_field-other "market" k v fs h1) (
    rw (find_field-other "assets_ids" k v fs h2) (
      rw (find_field-other "outcomes" k v fs h3) (rw (find_field-other "question" k v fs h4) refl)))
