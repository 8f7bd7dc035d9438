-- ===== src/Events/Json.antt =====
-- The JSON that serde derives for `Event` and `Level` of events.rs, as the trees of serde's data model, with
-- the readers of their fields: the attributes `tag`, `skip_serializing_if`, `with = "rust_decimal::serde::str"` and
-- `str_option` are written out. The decimal's own printer and parser are parameters.
use polymarket_orderbook_col.Base.{
  String, Option, none, some, List, [], ◌∷◌, Result, ok, err, ◌>>=◌, ℤ, ◌=?◌, string_key,
  if◌then◌else◌, Bool, false, ◌||◌,
}
use polymarket_orderbook_col.Events.{Level, Event}

mutual
  pub data Json : Type 0 where
    null : Json
    num : ℤ → Json
    str : String → Json
    arr : Items → Json
    obj : Fields → Json

  pub data Items : Type 0 where
    nil : Items
    cons : Json → Items → Items

  pub data Fields : Type 0 where
    end : Fields
    field : String → Json → Fields → Fields

pub data JsonError : Type 0 where
  missing_field : String → JsonError
  duplicate_field : String → JsonError
  unknown_variant : String → JsonError
  invalid_type : JsonError
  invalid_length : JsonError
  no_variant : JsonError
  invalid_decimal : String → JsonError

-- What the code uses of rust_decimal: `Display` and `FromStr`.
pub record DecimalText (D : Type 0) : Type 0 where
  pub to_string : D → String
  pub from_str : String → Option D

unfoldable pub has_field : String → Fields → Bool
has_field k end = false
has_field k (field j v fs) = (j =? k) || has_field k fs

-- The value of a field, which serde wants at most once.
unfoldable pub find_field : String → Fields → Result JsonError (Option Json)
unfolding has_field
find_field k end = ok none
find_field k (field j v fs) =
    let rest = find_field k fs in
    if j =? k then (if has_field k fs then err (duplicate_field k) else ok (some v)) else rest

unfoldable pub required : String → Fields → Result JsonError Json
unfolding find_field
required k fs =
    find_field k fs >>= λ found. elim found [ none ↦ err (missing_field k) | some v ↦ ok v ]

unfoldable pub as_str : Json → Result JsonError String
as_str (str s) = ok s
as_str _ = err invalid_type

unfoldable pub str_field : String → Fields → Result JsonError String
unfolding required as_str
str_field k fs = required k fs >>= as_str

-- `Option<String>` with no `with`: a field that is not there is `None`.
unfoldable pub as_opt_str : Json → Result JsonError (Option String)
as_opt_str null = ok none
as_opt_str (str s) = ok (some s)
as_opt_str _ = err invalid_type

unfoldable pub opt_str_field : String → Fields → Result JsonError (Option String)
unfolding find_field as_opt_str
opt_str_field k fs =
    find_field k fs >>= λ found. elim found [ none ↦ ok none | some v ↦ as_opt_str v ]

module _ {D : Type 0} (dec : DecimalText D) where
  unfoldable pub parse_decimal : String → Result JsonError D
  parse_decimal s = elim (dec.from_str s) [ none ↦ err (invalid_decimal s) | some d ↦ ok d ]

  unfoldable pub as_decimal : Json → Result JsonError D
  unfolding parse_decimal
  as_decimal (str s) = parse_decimal s
  as_decimal _ = err invalid_type

  -- `str_option`: `null` or a string.
  unfoldable pub as_opt_decimal : Json → Result JsonError (Option D)
  unfolding as_decimal
  as_opt_decimal null = ok none
  as_opt_decimal v = as_decimal v >>= λ d. ok (some d)

  -- `Serialize for Level`: the array of the price and the size.
  unfoldable pub level_to_json : Level D → Json
  level_to_json l = arr (cons (str (dec.to_string l.price)) (cons (str (dec.to_string l.size)) nil))

  -- `Deserialize for Level`: exactly two strings, each a decimal.
  unfoldable pub level_from_json : Json → Result JsonError (Level D)
  unfolding as_str parse_decimal
  level_from_json (arr (cons p (cons s nil))) = do
    price_s ← as_str p
    size_s ← as_str s
    price ← parse_decimal price_s
    size ← parse_decimal size_s
    ok (record { price = price; size = size })
  level_from_json _ = err invalid_type

  unfoldable pub levels_to_items : List (Level D) → Items
  unfolding level_to_json
  levels_to_items [] = nil
  levels_to_items (l ∷ ls) = cons (level_to_json l) (levels_to_items ls)

  unfoldable pub levels_from_items : Items → Result JsonError (List (Level D))
  unfolding level_from_json
  levels_from_items nil = ok []
  levels_from_items (cons v vs) = do l ← level_from_json v; ls ← levels_from_items vs; ok (l ∷ ls)

  unfoldable pub as_levels : Json → Result JsonError (List (Level D))
  unfolding levels_from_items
  as_levels (arr vs) = levels_from_items vs
  as_levels _ = err invalid_type

  -- `skip_serializing_if = "Option::is_none"`.
  unfoldable pub opt_str : String → Option String → Fields → Fields
  opt_str k none rest = rest
  opt_str k (some s) rest = field k (str s) rest

  unfoldable pub opt_decimal : String → Option D → Fields → Fields
  opt_decimal k none rest = rest
  opt_decimal k (some d) rest = field k (str (dec.to_string d)) rest

  unfoldable pub decimal : String → D → Fields → Fields
  decimal k d rest = field k (str (dec.to_string d)) rest

  -- `Serialize for Event`: the tag first, then the fields in their order.
  unfoldable pub to_json : Event D → Json
  unfolding levels_to_items opt_str opt_decimal decimal
  to_json (Event.book m a t bids asks h) = obj (
      field "event_type" (str "book") (
        field "market" (str m) (
          field "asset_id" (str a) (
            field "timestamp" (str t) (
              field "bids" (arr (levels_to_items bids))
                (field "asks" (arr (levels_to_items asks)) (opt_str "hash" h end)))))))
  to_json (Event.price_change m a t best_bid best_ask h price size side) = obj (
      field "event_type" (str "price_change") (
        field "market" (str m) (
          field "asset_id" (str a) (
            field "timestamp" (str t) (
              opt_decimal "best_bid" best_bid (
                opt_decimal "best_ask" best_ask (
                  opt_str "hash" h (
                    decimal "price" price
                      (decimal "size" size (field "side" (str side) end))))))))))
  to_json (Event.last_trade_price m a t price size side fee tx) = obj (
      field "event_type" (str "last_trade_price") (
        field "market" (str m) (
          field "asset_id" (str a) (
            field "timestamp" (str t) (
              decimal "price" price (
                decimal "size" size (
                  field "side" (str side)
                    (field "fee_rate_bps" (str fee) (field "transaction_hash" (str tx) end)))))))))
  to_json (Event.tick_size_change m a t old new) = obj (
      field "event_type" (str "tick_size_change") (
        field "market" (str m) (
          field "asset_id" (str a) (
            field "timestamp" (str t)
              (decimal "old_tick_size" old (decimal "new_tick_size" new end))))))
