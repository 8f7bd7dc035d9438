-- ===== src/Events/Frame.antt =====
-- The frames of events.rs as serde reads them: an array is all or nothing.
use polymarket_orderbook_col.Base.{
  Result-cases, String, ◌≡◌, refl, ap, ◌∙◌, List, Result, ok, err, ◌=?◌, string_key, false, Bool,
  ◌||◌, arith, ℕ, zero, suc, Option, none, some, inl, inr,
}
use polymarket_orderbook_col.Events.{WireMessage, WireFrame}
use polymarket_orderbook_col.Events.Json.{
  Json, obj, arr, Items, nil, cons, Fields, JsonError, no_variant, unknown_variant, DecimalText,
  as_str, str_field,
}
use polymarket_orderbook_col.Events.Wire.{
  as_vec, each_item, variant_from, message_from_json, frame_from_json,
}

-- The answer for an array of messages.
abbrev pub all_or_nothing :
    {D : Type 0} → Result JsonError (List (WireMessage D)) → Result JsonError (WireFrame D)
all_or_nothing (ok ms) = ok (WireFrame.many ms)
all_or_nothing (err e) = err no_variant

abbrev pub item_at : Items → ℕ → Option Json
item_at nil i = none
item_at (cons v vs) zero = some v
item_at (cons v vs) (suc i) = item_at vs i

each_item-bad {ℓ} :
    {A : Type ℓ} (parse : Json → Result JsonError A) (vs : Items) (i : ℕ) (v : Json) (e : JsonError)
    → item_at vs i ≡ some v
    → parse v ≡ err e
    → (e' : JsonError) × (each_item parse vs ≡ err e')
unfolding each_item
each_item-bad parse nil i v e at bad = absurd cc
each_item-bad parse (cons w vs) zero v e at bad =
    let same : w ≡ v = cc at in (e, rw same (rw bad refl))
each_item-bad parse (cons w vs) (suc i) v e at bad =
    let (e', rest) = each_item-bad parse vs i v e at bad in
    elim (Result-cases (parse w)) [
      | inl (a, good) ↦ (e', rw good (rw rest refl))
      | inr (first, worse) ↦ (first, rw worse refl)
    ]

module _ {D : Type 0} (dec : DecimalText D) where
  -- A frame that is an array of objects is read exactly if each of them is a message, and gives these
  -- messages in order; if one of them is not, nothing of the frame is read.
  pub frame_from_json-array :
      (fs : Fields) (vs : Items)
      → frame_from_json dec (arr (cons (obj fs) vs))
        ≡ all_or_nothing (each_item (message_from_json dec) (cons (obj fs) vs))
  unfolding frame_from_json as_vec message_from_json as_str
  frame_from_json-array fs vs =
      elim (Result-cases (each_item (message_from_json dec) (cons (obj fs) vs))) [
        | inl (ms, good) ↦ rw (good, frame_from_json) refl
        | inr (e, bad) ↦ rw (bad, frame_from_json) refl
      ]

  -- The types that a message may name.
  abbrev pub is_known : String → Bool
  is_known tag =
      (tag =? "book")
      || ((tag =? "price_change") || ((tag =? "last_trade_price") || (tag =? "tick_size_change")))

  unknown_message :
      (fs : Fields) (tag : String)
      → str_field "event_type" fs ≡ ok tag
      → is_known tag ≡ false
      → message_from_json dec (obj fs) ≡ err (unknown_variant tag)
  unfolding message_from_json variant_from
  unknown_message fs tag named unknown = rw (named, message_from_json) (ground (arith, unknown))

  -- One message of an unknown type makes the whole array of a frame, whose first item is an object,
  -- unreadable, with all the messages beside it.
  pub one_unknown_message :
      (fs : Fields) (vs : Items) (i : ℕ) (gs : Fields) (tag : String)
      → item_at (cons (obj fs) vs) i ≡ some (obj gs)
      → str_field "event_type" gs ≡ ok tag
      → is_known tag ≡ false
      → frame_from_json dec (arr (cons (obj fs) vs)) ≡ err no_variant
  one_unknown_message fs vs i gs tag at named unknown =
      let (e, bad) =
        each_item-bad (message_from_json dec) (cons (obj fs) vs) i (obj gs) (unknown_variant tag) at
          (unknown_message gs tag named unknown) in
      frame_from_json-array fs vs ∙ ap all_or_nothing bad
