-- ===== src/Connection/Documents.antt =====
-- The frames of ws/connection.rs as documents: what `serde_json::from_str` is for a `WireFrame`, with the parser
-- of documents and the texts of the errors as parameters, and what a message of an unknown type does.
use polymarket_orderbook_col.Base.{
  ℕ, String, ◌≡◌, refl, none, some, List, false, is_empty, Result, ok, err, Text, trim, eq_text,
}
use polymarket_orderbook_col.Events.{WireFrame}
use polymarket_orderbook_col.Events.Json.{
  Json, obj, arr, Items, cons, Fields, JsonError, no_variant, DecimalText, str_field,
}
use polymarket_orderbook_col.Events.Wire.{frame_from_json}
use polymarket_orderbook_col.Events.Frame.{item_at, is_known, one_unknown_message}
use polymarket_orderbook_col.Connection.Session.{
  Session, continue, panics, Slot, read_text, pong, snippet, turn,
}
use polymarket_orderbook_col.Connection.Heartbeat.{parse_failure_lem}

module _ {D : Type 0} (dec : DecimalText D) (document : Text → Result String Json)
    (message : JsonError → String) where
  -- A document, and the frame that it is.
  unfoldable pub wire_frame : Text → Result String (WireFrame D)
  wire_frame text = elim (document text) [
    | err e ↦ err e
    | ok j ↦ elim (frame_from_json dec j) [ ok frame ↦ ok frame | err e ↦ err (message e) ]
  ]

  wire_frame-unreadable :
      (text : Text) (j : Json) (e : JsonError)
      → document text ≡ ok j
      → frame_from_json dec j ≡ err e
      → wire_frame text ≡ err (message e)
  unfolding wire_frame
  wire_frame-unreadable text j e is_document bad =
      rw (is_document, wire_frame) (rw (bad, wire_frame) refl)

  -- A text frame whose document is an array that begins with an object and has one message of an unknown
  -- type gives the forwarder none of its messages and leaves the subscriptions alone; the session goes
  -- on, unless the log line's slice of the text is inside a character, which is a panic.
  pub unknown_message_lem :
      (hasher : List String → ℕ) (raw : Text) (at pong_at : ℕ) (slots : ℕ → Slot) (s : Session D)
      (fs : Fields) (vs : Items) (i : ℕ) (gs : Fields) (tag : String)
      → is_empty (trim raw) ≡ false
      → eq_text (trim raw) pong ≡ false
      → document (trim raw) ≡ ok (arr (cons (obj fs) vs))
      → item_at (cons (obj fs) vs) i ≡ some (obj gs)
      → str_field "event_type" gs ≡ ok tag
      → is_known dec tag ≡ false
      → let out = turn dec hasher wire_frame (read_text raw at pong_at slots) s in
        (out.1 ≡ (elim (snippet (trim raw)) [ none ↦ panics | some t ↦ continue ]))
        × (out.0.forwarder ≡ s.forwarder)
        × (out.0.core ≡ s.core)
  unknown_message_lem hasher raw at pong_at slots s fs vs i gs tag full not_pong is_array there
        named unknown =
      parse_failure_lem dec hasher wire_frame raw at pong_at slots s (message no_variant) full
        not_pong
        (wire_frame-unreadable (trim raw) (arr (cons (obj fs) vs)) no_variant is_array
          (one_unknown_message dec fs vs i gs tag there named unknown))
