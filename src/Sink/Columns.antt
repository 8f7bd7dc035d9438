-- ===== src/Sink/Columns.antt =====
-- The rows of sink.rs against the insert's column list and the table.
use mathlib.Core.List.{Perm}
use mathlib.Core.List.Perm
use polymarket_orderbook_col.Base.{
  ◌≡◌, refl, subst, ◌⊎◌, inl, inr, String, Option, none, some, List, [], ◌∷◌, map, ℤ, Bool, true,
  false, ◌=?◌, string_key, if◌then◌else◌, Bool-cases, Option-cases, arith,
}
use polymarket_orderbook_col.Events.{Event}
use polymarket_orderbook_col.Events.Json.{Json, DecimalText}
use polymarket_orderbook_col.Sink.{
  SinkSchema, raw, typed, SinkConfig, insert_key, json_map, typed_fields, raw_row, typed_row_value,
  row_of,
}
use polymarket_orderbook_col.Sink.Statements.{insert_columns, table_columns}

abbrev pub names {ℓ} : {A : Type ℓ} → List (String × A) → List String
names cols = map (λ c. c.0) cols

table-insert : (s : SinkSchema) → names (table_columns s) ≡ "timestamp_received" ∷ insert_columns s
unfolding table_columns insert_columns
table-insert raw = refl
table-insert typed = refl

schema-cases : (s : SinkSchema) → (s ≡ raw) ⊎ (s ≡ typed)
schema-cases raw = inl refl
schema-cases typed = inr refl

-- A list without the first occurrence of an item.
take_out : String → List String → Option (List String)
take_out x [] = none
take_out x (y ∷ ys) =
    let rest = take_out x ys in
    if x =? y then some ys else (elim rest [ none ↦ none | some zs ↦ some (y ∷ zs) ])

same_items : List String → List String → Bool
same_items [] [] = true
same_items [] (y ∷ ys) = false
same_items (x ∷ xs) ys = elim (take_out x ys) [ none ↦ false | some zs ↦ same_items xs zs ]

take_out-Perm : (x : String) (ys zs : List String) → take_out x ys ≡ some zs → Perm (x ∷ zs) ys
unfolding take_out
take_out-Perm x [] zs h = absurd cc
take_out-Perm x (y ∷ ys) zs h = elim (Bool-cases (x =? y)) [
  | inl hit ↦
      let same : ys ≡ zs = ground (arith, h, hit) in
      let whole : y ∷ ys ≡ x ∷ zs = cc (same, (string_key.same_iff x y).0 hit) in
      subst (λ us. Perm us (y ∷ ys)) whole (Perm.refl (y ∷ ys))
  | inr miss ↦ elim (Option-cases (take_out x ys)) [
    | inl gone ↦ absurd (ground (arith, h, miss, gone))
    | inr (ts, there) ↦
        let same : y ∷ ts ≡ zs = ground (arith, h, miss, there) in
        subst (λ us. Perm (x ∷ us) (y ∷ ys)) same
          (Perm.trans (Perm.swap y x ts) (Perm.cons y (take_out-Perm x ys ts there)))
  ]
]

same_items-Perm : (xs ys : List String) → same_items xs ys ≡ true → Perm xs ys
unfolding same_items
same_items-Perm [] [] h = Perm.nil
same_items-Perm [] (y ∷ ys) h = absurd cc
same_items-Perm (x ∷ xs) ys h = elim (Option-cases (take_out x ys)) [
  | inl gone ↦ absurd (ground (arith, h, gone))
  | inr (zs, there) ↦
      Perm.trans (Perm.cons x (same_items-Perm xs zs (ground (arith, h, there))))
        (take_out-Perm x ys zs there)
]

module _ {D : Type 0} (dec : DecimalText D) (print : Json → String) where
  typed_row-names :
      (ev : Event D) (ts : ℤ)
      → same_items (names (typed_row_value dec ev ts)) (insert_columns typed) ≡ true
  unfolding typed_row_value typed_fields json_map insert_key insert_columns same_items take_out
  typed_row-names (Event.book m a t bids asks h) ts = refl
  typed_row-names (Event.price_change m a t bb ba h p s side) ts = refl
  typed_row-names (Event.last_trade_price m a t p s side fee tx) ts = refl
  typed_row-names (Event.tick_size_change m a t old new) ts = refl

  raw_row-names :
      (cfg : SinkConfig) (ev : Event D) (ts : ℤ)
      → same_items (names (raw_row dec print cfg ev ts)) (insert_columns raw) ≡ true
  unfolding raw_row insert_columns same_items take_out
  raw_row-names cfg ev ts = refl

  -- In either schema, the row of every event has exactly the columns that the insert names, each of them
  -- once, in some order (the format takes them by name), and the table has these, in the insert's
  -- order, after `timestamp_received`, which has a default.
  pub row_of-names :
      (cfg : SinkConfig) (ev : Event D) (ts : ℤ)
      → Perm (names (row_of dec print cfg ev ts)) (insert_columns cfg.schema)
        × (names (table_columns cfg.schema) ≡ "timestamp_received" ∷ insert_columns cfg.schema)
  unfolding row_of
  row_of-names cfg ev ts = (
    elim (schema-cases cfg.schema) [
      | inl e ↦ rw (e, row_of) (same_items-Perm _ _ (raw_row-names cfg ev ts))
      | inr e ↦ rw (e, row_of) (same_items-Perm _ _ (typed_row-names ev ts))
    ],
    table-insert cfg.schema,
  )
