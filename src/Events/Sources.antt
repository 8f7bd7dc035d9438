-- ===== src/Events/Sources.antt =====
-- What serde takes a struct of events.rs from: an object, field by name, or an array, field by position.
use polymarket_orderbook_col.Base.{String, Option, none, some, Result, ok, err, ◌>>=◌}
use polymarket_orderbook_col.Events.Json.{
  Json, obj, arr, Items, nil, cons, Fields, JsonError, invalid_type, invalid_length, find_field,
  required, opt_str_field, as_opt_str,
}

-- What a struct is read from.
pub data Source : Type 0 where
  named : Fields → Source
  positional : Items → Source

unfoldable pub as_source : Json → Result JsonError Source
as_source (obj fs) = ok (named fs)
as_source (arr vs) = ok (positional vs)
as_source _ = err invalid_type

-- The next field, and what is left of the source.
unfoldable pub next {ℓ} :
    {A : Type ℓ} → (Json → Result JsonError A) → String → Source → Result JsonError (A × Source)
next parse k (named fs) = required k fs >>= λ v. parse v >>= λ a. ok (a, named fs)
next parse k (positional nil) = err invalid_length
next parse k (positional (cons v vs)) = parse v >>= λ a. ok (a, positional vs)

-- The same for a field with `#[serde(default)]`.
unfoldable pub next_or {ℓ} :
    {A : Type ℓ} → A → (Json → Result JsonError A) → String → Source → Result JsonError (A × Source)
next_or default parse k (named fs) = find_field k fs >>= λ found. elim found [
  | none ↦ ok (default, named fs)
  | some v ↦ parse v >>= λ a. ok (a, named fs)
]
next_or default parse k (positional nil) = ok (default, positional nil)
next_or default parse k (positional (cons v vs)) = parse v >>= λ a. ok (a, positional vs)

-- The end of a struct: no item of an array may be left.
unfoldable pub finished {ℓ} : {A : Type ℓ} → Source → A → Result JsonError A
finished (named fs) a = ok a
finished (positional nil) a = ok a
finished (positional (cons v vs)) a = err invalid_length

-- A field that is an `Option<String>`, with no `with`: by name it may be missing.
unfoldable pub next_opt_str : String → Source → Result JsonError (Option String × Source)
unfolding opt_str_field as_opt_str
next_opt_str k (named fs) = opt_str_field k fs >>= λ s. ok (s, named fs)
next_opt_str k (positional nil) = err invalid_length
next_opt_str k (positional (cons v vs)) = as_opt_str v >>= λ s. ok (s, positional vs)
