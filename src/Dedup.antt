-- ===== src/Dedup.antt =====
-- shared/rust/polymarket-orderbook-rust/src/ws/dedup.rs: the two-generation cache, the keys, and the
-- forwarder. `none` is a panic. An `Instant` is a number of nanoseconds; each rotation reads the
-- clock twice. std's `DefaultHasher` is the parameter `hasher`, over the texts that are written to
-- it, and what the event channel answers is an argument of `try_send`.
pub mod Hex
pub mod Window
pub mod Forward
mod Tests
use polymarket_orderbook_col.Base.{
  codes, ℕ, zero, suc, ◌+◌, ◌-◌, ◌*◌, ◌/◌, ◌%◌, String, Option, none, some, List, [], ◌∷◌, ◌++◌,
  Bool, true, false, ◌||◌, ◌&&◌, not, leb, ltb, ◌==◌, if◌then◌else◌, Result, ok, err, add64,
  u64_mod, nat_key,
}
use polymarket_orderbook_col.Base.HashSet.{contains, insert}
use polymarket_orderbook_col.Events.{Event}
use polymarket_orderbook_col.Events.Json.{DecimalText}

pub record DedupCache : Type 0 where
  pub current : List ℕ
  pub previous : List ℕ
  pub rotate_every : ℕ
  pub last_rotate : ℕ

-- `DedupCache::new`, at the instant `now`.
unfoldable pub new : ℕ → ℕ → DedupCache
new ttl now = record { current = []; previous = []; rotate_every = ttl / 2; last_rotate = now }

-- True at the first sighting of the key.
unfoldable pub check_and_insert : ℕ → DedupCache → DedupCache × Bool
check_and_insert key c =
    if contains c.current key || contains c.previous key
    then (c, false)
    else (record c { current = insert key c.current }, true)

-- `read` is the instant that `elapsed` reads, `reset` the one that the rotation stores.
unfoldable pub maybe_rotate : ℕ → ℕ → DedupCache → DedupCache
maybe_rotate read reset c =
    if leb c.rotate_every (read - c.last_rotate)
    then record c { previous = c.current; current = []; last_rotate = reset }
    else c

-- `char::to_digit(16)`.
unfoldable pub hex_digit : ℕ → Option ℕ
hex_digit c =
    if leb b'0' c && leb c b'9'
    then some (c - b'0')
    else if leb b'a' c && leb c b'f'
    then some (c - b'a' + 10)
    else if leb b'A' c && leb c b'F'
    then some (c - b'A' + 10)
    else none

-- The digit loop of `u64::from_str_radix`, with its overflow checks.
unfoldable pub radix_digits : ℕ → List ℕ → Option ℕ
unfolding hex_digit
radix_digits acc [] = some acc
radix_digits acc (c ∷ cs) = elim (hex_digit c) [
  | none ↦ none
  | some d ↦ if ltb (acc * 16 + d) u64_mod then radix_digits (acc * 16 + d) cs else none
]

-- `u64::from_str_radix(_, 16)`: a leading `+` is taken, an empty text or a lone sign is not.
unfoldable pub from_str_radix : List ℕ → Option ℕ
unfolding radix_digits
from_str_radix [] = none
from_str_radix (c ∷ []) = if c == b'+' then none else radix_digits 0 (c ∷ [])
from_str_radix (c ∷ d ∷ cs) =
    if c == b'+' then radix_digits 0 (d ∷ cs) else radix_digits 0 (c ∷ d ∷ cs)

-- `strip_prefix("0x").unwrap_or(s)`.
unfoldable pub strip_0x : List ℕ → List ℕ
strip_0x (a ∷ b ∷ cs) = if a == b'0' && b == b'x' then cs else a ∷ b ∷ cs
strip_0x s = s

-- `get(..n)`: the first `n` characters, if there are so many.
unfoldable pub prefix : ℕ → List ℕ → Option (List ℕ)
prefix zero s = some []
prefix (suc n) [] = none
prefix (suc n) (c ∷ cs) = elim (prefix n cs) [ none ↦ none | some p ↦ some (c ∷ p) ]

unfoldable pub hex_prefix_u64 : List ℕ → Option ℕ
unfolding strip_0x prefix from_str_radix
hex_prefix_u64 s = elim (prefix 16 (strip_0x s)) [ none ↦ none | some p ↦ from_str_radix p ]

unfoldable pub hash_key : Option String → Option ℕ
unfolding hex_prefix_u64
hash_key none = none
hash_key (some h) = hex_prefix_u64 (codes h)

module _ {D : Type 0} (dec : DecimalText D) (hasher : List String → ℕ) where
  unfoldable pub dedup_key : Event D → Option ℕ
  unfolding hash_key
  dedup_key (Event.book m a t bids asks h) = hash_key h
  dedup_key (Event.price_change m a t bb ba h p s side) = hash_key h
  dedup_key (Event.last_trade_price m a t price size side fee tx) = some (
      hasher (
        "last_trade_price"
        ∷ m
        ∷ a
        ∷ t
        ∷ dec.to_string price
        ∷ dec.to_string size
        ∷ side
        ∷ fee
        ∷ tx
        ∷ []))
  dedup_key (Event.tick_size_change m a t old new) =
      some (hasher ("tick_size_change" ∷ m ∷ a ∷ t ∷ dec.to_string old ∷ dec.to_string new ∷ []))

-- The forwarder: the cache, the counters, and the events that the global channel has taken.
pub record DedupForwarder (D : Type 0) : Type 0 where
  pub cache : DedupCache
  pub global_tx : List (Event D)
  pub dropped : ℕ
  pub forwarded : ℕ

-- What `mpsc::Sender::try_send` answers, and its error.
pub data TrySendError : Type 0 where
  full closed : TrySendError

abbrev pub Answer : Type 0
Answer = Option TrySendError

-- The send to the global channel, after the key was new.
unfoldable pub forward :
    {D : Type 0}
    → Event D
    → Answer
    → DedupForwarder D
    → DedupForwarder D × Result TrySendError (Unit {0})
forward ev none f =
    (record f { global_tx = f.global_tx ++ ev ∷ []; forwarded = add64 f.forwarded 1 }, ok tt)
forward ev (some e) f = (f, err e)

module _ {D : Type 0} (dec : DecimalText D) (hasher : List String → ℕ) where
  unfoldable pub try_send :
      ℕ
      → ℕ
      → Answer
      → Event D
      → DedupForwarder D
      → Option (DedupForwarder D × Result TrySendError (Unit {0}))
  unfolding dedup_key maybe_rotate check_and_insert forward
  try_send read reset answer ev f = elim (dedup_key dec hasher ev) [
    | none ↦ none
    | some key ↦
        let seen = check_and_insert key (maybe_rotate read reset f.cache) in
        some (
          if seen.1
          then forward ev answer (record f { cache = seen.0 })
          else (record f { cache = seen.0; dropped = add64 f.dropped 1 }, ok tt))
  ]
