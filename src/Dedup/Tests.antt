-- ===== src/Dedup/Tests.antt =====
-- Examples for the theorems on ws/dedup.rs.
use polymarket_orderbook_col.Base.{
  codes, ℕ, String, ◌≡◌, refl, none, some, List, [], ◌∷◌, ◌++◌, map, arith, length, Result, ok,
  add64, u64_mod, ◌<◌,
}
use polymarket_orderbook_col.Base.HashSet.{contains, insert}
use polymarket_orderbook_col.Events.{Event}
use polymarket_orderbook_col.Events.Json.{DecimalText}
use polymarket_orderbook_col.Dedup.{
  DedupCache, check_and_insert, hex_digit, hex_prefix_u64, strip_0x, prefix, from_str_radix,
  radix_digits, DedupForwarder, TrySendError, dedup_key, try_send, maybe_rotate, forward,
}
use polymarket_orderbook_col.Dedup.Hex.{
  digit, value, IsPrefix16, hex_prefix_u64_lem, hex_prefix_u64-injective,
}
use polymarket_orderbook_col.Dedup.Window.{Sighting, observe}
use polymarket_orderbook_col.Dedup.Forward.{
  Call, send, key_of, sighting, send_all, Outcome, try_send_lem, forwarded_once,
}

abbrev digits_a : List ℕ
digits_a = codes "56621a121a47ed93"

abbrev digits_b : List ℕ
digits_b = codes "56621A121A47ED93"

digits_a-IsPrefix16 : IsPrefix16 digits_a
unfolding hex_digit digit
digits_a-IsPrefix16 = record {
  sixteen = refl;
  digits = (
    refl,
    (
      refl,
      (
        refl,
        (
          refl,
          (
            refl,
            (
              refl,
              (refl, (refl, (refl, (refl, (refl, (refl, (refl, (refl, (refl, (refl, tt)))))))))),
            ),
          ),
        ),
      ),
    ),
  );
}

digits_b-IsPrefix16 : IsPrefix16 digits_b
unfolding hex_digit digit
digits_b-IsPrefix16 = record {
  sixteen = refl;
  digits = (
    refl,
    (
      refl,
      (
        refl,
        (
          refl,
          (
            refl,
            (
              refl,
              (refl, (refl, (refl, (refl, (refl, (refl, (refl, (refl, (refl, (refl, tt)))))))))),
            ),
          ),
        ),
      ),
    ),
  );
}

hex_prefix_u64_lem_example :
    (hex_prefix_u64 (digits_a ++ codes "33") ≡ some (value digits_a))
    × (hex_prefix_u64 (b'0' ∷ b'x' ∷ (digits_a ++ codes "33")) ≡ some (value digits_a))
    × (value digits_a < u64_mod)
hex_prefix_u64_lem_example = hex_prefix_u64_lem digits_a (codes "33") digits_a-IsPrefix16

hex_prefix_u64-injective_example : map digit digits_a ≡ map digit digits_b
unfolding hex_prefix_u64 strip_0x prefix from_str_radix radix_digits hex_digit
hex_prefix_u64-injective_example =
    hex_prefix_u64-injective digits_a digits_b (codes "33") [] digits_a-IsPrefix16
      digits_b-IsPrefix16 refl

-- A cache of a one-hour lifetime, at the instant 0, and sightings of two keys.
abbrev fresh : DedupCache
fresh = record { current = []; previous = []; rotate_every = 1800; last_rotate = 0 }

abbrev seen_at : ℕ → ℕ → Sighting
seen_at t k = record { read = t; reset = t; key = k }

-- The forwarder, with a hasher that counts the texts, and a tick size change at an instant.
abbrev text_decimals : DecimalText String
text_decimals = record { to_string = λ s. s; from_str = λ s. some s }

abbrev counting : List String → ℕ
counting = length

abbrev idle : DedupForwarder String
idle = record { cache = fresh; global_tx = []; dropped = 0; forwarded = 0 }

abbrev tick_change : Event String
tick_change = Event.tick_size_change "0xbd" "65" "100000000" "0.01" "0.001"

abbrev call_at : ℕ → Call String
call_at t = record { event = tick_change; read = t; reset = t; answer = none }

abbrev after_one : DedupForwarder String
after_one = record {
  cache = record fresh { current = 6 ∷ [] };
  global_tx = tick_change ∷ [];
  dropped = 0;
  forwarded = 1;
}

abbrev after_two : DedupForwarder String
after_two = record after_one { dropped = 1 }

sent_one : send text_decimals counting (call_at 5) idle ≡ some (after_one, ok tt)
unfolding try_send dedup_key maybe_rotate check_and_insert forward contains insert
sent_one = refl

absorbed_two : send text_decimals counting (call_at 9) after_one ≡ some (after_two, ok tt)
unfolding try_send dedup_key maybe_rotate check_and_insert forward contains insert
absorbed_two = refl

key_6 : (t : ℕ) → key_of text_decimals counting (call_at t) ≡ 6
unfolding key_of dedup_key
key_6 t = refl

try_send_lem_example :
    (after_one.cache ≡ (observe (sighting text_decimals counting (call_at 5)) idle.cache).0)
    × Outcome text_decimals counting (call_at 5) idle after_one (ok tt)
try_send_lem_example =
    try_send_lem text_decimals counting (call_at 5) idle after_one (ok tt) sent_one

abbrev said_ok : Result TrySendError (Unit {0})
said_ok = ok tt

forwarded_once_example :
    (said_ok ≡ ok tt)
    × (after_two.global_tx ≡ after_one.global_tx)
    × (after_two.dropped ≡ add64 after_one.dropped 1)
unfolding send_all key_of dedup_key observe maybe_rotate check_and_insert contains
forwarded_once_example =
    forwarded_once text_decimals counting (call_at 5) (call_at 9) [] idle after_one after_one
      after_two (ok tt) (ok tt) sent_one refl refl absorbed_two (omega arith)
      (omega arith, omega arith, (omega arith, omega arith, tt)) refl (omega arith)
