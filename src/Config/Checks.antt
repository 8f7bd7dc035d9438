-- ===== src/Config/Checks.antt =====
-- Which environments the three configurations accept, and the error that they report otherwise.
use polymarket_orderbook_col.Base.{
  codes, ℕ, String, ◌≡◌, refl, ap, ◌∙◌, Option, none, some, List, [], ◌∷◌, Result, ok, err, ◌>>=◌,
  Option-cases, inl, inr,
}
use polymarket_orderbook_col.Base.Numbers.{parse_unsigned}
use polymarket_orderbook_col.Config.{
  Env, ConfigError, missing, invalid, max_u16, max_u64, require_env, env_parse, from_env,
}
use polymarket_orderbook_col.Config.Publisher
use polymarket_orderbook_col.Config.Writer

-- What a configuration asks of a variable: to be set, or to be a number up to a greatest value if it is.
pub data Check : Type 0 where
  required : String → Check
  number : ℕ → String → Check

abbrev pub violation : Env → Check → Option ConfigError
violation env (required name) = elim (env name) [ none ↦ some (missing name) | some raw ↦ none ]
violation env (number greatest name) = elim (env name) [
  | none ↦ none
  | some raw ↦ elim (parse_unsigned greatest (codes raw)) [
    | none ↦ some (invalid name)
    | some n ↦ none
  ]
]

abbrev pub or_else : Option ConfigError → Option ConfigError → Option ConfigError
or_else none y = y
or_else (some e) y = some e

-- The first check that is violated.
abbrev pub first_violation : Env → List Check → Option ConfigError
first_violation env [] = none
first_violation env (c ∷ cs) = or_else (violation env c) (first_violation env cs)

abbrev pub error_of {ℓ} : {A : Type ℓ} → Result ConfigError A → Option ConfigError
error_of (ok a) = none
error_of (err e) = some e

error_of-bind {ℓ κ} :
    {A : Type ℓ} {B : Type κ} (m : Result ConfigError A) (f : A → Result ConfigError B)
    (x : Option ConfigError)
    → ((a : A) → error_of (f a) ≡ x)
    → error_of (m >>= f) ≡ or_else (error_of m) x
error_of-bind (ok a) f x h = h a
error_of-bind (err e) f x h = refl

error_of-require_env :
    (env : Env) (name : String) → error_of (require_env env name) ≡ violation env (required name)
unfolding require_env
error_of-require_env env name = elim (Option-cases (env name)) [
  | inl unset ↦ rw (unset, require_env) (rw (unset, violation) refl)
  | inr (raw, set) ↦ rw (set, require_env) (rw (set, violation) refl)
]

error_of-env_parse :
    (env : Env) (greatest : ℕ) (name : String) (default : ℕ)
    → error_of (env_parse env greatest name default) ≡ violation env (number greatest name)
unfolding env_parse
error_of-env_parse env greatest name default = elim (Option-cases (env name)) [
  | inl unset ↦ rw (unset, env_parse) (rw (unset, violation) refl)
  | inr (raw, set) ↦ elim (Option-cases (parse_unsigned greatest (codes raw))) [
    | inl bad ↦ rw (set, env_parse) (rw (bad, env_parse) (rw (set, violation) (rw bad refl)))
    | inr (n, good) ↦
        rw (set, env_parse) (rw (good, env_parse) (rw (set, violation) (rw good refl)))
  ]
]

-- A step of a configuration: one check, and what is checked after it.
checked {ℓ κ} :
    {A : Type ℓ} {B : Type κ} (env : Env) (c : Check) (cs : List Check) (m : Result ConfigError A)
    (f : A → Result ConfigError B)
    → error_of m ≡ violation env c
    → ((a : A) → error_of (f a) ≡ first_violation env cs)
    → error_of (m >>= f) ≡ first_violation env (c ∷ cs)
checked env c cs m f e h =
    error_of-bind m f (first_violation env cs) h ∙ ap (λ x. or_else x (first_violation env cs)) e

required_then {κ} :
    {B : Type κ} (env : Env) (name : String) (cs : List Check) (f : String → Result ConfigError B)
    → ((a : String) → error_of (f a) ≡ first_violation env cs)
    → error_of (require_env env name >>= f) ≡ first_violation env (required name ∷ cs)
required_then env name cs f =
    checked env (required name) cs (require_env env name) f (error_of-require_env env name)

number_then {κ} :
    {B : Type κ} (env : Env) (greatest : ℕ) (name : String) (default : ℕ) (cs : List Check)
    (f : ℕ → Result ConfigError B)
    → ((a : ℕ) → error_of (f a) ≡ first_violation env cs)
    → error_of (env_parse env greatest name default >>= f)
      ≡ first_violation env (number greatest name ∷ cs)
number_then env greatest name default cs f =
    checked env (number greatest name) cs (env_parse env greatest name default) f
      (error_of-env_parse env greatest name default)

abbrev pub checks : List Check
checks =
    number max_u16 "CLICKHOUSE_PORT"
    ∷ required "REDIS_URL"
    ∷ number max_u64 "QUEUE_SIZE"
    ∷ number max_u64 "MAX_ASSETS_PER_CONN"
    ∷ number max_u64 "DEDUP_TTL_SECONDS"
    ∷ number max_u64 "TTL_MINUTES"
    ∷ []

-- The library's configuration is there exactly if none of its checks is violated, and else its error is that
-- of the first that is.
from_env-checks : (env : Env) → error_of (from_env env) ≡ first_violation env checks
unfolding from_env
from_env-checks env =
    let c5 : List Check = number max_u64 "TTL_MINUTES" ∷ [] in
    let c4 : List Check = number max_u64 "DEDUP_TTL_SECONDS" ∷ c5 in
    let c3 : List Check = number max_u64 "MAX_ASSETS_PER_CONN" ∷ c4 in
    let c2 : List Check = number max_u64 "QUEUE_SIZE" ∷ c3 in
    let c1 : List Check = required "REDIS_URL" ∷ c2 in
    number_then env max_u16 "CLICKHOUSE_PORT" 8123 c1 _ λ v0.
      required_then env "REDIS_URL" c2 _ λ v1.
        number_then env max_u64 "QUEUE_SIZE" 5_000_000 c3 _ λ v2.
          number_then env max_u64 "MAX_ASSETS_PER_CONN" 200 c4 _ λ v3.
            number_then env max_u64 "DEDUP_TTL_SECONDS" 10 c5 _
              λ v4. number_then env max_u64 "TTL_MINUTES" 0 [] _ λ v5. refl

abbrev pub publisher_checks : List Check
publisher_checks =
    required "REDIS_URL"
    ∷ number max_u64 "MAX_BATCH"
    ∷ number max_u64 "LINGER_MS"
    ∷ number max_u64 "QUEUE_SIZE"
    ∷ number max_u64 "MAX_ASSETS_PER_CONN"
    ∷ number max_u64 "DEDUP_TTL_SECONDS"
    ∷ []

-- The publisher's configuration is there exactly if none of its checks is violated, and else its error is
-- that of the first that is.
publisher-checks :
    (env : Env) → error_of (Publisher.from_env env) ≡ first_violation env publisher_checks
unfolding Publisher.from_env
publisher-checks env =
    let c5 : List Check = number max_u64 "DEDUP_TTL_SECONDS" ∷ [] in
    let c4 : List Check = number max_u64 "MAX_ASSETS_PER_CONN" ∷ c5 in
    let c3 : List Check = number max_u64 "QUEUE_SIZE" ∷ c4 in
    let c2 : List Check = number max_u64 "LINGER_MS" ∷ c3 in
    let c1 : List Check = number max_u64 "MAX_BATCH" ∷ c2 in
    required_then env "REDIS_URL" c1 _ λ v0. number_then env max_u64 "MAX_BATCH" 200 c2 _ λ v1.
      number_then env max_u64 "LINGER_MS" 2 c3 _ λ v2.
        number_then env max_u64 "QUEUE_SIZE" 5_000_000 c4 _ λ v3.
          number_then env max_u64 "MAX_ASSETS_PER_CONN" 200 c5 _
            λ v4. number_then env max_u64 "DEDUP_TTL_SECONDS" 10 [] _ λ v5. refl

abbrev pub writer_checks : List Check
writer_checks =
    number max_u16 "CLICKHOUSE_PORT"
    ∷ required "REDIS_URL"
    ∷ number max_u64 "PUBSUB_RECONNECT_DELAY_MS"
    ∷ number max_u64 "FLUSH_BATCH_SIZE"
    ∷ number max_u64 "FLUSH_INTERVAL_MS"
    ∷ number max_u64 "TTL_MINUTES"
    ∷ number max_u64 "QUEUE_SIZE"
    ∷ []

-- The writer's configuration is there exactly if none of its checks is violated, and else its error is that
-- of the first that is.
writer-checks : (env : Env) → error_of (Writer.from_env env) ≡ first_violation env writer_checks
unfolding Writer.from_env
writer-checks env =
    let c6 : List Check = number max_u64 "QUEUE_SIZE" ∷ [] in
    let c5 : List Check = number max_u64 "TTL_MINUTES" ∷ c6 in
    let c4 : List Check = number max_u64 "FLUSH_INTERVAL_MS" ∷ c5 in
    let c3 : List Check = number max_u64 "FLUSH_BATCH_SIZE" ∷ c4 in
    let c2 : List Check = number max_u64 "PUBSUB_RECONNECT_DELAY_MS" ∷ c3 in
    let c1 : List Check = required "REDIS_URL" ∷ c2 in
    number_then env max_u16 "CLICKHOUSE_PORT" 8123 c1 _ λ v0.
      required_then env "REDIS_URL" c2 _ λ v1.
        number_then env max_u64 "PUBSUB_RECONNECT_DELAY_MS" 2_000 c3 _ λ v2.
          number_then env max_u64 "FLUSH_BATCH_SIZE" 5_000 c4 _ λ v3.
            number_then env max_u64 "FLUSH_INTERVAL_MS" 500 c5 _ λ v4.
              number_then env max_u64 "TTL_MINUTES" 0 c6 _
                λ v5. number_then env max_u64 "QUEUE_SIZE" 1_000_000 [] _ λ v6. refl

-- A configuration, of the library, the publisher or the writer, is there exactly if none of its checks is
-- violated, and else its error is that of the first that is.
pub from_env-first_violation :
    (env : Env)
    → (error_of (from_env env) ≡ first_violation env checks)
      × (error_of (Publisher.from_env env) ≡ first_violation env publisher_checks)
      × (error_of (Writer.from_env env) ≡ first_violation env writer_checks)
from_env-first_violation env = (from_env-checks env, publisher-checks env, writer-checks env)
