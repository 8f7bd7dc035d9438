-- ===== src/Config/Agreement.antt =====
-- What the configurations of the services have in common in one environment, and the ClickHouse address.
use polymarket_orderbook_col.Base.{
  codes, ok-eq, ℕ, ◌≤◌, String, ◌≡◌, refl, sym, ap, subst, ◌∙◌, some, true, List, [], ◌∷◌, ◌++◌,
  arith, Result, ok, err, ◌>>=◌, Option-cases, inl, inr,
}
use polymarket_orderbook_col.Base.Numbers.{
  parse_unsigned, digits_of, parse_unsigned-le, parse_unsigned-digits_of,
}
use polymarket_orderbook_col.Config.{
  Env, Config, ConfigError, max_u16, max_u64, require_env, env_or, env_parse, env_bool_default,
  http_url, from_env,
}
use polymarket_orderbook_col.Config.Publisher
use polymarket_orderbook_col.Config.Writer

-- What holds of every result of a step's continuation holds of the result.
then_ok {ℓ κ ι} :
    {A : Type ℓ} {B : Type κ} {P : Type ι} (m : Result ConfigError A) (f : A → Result ConfigError B)
    (b : B)
    → (m >>= f) ≡ ok b
    → ((a : A) → m ≡ ok a → f a ≡ ok b → P)
    → P
then_ok (ok a) f b h k = k a refl h
then_ok (err e) f b h k = absurd cc

-- Where a service publishes or subscribes.
record Place (env : Env) (url channel : String) : Type 0 where
  url_of : require_env env "REDIS_URL" ≡ ok url
  channel_of : channel ≡ env_or env "REDIS_PUBSUB_CHANNEL" "polymarket:events"

publisher-Place :
    (env : Env) (c : Publisher.Config)
    → Publisher.from_env env ≡ ok c
    → Place env c.redis_url c.redis_pubsub_channel
unfolding Publisher.from_env
publisher-Place env c h = then_ok (require_env env "REDIS_URL") _ c h λ v0 e0 h0.
    then_ok (env_parse env max_u64 "MAX_BATCH" 200) _ c h0 λ v1 e1 h1.
      then_ok (env_parse env max_u64 "LINGER_MS" 2) _ c h1 λ v2 e2 h2.
        then_ok (env_parse env max_u64 "QUEUE_SIZE" 5_000_000) _ c h2 λ v3 e3 h3.
          then_ok (env_parse env max_u64 "MAX_ASSETS_PER_CONN" 200) _ c h3 λ v4 e4 h4.
            then_ok (env_parse env max_u64 "DEDUP_TTL_SECONDS" 10) _ c h4 λ v5 e5 h5.
              let same = ok-eq _ c h5 in
              record {
                url_of = e0 ∙ ap (λ (k : Publisher.Config). ok k.redis_url) same;
                channel_of = sym (ap (λ (k : Publisher.Config). k.redis_pubsub_channel) same);
              }

-- The address of a ClickHouse server whose host and port are read from the environment.
pub record Address (env : Env) (url : List ℕ) : Type 0 where
  pub port : ℕ
  pub port_of : env_parse env max_u16 "CLICKHOUSE_PORT" 8123 ≡ ok port
  pub in_range : port ≤ max_u16
  pub text :
      url
      ≡ codes "http://"
        ++ codes (env_or env "CLICKHOUSE_HOST" "localhost")
        ++ b':' ∷ digits_of 5 port []
  pub readable : parse_unsigned max_u16 (digits_of 5 port []) ≡ some port

env_parse-le :
    (env : Env) (greatest : ℕ) (name : String) (default n : ℕ)
    → env_parse env greatest name default ≡ ok n
    → default ≤ greatest
    → n ≤ greatest
unfolding env_parse
env_parse-le env greatest name default n h g = elim (Option-cases (env name)) [
  | inl unset ↦ let same = ok-eq default n (rw (unset, env_parse) at h) in omega (arith, same, g)
  | inr (raw, set) ↦ elim (Option-cases (parse_unsigned greatest (codes raw))) [
    | inl bad ↦ cc (rw bad at (rw (set, env_parse) at h))
    | inr (k, good) ↦
        let same = ok-eq k n (rw good at (rw (set, env_parse) at h)) in
        omega (arith, same, parse_unsigned-le greatest (codes raw) k good)
  ]
]

http_url-Address :
    (env : Env) (port : ℕ)
    → env_parse env max_u16 "CLICKHOUSE_PORT" 8123 ≡ ok port
    → Address env (http_url (env_or env "CLICKHOUSE_HOST" "localhost") port)
unfolding http_url
http_url-Address env p h =
    let le = env_parse-le env max_u16 "CLICKHOUSE_PORT" 8123 p h (omega arith) in
    record {
      port = p;
      port_of = h;
      in_range = le;
      text = refl;
      readable = parse_unsigned-digits_of 4 p max_u16 (omega (arith, le)) le;
    }

record Writes (env : Env) (c : Writer.Config) : Type 0 where
  place : Place env c.redis_url c.redis_pubsub_channel
  address : Address env c.clickhouse_url
  hash : c.exclude_hash ≡ env_bool_default env "EXCLUDE_HASH" true

writer-Writes : (env : Env) (c : Writer.Config) → Writer.from_env env ≡ ok c → Writes env c
unfolding Writer.from_env
writer-Writes env c h = then_ok (env_parse env max_u16 "CLICKHOUSE_PORT" 8123) _ c h λ v0 e0 h0.
    then_ok (require_env env "REDIS_URL") _ c h0 λ v1 e1 h1.
      then_ok (env_parse env max_u64 "PUBSUB_RECONNECT_DELAY_MS" 2_000) _ c h1 λ v2 e2 h2.
        then_ok (env_parse env max_u64 "FLUSH_BATCH_SIZE" 5_000) _ c h2 λ v3 e3 h3.
          then_ok (env_parse env max_u64 "FLUSH_INTERVAL_MS" 500) _ c h3 λ v4 e4 h4.
            then_ok (env_parse env max_u64 "TTL_MINUTES" 0) _ c h4 λ v5 e5 h5.
              then_ok (env_parse env max_u64 "QUEUE_SIZE" 1_000_000) _ c h5 λ v6 e6 h6.
                let same = ok-eq _ c h6 in
                record {
                  place = record {
                    url_of = e1 ∙ ap (λ (k : Writer.Config). ok k.redis_url) same;
                    channel_of = sym (ap (λ (k : Writer.Config). k.redis_pubsub_channel) same);
                  };
                  address =
                      subst (Address env) (ap (λ (k : Writer.Config). k.clickhouse_url) same)
                        (http_url-Address env v0 e0);
                  hash = sym (ap (λ (k : Writer.Config). k.exclude_hash) same);
                }

-- In one environment the publisher and the writer use the same Redis server and the same channel.
pub same_channel :
    (env : Env) (c : Publisher.Config) (d : Writer.Config)
    → Publisher.from_env env ≡ ok c
    → Writer.from_env env ≡ ok d
    → (c.redis_url ≡ d.redis_url) × (c.redis_pubsub_channel ≡ d.redis_pubsub_channel)
same_channel env c d h g =
    let p = publisher-Place env c h in
    let w = (writer-Writes env d g).place in
    (ok-eq c.redis_url d.redis_url (sym p.url_of ∙ w.url_of), p.channel_of ∙ sym w.channel_of)

-- The writer's ClickHouse address is that of the host, and of a port of at most 65535 in decimal digits
-- from which the port can be read back.
pub writer-Address :
    (env : Env) (d : Writer.Config) → Writer.from_env env ≡ ok d → Address env d.clickhouse_url
writer-Address env d g = (writer-Writes env d g).address

-- So is that of the library's configuration.
pub from_env-Address : (env : Env) (c : Config) → from_env env ≡ ok c → Address env c.clickhouse_url
unfolding from_env
from_env-Address env c h = then_ok (env_parse env max_u16 "CLICKHOUSE_PORT" 8123) _ c h λ v0 e0 h0.
    then_ok (require_env env "REDIS_URL") _ c h0 λ v1 e1 h1.
      then_ok (env_parse env max_u64 "QUEUE_SIZE" 5_000_000) _ c h1 λ v2 e2 h2.
        then_ok (env_parse env max_u64 "MAX_ASSETS_PER_CONN" 200) _ c h2 λ v3 e3 h3.
          then_ok (env_parse env max_u64 "DEDUP_TTL_SECONDS" 10) _ c h3 λ v4 e4 h4.
            then_ok (env_parse env max_u64 "TTL_MINUTES" 0) _ c h4 λ v5 e5 h5.
              let same = ok-eq _ c h5 in
              subst (Address env) (ap (λ (k : Config). k.clickhouse_url) same)
                (http_url-Address env v0 e0)

pub writer-exclude_hash :
    (env : Env) (d : Writer.Config)
    → Writer.from_env env ≡ ok d
    → d.exclude_hash ≡ env_bool_default env "EXCLUDE_HASH" true
writer-exclude_hash env d g = (writer-Writes env d g).hash
