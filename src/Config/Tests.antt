-- ===== src/Config/Tests.antt =====
-- Examples for the theorems on the configurations.
use polymarket_orderbook_col.Base.{codes, ◌≡◌, none, some, ◌=?◌, string_key, if◌then◌else◌}
use polymarket_orderbook_col.Base.Numbers.{parse_unsigned, parse_magnitude, parse_digits}
use polymarket_orderbook_col.Config.{Env, missing, invalid, from_env}
use polymarket_orderbook_col.Config.Samples.{
  only_redis, a_publisher, a_writer, publisher_default, writer_default,
}
use polymarket_orderbook_col.Config.Publisher
use polymarket_orderbook_col.Config.Writer
use polymarket_orderbook_col.Config.Checks.{error_of, from_env-first_violation}
use polymarket_orderbook_col.Config.Agreement.{Address, same_channel, writer-Address}

-- A port that is too large, and no Redis.
abbrev bad_port : Env
bad_port name = if name =? "CLICKHOUSE_PORT" then some "65536" else none

from_env-first_violation_example :
    (error_of (from_env bad_port) ≡ some (invalid "CLICKHOUSE_PORT"))
    × (error_of (Publisher.from_env bad_port) ≡ some (missing "REDIS_URL"))
    × (error_of (Writer.from_env bad_port) ≡ some (invalid "CLICKHOUSE_PORT"))
unfolding parse_unsigned parse_magnitude parse_digits
from_env-first_violation_example = from_env-first_violation bad_port

same_channel_example :
    (a_publisher.redis_url ≡ a_writer.redis_url)
    × (a_publisher.redis_pubsub_channel ≡ a_writer.redis_pubsub_channel)
same_channel_example = same_channel only_redis a_publisher a_writer publisher_default writer_default

writer-Address_example : Address only_redis (codes "http://localhost:8123")
writer-Address_example = writer-Address only_redis a_writer writer_default
