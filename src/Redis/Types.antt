-- ===== src/Redis/Types.antt =====
-- The command sets, the dataclasses and the settings of the Redis gatekeeper.
use sql_gatekeeper.Prelude.{ℕ, String, Bool, false, Option, List, [], ◌∷◌}
use sql_gatekeeper.Prelude.Text.Number.{ℤ}
use sql_gatekeeper.Prelude.Dict.{Dict}
use sql_gatekeeper.Meta.{Value, DatasourceInstance}

abbrev pub readonly_commands : List String
readonly_commands =
    "GET" ∷ "MGET" ∷ "HGET" ∷ "HMGET" ∷ "HGETALL" ∷ "EXISTS" ∷ "TTL" ∷ "PTTL" ∷ "TYPE" ∷ "LLEN"
    ∷ "SCARD" ∷ "ZCARD" ∷ "LRANGE" ∷ "ZRANGE" ∷ "SMEMBERS" ∷ []

-- `sorted(READONLY_COMMANDS)`
abbrev pub sorted_commands : List String
sorted_commands =
    "EXISTS" ∷ "GET" ∷ "HGET" ∷ "HGETALL" ∷ "HMGET" ∷ "LLEN" ∷ "LRANGE" ∷ "MGET" ∷ "PTTL" ∷ "SCARD"
    ∷ "SMEMBERS" ∷ "TTL" ∷ "TYPE" ∷ "ZCARD" ∷ "ZRANGE" ∷ []

abbrev pub denied_commands : List String
denied_commands =
    "SET" ∷ "MSET" ∷ "DEL" ∷ "UNLINK" ∷ "EXPIRE" ∷ "PEXPIRE" ∷ "PERSIST" ∷ "RENAME" ∷ "FLUSHDB"
    ∷ "FLUSHALL" ∷ "EVAL" ∷ "EVALSHA" ∷ "CONFIG" ∷ "KEYS" ∷ "SCAN" ∷ "HSET" ∷ "HMSET" ∷ "HDEL"
    ∷ "LPUSH" ∷ "RPUSH" ∷ "LPOP" ∷ "RPOP" ∷ "SADD" ∷ "SREM" ∷ "ZADD" ∷ "ZREM" ∷ []

-- The fields of `Settings` (config.py) that the service reads.
pub record Settings : Type 0 where
  pub redis_host : String
  pub redis_port : ℤ
  pub redis_db : ℕ
  pub redis_password : String
  pub redis_datasource_code : String
  pub redis_allowed_key_prefixes : String
  pub redis_max_keys_per_request : ℕ
  pub redis_max_result_items : ℕ
  pub redis_max_key_length : ℕ

pub record RedisDiagnostic : Type 0 where
  pub code : String
  pub host : String
  pub port : ℤ
  pub database : String
  pub allowed_commands : List String
  pub max_keys_per_request : ℕ
  pub max_result_items : ℕ
  pub allowed_key_prefixes : List String
  pub catlog_name : String

pub record RedisDecision : Type 0 where
  pub allowed : Bool
  pub reason_code : String
  pub message : String
  pub command : String
  pub args : List String
  pub datasource_code : String
  pub diagnostics : List RedisDiagnostic

pub record RedisExecuteResult : Type 0 where
  pub allowed : Bool
  pub reason_code : String
  pub message : String
  pub rows : List (Dict Value)
  pub row_count : ℕ
  pub execution_ms : ℕ

pub record RedisRouteResolution : Type 0 where
  pub datasource : Option DatasourceInstance
  pub reason_code : String
  pub message : String

-- `_reject`
abbrev pub reject : String → String → String → List String → String → RedisDecision
reject code message command args datasource_code = record {
  allowed = false;
  reason_code = code;
  message = message;
  command = command;
  args = args;
  datasource_code = datasource_code;
  diagnostics = [];
}
