-- ===== src/Redis/Arguments.antt =====
-- `_validate_args`: how many arguments a command takes, and the ranges of LRANGE and ZRANGE.
pub mod Counts
pub mod Ranges
use sql_gatekeeper.Prelude.{
  ℕ, suc, ◌+◌, ◌-◌, String, ◌<>◌, Bool, true, false, not, ◌&&◌, ◌||◌, Option, none, some, List, [],
  ◌∷◌, length, ltb, leb, eqb, if◌then◌else◌,
}
use sql_gatekeeper.Prelude.Text.Number.{ℤ, pos, negsuc, show, parse_int}
use sql_gatekeeper.Precheck.{one_of}
use sql_gatekeeper.Redis.Types.{Settings, RedisDecision, reject}

abbrev pub one_key_commands : List String
one_key_commands =
    "GET" ∷ "HGETALL" ∷ "TTL" ∷ "PTTL" ∷ "TYPE" ∷ "LLEN" ∷ "SCARD" ∷ "ZCARD" ∷ "SMEMBERS" ∷ []

abbrev pub many_key_commands : List String
many_key_commands = "MGET" ∷ "EXISTS" ∷ []

abbrev pub range_commands : List String
range_commands = "LRANGE" ∷ "ZRANGE" ∷ []

-- `(start, stop)` of a range with 0 ≤ start ≤ stop.
abbrev pub ordered : Option ℤ → Option ℤ → Option (ℕ × ℕ)
ordered (some (pos start)) (some (pos stop)) = if leb start stop then some (start, stop) else none
ordered _ _ = none

abbrev pub are_integers : Option ℤ → Option ℤ → Bool
are_integers (some i) (some j) = true
are_integers _ _ = false

module _ (settings : Settings) (command : String) (args : List String) (code : String) where
  abbrev count_invalid : String → Option RedisDecision
  count_invalid message = some (reject "REDIS_ARG_COUNT_INVALID" message command args code)

  unfoldable pub judge_range : Bool → Option (ℕ × ℕ) → Option RedisDecision
  judge_range integers none = some (
      reject "REDIS_RANGE_INVALID"
        (if integers
          then command <> " requires 0 <= start <= stop"
          else command <> " start and stop must be integers")
        command args code)
  judge_range integers (some (start, stop)) =
      if ltb settings.redis_max_result_items (stop - start + 1)
      then some (
          reject "REDIS_RANGE_LIMIT_EXCEEDED"
            (command <> " range exceeds max " <> show settings.redis_max_result_items <> " items")
            command args code)
      else none

  abbrev pub validate_range : List String → Option RedisDecision
  validate_range (key ∷ start ∷ stop ∷ []) =
      judge_range (are_integers (parse_int start) (parse_int stop))
        (ordered (parse_int start) (parse_int stop))
  validate_range _ = count_invalid (command <> " requires key, start, and stop")

  unfoldable pub validate_args : Option RedisDecision
  validate_args =
      if one_of one_key_commands command && not (eqb (length args) 1)
      then count_invalid (command <> " requires exactly 1 argument")
      else if one_of ("HGET" ∷ []) command && not (eqb (length args) 2)
      then count_invalid (command <> " requires exactly 2 arguments")
      else if one_of many_key_commands command
          && not (leb 1 (length args) && leb (length args) settings.redis_max_keys_per_request)
      then some (
          reject "REDIS_TOO_MANY_KEYS"
            (command <> " requires 1 to " <> show settings.redis_max_keys_per_request <> " keys")
            command args code)
      else if one_of ("HMGET" ∷ []) command && ltb (length args) 2
      then count_invalid "HMGET requires a key and at least one field"
      else if one_of range_commands command
      then validate_range args
      else none
