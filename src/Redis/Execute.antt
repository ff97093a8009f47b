-- ===== src/Redis/Execute.antt =====
-- `RedisGatekeeperService.execute`.
pub mod Bounds
pub mod Returns
use mathlib.Core.Option
use mathlib.Core.List.{zip}
use sql_gatekeeper.Prelude.{
  ℕ, suc, ◌+◌, String, ◌<>◌, Bool, true, false, ◌&&◌, Option, none, some, List, [], ◌∷◌, map,
  length, ltb, ◌==◌, Result, ok, raise, index_error, value_error, ◌>>=◌, starts_with, if◌then◌else◌,
}
use sql_gatekeeper.Prelude.Text.{is_empty, after_char}
use sql_gatekeeper.Prelude.Text.Number.{ℤ, pos, show, parse_int}
use sql_gatekeeper.Prelude.Sorting.{sorted_by}
use sql_gatekeeper.Prelude.Dict.{Dict}
use sql_gatekeeper.Meta.{Value, text, number, DatasourceInstance, MetaDb}
use sql_gatekeeper.Precheck.{one_of}
use sql_gatekeeper.Repositories.{Orm}
use sql_gatekeeper.Redis.Types.{Settings, RedisDecision, RedisExecuteResult}
use sql_gatekeeper.Redis.Routing.{datasource}

-- The arguments of `redis.Redis` that vary.
pub record Connection : Type 0 where
  pub host : String
  pub port : ℤ
  pub db : ℤ
  pub password : Option String

-- A connected client: the commands that the service sends.
pub record RedisClient : Type 0 where
  pub get : String → Result Value
  pub exists : List String → Result Value
  pub ttl : String → Result Value
  pub pttl : String → Result Value
  pub type_of : String → Result Value
  pub llen : String → Result Value
  pub scard : String → Result ℕ
  pub zcard : String → Result Value
  pub hget : String → String → Result Value
  pub hlen : String → Result ℕ
  pub mget : List String → Result (List Value)
  pub hmget : String → List String → Result (List Value)
  pub hgetall : String → Result (Dict Value)
  pub lrange : String → ℤ → ℤ → Result (List Value)
  pub zrange : String → ℤ → ℤ → Result (List Value)
  pub smembers : String → Result (List String)

-- `_redis_db`
unfoldable pub redis_db : DatasourceInstance → ℤ
redis_db d = elim (parse_int d.database_name) [ some i ↦ i | none ↦ pos 0 ]

-- `_resolve_password`
unfoldable pub resolve_password : String → Option String
resolve_password secret_ref =
    let rest = after_char b':' secret_ref in
    if is_empty secret_ref
    then none
    else if starts_with secret_ref "local:"
    then (if is_empty rest then none else some rest)
    else some secret_ref

-- The arguments of `_client`.
unfoldable pub connection : DatasourceInstance → Connection
connection d = record {
  host = d.host;
  port = d.port;
  db = redis_db d;
  password = resolve_password d.password_secret_ref;
}

-- What a command answers: one value, a list of values, or a dict.
pub data Reply : Type 0 where
  single : Value → Reply
  values : List Value → Reply
  fields : Dict Value → Reply

abbrev first_arg : List String → Result String
first_arg [] = raise index_error
first_arg (a ∷ args) = ok a

abbrev second_arg : List String → Result String
second_arg (a ∷ b ∷ args) = ok b
second_arg _ = raise index_error

abbrev third_arg : List String → Result String
third_arg (a ∷ b ∷ c ∷ args) = ok c
third_arg _ = raise index_error

abbrev tail : List String → List String
tail [] = []
tail (a ∷ args) = args

abbrev pub int_of : Option ℤ → Result ℤ
int_of none = raise value_error
int_of (some i) = ok i

-- `int(s)`
abbrev to_int : String → Result ℤ
to_int s = int_of (parse_int s)

abbrev one_value : Result Value → Result Reply
one_value r = r >>= λ v. ok (single v)

abbrev value_list : Result (List Value) → Result Reply
value_list r = r >>= λ vs. ok (values vs)

-- `_run_command`
unfoldable pub run_command : RedisClient → String → List String → Result Reply
run_command client command args =
    let on_key = λ (f : String → Result Value). one_value (first_arg args >>= f) in
    let on_range = λ (f : String → ℤ → ℤ → Result (List Value)). (do
      key ← first_arg args
      start ← second_arg args
      start' ← to_int start
      stop ← third_arg args
      stop' ← to_int stop
      value_list (f key start' stop')) in
    if command == "GET"
    then on_key client.get
    else if command == "MGET"
    then value_list (client.mget args)
    else if command == "HGET"
    then on_key (λ key. second_arg args >>= client.hget key)
    else if command == "HMGET"
    then (do key ← first_arg args; value_list (client.hmget key (tail args)))
    else if command == "HGETALL"
    then (do key ← first_arg args; found ← client.hgetall key; ok (fields found))
    else if command == "EXISTS"
    then one_value (client.exists args)
    else if command == "TTL"
    then on_key client.ttl
    else if command == "PTTL"
    then on_key client.pttl
    else if command == "TYPE"
    then on_key client.type_of
    else if command == "LLEN"
    then on_key client.llen
    else if command == "SCARD"
    then on_key (λ key. client.scard key >>= λ n. ok (number n))
    else if command == "ZCARD"
    then on_key client.zcard
    else if command == "LRANGE"
    then on_range client.lrange
    else if command == "ZRANGE"
    then on_range client.zrange
    else if command == "SMEMBERS"
    then (do
      key ← first_arg args
      members ← client.smembers key
      ok (values (map text (sorted_by (λ s. s) members))))
    else raise value_error

abbrev row : String → Value → Value → Dict Value
row label name value = (label, name) ∷ ("value", value) ∷ []

abbrev pair_rows : String → List String → List Value → List (Dict Value)
pair_rows label (name ∷ names) (v ∷ vs) = row label (text name) v ∷ pair_rows label names vs
pair_rows label _ _ = []

abbrev index_rows : ℕ → List Value → List (Dict Value)
index_rows i [] = []
index_rows i (v ∷ vs) = row "index" (number i) v ∷ index_rows (i + 1) vs

abbrev first_or_blank : List String → String
first_or_blank [] = ""
first_or_blank (a ∷ args) = a

-- `_format_rows`, on the answer that the command gives.
unfoldable pub format_rows : String → List String → Reply → List (Dict Value)
format_rows command args (values vs) =
    if command == "MGET"
    then pair_rows "key" args vs
    else if command == "HMGET"
    then pair_rows "field" (tail args) vs
    else index_rows 0 vs
format_rows command args (fields d) =
    map (λ (p : String × Value). row "field" (text p.0) p.1) (sorted_by (λ p. p.0) d)
format_rows command args (single v) = row "key" (text (first_or_blank args)) v ∷ []

abbrev pub refuse : String → String → ℕ → RedisExecuteResult
refuse code message ms = record {
  allowed = false;
  reason_code = code;
  message = message;
  rows = [];
  row_count = 0;
  execution_ms = ms;
}

-- The code and the message of a refusal, where `n` passes the limit.
abbrev pub over : ℕ → ℕ → String → Option (String × String)
over limit n message =
    let refusal : Option (String × String) = some ("REDIS_RESULT_LIMIT_EXCEEDED", message) in
    if ltb limit n then refusal else none

module _ (orm : Orm) (settings : Settings) (session : Option MetaDb)
    (server : Connection → RedisClient) (execution_ms : ℕ) where
  -- `_preflight_result_size`: the code and the message of a refusal.
  unfoldable pub preflight_result_size :
      RedisClient → RedisDecision → Result (Option (String × String))
  preflight_result_size client decision =
      let max_items = settings.redis_max_result_items in
      first_arg decision.args >>= λ key.
      if decision.command == "HGETALL"
      then (client.hlen key >>= λ n.
          ok (over max_items n ("HGETALL result exceeds max " <> show max_items <> " fields")))
      else if decision.command == "SMEMBERS"
      then (client.scard key >>= λ n.
          ok (over max_items n ("SMEMBERS result exceeds max " <> show max_items <> " members")))
      else ok none

  unfoldable pub limit_rows : List (Dict Value) → RedisExecuteResult
  limit_rows rows =
      if ltb settings.redis_max_result_items (length rows)
      then refuse "REDIS_RESULT_LIMIT_EXCEEDED"
          ("Redis result returned "
            <> show (length rows)
            <> " items, exceeding max "
            <> show settings.redis_max_result_items)
          execution_ms
      else record {
        allowed = true;
        reason_code = "EXECUTED";
        message = "Redis command executed successfully";
        rows = rows;
        row_count = length rows;
        execution_ms = execution_ms;
      }

  unfoldable pub run_checked :
      RedisClient → RedisDecision → Option (String × String) → Result RedisExecuteResult
  run_checked client decision (some (code, message)) = ok (refuse code message execution_ms)
  run_checked client decision none = do
    reply ← run_command client decision.command decision.args
    ok (limit_rows (format_rows decision.command decision.args reply))

  unfoldable pub execute_on : RedisDecision → Option DatasourceInstance → Result RedisExecuteResult
  execute_on decision none = ok (
      refuse "REDIS_DATASOURCE_NOT_FOUND"
        ("Redis datasource '" <> decision.datasource_code <> "' was not found") execution_ms)
  execute_on decision (some d) = do
    preflight ← preflight_result_size (server (connection d)) decision
    run_checked (server (connection d)) decision preflight

  unfoldable pub execute : RedisDecision → Result RedisExecuteResult
  execute decision =
      if decision.allowed
      then datasource orm settings session decision.datasource_code >>= execute_on decision
      else ok (refuse decision.reason_code decision.message 0)
