-- ===== src/Tests/Redis.antt =====
-- The Redis gatekeeper on two commands: a read of one key and a range of a list.
use sql_gatekeeper.Prelude.{
  String, ◌≡◌, refl, ◌↔◌, ◌⊎◌, true, none, some, List, [], ◌∷◌, All, ok, raise,
}
use sql_gatekeeper.Prelude.Text.{upper, strip}
use sql_gatekeeper.Prelude.Text.Number.{pos}
use sql_gatekeeper.Prelude.Dict.{Dict}
use sql_gatekeeper.Meta.{Value, DatasourceInstance}
use sql_gatekeeper.Redis.Types.{Settings, RedisDecision, RedisExecuteResult, reject}
use sql_gatekeeper.Redis.Arguments.Ranges.{IsRange, validate_args-IsRange}
use sql_gatekeeper.Redis.Keys.{key_args, validate_keys}
use sql_gatekeeper.Redis.Routing.{route_by_catalog}
use sql_gatekeeper.Redis.Routing.Unique.{Matches, route_by_catalog-Matches}
use sql_gatekeeper.Redis.Check.{check}
use sql_gatekeeper.Redis.Keys.Scope.{IsReadable, validate_keys-none_iff}
use sql_gatekeeper.Redis.Check.Sound.{IsPermitted, check-IsPermitted}
use sql_gatekeeper.Redis.Execute.{Connection, RedisClient, connection, execute}
use sql_gatekeeper.Redis.Execute
use sql_gatekeeper.Redis.Execute.Bounds.{IsEmpty, IsExecuted, redis_execute-cases}
use sql_gatekeeper.Tests.World.{orm, meta, redis_datasource}
use sql_gatekeeper.Tests.Runs.{redis_runs}

abbrev pub settings : Settings
settings = record {
  redis_host = "localhost";
  redis_port = pos 6379;
  redis_db = 0;
  redis_password = "";
  redis_datasource_code = "redis_default";
  redis_allowed_key_prefixes = "";
  redis_max_keys_per_request = 20;
  redis_max_result_items = 10;
  redis_max_key_length = 64;
}

abbrev names : List Value
names = Value.text "Ann" ∷ Value.text "Bob" ∷ []

-- A server that answers each command in one way.
abbrev pub server : Connection → RedisClient
server connection = record {
  get = λ key. ok (Value.text "Ann");
  exists = λ keys. ok (Value.other true "1");
  ttl = λ key. ok (Value.other true "60");
  pttl = λ key. ok (Value.other true "60000");
  type_of = λ key. ok (Value.text "string");
  llen = λ key. ok (Value.other true "2");
  scard = λ key. ok 2;
  zcard = λ key. ok (Value.other true "2");
  hget = λ key field. ok (Value.text "Ann");
  hlen = λ key. ok 1;
  mget = λ keys. ok names;
  hmget = λ key fields. ok names;
  hgetall = λ key. ok (("name", Value.text "Ann") ∷ []);
  lrange = λ key start stop. ok names;
  zrange = λ key start stop. ok names;
  smembers = λ key. ok ("Ann" ∷ "Bob" ∷ []);
}

abbrev pub range_args : List String
range_args = "user:names" ∷ "0" ∷ "1" ∷ []

abbrev pub cache : Dict Value
cache = ("catlog_name", Value.text "cache") ∷ []

abbrev decision : RedisDecision
decision = elim (check orm settings (some meta) " lrange " range_args cache) [
  | ok d ↦ d
  | raise e ↦ reject "" "" "" [] ""
]

check_returned : check orm settings (some meta) " lrange " range_args cache ≡ ok decision
unfolding redis_runs
check_returned = refl

check_allowed : decision.allowed ≡ true
unfolding redis_runs
check_allowed = refl

check-IsPermitted_example :
    IsPermitted orm settings (some meta) (upper (strip " lrange ")) range_args cache decision
check-IsPermitted_example =
    check-IsPermitted orm settings (some meta) " lrange " range_args cache check_returned
      check_allowed

validate_keys-none_iff_example :
    (validate_keys settings "LRANGE" range_args redis_datasource ≡ none)
    ↔ All (IsReadable settings redis_datasource) (key_args "LRANGE" range_args)
validate_keys-none_iff_example =
    validate_keys-none_iff settings "LRANGE" range_args redis_datasource

validate_args-IsRange_example : IsRange 10 range_args
unfolding redis_runs
validate_args-IsRange_example = validate_args-IsRange settings "LRANGE" range_args "" refl refl

routed_by_catalog :
    (route_by_catalog orm settings meta "Cache" "user:names").datasource ≡ some redis_datasource
unfolding redis_runs
routed_by_catalog = refl

route_by_catalog-Matches_example :
    Matches orm settings meta "Cache" "user:names" redis_datasource
    × ((x : DatasourceInstance)
        → Matches orm settings meta "Cache" "user:names" x
        → x ≡ redis_datasource)
route_by_catalog-Matches_example =
    route_by_catalog-Matches orm settings meta "Cache" "user:names" {d = redis_datasource}
      routed_by_catalog

abbrev executed : RedisExecuteResult
executed = elim (execute orm settings (some meta) server 3 decision) [
  | ok r ↦ r
  | raise e ↦ Execute.refuse "" "" 0
]

execute_returned : execute orm settings (some meta) server 3 decision ≡ ok executed
unfolding redis_runs
execute_returned = refl

executed_rows : executed.row_count ≡ 2
unfolding redis_runs
executed_rows = refl

redis_execute-cases_example :
    IsEmpty orm settings (some meta) server 3 executed
    ⊎ IsExecuted orm settings (some meta) server 3 decision executed
redis_execute-cases_example =
    redis_execute-cases orm settings (some meta) server 3 decision execute_returned

abbrev client : RedisClient
client = server (connection redis_datasource)
