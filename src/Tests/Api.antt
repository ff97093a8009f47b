-- ===== src/Tests/Api.antt =====
-- The four endpoints on one request each.
use sql_gatekeeper.Prelude.{◌≡◌, refl, true, false, List, [], Result, ok, raise}
use sql_gatekeeper.Audit.{RequestAuditLog}
use sql_gatekeeper.Api.{
  SqlRequest, SqlDecisionResponse, RedisRequest, RedisDecisionResponse, check_sql, execute_sql,
  check_redis, execute_redis,
}
use sql_gatekeeper.Api.Audited.{
  IsAudited, IsRedisAudited, check_sql-IsAudited, execute_sql-IsAudited, check_redis-IsAudited,
  execute_redis-IsAudited,
}
use sql_gatekeeper.Api.Enforced.{
  IsEnforced, execute_sql-IsEnforced, IsRedisEnforced, execute_redis-IsEnforced,
}
use sql_gatekeeper.Tests.World.{orm, rules, mysql, meta}
use sql_gatekeeper.Tests.Redis.{settings, server, range_args, cache}
use sql_gatekeeper.Tests.Runs.{sql_runs, redis_runs}

abbrev request : SqlRequest
request = record {
  request_id = "r-1";
  operator = "ann";
  scene = "debug";
  sql = "select uid from user u where u.uid = '7' limit 10";
  route_context = [];
}

abbrev redis_request : RedisRequest
redis_request = record {
  request_id = "r-2";
  operator = "ann";
  scene = "debug";
  command = "lrange";
  args = range_args;
  redis_context = cache;
}

check_sql-IsAudited_example :
    IsAudited "ALLOW" [] request (check_sql orm rules mysql meta 5 request [])
check_sql-IsAudited_example = check_sql-IsAudited orm rules mysql meta 5 request []

execute_sql-IsAudited_example :
    IsAudited "EXECUTED" [] request (execute_sql orm rules mysql meta 5 request [])
execute_sql-IsAudited_example = execute_sql-IsAudited orm rules mysql meta 5 request []

check_redis-IsAudited_example :
    IsRedisAudited "ALLOW" [] redis_request
      (check_redis orm settings meta server 5 redis_request [])
check_redis-IsAudited_example = check_redis-IsAudited orm settings meta server 5 redis_request []

execute_redis-IsAudited_example :
    IsRedisAudited "EXECUTED" [] redis_request
      (execute_redis orm settings meta server 5 redis_request [])
execute_redis-IsAudited_example =
    execute_redis-IsAudited orm settings meta server 5 redis_request []

abbrev blank : SqlDecisionResponse
blank = record {
  request_id = "";
  allowed = false;
  reason_code = "";
  message = "";
  rewritten_sql = "";
  logical_tables = [];
  physical_tables = [];
  datasource_codes = [];
  explain_summaries = [];
  route_diagnostics = [];
  execution_ms = 0;
  row_count = 0;
  rows = [];
}

abbrev answered : Result SqlDecisionResponse × List RequestAuditLog
answered = execute_sql orm rules mysql meta 5 request []

abbrev response : SqlDecisionResponse
response = elim answered.0 [ ok r ↦ r | raise e ↦ blank ]

sql_answered : execute_sql orm rules mysql meta 5 request [] ≡ (ok response, answered.1)
unfolding sql_runs
sql_answered = refl

sql_allowed : response.allowed ≡ true
unfolding sql_runs
sql_allowed = refl

execute_sql-IsEnforced_example : IsEnforced orm rules mysql meta 5 request response
execute_sql-IsEnforced_example =
    execute_sql-IsEnforced orm rules mysql meta 5 request [] answered.1 sql_answered sql_allowed

abbrev redis_blank : RedisDecisionResponse
redis_blank = record {
  request_id = "";
  allowed = false;
  reason_code = "";
  message = "";
  command = "";
  args = [];
  datasource_code = "";
  diagnostics = [];
  execution_ms = 0;
  row_count = 0;
  rows = [];
}

abbrev redis_answered : Result RedisDecisionResponse × List RequestAuditLog
redis_answered = execute_redis orm settings meta server 5 redis_request []

abbrev redis_response : RedisDecisionResponse
redis_response = elim redis_answered.0 [ ok r ↦ r | raise e ↦ redis_blank ]

redis_answered_ok :
    execute_redis orm settings meta server 5 redis_request []
    ≡ (ok redis_response, redis_answered.1)
unfolding redis_runs
redis_answered_ok = refl

redis_allowed : redis_response.allowed ≡ true
unfolding redis_runs
redis_allowed = refl

execute_redis-IsEnforced_example :
    IsRedisEnforced orm settings meta server 5 redis_request redis_response
execute_redis-IsEnforced_example =
    execute_redis-IsEnforced orm settings meta server 5 redis_request [] redis_answered.1
      redis_answered_ok redis_allowed
