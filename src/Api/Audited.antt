-- ===== src/Api/Audited.antt =====
-- Each answered request leaves exactly one audit row, which says what was answered; a request that
-- ends with an exception leaves none.
use sql_gatekeeper.Prelude.{
  ℕ, String, ◌<>◌, ◌≡◌, refl, inl, inr, some, List, [], ◌∷◌, ◌++◌, Result, ok, raise, ◌>>=◌,
  Result-cases, Bool-cases,
}
use sql_gatekeeper.Prelude.Text.{join}
use sql_gatekeeper.Meta.{MetaDb}
use sql_gatekeeper.Repositories.{Orm}
use sql_gatekeeper.Routing.Resolve.{RuleEngine}
use sql_gatekeeper.Runtime.{Mysql}
use sql_gatekeeper.Checker.{CheckResult, check}
use sql_gatekeeper.Executor.{execute}
use sql_gatekeeper.Redis.Types.{Settings, RedisDecision}
use sql_gatekeeper.Redis.Check.{check as redis_check}
use sql_gatekeeper.Redis.Execute.{Connection, RedisClient, execute as redis_execute}
use sql_gatekeeper.Audit.{
  RequestAuditLog, plans, redis_diagnostics, verdict, add, log_check, log_execute, log_redis_check,
  log_redis_execute,
}
use sql_gatekeeper.Api.{
  SqlRequest, SqlDecisionResponse, RedisRequest, RedisDecisionResponse, check_sql, answer_execute,
  commit, execute_sql, check_redis, answer_redis_execute, execute_redis,
}

-- Each column of the row is that of the request or of the response to it, whose id is the request's. An
-- allowed decision is recorded by `word`.
abbrev pub Records : String → RequestAuditLog → SqlRequest → SqlDecisionResponse → Type 0
Records word row r d =
    (row ≡ record {
      request_id = r.request_id;
      operator = r.operator;
      scene = r.scene;
      original_sql = r.sql;
      rewritten_sql = d.rewritten_sql;
      logical_tables = d.logical_tables;
      physical_tables = d.physical_tables;
      datasource_codes = d.datasource_codes;
      decision = verdict word d.allowed;
      reason_code = d.reason_code;
      reason_detail = d.message;
      execution_ms = d.execution_ms;
      explain_summary = plans d.explain_summaries;
    })
    × (d.request_id ≡ r.request_id)

abbrev pub RedisRecords : String → RequestAuditLog → RedisRequest → RedisDecisionResponse → Type 0
RedisRecords word row r d =
    (row ≡ record {
      request_id = r.request_id;
      operator = r.operator;
      scene = r.scene;
      original_sql = "redis:" <> (r.command <> (" " <> join " " r.args));
      rewritten_sql = "";
      logical_tables = [];
      physical_tables = [];
      datasource_codes = d.datasource_code ∷ [];
      decision = verdict word d.allowed;
      reason_code = d.reason_code;
      reason_detail = d.message;
      execution_ms = d.execution_ms;
      explain_summary = redis_diagnostics d.diagnostics;
    })
    × (d.request_id ≡ r.request_id)

-- The answer to a SQL request, and the audit log behind it.
abbrev pub IsAudited :
    String
    → List RequestAuditLog
    → SqlRequest
    → Result SqlDecisionResponse × List RequestAuditLog
    → Type 0
IsAudited word log r (raise e, log') = log' ≡ log
IsAudited word log r (ok d, log') =
    (row : RequestAuditLog) × (log' ≡ log ++ row ∷ []) × Records word row r d

-- The answer to a Redis request, and the audit log behind it.
abbrev pub IsRedisAudited :
    String
    → List RequestAuditLog
    → RedisRequest
    → Result RedisDecisionResponse × List RequestAuditLog
    → Type 0
IsRedisAudited word log r (raise e, log') = log' ≡ log
IsRedisAudited word log r (ok d, log') =
    (row : RequestAuditLog) × (log' ≡ log ++ row ∷ []) × RedisRecords word row r d

module _ (orm : Orm) (rules : RuleEngine) (mysql : Mysql) (db : MetaDb) (execution_ms : ℕ) where
  -- An answered check leaves exactly one audit row, each column of which is that of the request or of
  -- the response: request id, operator, scene, statements, tables, datasources, decision, reason, time
  -- and plans. An exception leaves the log as it was.
  pub check_sql-IsAudited :
      (r : SqlRequest) (log : List RequestAuditLog)
      → IsAudited "ALLOW" log r (check_sql orm rules mysql db execution_ms r log)
  unfolding check_sql log_check add
  check_sql-IsAudited r log = elim (Result-cases (check orm rules mysql db r.sql r.route_context)) [
    | inl (d, answered) ↦ rw (answered, ◌>>=◌) (_, refl, (refl, refl))
    | inr (e, raised) ↦ rw (raised, ◌>>=◌) refl
  ]

  answer_execute-IsAudited :
      (r : SqlRequest) (log : List RequestAuditLog) (d : CheckResult)
      → IsAudited "EXECUTED" log r (commit log (answer_execute orm rules mysql db execution_ms r d))
  unfolding answer_execute log_check log_execute add
  answer_execute-IsAudited r log d = elim (Bool-cases d.allowed) [
    | inr off ↦ rw off (_, refl, (refl, refl))
    | inl on ↦ elim (Result-cases (execute orm mysql db execution_ms d)) [
      | inl (x, ran) ↦ rw (ran, on) (_, refl, (refl, refl))
      | inr (e, raised) ↦ rw (raised, on) refl
    ]
  ]

  -- An answered execution leaves exactly one audit row, each column of which is that of the request or
  -- of the response, as for a check, whether the statement was refused by the check, refused by the
  -- execution or executed. An exception leaves the log as it was.
  pub execute_sql-IsAudited :
      (r : SqlRequest) (log : List RequestAuditLog)
      → IsAudited "EXECUTED" log r (execute_sql orm rules mysql db execution_ms r log)
  unfolding execute_sql
  execute_sql-IsAudited r log =
      elim (Result-cases (check orm rules mysql db r.sql r.route_context)) [
        | inl (d, answered) ↦ rw (answered, ◌>>=◌) (answer_execute-IsAudited r log d)
        | inr (e, raised) ↦ rw (raised, ◌>>=◌) refl
      ]

module _ (orm : Orm) (settings : Settings) (db : MetaDb) (server : Connection → RedisClient)
    (execution_ms : ℕ) where
  -- An answered Redis check leaves exactly one audit row, each column of which is that of the request
  -- or of the response: request id, operator, scene, command, datasource, decision, reason, time and
  -- diagnostics. An exception leaves the log as it was.
  pub check_redis-IsAudited :
      (r : RedisRequest) (log : List RequestAuditLog)
      → IsRedisAudited "ALLOW" log r (check_redis orm settings db server execution_ms r log)
  unfolding check_redis log_redis_check add
  check_redis-IsAudited r log =
      elim (Result-cases (redis_check orm settings (some db) r.command r.args r.redis_context)) [
        | inl (d, answered) ↦ rw (answered, ◌>>=◌) (_, refl, (refl, refl))
        | inr (e, raised) ↦ rw (raised, ◌>>=◌) refl
      ]

  answer_redis_execute-IsAudited :
      (r : RedisRequest) (log : List RequestAuditLog) (d : RedisDecision)
      → IsRedisAudited "EXECUTED" log r
          (commit log (answer_redis_execute orm settings db server execution_ms r d))
  unfolding answer_redis_execute log_redis_check log_redis_execute add
  answer_redis_execute-IsAudited r log d = elim (Bool-cases d.allowed) [
    | inr off ↦ rw off (_, refl, (refl, refl))
    | inl on ↦ elim (Result-cases (redis_execute orm settings (some db) server execution_ms d)) [
      | inl (x, ran) ↦ rw (ran, on) (_, refl, (refl, refl))
      | inr (e, raised) ↦ rw (raised, on) refl
    ]
  ]

  -- An answered Redis execution leaves exactly one audit row, each column of which is that of the request
  -- or of the response, as for a check, whether the command was refused by the check, refused by the
  -- execution or executed. An exception leaves the log as it was.
  pub execute_redis-IsAudited :
      (r : RedisRequest) (log : List RequestAuditLog)
      → IsRedisAudited "EXECUTED" log r (execute_redis orm settings db server execution_ms r log)
  unfolding execute_redis
  execute_redis-IsAudited r log =
      elim (Result-cases (redis_check orm settings (some db) r.command r.args r.redis_context)) [
        | inl (d, answered) ↦ rw (answered, ◌>>=◌) (answer_redis_execute-IsAudited r log d)
        | inr (e, raised) ↦ rw (raised, ◌>>=◌) refl
      ]
