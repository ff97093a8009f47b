-- ===== src/Api.antt =====
-- api/routes.py: the four endpoints. A session's audit rows are written when it commits; an
-- exception leaves the session before that. FastAPI's validation of the requests is left out.
pub mod Audited
pub mod Enforced
use sql_gatekeeper.Prelude.{
  ℕ, String, ◌<>◌, Bool, true, false, Option, some, List, [], ◌∷◌, ◌++◌, Result, ok, raise, ◌>>=◌,
  if◌then◌else◌,
}
use sql_gatekeeper.Prelude.Text.{join}
use sql_gatekeeper.Prelude.Dict.{Dict}
use sql_gatekeeper.Meta.{Value, MetaDb}
use sql_gatekeeper.Repositories.{Orm}
use sql_gatekeeper.Routing.Decision.{RouteDiagnostic}
use sql_gatekeeper.Routing.Resolve.{RuleEngine}
use sql_gatekeeper.Runtime.{Mysql}
use sql_gatekeeper.Explain.{ExplainPlanSummary}
use sql_gatekeeper.Checker.{CheckResult, check}
use sql_gatekeeper.Executor.{ExecuteResult, execute}
use sql_gatekeeper.Redis.Types.{Settings, RedisDiagnostic, RedisDecision, RedisExecuteResult}
use sql_gatekeeper.Redis.Check.{check as redis_check}
use sql_gatekeeper.Redis.Execute.{Connection, RedisClient, execute as redis_execute}
use sql_gatekeeper.Audit.{
  AuditRequest, RequestAuditLog, log_check, log_execute, log_redis_check, log_redis_execute,
}

-- api/schemas.py
pub record SqlRequest : Type 0 where
  pub request_id : String
  pub operator : String
  pub scene : String
  pub sql : String
  pub route_context : Dict Value

pub record SqlDecisionResponse : Type 0 where
  pub request_id : String
  pub allowed : Bool
  pub reason_code : String
  pub message : String
  pub rewritten_sql : String
  pub logical_tables : List String
  pub physical_tables : List String
  pub datasource_codes : List String
  pub explain_summaries : List ExplainPlanSummary
  pub route_diagnostics : List RouteDiagnostic
  pub execution_ms : ℕ
  pub row_count : ℕ
  pub rows : List (Dict Value)

pub record RedisRequest : Type 0 where
  pub request_id : String
  pub operator : String
  pub scene : String
  pub command : String
  pub args : List String
  pub redis_context : Dict Value

pub record RedisDecisionResponse : Type 0 where
  pub request_id : String
  pub allowed : Bool
  pub reason_code : String
  pub message : String
  pub command : String
  pub args : List String
  pub datasource_code : String
  pub diagnostics : List RedisDiagnostic
  pub execution_ms : ℕ
  pub row_count : ℕ
  pub rows : List (Dict Value)

abbrev pub audit_request : SqlRequest → AuditRequest
audit_request r = record {
  request_id = r.request_id;
  operator = r.operator;
  scene = r.scene;
  sql = r.sql;
  route_context = r.route_context;
}

-- `_redis_audit_request`
abbrev pub redis_audit_request : RedisRequest → AuditRequest
redis_audit_request r = record {
  request_id = r.request_id;
  operator = r.operator;
  scene = r.scene;
  sql = "redis:" <> r.command <> " " <> join " " r.args;
  route_context = r.redis_context;
}

abbrev pub checked_response : SqlRequest → CheckResult → SqlDecisionResponse
checked_response r d = record {
  request_id = r.request_id;
  allowed = d.allowed;
  reason_code = d.reason_code;
  message = d.message;
  rewritten_sql = d.rewritten_sql;
  logical_tables = d.logical_tables;
  physical_tables = d.physical_tables;
  datasource_codes = d.datasource_codes;
  explain_summaries = d.explain_summaries;
  route_diagnostics = d.route_diagnostics;
  execution_ms = 0;
  row_count = 0;
  rows = [];
}

abbrev pub executed_response : SqlRequest → CheckResult → ExecuteResult → SqlDecisionResponse
executed_response r d x = record (checked_response r d) {
  allowed = x.allowed;
  reason_code = x.reason_code;
  message = x.message;
  execution_ms = x.execution_ms;
  row_count = x.row_count;
  rows = x.rows;
}

abbrev pub redis_response : RedisRequest → RedisDecision → RedisDecisionResponse
redis_response r d = record {
  request_id = r.request_id;
  allowed = d.allowed;
  reason_code = d.reason_code;
  message = d.message;
  command = d.command;
  args = d.args;
  datasource_code = d.datasource_code;
  diagnostics = d.diagnostics;
  execution_ms = 0;
  row_count = 0;
  rows = [];
}

abbrev pub redis_executed_response :
    RedisRequest → RedisDecision → RedisExecuteResult → RedisDecisionResponse
redis_executed_response r d x = record (redis_response r d) {
  allowed = x.allowed;
  reason_code = x.reason_code;
  message = x.message;
  execution_ms = x.execution_ms;
  row_count = x.row_count;
  rows = x.rows;
}

-- What a session's block gives: the response, and the rows that it has added to the session.
abbrev pub Block : Type 0 → Type 0
Block A = Result (A × List RequestAuditLog)

-- The block under `with session_factory() as session`, ended by `session.commit()`: the audit log
-- behind it, and the response or the exception.
abbrev pub commit : {A : Type 0} → List RequestAuditLog → Block A → Result A × List RequestAuditLog
commit log (ok (response, pending)) = (ok response, log ++ pending)
commit log (raise e) = (raise e, log)

module _ (orm : Orm) (rules : RuleEngine) (mysql : Mysql) (db : MetaDb) (execution_ms : ℕ) where
  abbrev pub answer_check : SqlRequest → CheckResult → Block SqlDecisionResponse
  answer_check r d = ok (checked_response r d, log_check (audit_request r) d [])

  unfoldable pub check_sql :
      SqlRequest → List RequestAuditLog → Result SqlDecisionResponse × List RequestAuditLog
  check_sql r log = commit log (check orm rules mysql db r.sql r.route_context >>= answer_check r)

  unfoldable pub answer_execute : SqlRequest → CheckResult → Block SqlDecisionResponse
  answer_execute r d =
      let executed : Block SqlDecisionResponse =
        (execute orm mysql db execution_ms d >>= λ x.
        ok (executed_response r d x, log_execute (audit_request r) d x [])) in
      if d.allowed then executed else answer_check r d

  unfoldable pub execute_sql :
      SqlRequest → List RequestAuditLog → Result SqlDecisionResponse × List RequestAuditLog
  execute_sql r log =
      commit log (check orm rules mysql db r.sql r.route_context >>= answer_execute r)

module _ (orm : Orm) (settings : Settings) (db : MetaDb) (server : Connection → RedisClient)
    (execution_ms : ℕ) where
  abbrev pub answer_redis_check : RedisRequest → RedisDecision → Block RedisDecisionResponse
  answer_redis_check r d = ok (redis_response r d, log_redis_check (redis_audit_request r) d [])

  unfoldable pub check_redis :
      RedisRequest → List RequestAuditLog → Result RedisDecisionResponse × List RequestAuditLog
  check_redis r log =
      commit log (
        redis_check orm settings (some db) r.command r.args r.redis_context
        >>= answer_redis_check r)

  unfoldable pub answer_redis_execute : RedisRequest → RedisDecision → Block RedisDecisionResponse
  answer_redis_execute r d =
      let executed : Block RedisDecisionResponse =
        (redis_execute orm settings (some db) server execution_ms d >>= λ x.
        ok (redis_executed_response r d x, log_redis_execute (redis_audit_request r) d x [])) in
      if d.allowed then executed else answer_redis_check r d

  unfoldable pub execute_redis :
      RedisRequest → List RequestAuditLog → Result RedisDecisionResponse × List RequestAuditLog
  execute_redis r log = commit log (
      redis_check orm settings (some db) r.command r.args r.redis_context
      >>= answer_redis_execute r)
