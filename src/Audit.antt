-- ===== src/Audit.antt =====
-- services/audit.py and repositories/audit_log.py: one row for each request.
use sql_gatekeeper.Prelude.{ℕ, String, Bool, List, [], ◌∷◌, ◌++◌, keep, if◌then◌else◌}
use sql_gatekeeper.Prelude.Dict.{Dict}
use sql_gatekeeper.Meta.{Value}
use sql_gatekeeper.Explain.{ExplainPlanSummary}
use sql_gatekeeper.Checker.{CheckResult}
use sql_gatekeeper.Executor.{ExecuteResult}
use sql_gatekeeper.Redis.Types.{RedisDiagnostic, RedisDecision, RedisExecuteResult}

pub record AuditRequest : Type 0 where
  pub request_id : String
  pub operator : String
  pub scene : String
  pub sql : String
  pub route_context : Dict Value

-- The dict in the column `explain_summary`.
pub data AuditDetail : Type 0 where
  plans : List ExplainPlanSummary → AuditDetail
  redis_diagnostics : List RedisDiagnostic → AuditDetail

-- A row without its id and time, which the database gives.
pub record RequestAuditLog : Type 0 where
  pub request_id : String
  pub operator : String
  pub scene : String
  pub original_sql : String
  pub rewritten_sql : String
  pub logical_tables : List String
  pub physical_tables : List String
  pub datasource_codes : List String
  pub decision : String
  pub reason_code : String
  pub reason_detail : String
  pub execution_ms : ℕ
  pub explain_summary : AuditDetail

-- `RequestAuditLogRepository.add`: the rows that the session will write.
unfoldable pub add : RequestAuditLog → List RequestAuditLog → List RequestAuditLog
add row pending = pending ++ row ∷ []

-- `list_by_request_id`, by the database's comparison of texts.
unfoldable pub list_by_request_id :
    (String → String → Bool) → String → List RequestAuditLog → List RequestAuditLog
list_by_request_id same request_id rows = keep (λ r. same r.request_id request_id) rows

abbrev pub verdict : String → Bool → String
verdict word allowed = if allowed then word else "REJECT"

abbrev pub check_row : AuditRequest → CheckResult → RequestAuditLog
check_row request checked = record {
  request_id = request.request_id;
  operator = request.operator;
  scene = request.scene;
  original_sql = request.sql;
  rewritten_sql = checked.rewritten_sql;
  logical_tables = checked.logical_tables;
  physical_tables = checked.physical_tables;
  datasource_codes = checked.datasource_codes;
  decision = verdict "ALLOW" checked.allowed;
  reason_code = checked.reason_code;
  reason_detail = checked.message;
  execution_ms = 0;
  explain_summary = plans checked.explain_summaries;
}

unfoldable pub log_check : AuditRequest → CheckResult → List RequestAuditLog → List RequestAuditLog
unfolding add
log_check request checked = add (check_row request checked)

unfoldable pub log_execute :
    AuditRequest → CheckResult → ExecuteResult → List RequestAuditLog → List RequestAuditLog
unfolding add
log_execute request checked executed = add (record (check_row request checked) {
  decision = verdict "EXECUTED" executed.allowed;
  reason_code = executed.reason_code;
  reason_detail = executed.message;
  execution_ms = executed.execution_ms;
})

abbrev pub redis_row : AuditRequest → RedisDecision → RequestAuditLog
redis_row request d = record {
  request_id = request.request_id;
  operator = request.operator;
  scene = request.scene;
  original_sql = request.sql;
  rewritten_sql = "";
  logical_tables = [];
  physical_tables = [];
  datasource_codes = d.datasource_code ∷ [];
  decision = verdict "ALLOW" d.allowed;
  reason_code = d.reason_code;
  reason_detail = d.message;
  execution_ms = 0;
  explain_summary = redis_diagnostics d.diagnostics;
}

unfoldable pub log_redis_check :
    AuditRequest → RedisDecision → List RequestAuditLog → List RequestAuditLog
unfolding add
log_redis_check request d = add (redis_row request d)

unfoldable pub log_redis_execute :
    AuditRequest → RedisDecision → RedisExecuteResult → List RequestAuditLog → List RequestAuditLog
unfolding add
log_redis_execute request d executed = add (record (redis_row request d) {
  decision = verdict "EXECUTED" executed.allowed;
  reason_code = executed.reason_code;
  reason_detail = executed.message;
  execution_ms = executed.execution_ms;
})
