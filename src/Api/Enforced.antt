-- ===== src/Api/Enforced.antt =====
-- From end to end: what holds whenever an endpoint has executed something.
use sql_gatekeeper.Prelude.{
  ℕ, ◌≡◌, sym, ap, inl, inr, true, some, List, ok, raise, ok-eq, >>=-eq-ok, if-eq-cases,
}
use sql_gatekeeper.Prelude.Text.{upper, strip}
use sql_gatekeeper.Meta.{MetaDb}
use sql_gatekeeper.Repositories.{Orm}
use sql_gatekeeper.Routing.Resolve.{RuleEngine}
use sql_gatekeeper.Runtime.{Mysql}
use sql_gatekeeper.Checker.{CheckResult, check}
use sql_gatekeeper.Checker.Sound.{IsApproved, check-IsApproved}
use sql_gatekeeper.Executor.{ExecuteResult, execute}
use sql_gatekeeper.Executor.Bounds.{IsExecuted, execute-cases}
use sql_gatekeeper.Redis.Types.{Settings, RedisDecision, RedisExecuteResult}
use sql_gatekeeper.Redis.Check.{check as redis_check}
use sql_gatekeeper.Redis.Check.Sound.{IsPermitted, check-IsPermitted}
use sql_gatekeeper.Redis.Execute.{Connection, RedisClient, execute as redis_execute}
use sql_gatekeeper.Redis.Execute.Bounds
use sql_gatekeeper.Audit.{RequestAuditLog}
use sql_gatekeeper.Api.{
  Block, commit, SqlRequest, SqlDecisionResponse, RedisRequest, RedisDecisionResponse,
  answer_execute, execute_sql, answer_redis_execute, execute_redis,
}

-- A response comes from a block that returned.
commit-eq-ok :
    {A : Type 0} (log log' : List RequestAuditLog) (b : Block A) {a : A}
    → commit log b ≡ (ok a, log')
    → (pending : List RequestAuditLog) × (b ≡ ok (a, pending))
commit-eq-ok log log' (ok (a, pending)) e = (pending, cc)
commit-eq-ok log log' (raise x) e = absurd (cc (ap (λ p. p.0) e))

module _ (orm : Orm) (rules : RuleEngine) (mysql : Mysql) (db : MetaDb) (execution_ms : ℕ) where
  -- The rows of the response are those of an approved statement, executed within the policy.
  pub record IsEnforced (r : SqlRequest) (response : SqlDecisionResponse) : Type 0 where
    pub checked : CheckResult
    pub check_returned : check orm rules mysql db r.sql r.route_context ≡ ok checked
    pub approved : IsApproved orm rules mysql db r.sql r.route_context checked
    pub result : ExecuteResult
    pub executed : IsExecuted orm mysql db execution_ms checked result
    pub rows : response.rows ≡ result.rows
    pub rewritten : response.rewritten_sql ≡ checked.rewritten_sql

  -- If /api/v1/sql/execute answers that the statement is allowed, the statement has been approved and
  -- its rows come from the one datasource of its tables, within the policy's limit.
  pub execute_sql-IsEnforced :
      (r : SqlRequest) (log log' : List RequestAuditLog) {response : SqlDecisionResponse}
      → execute_sql orm rules mysql db execution_ms r log ≡ (ok response, log')
      → response.allowed ≡ true
      → IsEnforced r response
  unfolding execute_sql answer_execute
  execute_sql-IsEnforced r log log' {response} e allowed =
      let (pending, answered) = commit-eq-ok log log' _ e in
      let (d, checked, e1) =
        >>=-eq-ok (check orm rules mysql db r.sql r.route_context)
          (answer_execute orm rules mysql db execution_ms r) answered in
      elim (if-eq-cases d.allowed _ _ e1) [
        | inr (off, same) ↦
            let same' =
              ap (λ (p : SqlDecisionResponse × List RequestAuditLog). p.0.allowed) (ok-eq same) in
            absurd (cc (same', off, allowed))
        | inl (on, e2) ↦
            let (x, ran, same) = >>=-eq-ok (execute orm mysql db execution_ms d) _ e2 in
            let same' = ap (λ (p : SqlDecisionResponse × List RequestAuditLog). p.0) (ok-eq same) in
            elim (execute-cases orm mysql db execution_ms d ran) [
              | inl (off, _, _) ↦
                  absurd (cc (ap (λ (y : SqlDecisionResponse). y.allowed) same', off, allowed))
              | inr executed ↦ record {
                checked = d;
                check_returned = checked;
                approved = check-IsApproved orm rules mysql db r.sql r.route_context checked on;
                result = x;
                executed = executed;
                rows = ap (λ (y : SqlDecisionResponse). y.rows) (sym same');
                rewritten = ap (λ (y : SqlDecisionResponse). y.rewritten_sql) (sym same');
              }
            ]
      ]

module _ (orm : Orm) (settings : Settings) (db : MetaDb) (server : Connection → RedisClient)
    (execution_ms : ℕ) where
  -- The rows of the response are those of a permitted command, executed within the limits.
  pub record IsRedisEnforced (r : RedisRequest) (response : RedisDecisionResponse) : Type 0 where
    pub decision : RedisDecision
    pub check_returned :
        redis_check orm settings (some db) r.command r.args r.redis_context ≡ ok decision
    pub permitted :
        IsPermitted orm settings (some db) (upper (strip r.command)) r.args r.redis_context decision
    pub result : RedisExecuteResult
    pub executed : Bounds.IsExecuted orm settings (some db) server execution_ms decision result
    pub rows : response.rows ≡ result.rows

  -- If /api/v1/redis/execute answers that the command is allowed, the command is a permitted one and its
  -- rows come from its datasource, within the limit.
  pub execute_redis-IsEnforced :
      (r : RedisRequest) (log log' : List RequestAuditLog) {response : RedisDecisionResponse}
      → execute_redis orm settings db server execution_ms r log ≡ (ok response, log')
      → response.allowed ≡ true
      → IsRedisEnforced r response
  unfolding execute_redis answer_redis_execute
  execute_redis-IsEnforced r log log' {response} e allowed =
      let (pending, answered) = commit-eq-ok log log' _ e in
      let (d, checked, e1) =
        >>=-eq-ok (redis_check orm settings (some db) r.command r.args r.redis_context)
          (answer_redis_execute orm settings db server execution_ms r) answered in
      elim (if-eq-cases d.allowed _ _ e1) [
        | inr (off, same) ↦
            let same' =
              ap (λ (p : RedisDecisionResponse × List RequestAuditLog). p.0.allowed) (ok-eq same) in
            absurd (cc (same', off, allowed))
        | inl (on, e2) ↦
            let (x, ran, same) =
              >>=-eq-ok (redis_execute orm settings (some db) server execution_ms d) _ e2 in
            let same' =
              ap (λ (p : RedisDecisionResponse × List RequestAuditLog). p.0) (ok-eq same) in
            elim (Bounds.redis_execute-cases orm settings (some db) server execution_ms d ran) [
              | inl (off, _, _) ↦
                  absurd (cc (ap (λ (y : RedisDecisionResponse). y.allowed) same', off, allowed))
              | inr executed ↦ record {
                decision = d;
                check_returned = checked;
                permitted =
                    check-IsPermitted orm settings (some db) r.command r.args r.redis_context
                      checked on;
                result = x;
                executed = executed;
                rows = ap (λ (y : RedisDecisionResponse). y.rows) (sym same');
              }
            ]
      ]
