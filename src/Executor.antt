-- ===== src/Executor.antt =====
-- services/executor.py: the run of an approved statement.
pub mod Bounds
use sql_gatekeeper.Prelude.{
  ℕ, suc, ◌+◌, String, ◌<>◌, Bool, true, false, Option, none, some, List, [], ◌∷◌, length, ltb,
  Result, ok, ◌>>=◌, if◌then◌else◌,
}
use sql_gatekeeper.Prelude.Text.Number.{show}
use sql_gatekeeper.Prelude.Dict.{Dict}
use sql_gatekeeper.Meta.{Value, DatasourceInstance, PolicySet, MetaDb}
use sql_gatekeeper.Repositories.{Orm, get_enabled_datasource, get_enabled_policy}
use sql_gatekeeper.Runtime.{Mysql, build_runtime_dsn}
use sql_gatekeeper.Filters.{distinct, default_policy_code}
use sql_gatekeeper.Checker.{CheckResult}

pub record ExecuteResult : Type 0 where
  pub allowed : Bool
  pub reason_code : String
  pub message : String
  pub rows : List (Dict Value)
  pub row_count : ℕ
  pub execution_ms : ℕ

abbrev pub refuse : String → String → ℕ → ExecuteResult
refuse code message ms = record {
  allowed = false;
  reason_code = code;
  message = message;
  rows = [];
  row_count = 0;
  execution_ms = ms;
}

-- `execution_ms` is what the two readings of the clock differ by.
module _ (orm : Orm) (mysql : Mysql) (db : MetaDb) (execution_ms : ℕ) where
  -- `_fetch_rows`
  unfoldable pub fetch_rows : DatasourceInstance → String → ℕ → Result (List (Dict Value))
  fetch_rows d rewritten_sql max_limit =
      mysql.fetch_many (build_runtime_dsn d) ("/*+ MAX_EXECUTION_TIME(5000) */ " <> rewritten_sql)
        (max_limit + 1)

  unfoldable pub limit_rows : PolicySet → List (Dict Value) → ExecuteResult
  limit_rows policy rows =
      if ltb policy.max_limit (length rows)
      then refuse "RESULT_ROWS_EXCEEDED"
          ("Execution returned "
            <> show (length rows)
            <> " rows, exceeding max "
            <> show policy.max_limit)
          execution_ms
      else record {
        allowed = true;
        reason_code = "EXECUTED";
        message = "SQL executed successfully";
        rows = rows;
        row_count = length rows;
        execution_ms = execution_ms;
      }

  unfoldable pub execute_under :
      CheckResult → DatasourceInstance → Option PolicySet → Result ExecuteResult
  execute_under checked d none = ok (refuse "POLICY_NOT_FOUND" "Execution policy was not found" 0)
  execute_under checked d (some policy) = do
    rows ← fetch_rows d checked.rewritten_sql policy.max_limit
    ok (limit_rows policy rows)

  unfoldable pub execute_on : CheckResult → Option DatasourceInstance → Result ExecuteResult
  execute_on checked none =
      ok (refuse "DATASOURCE_NOT_FOUND" "Execution datasource was not found" 0)
  execute_on checked (some d) =
      get_enabled_policy orm db default_policy_code >>= execute_under checked d

  -- On the distinct codes of the datasources.
  unfoldable pub execute_codes : CheckResult → List String → Result ExecuteResult
  execute_codes checked (code ∷ []) = get_enabled_datasource orm db code >>= execute_on checked
  execute_codes checked _ = ok (
      refuse "CROSS_DATASOURCE_UNSUPPORTED"
        "Execution currently supports exactly one datasource per request" 0)

  unfoldable pub execute : CheckResult → Result ExecuteResult
  execute checked =
      if checked.allowed
      then execute_codes checked (distinct checked.datasource_codes)
      else ok (refuse checked.reason_code checked.message 0)
