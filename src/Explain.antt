-- ===== src/Explain.antt =====
-- services/explain.py: the risk of a statement by its EXPLAIN plan.
pub mod Laws
use sql_gatekeeper.Prelude.{
  ℕ, String, ◌<>◌, Bool, true, false, ◌&&◌, Option, none, some, ltb, leb, eqb, ◌==◌, Result, ok,
  raise, ◌>>=◌, if◌then◌else◌,
}
use sql_gatekeeper.Prelude.Text.{upper, has_text, is_empty}
use sql_gatekeeper.Prelude.Text.Number.{show}
use sql_gatekeeper.Meta.{DatasourceInstance, PolicySet}
use sql_gatekeeper.Runtime.{ExplainRow, Mysql, build_runtime_dsn}

pub record ExplainPlanSummary : Type 0 where
  pub access_type : String
  pub key : Option String
  pub rows_examined : ℕ
  pub extra : String
  pub table_name : String
  pub estimated_table_rows : ℕ

pub record ExplainRiskDecision : Type 0 where
  pub allowed : Bool
  pub reason_code : String
  pub message : String
  pub summary : Option ExplainPlanSummary

abbrev or_zero : Option ℕ → ℕ
or_zero none = 0
or_zero (some n) = n

-- `str(v or d)`
abbrev or_default : Option String → String → String
or_default none d = d
or_default (some s) d = if is_empty s then d else s

abbrev pub summarize : String → ℕ → ExplainRow → ExplainPlanSummary
summarize physical_table_name row_count row = record {
  access_type = or_default row.access_type "";
  key = row.key;
  rows_examined = or_zero row.rows;
  extra = or_default row.extra "";
  table_name = or_default row.table physical_table_name;
  estimated_table_rows = row_count;
}

abbrev reject : ExplainPlanSummary → String → String → ExplainRiskDecision
reject summary code message = record {
  allowed = false;
  reason_code = code;
  message = message;
  summary = some summary;
}

abbrev pub is_full_scan : PolicySet → ExplainPlanSummary → Bool
is_full_scan policy s =
    policy.reject_full_scan_on_large_table
    && (upper s.access_type == "ALL")
    && leb policy.large_table_row_threshold s.estimated_table_rows

-- The tests of `evaluate` on the plan's summary.
unfoldable pub judge_plan : PolicySet → String → ExplainPlanSummary → ExplainRiskDecision
judge_plan policy physical_table_name s =
    if ltb policy.max_scan_rows s.rows_examined
    then reject s "EXPLAIN_SCAN_ROWS_EXCEEDED"
        ("Explain rows " <> show s.rows_examined <> " exceeded limit " <> show policy.max_scan_rows)
    else if is_full_scan policy s
    then reject s "FULL_SCAN_ON_LARGE_TABLE" (
        "Full scan detected on table '"
        <> physical_table_name
        <> "' with estimated rows "
        <> show s.estimated_table_rows)
    else if policy.reject_using_temporary && has_text "Using temporary" s.extra
    then reject s "USING_TEMPORARY" "Explain extra contains Using temporary"
    else if policy.reject_using_filesort && has_text "Using filesort" s.extra
    then reject s "USING_FILESORT" "Explain extra contains Using filesort"
    else record {
      allowed = true;
      reason_code = "ALLOW";
      message = "Explain plan passed";
      summary = some s;
    }

abbrev pub judge_row : PolicySet → String → ℕ → Option ExplainRow → ExplainRiskDecision
judge_row policy physical_table_name row_count none = record {
  allowed = false;
  reason_code = "EXPLAIN_EMPTY";
  message = "EXPLAIN returned no rows";
  summary = none;
}
judge_row policy physical_table_name row_count (some row) =
    judge_plan policy physical_table_name (summarize physical_table_name row_count row)

module _ (mysql : Mysql) where
  -- The table's rows as the schema estimates them, or counted where the estimate is 0.
  unfoldable pub estimate_rows : DatasourceInstance → String → Result ℕ
  estimate_rows d physical_table_name =
      let dsn = build_runtime_dsn d in
      let counted : Result ℕ = mysql.count_rows dsn physical_table_name in
      mysql.table_rows dsn d.database_name physical_table_name >>= λ estimate.
      if eqb (or_zero estimate) 0 then counted else ok (or_zero estimate)

  unfoldable pub evaluate :
      DatasourceInstance → String → String → PolicySet → Result ExplainRiskDecision
  evaluate d rewritten_sql physical_table_name policy = do
    row_count ← estimate_rows d physical_table_name
    row ← mysql.explain (build_runtime_dsn d) rewritten_sql
    ok (judge_row policy physical_table_name row_count row)
