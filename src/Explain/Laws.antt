-- ===== src/Explain/Laws.antt =====
-- When a plan passes.
use sql_gatekeeper.Prelude.{
  ℕ, ◌≤◌, ◌<◌, String, ◌≡◌, ◌≢◌, refl, ◌⊎◌, inl, inr, Bool, true, false, ◌&&◌, ◌==◌, leb, eq_iff,
  Option, none, some, ok, >>=-eq-ok, arith,
}
use sql_gatekeeper.Prelude.Text.{has_text, upper}
use sql_gatekeeper.Meta.{DatasourceInstance, PolicySet}
use sql_gatekeeper.Runtime.{ExplainRow, Mysql, build_runtime_dsn}
use sql_gatekeeper.Explain.{
  ExplainPlanSummary, ExplainRiskDecision, is_full_scan, judge_plan, judge_row, summarize,
  estimate_rows, evaluate,
}

-- Within the scan limit, no full scan of a large table, and neither a temporary table nor a file
-- sort where the policy rejects them.
pub record IsHarmless (policy : PolicySet) (s : ExplainPlanSummary) : Type 0 where
  pub scan : s.rows_examined ≤ policy.max_scan_rows
  pub full_scan :
      (policy.reject_full_scan_on_large_table ≡ false)
      ⊎ (upper s.access_type ≢ "ALL")
      ⊎ (s.estimated_table_rows < policy.large_table_row_threshold)
  pub temporary :
      (policy.reject_using_temporary ≡ false) ⊎ (has_text "Using temporary" s.extra ≡ false)
  pub filesort :
      (policy.reject_using_filesort ≡ false) ⊎ (has_text "Using filesort" s.extra ≡ false)

-- The conditions of the policy that reject nothing, one by one.
full_scan-passes :
    (on all large : Bool)
    → (on && all && large) ≡ false
    → (on ≡ false) ⊎ (all ≡ false) ⊎ (large ≡ false)
full_scan-passes false all large e = inl refl
full_scan-passes true false large e = inr (inl refl)
full_scan-passes true true large e = inr (inr e)

and_false-cases : (a b : Bool) → (a && b) ≡ false → (a ≡ false) ⊎ (b ≡ false)
and_false-cases false b e = inl refl
and_false-cases true b e = inr e

small_scan :
    (policy : PolicySet) (s : ExplainPlanSummary)
    → is_full_scan policy s ≡ false
    → (policy.reject_full_scan_on_large_table ≡ false)
      ⊎ (upper s.access_type ≢ "ALL")
      ⊎ (s.estimated_table_rows < policy.large_table_row_threshold)
small_scan policy s e =
    elim (full_scan-passes policy.reject_full_scan_on_large_table (upper s.access_type == "ALL")
      (leb policy.large_table_row_threshold s.estimated_table_rows) e) [
        | inl off ↦ inl off
        | inr (inl other) ↦
            inr (inl (λ same. absurd (ground (arith, eq_iff (upper s.access_type) "ALL"))))
        | inr (inr small) ↦ inr (inr (ground arith))
      ]

-- An allowed plan is harmless.
judge_plan-IsHarmless :
    (policy : PolicySet) (name : String) (s : ExplainPlanSummary)
    → (judge_plan policy name s).allowed ≡ true
    → IsHarmless policy s
unfolding judge_plan
judge_plan-IsHarmless policy name s h = record {
  scan = ground arith;
  full_scan = small_scan policy s (ground arith);
  temporary =
      and_false-cases policy.reject_using_temporary (has_text "Using temporary" s.extra)
        (ground arith);
  filesort =
      and_false-cases policy.reject_using_filesort (has_text "Using filesort" s.extra)
        (ground arith);
}

module _ (mysql : Mysql) where
  -- The target's plan for the statement is harmless: the estimate and the plan are what the
  -- datasource's server answered.
  pub record IsSafePlan (d : DatasourceInstance) (sql physical_table_name : String)
      (policy : PolicySet) : Type 0 where
    pub row_count : ℕ
    pub row : ExplainRow
    pub estimated : estimate_rows mysql d physical_table_name ≡ ok row_count
    pub explained : mysql.explain (build_runtime_dsn d) sql ≡ ok (some row)
    pub harmless : IsHarmless policy (summarize physical_table_name row_count row)

  -- An evaluation that allows has read an estimate of the table's rows and a plan row from the
  -- datasource's server, and the plan is harmless under the policy.
  pub evaluate-IsSafePlan :
      (d : DatasourceInstance) (sql name : String) (policy : PolicySet) {e : ExplainRiskDecision}
      → evaluate mysql d sql name policy ≡ ok e
      → e.allowed ≡ true
      → IsSafePlan d sql name policy
  unfolding evaluate
  evaluate-IsSafePlan d sql name policy {e} h allowed =
      let (n, estimated, h') = >>=-eq-ok (estimate_rows mysql d name) _ h in
      let (o, explained, h'') = >>=-eq-ok (mysql.explain (build_runtime_dsn d) sql) _ h' in
      go n estimated o explained h''
    where
      go :
          (n : ℕ)
          → estimate_rows mysql d name ≡ ok n
          → (o : Option ExplainRow) → mysql.explain (build_runtime_dsn d) sql ≡ ok o
          → ok (judge_row policy name n o) ≡ ok e
          → IsSafePlan d sql name policy
      go n estimated none explained h' = absurd (ground arith)
      go n estimated (some row) explained h' =
          let same : judge_row policy name n (some row) ≡ e = ground arith in
          record {
            row_count = n;
            row = row;
            estimated = estimated;
            explained = explained;
            harmless = judge_plan-IsHarmless policy name _ (rw same allowed);
          }
