-- ===== src/Tests/Sql.antt =====
-- The SQL gatekeeper on one statement for a logical table: it is routed to a shard, rewritten,
-- admitted and executed.
use sql_gatekeeper.Prelude.{
  String, ◌≡◌, refl, ◌⊎◌, true, false, some, [], ◌∷◌, is_nil, keep, ok, raise,
  multiple_results_found, arith,
}
use sql_gatekeeper.Meta.{MetaDb}
use sql_gatekeeper.Parser.{parse, tables_of}
use sql_gatekeeper.Parser.Tokens.{TokensInOrder, tables_of-TokensInOrder}
use sql_gatekeeper.Rewrite.{TableRewritePlan, rewrite}
use sql_gatekeeper.Rewrite.Splice.{PlansInOrder, splice, rewrite-eq-splice}
use sql_gatekeeper.Precheck
use sql_gatekeeper.Repositories.{has_physical_name}
use sql_gatekeeper.Routing.Decision.{RouteDecision}
use sql_gatekeeper.Routing.Resolve.{refuse, resolve}
use sql_gatekeeper.Routing.Sound.{IsRefusal}
use sql_gatekeeper.Routing.Loop.{AllRouted, resolve-Settled}
use sql_gatekeeper.Routing.Ambiguous.{resolve-Ambiguous}
use sql_gatekeeper.Explain.{ExplainPlanSummary, ExplainRiskDecision, summarize, judge_plan}
use sql_gatekeeper.Explain
use sql_gatekeeper.Explain.Laws.{IsSafePlan, evaluate-IsSafePlan}
use sql_gatekeeper.Filters.{FilterContext, FilterDecision, run}
use sql_gatekeeper.Filters.Laws.{Allows}
use sql_gatekeeper.Filters.Chain.{IsAdmitted, run-IsAdmitted}
use sql_gatekeeper.Checker.{CheckResult, filter_chain, start_context, check, guard_result}
use sql_gatekeeper.Checker.Sound.{IsApproved, check-IsApproved}
use sql_gatekeeper.Executor.{ExecuteResult, execute}
use sql_gatekeeper.Executor
use sql_gatekeeper.Executor.Bounds.{IsEmpty, IsExecuted, execute-cases}
use sql_gatekeeper.Tests.World.{
  orm, rules, mysql, meta, mysql_datasource, guard_policy, plan_row, shard,
}
use sql_gatekeeper.Tests.Runs.{sql_runs}

abbrev sql : String
sql = "select uid from user u where u.uid = '7' limit 10"

abbrev checked : CheckResult
checked = elim (check orm rules mysql meta sql []) [
  | ok r ↦ r
  | raise e ↦ guard_result (Precheck.evaluate sql)
]

checked_rewritten : checked.rewritten_sql ≡ "select uid from user_7 u where u.uid = '7' limit 10"
unfolding sql_runs
checked_rewritten = refl

checked_allowed : checked.allowed ≡ true
unfolding sql_runs
checked_allowed = refl

check_returned : check orm rules mysql meta sql [] ≡ ok checked
unfolding sql_runs
check_returned = refl

check-IsApproved_example : IsApproved orm rules mysql meta sql [] checked
check-IsApproved_example =
    check-IsApproved orm rules mysql meta sql [] check_returned checked_allowed

tables_of-TokensInOrder_example : TokensInOrder sql 0 (tables_of sql)
tables_of-TokensInOrder_example = tables_of-TokensInOrder sql

abbrev plan : TableRewritePlan
plan = record {
  original_table_name = "user";
  physical_table_name = "user_7";
  token_start = 16;
  token_end = 20;
}

plan_in_order : PlansInOrder sql 0 (plan ∷ [])
plan_in_order = (omega arith, omega arith, omega arith, omega arith)

rewrite-eq-splice_example : rewrite (parse sql) (plan ∷ []) ≡ splice sql 0 (plan ∷ [])
unfolding sql_runs
rewrite-eq-splice_example = rewrite-eq-splice (parse sql) (plan ∷ []) plan_in_order

abbrev decision : RouteDecision
decision = elim (resolve orm rules meta (parse sql) []) [ ok d ↦ d | raise e ↦ refuse "" "" [] ]

resolved : resolve orm rules meta (parse sql) [] ≡ ok decision
unfolding sql_runs
resolved = refl

resolve-Settled_example :
    IsRefusal decision
    ⊎ ((decision.allowed ≡ true)
        × (is_nil (tables_of sql) ≡ false)
        × AllRouted orm rules meta (parse sql) [] (tables_of sql) decision.targets)
unfolding sql_runs
resolve-Settled_example = resolve-Settled orm rules meta (parse sql) [] resolved

abbrev context : FilterContext
context = start_context sql [] (parse sql) decision

abbrev filtered : FilterDecision × FilterContext
filtered = elim (run orm mysql meta filter_chain context) [
  | ok x ↦ x
  | raise e ↦ (record { allowed = false; reason_code = ""; message = "" }, context)
]

filters_passed : Allows orm mysql meta (run orm mysql meta filter_chain context) filtered.1
unfolding sql_runs
filters_passed = (filtered.0, refl, refl)

run-IsAdmitted_example : IsAdmitted orm mysql meta context
run-IsAdmitted_example = run-IsAdmitted orm mysql meta context {c' = filtered.1} refl filters_passed

abbrev executed : ExecuteResult
executed = elim (execute orm mysql meta 5 checked) [ ok r ↦ r | raise e ↦ Executor.refuse "" "" 0 ]

execute_returned : execute orm mysql meta 5 checked ≡ ok executed
unfolding sql_runs
execute_returned = refl

executed_rows : executed.row_count ≡ 2
unfolding sql_runs
executed_rows = refl

execute-cases_example :
    IsEmpty orm mysql meta 5 executed ⊎ IsExecuted orm mysql meta 5 checked executed
execute-cases_example = execute-cases orm mysql meta 5 checked execute_returned

abbrev summary : ExplainPlanSummary
summary = summarize "user_7" 20 plan_row

abbrev judged : ExplainRiskDecision
judged = judge_plan guard_policy "user_7" summary

judge_returned : Explain.evaluate mysql mysql_datasource sql "user_7" guard_policy ≡ ok judged
unfolding sql_runs
judge_returned = refl

judged_allowed : judged.allowed ≡ true
unfolding sql_runs
judged_allowed = refl

evaluate-IsSafePlan_example : IsSafePlan mysql mysql_datasource sql "user_7" guard_policy
evaluate-IsSafePlan_example =
    evaluate-IsSafePlan mysql mysql_datasource sql "user_7" guard_policy judge_returned
      judged_allowed

abbrev two_shards : MetaDb
two_shards = record meta { physical_routes = shard 1 "7" "user" ∷ shard 2 "8" "user" ∷ [] }

user_token :
    (parse sql).tables
    ≡ record { table_name = "user"; alias = some "u"; token_start = 16; token_end = 20 } ∷ []
unfolding sql_runs
user_token = refl

both_routes :
    keep (has_physical_name orm two_shards "user") two_shards.physical_routes
    ≡ shard 1 "7" "user" ∷ shard 2 "8" "user" ∷ []
unfolding sql_runs
both_routes = refl

resolve-Ambiguous_example :
    resolve orm rules two_shards (parse sql) [] ≡ raise multiple_results_found
resolve-Ambiguous_example =
    resolve-Ambiguous orm rules two_shards (parse sql) [] _ [] (shard 1 "7" "user")
      (shard 2 "8" "user") [] user_token both_routes
