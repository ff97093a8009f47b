-- ===== src/Checker.antt =====
-- services/checker.py: precheck, parsing, routing, rewriting and the filter chain, in this order.
pub mod Sound
use mathlib.Core.List.{filter_map}
use sql_gatekeeper.Prelude.{
  String, Bool, true, false, Option, none, some, List, [], ◌∷◌, map, Result, ok, ◌>>=◌,
  if◌then◌else◌,
}
use sql_gatekeeper.Prelude.Dict.{Dict}
use sql_gatekeeper.Meta.{Value, MetaDb}
use sql_gatekeeper.Precheck.{PrecheckDecision}
use sql_gatekeeper.Precheck
use sql_gatekeeper.Parser.{ParsedSql, parse}
use sql_gatekeeper.Rewrite.{TableRewritePlan, rewrite}
use sql_gatekeeper.Repositories.{Orm}
use sql_gatekeeper.Routing.Decision.{RouteTarget, RouteDiagnostic, RouteDecision}
use sql_gatekeeper.Routing.Resolve.{RuleEngine, resolve}
use sql_gatekeeper.Runtime.{Mysql}
use sql_gatekeeper.Explain.{ExplainPlanSummary}
use sql_gatekeeper.Filters.{
  FilterContext, FilterDecision, SqlFilter, policy_load_filter, physical_table_validate_filter,
  type_filter, cross_filter, limit_check_filter, explain_filter, run,
}

pub record CheckResult : Type 0 where
  pub allowed : Bool
  pub reason_code : String
  pub message : String
  pub parsed_sql : Option ParsedSql
  pub rewritten_sql : String
  pub logical_tables : List String
  pub physical_tables : List String
  pub datasource_codes : List String
  pub explain_summaries : List ExplainPlanSummary
  pub route_diagnostics : List RouteDiagnostic

-- The chain that the service is built with.
abbrev pub filter_chain : List SqlFilter
filter_chain =
    policy_load_filter ∷ physical_table_validate_filter ∷ type_filter ∷ cross_filter
    ∷ limit_check_filter ∷ explain_filter ∷ []

unfoldable pub rewrite_plans : List RouteTarget → List TableRewritePlan
rewrite_plans targets = filter_map (λ t. t.rewrite_plan) targets

abbrev pub start_context : String → Dict Value → ParsedSql → RouteDecision → FilterContext
start_context sql route_context parsed decision = record {
  sql = sql;
  route_context = route_context;
  parsed_sql = parsed;
  rewritten_sql = rewrite parsed (rewrite_plans decision.targets);
  route_decision = decision;
  policy = none;
  datasources = [];
  explain_summaries = [];
}

abbrev pub guard_result : PrecheckDecision → CheckResult
guard_result d = record {
  allowed = false;
  reason_code = d.reason_code;
  message = d.message;
  parsed_sql = none;
  rewritten_sql = "";
  logical_tables = [];
  physical_tables = [];
  datasource_codes = [];
  explain_summaries = [];
  route_diagnostics = [];
}

abbrev pub route_result : ParsedSql → RouteDecision → CheckResult
route_result parsed d = record {
  allowed = false;
  reason_code = d.reason_code;
  message = d.message;
  parsed_sql = some parsed;
  rewritten_sql = "";
  logical_tables = map (λ (x : RouteDiagnostic). x.logical_table_name) d.diagnostics;
  physical_tables = [];
  datasource_codes = [];
  explain_summaries = [];
  route_diagnostics = d.diagnostics;
}

-- The result of a statement that has reached the filters, whether they let it pass or not. The
-- filters' context gives its summaries, the statement's own values the rest.
abbrev pub filter_result :
    ParsedSql → RouteDecision → FilterDecision → List ExplainPlanSummary → CheckResult
filter_result parsed routed d summaries = record {
  allowed = d.allowed;
  reason_code = if d.allowed then "ALLOW" else d.reason_code;
  message =
      if d.allowed then "SQL passed parsing, routing, rewrite, and filter checks" else d.message;
  parsed_sql = some parsed;
  rewritten_sql = rewrite parsed (rewrite_plans routed.targets);
  logical_tables = map (λ (t : RouteTarget). t.logical_table_name) routed.targets;
  physical_tables = map (λ (t : RouteTarget). t.physical_table_name) routed.targets;
  datasource_codes = map (λ (t : RouteTarget). t.datasource_code) routed.targets;
  explain_summaries = summaries;
  route_diagnostics = routed.diagnostics;
}

module _ (orm : Orm) (rules : RuleEngine) (mysql : Mysql) (db : MetaDb) where
  unfoldable pub check_routed : String → Dict Value → ParsedSql → RouteDecision → Result CheckResult
  check_routed sql route_context parsed d =
      let filtered : Result CheckResult =
        (run orm mysql db filter_chain (start_context sql route_context parsed d)
          >>= λ (x : FilterDecision × FilterContext).
              ok (filter_result parsed d x.0 x.1.explain_summaries)) in
      if d.allowed then filtered else ok (route_result parsed d)

  unfoldable pub check : String → Dict Value → Result CheckResult
  check sql route_context =
      let guard = Precheck.evaluate sql in
      let parsed = parse sql in
      let routed : Result CheckResult =
        (resolve orm rules db parsed route_context >>= check_routed sql route_context parsed) in
      if guard.allowed then routed else ok (guard_result guard)
