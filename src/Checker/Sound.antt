-- ===== src/Checker/Sound.antt =====
-- What an approved statement stands for, and what a refused one carries.
use sql_gatekeeper.Prelude.{
  String, ◌≡◌, refl, sym, ap, ◌∙◌, ◌⊎◌, inl, inr, true, false, map, is_nil, ok, ok-eq, >>=-eq-ok,
  if-eq-cases, arith,
}
use sql_gatekeeper.Prelude.Dict.{Dict}
use sql_gatekeeper.Meta.{Value, MetaDb}
use sql_gatekeeper.Precheck
use sql_gatekeeper.Precheck.Laws.{IsSelect, evaluate-allowed_iff}
use sql_gatekeeper.Parser.{ParsedSql, parse, tables_of}
use sql_gatekeeper.Parser.Tokens.{tables_of-TokensInOrder}
use sql_gatekeeper.Rewrite.{rewrite}
use sql_gatekeeper.Rewrite.Splice.{splice, rewrite-eq-splice}
use sql_gatekeeper.Rewrite.Tokens.{plans-InOrder}
use sql_gatekeeper.Repositories.{Orm}
use sql_gatekeeper.Routing.Decision.{RouteTarget, RouteDecision}
use sql_gatekeeper.Routing.Resolve.{RuleEngine, resolve}
use sql_gatekeeper.Routing.Loop.{AllRouted, resolve-Settled}
use sql_gatekeeper.Runtime.{Mysql}
use sql_gatekeeper.Filters.{FilterContext, FilterDecision, run}
use sql_gatekeeper.Filters.Chain.{IsAdmitted, run-IsAdmitted}
use sql_gatekeeper.Checker.{
  CheckResult, filter_chain, rewrite_plans, start_context, route_result, filter_result,
  check_routed, check,
}

module _ (orm : Orm) (rules : RuleEngine) (mysql : Mysql) (db : MetaDb) where
  module _ (sql : String) (route_context : Dict Value) where
    -- The statement has passed every part of the check, and the result names what was established.
    pub record IsApproved (r : CheckResult) : Type 0 where
      pub select : IsSelect sql
      pub decision : RouteDecision
      pub resolved : resolve orm rules db (parse sql) route_context ≡ ok decision
      pub has_tables : is_nil (tables_of sql) ≡ false
      pub all_routed :
          AllRouted orm rules db (parse sql) route_context (tables_of sql) decision.targets
      pub admitted : IsAdmitted orm mysql db (start_context sql route_context (parse sql) decision)
      pub rewritten : r.rewritten_sql ≡ splice sql 0 (rewrite_plans decision.targets)
      pub physical :
          r.physical_tables ≡ map (λ (t : RouteTarget). t.physical_table_name) decision.targets
      pub codes : r.datasource_codes ≡ map (λ (t : RouteTarget). t.datasource_code) decision.targets

    rewritten-eq-splice :
        (d : RouteDecision)
        → AllRouted orm rules db (parse sql) route_context (tables_of sql) d.targets
        → rewrite (parse sql) (rewrite_plans d.targets) ≡ splice sql 0 (rewrite_plans d.targets)
    unfolding rewrite_plans parse
    rewritten-eq-splice d all = rewrite-eq-splice (parse sql) _ (
        plans-InOrder orm rules db (parse sql) route_context sql 0 (tables_of sql) d.targets
          (omega arith) (tables_of-TokensInOrder sql) all)

    -- A routed statement is refused, or its result is what the chain answers.
    check_routed-cases :
        (parsed : ParsedSql) (d : RouteDecision) {r : CheckResult}
        → check_routed orm rules mysql db sql route_context parsed d ≡ ok r
        → ((d.allowed ≡ false) × (r ≡ route_result parsed d))
          ⊎ ((x : FilterDecision × FilterContext) × (d.allowed ≡ true)
              × (run orm mysql db filter_chain (start_context sql route_context parsed d) ≡ ok x)
              × (r ≡ filter_result parsed d x.0 x.1.explain_summaries))
    unfolding check_routed
    check_routed-cases parsed d e = elim (if-eq-cases d.allowed _ _ e) [
      | inr (off, same) ↦ inl (off, sym (ok-eq same))
      | inl (on, filtered) ↦
          let (x, ran, same) =
            >>=-eq-ok (run orm mysql db filter_chain (start_context sql route_context parsed d)) _
              filtered in
          inr (x, on, ran, sym (ok-eq same))
    ]

    check_routed-IsApproved :
        (d : RouteDecision) {r : CheckResult}
        → IsSelect sql
        → resolve orm rules db (parse sql) route_context ≡ ok d
        → check_routed orm rules mysql db sql route_context (parse sql) d ≡ ok r
        → r.allowed ≡ true
        → IsApproved r
    unfolding parse
    check_routed-IsApproved d {r} select resolved e allowed =
        elim (check_routed-cases (parse sql) d e) [
          | inl (off, same) ↦ absurd (cc (rw same at allowed))
          | inr (x, routed, ran, same) ↦
              let passed : x.0.allowed ≡ true =
                ap (λ (y : CheckResult). y.allowed) (sym same) ∙ allowed in
              elim (resolve-Settled orm rules db (parse sql) route_context resolved) [
                | inl (off, _) ↦ absurd (cc)
                | inr (on, full, all) ↦ record {
                  select = select;
                  decision = d;
                  resolved = resolved;
                  has_tables = full;
                  all_routed = all;
                  admitted =
                      run-IsAdmitted orm mysql db (start_context sql route_context (parse sql) d)
                        {c' = x.1} refl (x.0, ran, passed);
                  rewritten =
                      ap (λ (y : CheckResult). y.rewritten_sql) same ∙ rewritten-eq-splice d all;
                  physical = ap (λ (y : CheckResult). y.physical_tables) same;
                  codes = ap (λ (y : CheckResult). y.datasource_codes) same;
                }
              ]
        ]

    -- An approved statement has passed the guard (IsSelect). Each table that the parser finds in it, at
    -- least one, is routed to an enabled target of its own (AllRouted), and the statement, the targets and
    -- their plans meet the policy (IsAdmitted). The rewritten statement is the given one with each routed
    -- token replaced and every other character kept.
    pub check-IsApproved :
        {r : CheckResult}
        → check orm rules mysql db sql route_context ≡ ok r
        → r.allowed ≡ true
        → IsApproved r
    unfolding check
    check-IsApproved {r} e allowed = elim (if-eq-cases (Precheck.evaluate sql).allowed _ _ e) [
      | inr (off, same) ↦ absurd (cc (rw (← ok-eq same) at allowed))
      | inl (on, routed) ↦
          let (d, resolved, checked) =
            >>=-eq-ok (resolve orm rules db (parse sql) route_context) _ routed in
          check_routed-IsApproved d ((evaluate-allowed_iff sql).0 on) resolved checked allowed
    ]
