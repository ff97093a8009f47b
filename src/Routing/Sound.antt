-- ===== src/Routing/Sound.antt =====
-- What an allowed routing decision stands for, and that a refusal carries no target.
use mathlib.Core.List.{Memᴰ}
use sql_gatekeeper.Prelude.{
  String, ◌≡◌, refl, ◌⊎◌, inl, inr, true, false, Option, none, some, List, [], is_nil, Bool-cases,
  ok, Ensures, Ensures-bind,
}
use sql_gatekeeper.Prelude.Dict.{Dict}
use sql_gatekeeper.Meta.{
  Value, DatasourceInstance, LogicalTable, RouteRule, PhysicalTableRoute, MetaDb,
}
use sql_gatekeeper.Parser.{ParsedTable, ParsedSql}
use sql_gatekeeper.Repositories.{
  Orm, get_enabled_datasource, get_enabled_physical, get_enabled_route, get_enabled_logical_table,
  get_enabled_rule, list_required_factors,
}
use sql_gatekeeper.Repositories.Found.{
  datasource_found, physical_found, route_found, logical_found, rule_found,
}
use sql_gatekeeper.Routing.Decision.{RouteTarget, RouteDiagnostic, RouteDecision}
use sql_gatekeeper.Routing.Factors.{Extraction, extract_factors, nothing_extracted}
use sql_gatekeeper.Routing.Resolve.{
  RuleEngine, Round, routed, stopped, datasource_code_from_id, evaluate_route_rule,
  build_physical_target, build_rewritten_target, apply_rule, route_logical, route_by_name,
  physical_target, rewritten_target, unknown_table, route_match, route_table,
}
use sql_gatekeeper.Rewrite.{TableRewritePlan}

abbrev pub plan_for : ParsedTable → RouteTarget → TableRewritePlan
plan_for table target = record {
  original_table_name = table.table_name;
  physical_table_name = target.physical_table_name;
  token_start = table.token_start;
  token_end = table.token_end;
}

abbrev pub IsRefusal : RouteDecision → Type 0
IsRefusal d = (d.allowed ≡ false) × (d.targets ≡ [])

module _ (orm : Orm) (rules : RuleEngine) (db : MetaDb) where
  abbrev extracted : ParsedSql → Dict Value → ParsedTable → LogicalTable → Extraction
  extracted parsed context table logical =
      extract_factors orm db logical parsed table context (list_required_factors orm db logical.id)
        nothing_extracted

  -- The enabled logical table that a table of the statement names.
  pub record IsNamed (table : ParsedTable) (logical : LogicalTable) : Type 0 where
    pub known : Memᴰ logical db.logical_tables
    pub enabled : logical.enabled ≡ true
    pub named : orm.same logical.table_name table.table_name ≡ true

  -- The enabled rule of a logical table gives the value, of values that the statement and its context
  -- provide for all required factors.
  pub record IsRuled (parsed : ParsedSql) (context : Dict Value) (table : ParsedTable)
      (logical : LogicalTable) (value : String) : Type 0 where
    pub rule : RouteRule
    pub known : Memᴰ rule db.route_rules
    pub enabled : rule.enabled ≡ true
    pub of_table : rule.logical_table_id ≡ logical.id
    pub complete : is_nil (extracted parsed context table logical).missing_factors ≡ true
    pub evaluated :
        evaluate_route_rule orm rules db rule
          (extracted parsed context table logical).extracted_values
        ≡ ok value

  -- The target is an enabled physical route of the metadata with an enabled datasource. The table names
  -- the route's physical table, or it names the route's logical table, the route's value is the one that
  -- the logical table's rule gives, and the physical name replaces the table's token.
  pub record IsRouted (parsed : ParsedSql) (context : Dict Value) (table : ParsedTable)
      (target : RouteTarget) : Type 0 where
    pub route : PhysicalTableRoute
    pub registered : Memᴰ route db.physical_routes
    pub route_enabled : route.enabled ≡ true
    pub physical : target.physical_table_name ≡ route.physical_table_name
    pub datasource : DatasourceInstance
    pub known : Memᴰ datasource db.datasources
    pub datasource_enabled : datasource.enabled ≡ true
    pub code : target.datasource_code ≡ datasource.datasource_code
    pub of_route :
        orm.same datasource.datasource_code
          (datasource_code_from_id orm rules db route.datasource_id)
        ≡ true
    pub original : target.original_table_name ≡ table.table_name
    pub plan :
        ((target.rewrite_plan ≡ none)
          × (orm.same route.physical_table_name table.table_name ≡ true))
        ⊎ ((target.rewrite_plan ≡ some (plan_for table target))
            × ((logical : LogicalTable) × IsNamed table logical
                × (route.logical_table_id ≡ logical.id)
                × (orm.same route.route_value target.route_value ≡ true)
                × IsRuled parsed context table logical target.route_value))

  module _ (parsed : ParsedSql) (route_context : Dict Value) where
    abbrev pub RoundOf : ParsedTable → Round → Type 0
    RoundOf table (routed target diagnostics) = IsRouted parsed route_context table target
    RoundOf table (stopped decision) = IsRefusal decision

    physical_target-RoundOf :
        (table : ParsedTable) (ds : List RouteDiagnostic) (route : PhysicalTableRoute)
        (o : Option DatasourceInstance)
        → get_enabled_physical orm db table.table_name ≡ ok (some route)
        → get_enabled_datasource orm db (datasource_code_from_id orm rules db route.datasource_id)
          ≡ ok o
        → RoundOf table (physical_target orm rules db table route ds o)
    physical_target-RoundOf table ds route none found e = (refl, refl)
    physical_target-RoundOf table ds route (some d) found e =
        let (named, route_on, listed) = physical_found orm db table.table_name found in
        let (coded, on, known) = datasource_found orm db _ e in
        record {
          route = route;
          registered = listed;
          route_enabled = route_on;
          physical = refl;
          datasource = d;
          known = known;
          datasource_enabled = on;
          code = refl;
          of_route = coded;
          original = refl;
          plan = inl (refl, named);
        }

    rewritten_target-RoundOf :
        (table : ParsedTable) (logical : LogicalTable) (value : String) (ds : List RouteDiagnostic)
        (route : PhysicalTableRoute) (o : Option DatasourceInstance)
        → IsNamed table logical
        → IsRuled parsed route_context table logical value
        → get_enabled_route orm db logical.id value ≡ ok (some route)
        → get_enabled_datasource orm db (datasource_code_from_id orm rules db route.datasource_id)
          ≡ ok o
        → RoundOf table (rewritten_target orm rules db table logical route value ds o)
    rewritten_target-RoundOf table logical value ds route none named ruled found e = (refl, refl)
    rewritten_target-RoundOf table logical value ds route (some d) named ruled found e =
        let (of_table, valued, route_on, listed) = route_found orm db logical.id value found in
        let (coded, on, known) = datasource_found orm db _ e in
        record {
          route = route;
          registered = listed;
          route_enabled = route_on;
          physical = refl;
          datasource = d;
          known = known;
          datasource_enabled = on;
          code = refl;
          of_route = coded;
          original = refl;
          plan = inr (refl, (logical, named, of_table, valued, ruled));
        }

    build_physical_target-RoundOf :
        (table : ParsedTable) (ds : List RouteDiagnostic) (route : PhysicalTableRoute)
        → get_enabled_physical orm db table.table_name ≡ ok (some route)
        → Ensures (RoundOf table) (build_physical_target orm rules db table ds route)
    unfolding build_physical_target
    build_physical_target-RoundOf table ds route found =
        Ensures-bind (RoundOf table) (get_enabled_datasource orm db _) _
          λ o e. physical_target-RoundOf table ds route o found e

    build_rewritten_target-RoundOf :
        (table : ParsedTable) (logical : LogicalTable) (value : String) (ds : List RouteDiagnostic)
        (o : Option PhysicalTableRoute)
        → IsNamed table logical
        → IsRuled parsed route_context table logical value
        → get_enabled_route orm db logical.id value ≡ ok o
        → Ensures (RoundOf table) (build_rewritten_target orm rules db table logical value ds o)
    unfolding build_rewritten_target
    build_rewritten_target-RoundOf table logical value ds none named ruled found = (refl, refl)
    build_rewritten_target-RoundOf table logical value ds (some route) named ruled found =
        Ensures-bind (RoundOf table) (get_enabled_datasource orm db _) _
          λ o e. rewritten_target-RoundOf table logical value ds route o named ruled found e

    apply_rule-RoundOf :
        (table : ParsedTable) (logical : LogicalTable) (ds : List RouteDiagnostic)
        (rule : RouteRule)
        → IsNamed table logical
        → get_enabled_rule orm db logical.id ≡ ok (some rule)
        → Ensures (RoundOf table) (
            apply_rule orm rules db parsed route_context table logical ds rule
              (extracted parsed route_context table logical))
    unfolding apply_rule
    apply_rule-RoundOf table logical ds rule named ruled =
        let x = extracted parsed route_context table logical in
        let (of_table, on, known) = rule_found orm db logical.id ruled in
        elim (Bool-cases (is_nil x.missing_factors)) [
          | inr some_missing ↦ rw some_missing (refl, refl)
          | inl complete ↦ rw complete (
              Ensures-bind (RoundOf table)
                (evaluate_route_rule orm rules db rule x.extracted_values) _
                λ value evaluated.
                  Ensures-bind (RoundOf table) (get_enabled_route orm db logical.id value) _ λ o e.
                    build_rewritten_target-RoundOf table logical value _ o named
                      (record {
                        rule = rule;
                        known = known;
                        enabled = on;
                        of_table = of_table;
                        complete = complete;
                        evaluated = evaluated;
                      })
                      e)
        ]

    route_logical-RoundOf :
        (table : ParsedTable) (ds : List RouteDiagnostic) (logical : LogicalTable)
        (o : Option RouteRule)
        → IsNamed table logical
        → get_enabled_rule orm db logical.id ≡ ok o
        → Ensures
            (RoundOf table)
            (route_logical orm rules db parsed route_context table ds logical o)
    unfolding route_logical
    route_logical-RoundOf table ds logical none named e = (refl, refl)
    route_logical-RoundOf table ds logical (some rule) named e =
        apply_rule-RoundOf table logical ds rule named e

    refusal :
        (table : ParsedTable) (o : Option LogicalTable) (ds : List RouteDiagnostic)
        → IsRefusal (unknown_table orm rules db parsed route_context table o ds)
    refusal table none ds = (refl, refl)
    refusal table (some t) ds = (refl, refl)

    route_by_name-RoundOf :
        (table : ParsedTable) (ds : List RouteDiagnostic) (o : Option LogicalTable)
        → get_enabled_logical_table orm db table.table_name ≡ ok o
        → Ensures (RoundOf table) (route_by_name orm rules db parsed route_context table ds o)
    unfolding route_by_name
    route_by_name-RoundOf table ds none found = refusal table _ ds
    route_by_name-RoundOf table ds (some logical) found =
        let (same, on, known) = logical_found orm db table.table_name found in
        Ensures-bind (RoundOf table) (get_enabled_rule orm db logical.id) _ λ o e.
          route_logical-RoundOf table ds logical o
            (record { known = known; enabled = on; named = same }) e

    route_match-RoundOf :
        (table : ParsedTable) (ds : List RouteDiagnostic) (o : Option PhysicalTableRoute)
        → get_enabled_physical orm db table.table_name ≡ ok o
        → Ensures (RoundOf table) (route_match orm rules db parsed route_context table ds o)
    unfolding route_match
    route_match-RoundOf table ds (some route) found =
        build_physical_target-RoundOf table ds route found
    route_match-RoundOf table ds none found =
        Ensures-bind (RoundOf table) (get_enabled_logical_table orm db table.table_name) _
          λ o e. route_by_name-RoundOf table ds o e

    pub route_table-RoundOf :
        (table : ParsedTable) (ds : List RouteDiagnostic)
        → Ensures (RoundOf table) (route_table orm rules db parsed route_context table ds)
    unfolding route_table
    route_table-RoundOf table ds =
        Ensures-bind (RoundOf table) (get_enabled_physical orm db table.table_name) _
          λ o e. route_match-RoundOf table ds o e
