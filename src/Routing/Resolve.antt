-- ===== src/Routing/Resolve.antt =====
-- `RouteDecisionService.resolve`: its loop over the tables of a statement.
use sql_gatekeeper.Prelude.{
  ℕ, String, ◌<>◌, Bool, true, false, not, ◌&&◌, Option, none, some, List, [], ◌∷◌, ◌++◌, is_nil,
  starts_with, Result, ok, raise, ◌>>=◌, if◌then◌else◌,
}
use sql_gatekeeper.Prelude.Text.{is_empty, before_char, join}
use sql_gatekeeper.Prelude.Dict.{Dict}
use sql_gatekeeper.Meta.{
  Value, DatasourceInstance, LogicalTable, RouteRule, PhysicalTableRoute, MetaDb,
}
use sql_gatekeeper.Parser.{ParsedTable, ParsedSql}
use sql_gatekeeper.Repositories.{
  Orm, get_by_id, get_enabled_datasource, get_enabled_logical_table, list_enabled_logical_tables,
  get_enabled_route, get_enabled_physical, list_enabled_route_values, count_enabled_routes,
  list_required_factors, get_enabled_rule,
}
use sql_gatekeeper.Routing.Decision.{RouteTarget, RouteDiagnostic, RouteDecision}
use sql_gatekeeper.Routing.Factors.{
  Extraction, nothing_extracted, extract_factors, build_route_diagnostic,
}

-- Python's `eval` of a rule's expression over the extracted values, and `str.format` of its result.
-- The expressions are rows of the database.
pub record RuleEngine : Type 1 where
  pub RuleValue : Type 0
  pub eval_expression : String → Dict String → Result RuleValue
  pub format_output : String → RuleValue → Dict String → Result String

abbrev pub refuse : String → String → List RouteDiagnostic → RouteDecision
refuse code message diagnostics = record {
  allowed = false;
  reason_code = code;
  message = message;
  targets = [];
  diagnostics = diagnostics;
}

-- One round of the loop: a target and the diagnostics so far, or the decision that ends it.
pub data Round : Type 0 where
  routed : RouteTarget → List RouteDiagnostic → Round
  stopped : RouteDecision → Round

module _ (orm : Orm) (rules : RuleEngine) (db : MetaDb) where
  unfoldable pub datasource_code_from_id : ℕ → String
  datasource_code_from_id id = elim (get_by_id (λ d. d.id) id db.datasources) [
    | none ↦ ""
    | some d ↦ d.datasource_code
  ]

  -- `_match_invalid_physical_table`
  abbrev is_prefix_of : String → LogicalTable → Bool
  is_prefix_of table_name t =
      let prefix = before_char 123 t.physical_name_template in
      not (is_empty prefix) && starts_with table_name prefix

  abbrev first_match : String → List LogicalTable → Option LogicalTable
  first_match table_name [] = none
  first_match table_name (t ∷ ts) =
      if is_prefix_of table_name t then some t else first_match table_name ts

  unfoldable pub match_invalid_physical_table : String → Option LogicalTable
  match_invalid_physical_table table_name =
      first_match table_name (list_enabled_logical_tables orm db)

  -- `_evaluate_route_rule`
  unfoldable pub evaluate_route_rule : RouteRule → Dict String → Result String
  evaluate_route_rule rule values = do
    value ← rules.eval_expression rule.expression values
    rules.format_output rule.output_format value values

  abbrev pub logical_name : ParsedTable → PhysicalTableRoute → String
  logical_name table route = elim (get_by_id (λ t. t.id) route.logical_table_id db.logical_tables) [
    | none ↦ table.table_name
    | some t ↦ t.table_name
  ]

  -- `_build_physical_target`, on the datasource that the route's code leads to.
  abbrev pub physical_target :
      ParsedTable → PhysicalTableRoute → List RouteDiagnostic → Option DatasourceInstance → Round
  physical_target table route diagnostics none =
      stopped
        (refuse "DATASOURCE_NOT_FOUND" "Datasource for physical table was not found" diagnostics)
  physical_target table route diagnostics (some d) =
      routed
        (record {
          original_table_name = table.table_name;
          logical_table_name = logical_name table route;
          physical_table_name = route.physical_table_name;
          datasource_code = d.datasource_code;
          requires_rewrite = false;
          rewrite_plan = none;
          route_value = route.route_value;
        })
        diagnostics

  unfoldable pub build_physical_target :
      ParsedTable → List RouteDiagnostic → PhysicalTableRoute → Result Round
  build_physical_target table diagnostics route = do
    found ← get_enabled_datasource orm db (datasource_code_from_id route.datasource_id)
    ok (physical_target table route diagnostics found)

  abbrev pub rewritten_target :
      ParsedTable
      → LogicalTable
      → PhysicalTableRoute
      → String
      → List RouteDiagnostic
      → Option DatasourceInstance
      → Round
  rewritten_target table logical route value diagnostics none =
      stopped
        (refuse "DATASOURCE_NOT_FOUND" "Datasource for route target was not found" diagnostics)
  rewritten_target table logical route value diagnostics (some d) =
      routed
        (record {
          original_table_name = table.table_name;
          logical_table_name = logical.table_name;
          physical_table_name = route.physical_table_name;
          datasource_code = d.datasource_code;
          requires_rewrite = true;
          rewrite_plan = some (record {
            original_table_name = table.table_name;
            physical_table_name = route.physical_table_name;
            token_start = table.token_start;
            token_end = table.token_end;
          });
          route_value = value;
        })
        diagnostics

  -- From the physical route on.
  unfoldable pub build_rewritten_target :
      ParsedTable
      → LogicalTable
      → String
      → List RouteDiagnostic
      → Option PhysicalTableRoute
      → Result Round
  build_rewritten_target table logical value diagnostics none = ok (
      stopped (
        refuse "PHYSICAL_ROUTE_NOT_FOUND"
          ("No physical route found for '" <> table.table_name <> "' with route value '" <> value
            <> "'")
          diagnostics))
  build_rewritten_target table logical value diagnostics (some route) = do
    found ← get_enabled_datasource orm db (datasource_code_from_id route.datasource_id)
    ok (rewritten_target table logical route value diagnostics found)

  module _ (parsed : ParsedSql) (route_context : Dict Value) where
    abbrev pub diagnose :
        ParsedTable → LogicalTable → Extraction → Option RouteRule → Option String → RouteDiagnostic
    diagnose table logical x rule value =
        build_route_diagnostic table logical (list_required_factors orm db logical.id) x rule value
          (list_enabled_route_values orm db logical.id) (count_enabled_routes orm db logical.id)

    -- From the extracted values on.
    unfoldable pub apply_rule :
        ParsedTable → LogicalTable → List RouteDiagnostic → RouteRule → Extraction → Result Round
    apply_rule table logical diagnostics rule x =
        let missing : Result Round = ok (
          stopped (
            refuse "MISSING_ROUTE_FACTOR"
              ("Missing route factors for '"
                <> table.table_name
                <> "': "
                <> join ", " x.missing_factors)
              (diagnostics ++ diagnose table logical x (some rule) none ∷ []))) in
        let evaluated : Result Round = (do
          value ← evaluate_route_rule rule x.extracted_values
          found ← get_enabled_route orm db logical.id value
          build_rewritten_target table logical value
              (diagnostics ++ diagnose table logical x (some rule) (some value) ∷ []) found) in
        if is_nil x.missing_factors then evaluated else missing

    unfoldable pub route_logical :
        ParsedTable → List RouteDiagnostic → LogicalTable → Option RouteRule → Result Round
    route_logical table diagnostics logical none = ok (
        stopped (
          refuse "ROUTE_RULE_NOT_FOUND" ("No route rule for '" <> table.table_name <> "'")
            (diagnostics ++ diagnose table logical nothing_extracted none none ∷ [])))
    route_logical table diagnostics logical (some rule) =
        apply_rule table logical diagnostics rule (
          extract_factors orm db logical parsed table route_context
            (list_required_factors orm db logical.id) nothing_extracted)

    abbrev pub unknown_table :
        ParsedTable → Option LogicalTable → List RouteDiagnostic → RouteDecision
    unknown_table table none diagnostics =
        refuse "LOGICAL_TABLE_NOT_FOUND"
          ("Logical table '" <> table.table_name <> "' was not found") diagnostics
    unknown_table table (some logical) diagnostics =
        refuse "INVALID_PHYSICAL_TABLE"
          ("Physical table '" <> table.table_name <> "' is not registered for logical table '"
            <> logical.table_name <> "'")
          diagnostics

    unfoldable pub route_by_name :
        ParsedTable → List RouteDiagnostic → Option LogicalTable → Result Round
    route_by_name table diagnostics none =
        ok (
          stopped (unknown_table table (match_invalid_physical_table table.table_name) diagnostics))
    route_by_name table diagnostics (some logical) = do
      rule ← get_enabled_rule orm db logical.id
      route_logical table diagnostics logical rule

    unfoldable pub route_match :
        ParsedTable → List RouteDiagnostic → Option PhysicalTableRoute → Result Round
    route_match table diagnostics (some route) = build_physical_target table diagnostics route
    route_match table diagnostics none = do
      logical ← get_enabled_logical_table orm db table.table_name
      route_by_name table diagnostics logical

    unfoldable pub route_table : ParsedTable → List RouteDiagnostic → Result Round
    route_table table diagnostics = do
      found ← get_enabled_physical orm db table.table_name
      route_match table diagnostics found

    unfoldable pub resolve_tables :
        List ParsedTable → List RouteTarget → List RouteDiagnostic → Result RouteDecision
    resolve_tables [] targets diagnostics = ok (record {
      allowed = true;
      reason_code = "ALLOW";
      message = "Route resolution succeeded";
      targets = targets;
      diagnostics = diagnostics;
    })
    resolve_tables (table ∷ tables) targets diagnostics = elim (route_table table diagnostics) [
      | raise e ↦ raise e
      | ok (stopped decision) ↦ ok decision
      | ok (routed target later) ↦ resolve_tables tables (targets ++ target ∷ []) later
    ]

    unfoldable pub resolve : Result RouteDecision
    resolve =
        if is_nil parsed.tables
        then ok (refuse "TABLE_NOT_FOUND" "No SQL table was found" [])
        else resolve_tables parsed.tables [] []
