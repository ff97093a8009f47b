-- ===== src/Routing/Factors.antt =====
-- Route factors: the values that choose a table's shard, from the statement's predicates or from
-- the request's context.
use mathlib.Core.Option
use sql_gatekeeper.Prelude.{
  ℕ, String, Option, none, some, List, [], ◌∷◌, ◌++◌, map, eqb, ◌==◌, if◌then◌else◌,
}
use sql_gatekeeper.Prelude.Text.{lower, is_empty}
use sql_gatekeeper.Prelude.Text.Number.{show, parse_int, ◌%ℤ◌}
use sql_gatekeeper.Prelude.Dict.{Dict, get, put}
use sql_gatekeeper.Meta.{Value, str, LogicalTable, RouteFactorDef, RouteRule, MetaDb}
use sql_gatekeeper.Parser.{ParsedTable, ParsedSql, predicate_value}
use sql_gatekeeper.Repositories.{Orm, count_enabled_routes}
use sql_gatekeeper.Routing.Decision.{RuleView, RouteDiagnostic}

-- `a or b` of two optional texts.
abbrev pub or_text : Option String → Option String → Option String
or_text none b = b
or_text (some s) b = if is_empty s then b else some s

-- The predicate on the column with the table's alias, or on the column alone.
unfoldable pub qualified_value : ParsedSql → ParsedTable → String → Option String
qualified_value parsed table column =
    or_text (predicate_value parsed column table.alias) (predicate_value parsed column none)

-- `isinstance(column, str)` and not empty.
abbrev pub column_name : Option Value → Option String
column_name (some (Value.text s)) = if is_empty s then none else some s
column_name _ = none

abbrev context_value : Option Value → Option String
context_value none = none
context_value (some Value.null) = none
context_value (some v) = some (str v)

-- `_extract_factor_value`
unfoldable pub extract_factor_value :
    RouteFactorDef → ParsedSql → ParsedTable → Dict Value → Option String
extract_factor_value factor parsed table route_context =
    let source_type = lower factor.source_type in
    let from_context : Option String = elim (column_name (get factor.source_key route_context)) [
      | none ↦ none
      | some column ↦ qualified_value parsed table column
    ] in
    if source_type == "sql_predicate"
    then qualified_value parsed table factor.source_key
    else if source_type == "sql_predicate_from_context"
    then from_context
    else if source_type == "route_context"
    then context_value (get factor.source_key route_context)
    else if source_type == "physical_table_name"
    then some table.table_name
    else none

abbrev shard_of : ℕ → Option String → Option String
shard_of route_count none = none
shard_of route_count (some value) =
    if eqb route_count 0 then none else Option.map (λ i. show (i %ℤ route_count)) (parse_int value)

-- `_derive_legacy_route_suffix`
unfoldable pub derive_legacy_route_suffix :
    Orm → MetaDb → LogicalTable → ParsedSql → ParsedTable → Dict Value → Option String
derive_legacy_route_suffix orm db logical_table parsed table route_context =
    elim (column_name (get "shard_column" route_context)) [
      | none ↦ none
      | some column ↦
          shard_of (count_enabled_routes orm db logical_table.id)
            (qualified_value parsed table column)
    ]

-- What the loop over the factors keeps: `extracted_values` and `missing_factors`.
pub record Extraction : Type 0 where
  pub extracted_values : Dict String
  pub missing_factors : List String

abbrev pub nothing_extracted : Extraction
nothing_extracted = record { extracted_values = []; missing_factors = [] }

abbrev note_factor : RouteFactorDef → Option String → Extraction → Extraction
note_factor factor none x = record x {
  missing_factors = x.missing_factors ++ factor.factor_name ∷ [];
}
note_factor factor (some v) x = record x {
  extracted_values = put factor.factor_name v x.extracted_values;
}

module _ (orm : Orm) (db : MetaDb) (logical_table : LogicalTable) (parsed : ParsedSql)
    (table : ParsedTable) (route_context : Dict Value) where
  abbrev or_legacy : RouteFactorDef → Option String → Option String
  or_legacy factor (some v) = some v
  or_legacy factor none =
      let legacy = derive_legacy_route_suffix orm db logical_table parsed table route_context in
      if factor.source_key == "route_suffix" then legacy else none

  unfoldable pub factor_value : RouteFactorDef → Option String
  factor_value factor = or_legacy factor (extract_factor_value factor parsed table route_context)

  -- The loop over the factors.
  unfoldable pub extract_factors : List RouteFactorDef → Extraction → Extraction
  extract_factors [] x = x
  extract_factors (factor ∷ factors) x =
      extract_factors factors (note_factor factor (factor_value factor) x)

abbrev view_rule : RouteRule → RuleView
view_rule r = record {
  rule_name = r.rule_name;
  rule_type = r.rule_type;
  expression = r.expression;
  output_format = r.output_format;
}

-- `_build_route_diagnostic`
unfoldable pub build_route_diagnostic :
    ParsedTable
    → LogicalTable
    → List RouteFactorDef
    → Extraction
    → Option RouteRule
    → Option String
    → List String
    → ℕ
    → RouteDiagnostic
build_route_diagnostic table logical_table factors x rule value sample count = record {
  original_table_name = table.table_name;
  logical_table_name = logical_table.table_name;
  route_source = logical_table.route_source;
  required_factors =
      map
        (λ (f : RouteFactorDef). record {
          factor_name = f.factor_name;
          source_type = f.source_type;
          source_key = f.source_key;
          required = f.required;
          provided_value = get f.factor_name x.extracted_values;
          extractor_config = f.extractor_config;
        })
        factors;
  missing_factors = x.missing_factors;
  extracted_values = x.extracted_values;
  route_rule = Option.map view_rule rule;
  evaluated_route_value = value;
  available_route_values_sample = sample;
  available_route_count = count;
}
