-- ===== src/Routing/Decision.antt =====
-- The dataclasses of services/routing.py.
use sql_gatekeeper.Prelude.{ℕ, String, Bool, Option, List}
use sql_gatekeeper.Prelude.Dict.{Dict}
use sql_gatekeeper.Meta.{Extra}
use sql_gatekeeper.Rewrite.{TableRewritePlan}

pub record RouteTarget : Type 0 where
  pub original_table_name : String
  pub logical_table_name : String
  pub physical_table_name : String
  pub datasource_code : String
  pub requires_rewrite : Bool
  pub rewrite_plan : Option TableRewritePlan
  pub route_value : String

pub record RouteFactorDiagnostic : Type 0 where
  pub factor_name : String
  pub source_type : String
  pub source_key : String
  pub required : Bool
  pub provided_value : Option String
  pub extractor_config : Extra

-- The dict that a diagnostic holds of its rule.
pub record RuleView : Type 0 where
  pub rule_name : String
  pub rule_type : String
  pub expression : String
  pub output_format : String

pub record RouteDiagnostic : Type 0 where
  pub original_table_name : String
  pub logical_table_name : String
  pub route_source : String
  pub required_factors : List RouteFactorDiagnostic
  pub missing_factors : List String
  pub extracted_values : Dict String
  pub route_rule : Option RuleView
  pub evaluated_route_value : Option String
  pub available_route_values_sample : List String
  pub available_route_count : ℕ

pub record RouteDecision : Type 0 where
  pub allowed : Bool
  pub reason_code : String
  pub message : String
  pub targets : List RouteTarget
  pub diagnostics : List RouteDiagnostic
