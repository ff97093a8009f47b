-- ===== src/Bootstrap/Upserts.antt =====
-- The upserts of bootstrap/meta.py on the rows of the tables.
use sql_gatekeeper.Prelude.{ℕ, String, true, ◌&&◌, some, [], ◌∷◌, eqb}
use sql_gatekeeper.Prelude.Text.Number.{ℤ}
use sql_gatekeeper.Prelude.Dict.{Dict}
use sql_gatekeeper.Meta.{
  Value, DatasourceInstance, LogicalTable, RouteFactorDef, RouteRule, PhysicalTableRoute, PolicySet,
}
use sql_gatekeeper.Meta.Inserts.{
  same_datasource, same_table, same_factor, same_rule, same_route, same_policy,
}
use sql_gatekeeper.Repositories.{Orm}
use sql_gatekeeper.Bootstrap.Rows.{Upsert}

-- The arguments of `_upsert_datasource`.
pub record DatasourceArguments : Type 0 where
  pub datasource_code : String
  pub display_name : String
  pub host : String
  pub port : ℤ
  pub database_name : String
  pub username : String
  pub password_secret_ref : String
  pub db_type : String
  pub extra : Dict Value

module _ (orm : Orm) where
  abbrev pub upsert_policy : Upsert PolicySet
  upsert_policy = record {
    matches = λ p. orm.same p.policy_code "default_select_guard";
    conflicts = same_policy orm;
    fresh = λ i. record {
      id = i;
      policy_code = "default_select_guard";
      allow_sql_types = "select" ∷ [];
      require_limit = true;
      max_limit = 1000;
      large_table_row_threshold = 100000;
      max_scan_rows = 10000;
      reject_full_scan_on_large_table = true;
      reject_using_temporary = true;
      reject_using_filesort = true;
      enabled = true;
    };
    update = λ p. p;
    id_of = λ p. p.id;
  }

  abbrev pub upsert_datasource : DatasourceArguments → Upsert DatasourceInstance
  upsert_datasource a = record {
    matches = λ d. orm.same d.datasource_code a.datasource_code;
    conflicts = same_datasource orm;
    fresh = λ i. record {
      id = i;
      datasource_code = a.datasource_code;
      display_name = a.display_name;
      db_type = a.db_type;
      host = a.host;
      port = a.port;
      database_name = a.database_name;
      username = a.username;
      password_secret_ref = a.password_secret_ref;
      read_only = true;
      enabled = true;
      extra = some a.extra;
    };
    update = λ d. record d {
      display_name = a.display_name;
      db_type = a.db_type;
      host = a.host;
      port = a.port;
      database_name = a.database_name;
      username = a.username;
      password_secret_ref = a.password_secret_ref;
      read_only = true;
      enabled = true;
      extra = some a.extra;
    };
    id_of = λ d. d.id;
  }

  abbrev pub upsert_logical_table : String → String → String → String → Upsert LogicalTable
  upsert_logical_table table_name description route_source physical_name_template = record {
    matches = λ t. orm.same t.table_name table_name;
    conflicts = same_table orm;
    fresh = λ i. record {
      id = i;
      table_name = table_name;
      description = description;
      route_source = route_source;
      physical_name_template = physical_name_template;
      default_policy_code = "default_select_guard";
      enabled = true;
      extra = some [];
    };
    update = λ t. t;
    id_of = λ t. t.id;
  }

  abbrev pub upsert_route_factor : ℕ → String → String → String → Upsert RouteFactorDef
  upsert_route_factor logical_table_id factor_name source_type source_key = record {
    matches = λ f. eqb f.logical_table_id logical_table_id && orm.same f.factor_name factor_name;
    conflicts = same_factor orm;
    fresh = λ i. record {
      id = i;
      logical_table_id = logical_table_id;
      factor_name = factor_name;
      source_type = source_type;
      source_key = source_key;
      required = true;
      extractor_config = some [];
      enabled = true;
    };
    update = λ f. f;
    id_of = λ f. f.id;
  }

  abbrev pub upsert_route_rule : ℕ → String → String → String → String → Upsert RouteRule
  upsert_route_rule logical_table_id rule_name rule_type expression output_format = record {
    matches = λ r. eqb r.logical_table_id logical_table_id && orm.same r.rule_name rule_name;
    conflicts = same_rule orm;
    fresh = λ i. record {
      id = i;
      logical_table_id = logical_table_id;
      rule_name = rule_name;
      rule_type = rule_type;
      expression = expression;
      output_format = output_format;
      enabled = true;
    };
    update = λ r. r;
    id_of = λ r. r.id;
  }

  abbrev pub upsert_physical_route : ℕ → String → String → ℕ → Upsert PhysicalTableRoute
  upsert_physical_route logical_table_id route_value physical_table_name datasource_id = record {
    matches = λ r. eqb r.logical_table_id logical_table_id && orm.same r.route_value route_value;
    conflicts = same_route orm;
    fresh = λ i. record {
      id = i;
      logical_table_id = logical_table_id;
      route_value = route_value;
      physical_table_name = physical_table_name;
      datasource_id = datasource_id;
      enabled = true;
      extra = some [];
    };
    update = λ r. r;
    id_of = λ r. r.id;
  }
