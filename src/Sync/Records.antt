-- ===== src/Sync/Records.antt =====
-- The rows of the remote configuration, and the entries of the bundle that is made of them.
use sql_gatekeeper.Prelude.{ℕ, String, Bool, List, ◌&&◌, not, ◌==◌, if◌then◌else◌}
use sql_gatekeeper.Prelude.Text.Number.{ℤ, pos}
use sql_gatekeeper.Prelude.Int.{eqb_ℤ, show_ℤ}
use sql_gatekeeper.Prelude.Dict.{Dict}
use sql_gatekeeper.Meta.{Value, other}

abbrev pub sync_origin : String
sync_origin = "spy.table_config"

-- `update_time` is left out: no code reads it.
pub record TableConfigRow : Type 0 where
  pub source_name : String
  pub catlog_name : String
  pub table_name : String
  pub begin_index : ℤ
  pub end_index : ℤ
  pub shard_count : ℤ

pub record ImportedDatasourceTarget : Type 0 where
  pub host : String
  pub port : ℤ
  pub database_name : String
  pub username : String
  pub password_secret_ref : String

-- The dicts of the bundle.
pub record DatasourceRecord : Type 0 where
  pub datasource_code : String
  pub display_name : String
  pub db_type : String
  pub host : String
  pub port : ℤ
  pub database_name : String
  pub username : String
  pub password_secret_ref : String
  pub read_only : Bool
  pub enabled : Bool
  pub extra : Dict Value

pub record TableRecord : Type 0 where
  pub table_name : String
  pub description : String
  pub route_source : String
  pub physical_name_template : String
  pub default_policy_code : String
  pub enabled : Bool
  pub extra : Dict Value

pub record FactorRecord : Type 0 where
  pub logical_table_name : String
  pub factor_name : String
  pub source_type : String
  pub source_key : String
  pub required : Bool
  pub extractor_config : Dict Value
  pub enabled : Bool

pub record RuleRecord : Type 0 where
  pub logical_table_name : String
  pub rule_name : String
  pub rule_type : String
  pub expression : String
  pub output_format : String
  pub enabled : Bool

pub record RouteRecord : Type 0 where
  pub logical_table_name : String
  pub route_value : String
  pub physical_table_name : String
  pub datasource_code : String
  pub enabled : Bool
  pub extra : Dict Value

pub record SyncBundle : Type 0 where
  pub datasources : List DatasourceRecord
  pub logical_tables : List TableRecord
  pub route_factors : List FactorRecord
  pub route_rules : List RuleRecord
  pub physical_routes : List RouteRecord
  pub skipped_rows : ℕ

-- The JSON values of an integer and of a Boolean.
abbrev pub integer : ℤ → Value
integer i = other (not (eqb_ℤ i (pos 0))) (show_ℤ i)

abbrev pub boolean : Bool → Value
boolean b = other b (if b then "True" else "False")

-- The same source, bounds and shard count.
abbrev pub same_segment : TableConfigRow → TableConfigRow → Bool
same_segment r s =
    r.source_name == s.source_name
    && (eqb_ℤ r.begin_index s.begin_index
        && (eqb_ℤ r.end_index s.end_index && eqb_ℤ r.shard_count s.shard_count))
