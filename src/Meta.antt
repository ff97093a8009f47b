-- ===== src/Meta.antt =====
-- db/models.py: the metadata tables. Ids and limits are natural numbers; the time stamps are
-- left out, since no code reads them.
pub mod Inserts
use sql_gatekeeper.Prelude.{ℕ, String, Bool, false, not, Option, List, is_nil, eqb}
use sql_gatekeeper.Prelude.Text.{is_empty}
use sql_gatekeeper.Prelude.Text.Number.{ℤ, show}
use sql_gatekeeper.Prelude.Dict.{Dict}

-- A JSON value, as far as the code looks at it. A list carries the texts of its items and its own;
-- `other` is a number, a Boolean or an object, with its truth value and its text.
pub data Value : Type 0 where
  null : Value
  text : String → Value
  list : List String → String → Value
  other : Bool → String → Value

-- `str(v)`
abbrev pub str : Value → String
str null = "None"
str (text s) = s
str (list items shown) = shown
str (other truth shown) = shown

-- The JSON number n.
abbrev pub number : ℕ → Value
number n = other (not (eqb n 0)) (show n)

-- `bool(v)`
abbrev pub truthy : Value → Bool
truthy null = false
truthy (text s) = not (is_empty s)
truthy (list items shown) = not (is_nil items)
truthy (other truth shown) = truth

-- A dict, or `none` for a JSON value that is not one.
abbrev pub Extra : Type 0
Extra = Option (Dict Value)

pub record DatasourceInstance : Type 0 where
  pub id : ℕ
  pub datasource_code : String
  pub display_name : String
  pub db_type : String
  pub host : String
  pub port : ℤ
  pub database_name : String
  pub username : String
  pub password_secret_ref : String
  pub read_only : Bool
  pub enabled : Bool
  pub extra : Extra

pub record LogicalTable : Type 0 where
  pub id : ℕ
  pub table_name : String
  pub description : String
  pub route_source : String
  pub physical_name_template : String
  pub default_policy_code : String
  pub enabled : Bool
  pub extra : Extra

pub record RouteFactorDef : Type 0 where
  pub id : ℕ
  pub logical_table_id : ℕ
  pub factor_name : String
  pub source_type : String
  pub source_key : String
  pub required : Bool
  pub extractor_config : Extra
  pub enabled : Bool

pub record RouteRule : Type 0 where
  pub id : ℕ
  pub logical_table_id : ℕ
  pub rule_name : String
  pub rule_type : String
  pub expression : String
  pub output_format : String
  pub enabled : Bool

pub record PhysicalTableRoute : Type 0 where
  pub id : ℕ
  pub logical_table_id : ℕ
  pub route_value : String
  pub physical_table_name : String
  pub datasource_id : ℕ
  pub enabled : Bool
  pub extra : Extra

pub record PolicySet : Type 0 where
  pub id : ℕ
  pub policy_code : String
  pub allow_sql_types : List String
  pub require_limit : Bool
  pub max_limit : ℕ
  pub large_table_row_threshold : ℕ
  pub max_scan_rows : ℕ
  pub reject_full_scan_on_large_table : Bool
  pub reject_using_temporary : Bool
  pub reject_using_filesort : Bool
  pub enabled : Bool

-- The rows that a session sees.
pub record MetaDb : Type 0 where
  pub datasources : List DatasourceInstance
  pub logical_tables : List LogicalTable
  pub route_factors : List RouteFactorDef
  pub route_rules : List RouteRule
  pub physical_routes : List PhysicalTableRoute
  pub policies : List PolicySet
