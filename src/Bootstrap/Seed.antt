-- ===== src/Bootstrap/Seed.antt =====
-- `seed_reference_data`.
use sql_gatekeeper.Prelude.{ℕ, String, ◌<>◌, List, [], ◌∷◌, Result, ok, ◌>>=◌, if◌then◌else◌}
use sql_gatekeeper.Prelude.Text.{is_empty}
use sql_gatekeeper.Prelude.Text.Number.{ℤ, show}
use sql_gatekeeper.Meta.{
  text, list, DatasourceInstance, LogicalTable, RouteFactorDef, RouteRule, PhysicalTableRoute,
  MetaDb,
}
use sql_gatekeeper.Meta.Inserts.{Ids, unless_error}
use sql_gatekeeper.Repositories.{Orm}
use sql_gatekeeper.Redis.Types.{Settings}
use sql_gatekeeper.Bootstrap.Rows.{upsert}
use sql_gatekeeper.Bootstrap.Upserts.{
  DatasourceArguments, upsert_policy, upsert_datasource, upsert_logical_table, upsert_route_factor,
  upsert_route_rule, upsert_physical_route,
}

pub record SeedPlan : Type 0 where
  pub datasource_codes : List String
  pub logical_tables : List String
  pub policy_codes : List String

abbrev pub build_seed_plan : SeedPlan
build_seed_plan = record {
  datasource_codes = "biz_user_db" ∷ "biz_order_db" ∷ "demo_redis" ∷ [];
  logical_tables = "user" ∷ "order" ∷ [];
  policy_codes = "default_select_guard" ∷ [];
}

-- The fields of `Settings` (config.py) that only the seed reads.
pub record DemoSettings : Type 0 where
  pub demo_user_db_host : String
  pub demo_user_db_port : ℤ
  pub demo_user_db_name : String
  pub demo_user_db_user : String
  pub demo_user_db_password : String
  pub demo_order_db_host : String
  pub demo_order_db_port : ℤ
  pub demo_order_db_name : String
  pub demo_order_db_user : String
  pub demo_order_db_password : String

abbrev pub user_datasource : DemoSettings → DatasourceArguments
user_datasource settings = record {
  datasource_code = "biz_user_db";
  display_name = "Business User DB";
  host = settings.demo_user_db_host;
  port = settings.demo_user_db_port;
  database_name = settings.demo_user_db_name;
  username = settings.demo_user_db_user;
  password_secret_ref = "local:" <> settings.demo_user_db_password;
  db_type = "mysql";
  extra = [];
}

abbrev pub order_datasource : DemoSettings → DatasourceArguments
order_datasource settings = record {
  datasource_code = "biz_order_db";
  display_name = "Business Order DB";
  host = settings.demo_order_db_host;
  port = settings.demo_order_db_port;
  database_name = settings.demo_order_db_name;
  username = settings.demo_order_db_user;
  password_secret_ref = "local:" <> settings.demo_order_db_password;
  db_type = "mysql";
  extra = [];
}

abbrev pub redis_datasource : Settings → DatasourceArguments
redis_datasource settings = record {
  datasource_code = settings.redis_datasource_code;
  display_name = "Demo Redis";
  host = settings.redis_host;
  port = settings.redis_port;
  database_name = show settings.redis_db;
  username = "";
  password_secret_ref =
      if is_empty settings.redis_password then "" else "local:" <> settings.redis_password;
  db_type = "redis";
  extra =
      ("catlog_name", text "demo")
      ∷ ("redis_catalog", text "demo")
      ∷ (
        "allowed_key_prefixes",
        list ("demo:" ∷ "user:" ∷ "order:" ∷ []) "['demo:', 'user:', 'order:']",
      )
      ∷ [];
}

-- `seed_reference_data`, by the tables that its calls read and write, in their order.
module _ (orm : Orm) (ids : Ids) where
  -- With the ids of the two databases.
  unfoldable pub seed_datasources :
      DemoSettings → Settings → List DatasourceInstance → Result ((ℕ × ℕ) × List DatasourceInstance)
  seed_datasources demo settings rows = do
    (user_ds_id, one) ← upsert orm ids (upsert_datasource orm (user_datasource demo)) rows
    (order_ds_id, two) ← upsert orm ids (upsert_datasource orm (order_datasource demo)) one
    (_, three) ← upsert orm ids (upsert_datasource orm (redis_datasource settings)) two
    ok ((user_ds_id, order_ds_id), three)

  -- With the ids of the two tables.
  unfoldable pub seed_logical_tables : List LogicalTable → Result ((ℕ × ℕ) × List LogicalTable)
  seed_logical_tables rows = do
    (user_table_id, one) ←
        upsert orm ids
          (upsert_logical_table orm "user" "Logical user table" "sql_or_physical_table"
            "user_{suffix}")
          rows
    (order_table_id, two) ←
        upsert orm ids
          (upsert_logical_table orm "order" "Logical order table" "route_context_or_sql"
            "order_{biz_date}")
          one
    ok ((user_table_id, order_table_id), two)

  unfoldable pub seed_route_factors : ℕ → ℕ → List RouteFactorDef → Result (List RouteFactorDef)
  seed_route_factors user_table_id order_table_id rows = do
    (_, one) ←
        upsert orm ids (upsert_route_factor orm user_table_id "uid" "sql_predicate" "uid") rows
    (_, two) ←
        upsert orm ids
          (upsert_route_factor orm order_table_id "biz_date" "route_context" "biz_date") one
    ok two

  unfoldable pub seed_route_rules : ℕ → ℕ → List RouteRule → Result (List RouteRule)
  seed_route_rules user_table_id order_table_id rows = do
    (_, one) ←
        upsert orm ids
          (upsert_route_rule orm user_table_id "user_mod_2" "mod" "int(uid) % 2" "{value}") rows
    (_, two) ←
        upsert orm ids
          (upsert_route_rule orm order_table_id "order_month" "format" "biz_date.replace('-', '_')"
            "{value}")
          one
    ok two

  unfoldable pub seed_physical_routes :
      ℕ → ℕ → ℕ → ℕ → List PhysicalTableRoute → Result (List PhysicalTableRoute)
  seed_physical_routes user_table_id order_table_id user_ds_id order_ds_id rows = do
    (_, one) ← upsert orm ids (upsert_physical_route orm user_table_id "0" "user_0" user_ds_id) rows
    (_, two) ← upsert orm ids (upsert_physical_route orm user_table_id "1" "user_1" user_ds_id) one
    (_, three) ←
        upsert orm ids
          (upsert_physical_route orm order_table_id "2025_06" "order_2025_06" order_ds_id) two
    (_, four) ←
        upsert orm ids
          (upsert_physical_route orm order_table_id "2025_07" "order_2025_07" order_ds_id) three
    ok four

  unfoldable pub seed_reference_data : DemoSettings → Settings → MetaDb → Result MetaDb
  seed_reference_data demo settings db = do
    (_, policies) ← upsert orm ids (upsert_policy orm) db.policies
    ((user_ds_id, order_ds_id), datasources) ← seed_datasources demo settings db.datasources
    ((user_table_id, order_table_id), tables) ← seed_logical_tables db.logical_tables
    factors ← seed_route_factors user_table_id order_table_id db.route_factors
    rules ← seed_route_rules user_table_id order_table_id db.route_rules
    routes ←
        seed_physical_routes user_table_id order_table_id user_ds_id order_ds_id db.physical_routes
    let db' : MetaDb = record {
      datasources = datasources;
      logical_tables = tables;
      route_factors = factors;
      route_rules = rules;
      physical_routes = routes;
      policies = policies;
    }
    _ ← unless_error (ids.commit_error db')
    ok db'
