-- ===== src/Sync/Write.antt =====
-- `sync_bundle_to_local`: the calls of the session in their order, on the rows that it sees. An
-- exception leaves the metadata as it was.
pub mod Loops
pub mod Sessions
pub mod Finishes
pub mod Replaces
pub mod Duplicates
pub mod Refers
use sql_gatekeeper.Prelude.{
  ℕ, String, true, Option, none, some, List, [], ◌∷◌, keep, length, Result, ok, raise, fold_result,
  ◌>>=◌, map,
}
use sql_gatekeeper.Prelude.Dict.{Dict}
use sql_gatekeeper.Meta.{
  DatasourceInstance, LogicalTable, RouteFactorDef, RouteRule, PhysicalTableRoute, PolicySet,
  MetaDb,
}
use sql_gatekeeper.Meta.Inserts.{
  Ids, unless_error, insert, same_datasource, same_table, same_factor, same_rule, same_route,
  same_policy,
}
use sql_gatekeeper.Repositories.{Orm}
use sql_gatekeeper.Filters.{default_policy_code}
use sql_gatekeeper.Sync.Records.{
  DatasourceRecord, TableRecord, FactorRecord, RuleRecord, RouteRecord, SyncBundle,
}
use sql_gatekeeper.Sync.Store.{
  Stored, store, commit_row, each_of, datasource_of, table_of, add_factor, add_rule, add_route,
  delete_previous_import,
}

-- The counts of the summary.
pub record Summary : Type 0 where
  pub datasource_count : ℕ
  pub logical_table_count : ℕ
  pub route_factor_count : ℕ
  pub route_rule_count : ℕ
  pub physical_route_count : ℕ
  pub skipped_row_count : ℕ

abbrev pub default_policy : ℕ → PolicySet
default_policy i = record {
  id = i;
  policy_code = default_policy_code;
  allow_sql_types = "select" ∷ [];
  require_limit = true;
  max_limit = 1000;
  large_table_row_threshold = 100000;
  max_scan_rows = 10000;
  reject_full_scan_on_large_table = true;
  reject_using_temporary = true;
  reject_using_filesort = true;
  enabled = true;
}

abbrev pub summary_of : SyncBundle → Summary
summary_of bundle = record {
  datasource_count = length bundle.datasources;
  logical_table_count = length bundle.logical_tables;
  route_factor_count = length bundle.route_factors;
  route_rule_count = length bundle.route_rules;
  physical_route_count = length bundle.physical_routes;
  skipped_row_count = bundle.skipped_rows;
}

module _ (orm : Orm) (ids : Ids) where
  abbrev insert_policy : List PolicySet → Option PolicySet → Result (List PolicySet)
  insert_policy policies (some existing) = ok policies
  insert_policy policies none =
      insert ids (same_policy orm)
        (default_policy (ids.next_id (map (λ (p : PolicySet). p.id) policies))) policies

  unfoldable pub ensure_default_policy : List PolicySet → Result (List PolicySet)
  ensure_default_policy policies =
      orm.one_or_none PolicySet
        (keep (λ (p : PolicySet). orm.same p.policy_code default_policy_code) policies)
      >>= insert_policy policies

  unfoldable pub store_datasources :
      List DatasourceRecord → List DatasourceInstance → Result (Stored DatasourceInstance)
  store_datasources records rows =
      fold_result
        (store (λ (d : DatasourceRecord). d.datasource_code) datasource_of
          (λ (d : DatasourceInstance). d.id) (same_datasource orm) ids)
        (record { objects = []; rows = rows }) records

  unfoldable pub store_tables : List TableRecord → List LogicalTable → Result (Stored LogicalTable)
  store_tables records rows =
      fold_result
        (store (λ (t : TableRecord). t.table_name) table_of (λ (t : LogicalTable). t.id)
          (same_table orm) ids)
        (record { objects = []; rows = rows }) records

  -- `session.commit()`, with the objects that the last three loops have added.
  unfoldable pub commit :
      MetaDb
      → Stored DatasourceInstance
      → Stored LogicalTable
      → List PolicySet
      → List (ℕ → RouteFactorDef)
      → List (ℕ → RouteRule)
      → List (ℕ → PhysicalTableRoute)
      → Result MetaDb
  commit db datasources tables policies factors rules routes = do
    factors' ←
        fold_result (commit_row (λ (f : RouteFactorDef). f.id) (same_factor orm) ids)
          db.route_factors factors
    rules' ←
        fold_result (commit_row (λ (r : RouteRule). r.id) (same_rule orm) ids) db.route_rules rules
    routes' ←
        fold_result (commit_row (λ (r : PhysicalTableRoute). r.id) (same_route orm) ids)
          db.physical_routes routes
    ok (record {
      datasources = datasources.rows;
      logical_tables = tables.rows;
      route_factors = factors';
      route_rules = rules';
      physical_routes = routes';
      policies = policies;
    })

  -- After the deletion.
  unfoldable pub write_bundle : SyncBundle → List PolicySet → MetaDb → Result MetaDb
  write_bundle bundle policies db = do
    datasources ← store_datasources bundle.datasources db.datasources
    tables ← store_tables bundle.logical_tables db.logical_tables
    factors ← each_of (add_factor tables.objects) bundle.route_factors
    rules ← each_of (add_rule tables.objects) bundle.route_rules
    routes ← each_of (add_route tables.objects datasources.objects) bundle.physical_routes
    commit db datasources tables policies factors rules routes

  -- The block under `with Session(engine)`, up to `commit`.
  unfoldable pub with_session : SyncBundle → MetaDb → Result (Summary × MetaDb)
  with_session bundle db = do
    policies ← ensure_default_policy db.policies
    kept ← delete_previous_import db
    db' ← write_bundle bundle policies kept
    ok (summary_of bundle, db')

  -- `create_metadata_schema`, the block and the end of its `commit`.
  unfoldable pub sync_bundle_to_local : SyncBundle → MetaDb → Result (Summary × MetaDb)
  sync_bundle_to_local bundle db = do
    _ ← unless_error ids.schema_error
    (summary, db') ← with_session bundle db
    _ ← unless_error (ids.commit_error db')
    ok (summary, db')
