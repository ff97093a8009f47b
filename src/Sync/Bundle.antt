-- ===== src/Sync/Bundle.antt =====
-- `build_sync_bundle`, and the target that the environment names.
pub mod Collects
pub mod Closed
use mathlib.Core.List.{foldl}
use sql_gatekeeper.Prelude.{
  ℕ, ◌+◌, String, Bool, true, false, Option, none, some, List, [], ◌∷◌, ◌++◌, map, Result, ok,
  raise, index_error, value_error, runtime_error, fold_result, ◌>>=◌, ◌<>◌, if◌then◌else◌,
}
use sql_gatekeeper.Prelude.Text.{is_empty, strip}
use sql_gatekeeper.Prelude.Text.Number.{ℤ, pos, parse_int}
use sql_gatekeeper.Prelude.Sorting.{sorted_by}
use sql_gatekeeper.Prelude.Dict.{Dict, get, put}
use sql_gatekeeper.Meta.{Value, text}
use sql_gatekeeper.Sync.Library.{Library}
use sql_gatekeeper.Sync.Identifiers.{or_else, make_datasource_code, make_logical_table_name}
use sql_gatekeeper.Sync.Records.{
  TableConfigRow, ImportedDatasourceTarget, DatasourceRecord, TableRecord, FactorRecord, RuleRecord,
  RouteRecord, SyncBundle, sync_origin,
}
use sql_gatekeeper.Sync.Group.{GroupEntries, build_group}

-- `d.setdefault(k, a)`
unfoldable pub set_default {ℓ} : {A : Type ℓ} → String → A → Dict A → Dict A
set_default k a d = elim (get k d) [ none ↦ put k a d | some b ↦ d ]

-- `d.setdefault(k, []).append(a)`
unfoldable pub append_to {ℓ} : {A : Type ℓ} → String → A → Dict (List A) → Dict (List A)
append_to k a d = elim (get k d) [ none ↦ put k (a ∷ []) d | some as' ↦ put k (as' ++ a ∷ []) d ]

-- What the loop over the rows collects.
pub record Collected : Type 0 where
  pub datasource_map : Dict DatasourceRecord
  pub logical_groups : Dict (List TableConfigRow)
  pub skipped_rows : ℕ

abbrev pub normalized : TableConfigRow → TableConfigRow
normalized row = record row {
  source_name = strip row.source_name;
  catlog_name = strip row.catlog_name;
  table_name = strip row.table_name;
}

module _ (lib : Library) (imported_target : ImportedDatasourceTarget) where
  abbrev pub datasource_record : String → DatasourceRecord
  datasource_record source_name = record {
    datasource_code = make_datasource_code lib source_name;
    display_name = or_else source_name "unknown_source";
    db_type = "mysql";
    host = imported_target.host;
    port = imported_target.port;
    database_name = imported_target.database_name;
    username = imported_target.username;
    password_secret_ref = imported_target.password_secret_ref;
    read_only = true;
    enabled = true;
    extra =
        ("sync_origin", text sync_origin)
        ∷ ("original_source_name", text source_name)
        ∷ ("connection_origin", text "db_skill_env")
        ∷ [];
  }

  -- A row with a table name, after `strip`.
  abbrev pub collect_normalized : Collected → TableConfigRow → Collected
  collect_normalized c row = record c {
    datasource_map =
        set_default (make_datasource_code lib row.source_name) (datasource_record row.source_name)
          c.datasource_map;
    logical_groups =
        append_to (make_logical_table_name lib row.catlog_name row.table_name) row c.logical_groups;
  }

  unfoldable pub collect_row : Collected → TableConfigRow → Collected
  collect_row c row =
      if is_empty (strip row.table_name)
      then record c { skipped_rows = c.skipped_rows + 1 }
      else collect_normalized c (normalized row)

  unfoldable pub collect : List TableConfigRow → Collected
  collect rows =
      foldl collect_row (record { datasource_map = []; logical_groups = []; skipped_rows = 0 }) rows

  abbrev pub add_entries : SyncBundle → GroupEntries → SyncBundle
  add_entries b e = record b {
    logical_tables = b.logical_tables ++ e.table ∷ [];
    route_factors = b.route_factors ++ e.factors;
    route_rules = b.route_rules ++ e.rules;
    physical_routes = b.physical_routes ++ e.routes;
  }

  -- `group_rows[0]` is the sample.
  unfoldable pub group_step : SyncBundle → String × List TableConfigRow → Result SyncBundle
  group_step b (logical_name, []) = raise index_error
  group_step b (logical_name, sample ∷ others) =
      build_group lib logical_name sample others >>= λ e. ok (add_entries b e)

  abbrev pub empty_bundle : Collected → SyncBundle
  empty_bundle c = record {
    datasources =
        sorted_by (λ (d : DatasourceRecord). d.datasource_code)
          (map (λ (p : String × DatasourceRecord). p.1) c.datasource_map);
    logical_tables = [];
    route_factors = [];
    route_rules = [];
    physical_routes = [];
    skipped_rows = c.skipped_rows;
  }

  unfoldable pub bundle_of : Collected → Result SyncBundle
  bundle_of c =
      fold_result group_step (empty_bundle c)
        (sorted_by (λ (p : String × List TableConfigRow). p.0) c.logical_groups)

  unfoldable pub build_sync_bundle : List TableConfigRow → Result SyncBundle
  build_sync_bundle rows = bundle_of (collect rows)

-- `os.environ.get(k, d)`
abbrev env_or : Dict String → String → String → String
env_or env k d = elim (get k env) [ none ↦ d | some v ↦ v ]

unfoldable pub build_imported_datasource_target_from_env :
    Dict String → Result ImportedDatasourceTarget
build_imported_datasource_target_from_env env =
    let password = env_or env "SPY_DB_PASSWORD" "" in
    let target : Result ImportedDatasourceTarget =
      elim (parse_int (env_or env "SPY_DB_PORT" "13306")) [
        | none ↦ raise value_error
        | some port ↦ ok (record {
          host = env_or env "SPY_DB_HOST" "devtest.wb.sql.wb-intra.com";
          port = port;
          database_name = env_or env "SPY_DB_NAME" "spy";
          username = env_or env "SPY_DB_USER" "test_liuxiaofeng";
          password_secret_ref = "local:" <> password;
        })
      ] in
    if is_empty password then raise runtime_error else target

-- A row that the cursor of `fetch_remote_table_config` returns: NULL for `none`.
pub record RemoteRow : Type 0 where
  pub source_name : Option String
  pub catlog_name : Option String
  pub table_name : Option String
  pub begin_index : Option ℤ
  pub end_index : Option ℤ
  pub shard_count : Option ℤ

abbrev text_of : Option String → String
text_of none = ""
text_of (some s) = s

abbrev int_of : Option ℤ → ℤ
int_of none = pos 0
int_of (some i) = i

-- The rows that `fetch_remote_table_config` makes of the cursor's.
unfoldable pub config_row : RemoteRow → TableConfigRow
config_row row = record {
  source_name = text_of row.source_name;
  catlog_name = text_of row.catlog_name;
  table_name = text_of row.table_name;
  begin_index = int_of row.begin_index;
  end_index = int_of row.end_index;
  shard_count = int_of row.shard_count;
}
