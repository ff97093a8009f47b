-- ===== src/Sync/Store.antt =====
-- The rounds of `sync_bundle_to_local`, and the deletion before them. The rows of table_stats_snapshot
-- are left out: no code writes them.
pub mod Rounds
use sql_gatekeeper.Prelude.{
  ℕ, String, Bool, true, false, not, ◌&&◌, Option, none, some, List, [], ◌∷◌, ◌++◌, map, any, keep,
  length, eqb, ◌==◌, Result, ok, raise, key_error, integrity_error, fold_result, ◌>>=◌,
  if◌then◌else◌,
}
use sql_gatekeeper.Prelude.Dict.{Dict, get, put}
use sql_gatekeeper.Meta.{
  Value, null, text, list, other, Extra, DatasourceInstance, LogicalTable, RouteFactorDef,
  RouteRule, PhysicalTableRoute, PolicySet, MetaDb,
}
use sql_gatekeeper.Meta.Inserts.{
  Ids, insert, same_datasource, same_table, same_factor, same_rule, same_route, same_policy,
}
use sql_gatekeeper.Repositories.{Orm}
use sql_gatekeeper.Filters.{default_policy_code}
use sql_gatekeeper.Sync.Records.{
  DatasourceRecord, TableRecord, FactorRecord, RuleRecord, RouteRecord, SyncBundle, sync_origin,
}

-- `extra["sync_origin"].as_string() == SYNC_ORIGIN`
abbrev is_origin : Value → Bool
is_origin (text s) = s == sync_origin
is_origin _ = false

abbrev pub is_imported : Extra → Bool
is_imported none = false
is_imported (some extra) = elim (get "sync_origin" extra) [ none ↦ false | some v ↦ is_origin v ]

-- `in_(ids)`
abbrev pub is_in : List ℕ → ℕ → Bool
is_in ids i = any (λ j. eqb j i) ids

abbrev pub imported_ids : List LogicalTable → List ℕ
imported_ids tables =
    map (λ (t : LogicalTable). t.id) (keep (λ (t : LogicalTable). is_imported t.extra) tables)

abbrev pub imported_datasource_ids : List DatasourceInstance → List ℕ
imported_datasource_ids rows =
    map (λ (d : DatasourceInstance). d.id)
      (keep (λ (d : DatasourceInstance). is_imported d.extra) rows)

-- The imported tables with what belongs to them; an empty list of ids deletes nothing.
unfoldable pub delete_imported_tables : MetaDb → MetaDb
delete_imported_tables db =
    let ids = imported_ids db.logical_tables in
    record db {
      physical_routes =
          keep (λ (r : PhysicalTableRoute). not (is_in ids r.logical_table_id)) db.physical_routes;
      route_factors =
          keep (λ (f : RouteFactorDef). not (is_in ids f.logical_table_id)) db.route_factors;
      route_rules = keep (λ (r : RouteRule). not (is_in ids r.logical_table_id)) db.route_rules;
      logical_tables = keep (λ (t : LogicalTable). not (is_in ids t.id)) db.logical_tables;
    }

-- A datasource that a route refers to cannot be deleted.
unfoldable pub delete_imported_datasources : MetaDb → Result MetaDb
delete_imported_datasources db =
    let ids = imported_datasource_ids db.datasources in
    if any (λ (r : PhysicalTableRoute). is_in ids r.datasource_id) db.physical_routes
    then raise integrity_error
    else ok (record db {
      datasources = keep (λ (d : DatasourceInstance). not (is_in ids d.id)) db.datasources;
    })

unfoldable pub delete_previous_import : MetaDb → Result MetaDb
delete_previous_import db = delete_imported_datasources (delete_imported_tables db)

-- The objects of a loop by their names, with the ids that `flush` gives them, and the table's rows.
pub record Stored (A : Type 0) : Type 0 where
  pub objects : Dict ℕ
  pub rows : List A

-- One round of a loop that adds objects under their names.
unfoldable pub store :
    {R A : Type 0}
    → (R → String)
    → (R → ℕ → A)
    → (A → ℕ)
    → (A → A → Bool)
    → Ids
    → Stored A
    → R
    → Result (Stored A)
store name_of make id_of conflicts ids s r =
    let i = ids.next_id (map id_of s.rows) in
    insert ids conflicts (make r i) s.rows >>= λ rows.
    ok (record { objects = put (name_of r) i s.objects; rows = rows })

-- One round of `commit` over the objects that wait for their ids.
unfoldable pub commit_row :
    {A : Type 0} → (A → ℕ) → (A → A → Bool) → Ids → List A → (ℕ → A) → Result (List A)
commit_row id_of conflicts ids rows waiting =
    insert ids conflicts (waiting (ids.next_id (map id_of rows))) rows

-- `objects[name].id`
abbrev pub object_id : Dict ℕ → String → Result ℕ
object_id objects name = elim (get name objects) [ none ↦ raise key_error | some i ↦ ok i ]

-- What a loop adds to the session, one object for a record.
unfoldable pub each_of : {R B : Type 0} → (R → Result B) → List R → Result (List B)
each_of f [] = ok []
each_of f (r ∷ rs) = f r >>= λ b. each_of f rs >>= λ bs. ok (b ∷ bs)

abbrev pub datasource_of : DatasourceRecord → ℕ → DatasourceInstance
datasource_of d i = record {
  id = i;
  datasource_code = d.datasource_code;
  display_name = d.display_name;
  db_type = d.db_type;
  host = d.host;
  port = d.port;
  database_name = d.database_name;
  username = d.username;
  password_secret_ref = d.password_secret_ref;
  read_only = d.read_only;
  enabled = d.enabled;
  extra = some d.extra;
}

abbrev pub table_of : TableRecord → ℕ → LogicalTable
table_of t i = record {
  id = i;
  table_name = t.table_name;
  description = t.description;
  route_source = t.route_source;
  physical_name_template = t.physical_name_template;
  default_policy_code = t.default_policy_code;
  enabled = t.enabled;
  extra = some t.extra;
}

abbrev pub factor_of : ℕ → FactorRecord → ℕ → RouteFactorDef
factor_of table_id f i = record {
  id = i;
  logical_table_id = table_id;
  factor_name = f.factor_name;
  source_type = f.source_type;
  source_key = f.source_key;
  required = f.required;
  extractor_config = some f.extractor_config;
  enabled = f.enabled;
}

abbrev pub rule_of : ℕ → RuleRecord → ℕ → RouteRule
rule_of table_id r i = record {
  id = i;
  logical_table_id = table_id;
  rule_name = r.rule_name;
  rule_type = r.rule_type;
  expression = r.expression;
  output_format = r.output_format;
  enabled = r.enabled;
}

abbrev pub route_of : ℕ → ℕ → RouteRecord → ℕ → PhysicalTableRoute
route_of table_id datasource_id r i = record {
  id = i;
  logical_table_id = table_id;
  route_value = r.route_value;
  physical_table_name = r.physical_table_name;
  datasource_id = datasource_id;
  enabled = r.enabled;
  extra = some r.extra;
}

abbrev pub add_factor : Dict ℕ → FactorRecord → Result (ℕ → RouteFactorDef)
add_factor tables f = object_id tables f.logical_table_name >>= λ t. ok (factor_of t f)

abbrev pub add_rule : Dict ℕ → RuleRecord → Result (ℕ → RouteRule)
add_rule tables r = object_id tables r.logical_table_name >>= λ t. ok (rule_of t r)

abbrev pub add_route : Dict ℕ → Dict ℕ → RouteRecord → Result (ℕ → PhysicalTableRoute)
add_route tables datasources r = object_id tables r.logical_table_name >>= λ t.
    object_id datasources r.datasource_code >>= λ d. ok (route_of t d r)
