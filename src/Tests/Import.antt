-- ===== src/Tests/Import.antt =====
-- The import at concrete inputs.
use mathlib.Core.List.Memᴰ
use mathlib.Core.List.{Memᴰ}
use Prim.Native.String.{count}
use sql_gatekeeper.Prelude.{
  ◌≢◌, none, key_error, ℕ, ◌+◌, ◌<◌, ◌≤◌, ◌≡◌, refl, true, false, List, [], ◌∷◌, Result, Exception,
  ok, raise, integrity_error, value_error, arith, ◌⊎◌, inl, inr,
}
use sql_gatekeeper.Meta.{LogicalTable, MetaDb}
use sql_gatekeeper.Meta.Inserts.{Ids}
use sql_gatekeeper.Sync.Identifiers.{make_datasource_code, make_logical_table_name}
use sql_gatekeeper.Sync.Identifiers.Bounds.{made_names-le}
use sql_gatekeeper.Sync.Records.{TableConfigRow, RouteRecord, TableRecord, SyncBundle}
use sql_gatekeeper.Sync.Routes.{route_record, physical_routes}
use sql_gatekeeper.Sync.Routes.Notes.{target_of}
use sql_gatekeeper.Sync.Routes.Covers.{physical_routes-covers, physical_routes-consistent}
use sql_gatekeeper.Sync.Routes.Conflicts.{RowsConflict, physical_routes-cases}
use sql_gatekeeper.Sync.Routes.Distinct.{DistinctValues, physical_routes-DistinctValues}
use sql_gatekeeper.Sync.Write.Duplicates.{HasDuplicate, sync_bundle_to_local-HasDuplicate}
use sql_gatekeeper.Sync.Write.Refers.{RefersTo, sync_bundle_to_local-RefersTo}
use sql_gatekeeper.Sync.Routes.Origin.{ComesFromRow, physical_routes-ComesFromRow}
use sql_gatekeeper.Sync.Group.{GroupEntries, entries, build_group}
use sql_gatekeeper.Sync.Group.Factor.{build_group-routes_every_remainder}
use sql_gatekeeper.Sync.Bundle.{build_sync_bundle, empty_bundle, collect}
use sql_gatekeeper.Sync.Bundle.Closed.{IsClosed, build_sync_bundle-IsClosed}
use sql_gatekeeper.Sync.Store.{table_of, is_imported}
use sql_gatekeeper.Sync.Write.{Summary, summary_of, sync_bundle_to_local}
use sql_gatekeeper.Sync.Write.Finishes.{sync_bundle_to_local-raises}
use sql_gatekeeper.Sync.Write.Replaces.{
  IsOf, sync_bundle_to_local-tables, sync_bundle_to_local-Memᴰ,
}
use sql_gatekeeper.Tests.World.{orm, meta}
use sql_gatekeeper.Tests.Sync.{lib, target, row, rows, bundle, bundle_built}
use sql_gatekeeper.Tests.Runs.{sync_runs, write_runs}

-- One more than the sum of the ids.
abbrev pub above : List ℕ → ℕ
above [] = 1
above (i ∷ is) = i + above is

above-positive : (is : List ℕ) → 0 < above is
above-positive [] = omega arith
above-positive (i ∷ is) = let h = above-positive is in omega arith

pub above-lt : (is : List ℕ) (i : ℕ) → Memᴰ i is → i < above is
above-lt [] i m = elim m [ ]
above-lt (j ∷ is) i m = elim (Memᴰ.cases_cons m) [
  | inl same ↦ let p = above-positive is in omega (arith, same)
  | inr later ↦ let h = above-lt is i later in omega arith
]

abbrev pub ids : Ids
ids = record {
  next_id = above;
  next_id-fresh = λ is i m. let h = above-lt is i m in λ same. absurd (omega (arith, same));
  row_error = λ A row. none;
  schema_error = none;
  commit_error = λ db. none;
}

abbrev shard_rows : List TableConfigRow
shard_rows = row "user1" "user" "appUser" 0 1 2 ∷ row "user2" "user" "appUser" 2 3 4 ∷ []

abbrev routes : List RouteRecord
routes = elim (physical_routes lib "user_app_user" false true shard_rows) [
  | ok rs ↦ rs
  | raise e ↦ []
]

routes_made : physical_routes lib "user_app_user" false true shard_rows ≡ ok routes
unfolding sync_runs
routes_made = refl

physical_routes-covers_example :
    (r : RouteRecord) × Memᴰ r routes
    × (r.route_value ≡ "1")
    × (target_of r ≡ ("appUser_1", make_datasource_code lib "user1"))
unfolding sync_runs
physical_routes-covers_example =
    physical_routes-covers lib "user_app_user" false true shard_rows
      (row "user1" "user" "appUser" 0 1 2) ("1", "appUser_1") routes_made (Memᴰ.head refl)
      (Memᴰ.tail (Memᴰ.head refl))

-- The route of the first suffix.
abbrev route : RouteRecord
route = route_record lib "user_app_user" (row "user1" "user" "appUser" 0 1 2) "0" "appUser_0"

route_made : Memᴰ route routes
unfolding sync_runs
route_made = Memᴰ.head refl

-- One unsharded table, in two rows of other indices.
abbrev single_rows : List TableConfigRow
single_rows = row "main" "m" "t" 0 0 0 ∷ row "main" "m" "t" 0 1 0 ∷ []

abbrev single_routes : List RouteRecord
single_routes = elim (physical_routes lib "m_t" false false single_rows) [
  | ok rs ↦ rs
  | raise e ↦ []
]

singles_made : physical_routes lib "m_t" false false single_rows ≡ ok single_routes
unfolding sync_runs
singles_made = refl

abbrev first_single : RouteRecord
first_single = route_record lib "m_t" (row "main" "m" "t" 0 0 0) "0" "t"

abbrev second_single : RouteRecord
second_single = route_record lib "m_t" (row "main" "m" "t" 0 1 0) "0" "t"

first_single_made : Memᴰ first_single single_routes
unfolding sync_runs
first_single_made = Memᴰ.head refl

second_single_made : Memᴰ second_single single_routes
unfolding sync_runs
second_single_made = Memᴰ.tail (Memᴰ.head refl)

physical_routes-consistent_example :
    (first_single.physical_table_name ≡ second_single.physical_table_name)
    × (first_single.datasource_code ≡ second_single.datasource_code)
physical_routes-consistent_example =
    physical_routes-consistent lib "m_t" false false single_rows first_single second_single
      singles_made first_single_made second_single_made refl

physical_routes-ComesFromRow_example : ComesFromRow lib "user_app_user" false true shard_rows route
physical_routes-ComesFromRow_example =
    physical_routes-ComesFromRow lib "user_app_user" false true shard_rows route routes_made
      route_made

-- Four suffixes, and the modulus 4.
abbrev sharded_row : TableConfigRow
sharded_row = row "user1" "user" "appUser" 0 3 4

abbrev no_entries : GroupEntries
no_entries = entries lib "user_app_user" sharded_row 1 [] []

abbrev group : GroupEntries
group = elim (build_group lib "user_app_user" sharded_row []) [ ok e ↦ e | raise x ↦ no_entries ]

group_made : build_group lib "user_app_user" sharded_row [] ≡ ok group
unfolding sync_runs
group_made = refl

build_group-routes_every_remainder_example :
    (route : RouteRecord) × Memᴰ route group.routes × (route.route_value ≡ "3")
unfolding sync_runs
build_group-routes_every_remainder_example =
    build_group-routes_every_remainder lib "user_app_user" sharded_row [] 4 3 group_made refl refl
      (omega arith)

build_sync_bundle-IsClosed_example : IsClosed bundle
build_sync_bundle-IsClosed_example = build_sync_bundle-IsClosed lib target rows bundle_built

-- Two unsharded tables of one name.
abbrev conflicting : List TableConfigRow
conflicting = row "main" "m" "t" 0 0 0 ∷ row "main" "m" "T" 0 1 0 ∷ []

conflict_raises : build_sync_bundle lib target conflicting ≡ raise value_error
unfolding sync_runs
conflict_raises = refl

abbrev conflict_rows : List TableConfigRow
conflict_rows = row "main" "m" "t" 0 0 0 ∷ row "other" "m" "t" 0 1 0 ∷ []

physical_routes-cases_example :
    ((rs : List RouteRecord) × (physical_routes lib "m_t" false false conflict_rows ≡ ok rs)
      × (¬ RowsConflict lib "m_t" false false conflict_rows))
    ⊎ (physical_routes lib "m_t" false false conflict_rows ≡ raise value_error)
      × RowsConflict lib "m_t" false false conflict_rows
physical_routes-cases_example = physical_routes-cases lib "m_t" conflict_rows false false

made_names-le_example :
    (count (make_datasource_code lib "user1") ≤ 64)
    × (count (make_logical_table_name lib "user" "appUser") ≤ 128)
made_names-le_example = made_names-le lib "user1" "user" "appUser"

abbrev no_table : TableRecord
no_table = record {
  table_name = "";
  description = "";
  route_source = "";
  physical_name_template = "";
  default_policy_code = "";
  enabled = false;
  extra = [];
}

abbrev first_table : List TableRecord → TableRecord
first_table [] = no_table
first_table (t ∷ ts) = t

abbrev synced : Result (Summary × MetaDb)
synced = sync_bundle_to_local orm ids bundle meta

abbrev synced_meta : MetaDb
synced_meta = elim synced [ ok (s, db) ↦ db | raise x ↦ meta ]

sync_returns : sync_bundle_to_local orm ids bundle meta ≡ ok (summary_of bundle, synced_meta)
unfolding write_runs
sync_returns = refl

abbrev synced_table : LogicalTable
synced_table = table_of (first_table bundle.logical_tables) 2

sync_bundle_to_local-Memᴰ_example :
    (i : ℕ) × Memᴰ (table_of (first_table bundle.logical_tables) i) synced_meta.logical_tables
unfolding sync_runs
sync_bundle_to_local-Memᴰ_example =
    sync_bundle_to_local-Memᴰ orm ids bundle meta (first_table bundle.logical_tables) sync_returns
      (Memᴰ.head refl)

synced_there : Memᴰ synced_table synced_meta.logical_tables
unfolding write_runs
synced_there = Memᴰ.tail (Memᴰ.head refl)

sync_bundle_to_local-tables_example :
    Memᴰ synced_table meta.logical_tables × (is_imported synced_table.extra ≡ false)
    ⊎ IsOf orm ids bundle synced_table
sync_bundle_to_local-tables_example =
    sync_bundle_to_local-tables orm ids bundle meta synced_table sync_returns synced_there

-- Two rows of an unsharded table that differ in their bounds only.
abbrev twice_rows : List TableConfigRow
twice_rows = row "main" "m" "t" 0 0 0 ∷ row "main" "m" "t" 1 1 0 ∷ []

abbrev twice_bundle : SyncBundle
twice_bundle = elim (build_sync_bundle lib target twice_rows) [
  | ok b ↦ b
  | raise e ↦ empty_bundle lib target (collect lib target [])
]

twice_built : build_sync_bundle lib target twice_rows ≡ ok twice_bundle
unfolding sync_runs
twice_built = refl

-- Their two routes violate uq_table_route_value.
twice_raises : sync_bundle_to_local orm ids twice_bundle meta ≡ raise integrity_error
unfolding write_runs
twice_raises = refl

sync_bundle_to_local-raises_example : integrity_error ≢ key_error
sync_bundle_to_local-raises_example =
    sync_bundle_to_local-raises orm ids lib target twice_rows meta twice_built twice_raises

physical_routes-DistinctValues_example : DistinctValues routes
physical_routes-DistinctValues_example =
    physical_routes-DistinctValues lib "user_app_user" shard_rows routes_made

abbrev first_of : List RouteRecord → RouteRecord
first_of [] = route
first_of (r ∷ rs) = r

abbrev after_first : List RouteRecord → List RouteRecord
after_first [] = []
after_first (r ∷ rs) = rs

twice_duplicate : HasDuplicate orm ids twice_bundle
unfolding sync_runs
twice_duplicate = record {
  before = [];
  first = first_of twice_bundle.physical_routes;
  after = after_first twice_bundle.physical_routes;
  second = first_of (after_first twice_bundle.physical_routes);
  are_routes = refl;
  is_later = Memᴰ.head refl;
  same_table_name = refl;
  same_value = refl;
}

sync_bundle_to_local-HasDuplicate_example :
    (x : Exception) × (sync_bundle_to_local orm ids twice_bundle meta ≡ raise x)
sync_bundle_to_local-HasDuplicate_example =
    sync_bundle_to_local-HasDuplicate orm ids twice_bundle meta twice_duplicate

first_route : Memᴰ (first_of bundle.physical_routes) bundle.physical_routes
unfolding sync_runs
first_route = Memᴰ.head refl

sync_bundle_to_local-RefersTo_example : RefersTo synced_meta (first_of bundle.physical_routes)
sync_bundle_to_local-RefersTo_example =
    sync_bundle_to_local-RefersTo orm ids bundle meta (first_of bundle.physical_routes) sync_returns
      first_route
