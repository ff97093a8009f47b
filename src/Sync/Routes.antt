-- ===== src/Sync/Routes.antt =====
-- The physical routes of one logical table: the loops over its rows and their suffixes.
pub mod Notes
pub mod Covers
pub mod Origin
pub mod Conflicts
pub mod Distinct
use sql_gatekeeper.Prelude.{
  String, ◌<>◌, Bool, true, false, not, ◌&&◌, Option, none, some, List, [], ◌∷◌, ◌++◌, ◌==◌, Result,
  ok, raise, value_error, ◌>>=◌, fold_result, if◌then◌else◌,
}
use sql_gatekeeper.Prelude.Text.Number.{ℤ}
use sql_gatekeeper.Prelude.Int.{show_ℤ, eqb_ℤ, leb_ℤ, range_to}
use sql_gatekeeper.Prelude.Sorting.{sorted, text_le}
use sql_gatekeeper.Prelude.Dict.{Dict, get, put}
use sql_gatekeeper.Meta.{Value, text}
use sql_gatekeeper.Sync.Library.{Library}
use sql_gatekeeper.Sync.Identifiers.{or_else, make_datasource_code}
use sql_gatekeeper.Sync.Records.{TableConfigRow, RouteRecord, sync_origin, integer}

-- `physical_routes` and `seen_route_values`.
pub record RouteState : Type 0 where
  pub seen : Dict (String × String)
  pub routes : List RouteRecord

abbrev pub same_target : String × String → String × String → Bool
same_target s t = s.0 == t.0 && s.1 == t.1

-- The order by `(begin_index, end_index, source_name)`.
abbrev pub row_le : TableConfigRow → TableConfigRow → Bool
row_le r s =
    if eqb_ℤ r.begin_index s.begin_index
    then (if eqb_ℤ r.end_index s.end_index
        then text_le r.source_name s.source_name
        else leb_ℤ r.end_index s.end_index)
    else leb_ℤ r.begin_index s.begin_index

module _ (lib : Library) (logical_name : String) where
  abbrev pub route_record : TableConfigRow → String → String → RouteRecord
  route_record row route_value physical_name = record {
    logical_table_name = logical_name;
    route_value = route_value;
    physical_table_name = physical_name;
    datasource_code = make_datasource_code lib row.source_name;
    enabled = true;
    extra =
        ("sync_origin", text sync_origin)
        ∷ ("original_source_name", text row.source_name)
        ∷ ("original_catlog_name", text row.catlog_name)
        ∷ ("begin_index", integer row.begin_index)
        ∷ ("end_index", integer row.end_index)
        ∷ ("shard_count", integer row.shard_count)
        ∷ [];
  }

  abbrev pub target : TableConfigRow → String → String × String
  target row physical_name = (physical_name, make_datasource_code lib row.source_name)

  abbrev pub noted : TableConfigRow → String → String → RouteState → RouteState
  noted row value name s = record {
    seen = put value (target row name) s.seen;
    routes = s.routes ++ route_record row value name ∷ [];
  }

  -- A row of a table that is not sharded: its route is added again where it is seen already.
  unfoldable pub single_step : String → RouteState → TableConfigRow → Result RouteState
  single_step route_value s row = elim (get route_value s.seen) [
    | none ↦ ok (noted row route_value row.table_name s)
    | some conflict ↦
        if same_target conflict (target row row.table_name)
        then ok (noted row route_value row.table_name s)
        else raise value_error
  ]

  abbrev pub shard_name : TableConfigRow → ℤ → String
  shard_name row suffix = row.table_name <> ("_" <> show_ℤ suffix)

  -- A suffix of a sharded table.
  unfoldable pub shard_step : TableConfigRow → RouteState → ℤ → Result RouteState
  shard_step row s suffix = elim (get (show_ℤ suffix) s.seen) [
    | none ↦ ok (noted row (show_ℤ suffix) (shard_name row suffix) s)
    | some conflict ↦
        if same_target conflict (target row (shard_name row suffix))
        then ok s
        else raise value_error
  ]

  unfoldable pub shard_row : RouteState → TableConfigRow → Result RouteState
  shard_row s row = fold_result (shard_step row) s (range_to row.begin_index row.end_index)

  -- One round of the loop over the rows.
  unfoldable pub row_step : Bool → Bool → RouteState → TableConfigRow → Result RouteState
  row_step requires_source_routing is_sharded s row =
      if requires_source_routing
      then single_step (or_else row.source_name "unknown_source") s row
      else if not is_sharded
      then single_step "0" s row
      else shard_row s row

  -- The routes of the deduplicated rows.
  unfoldable pub physical_routes : Bool → Bool → List TableConfigRow → Result (List RouteRecord)
  physical_routes requires_source_routing is_sharded rows =
      fold_result (row_step requires_source_routing is_sharded) (record { seen = []; routes = [] })
        (sorted row_le rows)
      >>= λ s. ok s.routes
