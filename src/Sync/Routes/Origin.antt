-- ===== src/Sync/Routes/Origin.antt =====
-- Where the routes of a logical table come from, and what the loops raise.
use mathlib.Core.List.Memᴰ
use mathlib.Core.List.{Memᴰ}
use sql_gatekeeper.Prelude.{
  String, ◌<>◌, refl, ◌≡◌, Bool, true, false, List, [], inl, inr, Exception, ok, value_error,
  fold_result,
}
use sql_gatekeeper.Prelude.Int.{show_ℤ, range_to}
use sql_gatekeeper.Prelude.Folds.{Ends-ok, Ends, Ends-intro, Ends-bind, fold_result-Ends}
use sql_gatekeeper.Prelude.Sorting.{sorted, sorted-Memᴰ}
use sql_gatekeeper.Sync.Library.{Library}
use sql_gatekeeper.Sync.Identifiers.{or_else, make_datasource_code}
use sql_gatekeeper.Sync.Records.{TableConfigRow, RouteRecord}
use sql_gatekeeper.Sync.Routes.{
  RouteState, row_le, single_step, shard_step, shard_row, shard_name, row_step, physical_routes,
}
use sql_gatekeeper.Sync.Routes.Covers.{row_targets}
use sql_gatekeeper.Sync.Routes.Notes.{
  Notes, Notes-Memᴰ, single_step-Notes, shard_step-Notes, single_step-raises, shard_step-raises,
}

abbrev pub IsValueError : Exception → Type 0
IsValueError x = x ≡ value_error

module _ (lib : Library) (name : String) (by_source sharded : Bool)
    (rows : List TableConfigRow) where
  -- The route leads from a value of a row to the row's table and source.
  pub record ComesFromRow (r : RouteRecord) : Type 0 where
    pub row : TableConfigRow
    pub is_row : Memᴰ row rows
    pub is_target : Memᴰ (r.route_value, r.physical_table_name) (row_targets by_source sharded row)
    pub is_source : r.datasource_code ≡ make_datasource_code lib row.source_name
    pub is_named : r.logical_table_name ≡ name

  abbrev AllFromRows : RouteState → Type 0
  AllFromRows s = (r : RouteRecord) → Memᴰ r s.routes → ComesFromRow r

  Notes-FromRows :
      (row : TableConfigRow) (value physical : String) {s s' : RouteState}
      → Memᴰ row rows
      → Memᴰ (value, physical) (row_targets by_source sharded row)
      → Notes lib name row value physical s s'
      → AllFromRows s
      → AllFromRows s'
  Notes-FromRows row value physical m t n h r k =
      elim (Notes-Memᴰ lib name row value physical n k) [
        | inl before ↦ h r before
        | inr same ↦ record {
          row = row;
          is_row = m;
          is_target = rw same t;
          is_source = rw same refl;
          is_named = rw same refl;
        }
      ]

abbrev FromRows : Library → String → Bool → Bool → List TableConfigRow → RouteState → Type 0
FromRows lib name by_source sharded rows s = AllFromRows lib name by_source sharded rows s

single_step-Ends :
    (lib : Library) (name : String) (by_source sharded : Bool) (rows : List TableConfigRow)
    (value : String) (row : TableConfigRow) (s : RouteState)
    → Memᴰ row rows
    → Memᴰ (value, row.table_name) (row_targets by_source sharded row)
    → FromRows lib name by_source sharded rows s
    → Ends
        (FromRows lib name by_source sharded rows)
        IsValueError
        (single_step lib name value s row)
single_step-Ends lib name by_source sharded rows value row s m t h =
    Ends-intro (FromRows lib name by_source sharded rows) IsValueError
      (single_step lib name value s row)
      (λ s' e.
        Notes-FromRows lib name by_source sharded rows row value row.table_name m t
          (single_step-Notes lib name value s row s' e) h)
      (λ x e. single_step-raises lib name value s row x e)

shard_row-Ends :
    (lib : Library) (name : String) (rows : List TableConfigRow) (row : TableConfigRow)
    (s : RouteState)
    → Memᴰ row rows
    → FromRows lib name false true rows s
    → Ends (FromRows lib name false true rows) IsValueError (shard_row lib name s row)
unfolding shard_row
shard_row-Ends lib name rows row s m h =
    let P = FromRows lib name false true rows in
    let suffixes = range_to row.begin_index row.end_index in
    fold_result-Ends (shard_step lib name row) P IsValueError suffixes
      (λ t i k h'.
        Ends-intro P IsValueError (shard_step lib name row t i)
          (λ t' e.
            Notes-FromRows lib name false true rows row (show_ℤ i) (shard_name lib name row i) m
              (Memᴰ.map (λ j. (show_ℤ j, row.table_name <> ("_" <> show_ℤ j))) k)
              (shard_step-Notes lib name row t i t' e) h')
          (λ x e. shard_step-raises lib name row t i x e))
      s h

row_step-Ends :
    (lib : Library) (name : String) (by_source sharded : Bool) (rows : List TableConfigRow)
    (row : TableConfigRow) (s : RouteState)
    → Memᴰ row rows
    → FromRows lib name by_source sharded rows s
    → Ends
        (FromRows lib name by_source sharded rows)
        IsValueError
        (row_step lib name by_source sharded s row)
unfolding row_step
row_step-Ends lib name true sharded rows row s m h =
    single_step-Ends lib name true sharded rows (or_else row.source_name "unknown_source") row s m
      (Memᴰ.head refl) h
row_step-Ends lib name false false rows row s m h =
    single_step-Ends lib name false false rows "0" row s m (Memᴰ.head refl) h
row_step-Ends lib name false true rows row s m h = shard_row-Ends lib name rows row s m h

-- Every route comes from a row, and a value error is the only exception.
pub physical_routes-Ends :
    (lib : Library) (name : String) (by_source sharded : Bool) (rows : List TableConfigRow)
    → Ends
        (λ routes.
          (r : RouteRecord) → Memᴰ r routes → ComesFromRow lib name by_source sharded rows r)
        IsValueError
        (physical_routes lib name by_source sharded rows)
unfolding physical_routes
physical_routes-Ends lib name by_source sharded rows =
    let P = FromRows lib name by_source sharded rows in
    let Q = λ (routes : List RouteRecord).
      (r : RouteRecord) → Memᴰ r routes → ComesFromRow lib name by_source sharded rows r in
    let initial : RouteState = record { seen = []; routes = [] } in
    let ended =
      fold_result-Ends (row_step lib name by_source sharded) P IsValueError (sorted row_le rows)
        (λ s row m h.
          row_step-Ends lib name by_source sharded rows row s (sorted-Memᴰ row_le rows m) h)
        initial (λ r m. elim m [ ]) in
    Ends-bind P Q IsValueError
      (fold_result (row_step lib name by_source sharded) initial (sorted row_le rows))
      (λ s. ok s.routes) ended (λ s e h. h)

-- If the loops return, each route leads from the table's name and a value of one of its rows to that
-- row's physical table and datasource.
pub physical_routes-ComesFromRow :
    (lib : Library) (name : String) (by_source sharded : Bool) (rows : List TableConfigRow)
    {routes : List RouteRecord} (r : RouteRecord)
    → physical_routes lib name by_source sharded rows ≡ ok routes
    → Memᴰ r routes
    → ComesFromRow lib name by_source sharded rows r
physical_routes-ComesFromRow lib name by_source sharded rows r e m =
    Ends-ok
      (λ routes. (q : RouteRecord) → Memᴰ q routes → ComesFromRow lib name by_source sharded rows q)
      IsValueError (physical_routes lib name by_source sharded rows)
      (physical_routes-Ends lib name by_source sharded rows) e r m
