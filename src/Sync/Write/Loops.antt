-- ===== src/Sync/Write/Loops.antt =====
-- What the loops of the synchronisation raise and reach.
use mathlib.Core.List.{Memᴰ}
use sql_gatekeeper.Prelude.{ℕ, String, ◌≡◌, List, [], ok, fold_result}
use sql_gatekeeper.Prelude.Folds.{Ends, Ends-mono, Ends-bind}
use sql_gatekeeper.Meta.{
  DatasourceInstance, LogicalTable, RouteFactorDef, RouteRule, PhysicalTableRoute, PolicySet,
  MetaDb,
}
use sql_gatekeeper.Meta.Inserts.{
  Ids, same_datasource, same_table, same_factor, same_rule, same_route,
}
use sql_gatekeeper.Repositories.{Orm}
use sql_gatekeeper.Sync.Records.{DatasourceRecord, TableRecord, SyncBundle}
use sql_gatekeeper.Sync.Bundle.Closed.{HasTable, HasDatasource}
use sql_gatekeeper.Sync.Store.{Stored, store, datasource_of, table_of}
use sql_gatekeeper.Sync.Store.Rounds.{
  IsWriteError, HasKey, IsFrom, stored-IsStored, stored-Ends, committed-Ends,
}
use sql_gatekeeper.Sync.Write.{store_datasources, store_tables, commit}

abbrev pub Anything : {A : Type 0} → A → Type 0
Anything a = Unit

module _ (orm : Orm) (ids : Ids) where
  pub store_datasources-Ends :
      (records : List DatasourceRecord) (rows : List DatasourceInstance)
      → Ends Anything IsWriteError (store_datasources orm ids records rows)
  unfolding store_datasources
  store_datasources-Ends records rows =
      let name_of = λ (d : DatasourceRecord). d.datasource_code in
      let id_of = λ (d : DatasourceInstance). d.id in
      let start : Stored DatasourceInstance = record { objects = []; rows = rows } in
      Ends-mono
        (λ (s : Stored DatasourceInstance).
          (d : DatasourceInstance)
          → Memᴰ d s.rows
          → IsFrom name_of datasource_of id_of (same_datasource orm) ids records rows d)
        Anything IsWriteError
        (fold_result (store name_of datasource_of id_of (same_datasource orm) ids) start records)
        (λ s h. tt)
        (stored-Ends name_of datasource_of id_of (same_datasource orm) ids records start)

  pub store_tables-Ends :
      (records : List TableRecord) (rows : List LogicalTable)
      → Ends Anything IsWriteError (store_tables orm ids records rows)
  unfolding store_tables
  store_tables-Ends records rows =
      let name_of = λ (t : TableRecord). t.table_name in
      let id_of = λ (t : LogicalTable). t.id in
      let start : Stored LogicalTable = record { objects = []; rows = rows } in
      Ends-mono
        (λ (s : Stored LogicalTable).
          (t : LogicalTable)
          → Memᴰ t s.rows
          → IsFrom name_of table_of id_of (same_table orm) ids records rows t)
        Anything IsWriteError
        (fold_result (store name_of table_of id_of (same_table orm) ids) start records) (λ s h. tt)
        (stored-Ends name_of table_of id_of (same_table orm) ids records start)

  pub commit-Ends :
      (db : MetaDb) (ds : Stored DatasourceInstance) (ts : Stored LogicalTable)
      (ps : List PolicySet) (fs : List (ℕ → RouteFactorDef)) (rs : List (ℕ → RouteRule))
      (routes : List (ℕ → PhysicalTableRoute))
      → Ends Anything IsWriteError (commit orm ids db ds ts ps fs rs routes)
  unfolding commit
  commit-Ends db ds ts ps fs rs routes =
      let f =
        committed-Ends (λ (f : RouteFactorDef). f.id) (same_factor orm) ids db.route_factors fs in
      let r = committed-Ends (λ (r : RouteRule). r.id) (same_rule orm) ids db.route_rules rs in
      let p =
        committed-Ends (λ (p : PhysicalTableRoute). p.id) (same_route orm) ids db.physical_routes
          routes in
      Ends-bind Anything Anything IsWriteError _ _ f (λ _ _ _.
        Ends-bind Anything Anything IsWriteError _ _ r
          (λ _ _ _. Ends-bind Anything Anything IsWriteError _ _ p (λ _ _ _. tt)))

  pub HasTable-HasKey :
      (b : SyncBundle) (rows : List LogicalTable) {ts : Stored LogicalTable} (name : String)
      → store_tables orm ids b.logical_tables rows ≡ ok ts
      → HasTable b name
      → HasKey ts.objects name
  unfolding store_tables
  HasTable-HasKey b rows name e (t, m, same) =
      rw (← same)
        (stored-IsStored (λ (t : TableRecord). t.table_name) table_of (λ (t : LogicalTable). t.id)
          (same_table orm) ids b.logical_tables (record { objects = []; rows = rows }) e m).0

  pub HasDatasource-HasKey :
      (b : SyncBundle) (rows : List DatasourceInstance) {ds : Stored DatasourceInstance}
      (code : String)
      → store_datasources orm ids b.datasources rows ≡ ok ds
      → HasDatasource b code
      → HasKey ds.objects code
  unfolding store_datasources
  HasDatasource-HasKey b rows code e (d, m, same) =
      rw (← same)
        (stored-IsStored (λ (d : DatasourceRecord). d.datasource_code) datasource_of
          (λ (d : DatasourceInstance). d.id) (same_datasource orm) ids b.datasources
          (record { objects = []; rows = rows }) e m).0
