-- ===== src/Sync/Write/Replaces.antt =====
-- Which logical tables the metadata has after a successful synchronisation.
use mathlib.Core.List.Memᴰ
use mathlib.Core.List.{Memᴰ}
use sql_gatekeeper.Prelude.{
  ℕ, ◌≡◌, refl, ap, sym, true, false, not, List, [], ◌∷◌, any, keep, keep-Memᴰ, Memᴰ-keep, ◌⊎◌, inl,
  inr, ok, raise, integrity_error, fold_result, Ensures, Ensures-bind, Ensures-mono, Ensures-ok,
  ok-eq, Bool-cases, if-eq-cases, arith,
}
use sql_gatekeeper.Prelude.Folds.{Ends-ok}
use sql_gatekeeper.Meta.{
  DatasourceInstance, LogicalTable, RouteFactorDef, RouteRule, PhysicalTableRoute, PolicySet,
  MetaDb,
}
use sql_gatekeeper.Meta.Inserts.{Ids, same_table, same_factor, same_rule, same_route}
use sql_gatekeeper.Repositories.{Orm}
use sql_gatekeeper.Sync.Records.{TableRecord, SyncBundle}
use sql_gatekeeper.Sync.Store.{
  Stored, store, commit_row, each_of, add_factor, add_rule, add_route, is_in, is_imported,
  imported_ids, imported_datasource_ids, table_of, delete_imported_tables,
  delete_imported_datasources, delete_previous_import,
}
use sql_gatekeeper.Sync.Store.Rounds.{IsWriteError, IsFrom, stored-IsStored, stored-Ends}
use sql_gatekeeper.Sync.Write.Sessions.{with_session-returned}
use sql_gatekeeper.Sync.Write.{
  Summary, store_datasources, store_tables, commit, write_bundle, ensure_default_policy,
  with_session, sync_bundle_to_local,
}

Memᴰ-is_in : (ids : List ℕ) (i : ℕ) → Memᴰ i ids → is_in ids i ≡ true
Memᴰ-is_in [] i m = elim m [ ]
Memᴰ-is_in (j ∷ ids) i m = elim (Memᴰ.cases_cons m) [
  | inl same ↦ ground arith
  | inr later ↦ ground (arith, Memᴰ-is_in ids i later)
]

-- A table that the deletion leaves was there and is not imported.
delete_previous_import-Memᴰ :
    (db : MetaDb) {kept : MetaDb} (t : LogicalTable)
    → delete_previous_import db ≡ ok kept
    → Memᴰ t kept.logical_tables
    → Memᴰ t db.logical_tables × (is_imported t.extra ≡ false)
unfolding delete_previous_import delete_imported_datasources delete_imported_tables
delete_previous_import-Memᴰ db {kept} t e m =
    let ids = imported_ids db.logical_tables in
    let left = delete_imported_tables db in
    elim (if-eq-cases
      (any
        (λ (r : PhysicalTableRoute).
          is_in (imported_datasource_ids left.datasources) r.datasource_id)
        left.physical_routes)
      (raise integrity_error)
      (ok (record left {
        datasources =
            keep
              (λ (d : DatasourceInstance).
                not (is_in (imported_datasource_ids left.datasources) d.id))
              left.datasources;
      }))
      e) [
        | inl (_, e') ↦ absurd (cc)
        | inr (_, e') ↦
            let same : kept.logical_tables ≡ left.logical_tables =
              sym (ap (λ (b : MetaDb). b.logical_tables) (ok-eq e')) in
            let (other, k) =
              keep-Memᴰ (λ (t : LogicalTable). not (is_in ids t.id)) db.logical_tables
                (rw same at m) in
            (
              k,
              elim (Bool-cases (is_imported t.extra)) [
                | inr no' ↦ no'
                | inl imported ↦
                    let there : is_in ids t.id ≡ true = Memᴰ-is_in ids t.id (
                      Memᴰ.map (λ (t : LogicalTable). t.id)
                        (Memᴰ-keep (λ (t : LogicalTable). is_imported t.extra) db.logical_tables
                          imported k)) in
                    absurd (ground arith)
              ],
            )
      ]

module _ (orm : Orm) (ids : Ids) where
  -- The table rows are those that the loop over the bundle's tables leaves.
  abbrev StoredTables : SyncBundle → MetaDb → MetaDb → Type 0
  StoredTables b db db' =
      (s : Stored LogicalTable) × (store_tables orm ids b.logical_tables db.logical_tables ≡ ok s)
      × (db'.logical_tables ≡ s.rows)

  commit-tables :
      (db : MetaDb) (ds : Stored DatasourceInstance) (ts : Stored LogicalTable)
      (ps : List PolicySet) (fs : List (ℕ → RouteFactorDef)) (rs : List (ℕ → RouteRule))
      (routes : List (ℕ → PhysicalTableRoute))
      → Ensures
          (λ (d : MetaDb). d.logical_tables ≡ ts.rows)
          (commit orm ids db ds ts ps fs rs routes)
  unfolding commit
  commit-tables db ds ts ps fs rs routes =
      let P = λ (d : MetaDb). d.logical_tables ≡ ts.rows in
      let factors =
        fold_result (commit_row (λ (f : RouteFactorDef). f.id) (same_factor orm) ids)
          db.route_factors fs in
      let rules =
        fold_result (commit_row (λ (r : RouteRule). r.id) (same_rule orm) ids) db.route_rules rs in
      let rows =
        fold_result (commit_row (λ (r : PhysicalTableRoute). r.id) (same_route orm) ids)
          db.physical_routes routes in
      Ensures-bind P factors _
        (λ _ _. Ensures-bind P rules _ (λ _ _. Ensures-bind P rows _ (λ _ _. refl)))

  write_bundle-tables :
      (b : SyncBundle) (ps : List PolicySet) (db : MetaDb)
      → Ensures (StoredTables b db) (write_bundle orm ids b ps db)
  unfolding write_bundle
  write_bundle-tables b ps db =
      let P = StoredTables b db in
      Ensures-bind P (store_datasources orm ids b.datasources db.datasources) _ (λ ds _.
        Ensures-bind P (store_tables orm ids b.logical_tables db.logical_tables) _ (λ ts stored.
          Ensures-bind P (each_of (add_factor ts.objects) b.route_factors) _ (λ fs _.
            Ensures-bind P (each_of (add_rule ts.objects) b.route_rules) _ (λ rs _.
              Ensures-bind P (each_of (add_route ts.objects ds.objects) b.physical_routes) _
                (λ routes _.
                  Ensures-mono (λ (d : MetaDb). d.logical_tables ≡ ts.rows) P
                    (commit orm ids db ds ts ps fs rs routes) (λ d same. (ts, stored, same))
                    (commit-tables db ds ts ps fs rs routes))))))

  abbrev pub IsOf : SyncBundle → LogicalTable → Type 0
  IsOf b t = (r : TableRecord) × (i : ℕ) × Memᴰ r b.logical_tables × (t ≡ table_of r i)

  -- The tables are those that were not imported and those of the bundle.
  abbrev ReplacesTables : SyncBundle → MetaDb → MetaDb → Type 0
  ReplacesTables b db db' =
      ((t : LogicalTable)
        → Memᴰ t db'.logical_tables
        → Memᴰ t db.logical_tables × (is_imported t.extra ≡ false) ⊎ IsOf b t)
      × ((r : TableRecord)
          → Memᴰ r b.logical_tables
          → (i : ℕ) × Memᴰ (table_of r i) db'.logical_tables)

  stored-ReplacesTables :
      (b : SyncBundle) (db kept db' : MetaDb)
      → delete_previous_import db ≡ ok kept
      → StoredTables b kept db'
      → ReplacesTables b db db'
  unfolding store_tables
  stored-ReplacesTables b db kept db' deleted (ts, stored, same) =
      let name_of = λ (t : TableRecord). t.table_name in
      let id_of = λ (t : LogicalTable). t.id in
      let start : Stored LogicalTable = record { objects = []; rows = kept.logical_tables } in
      (
        λ t m.
            elim (Ends-ok
              (λ (s : Stored LogicalTable).
                (t : LogicalTable)
                → Memᴰ t s.rows
                → IsFrom name_of table_of id_of (same_table orm) ids b.logical_tables
                    kept.logical_tables t)
              IsWriteError
              (fold_result (store name_of table_of id_of (same_table orm) ids) start
                b.logical_tables)
              (stored-Ends name_of table_of id_of (same_table orm) ids b.logical_tables start)
              stored t (rw same at m)) [
                | inl old ↦ inl (delete_previous_import-Memᴰ db t deleted old)
                | inr (r, i, k, e') ↦ inr (r, i, k, e')
              ],
        λ r m.
            let (i, k) =
              (stored-IsStored name_of table_of id_of (same_table orm) ids b.logical_tables start
                stored m).1 in
            (i, rw same k),
      )

  with_session-Ensures :
      (b : SyncBundle) (db : MetaDb)
      → Ensures (λ (p : Summary × MetaDb). ReplacesTables b db p.1) (with_session orm ids b db)
  unfolding with_session
  with_session-Ensures b db =
      let P = λ (p : Summary × MetaDb). ReplacesTables b db p.1 in
      Ensures-bind P (ensure_default_policy orm ids db.policies) _ (λ ps _.
        Ensures-bind P (delete_previous_import db) _ (λ kept deleted.
          Ensures-bind P (write_bundle orm ids b ps kept) _ (λ db' written.
            stored-ReplacesTables b db kept db' deleted (
              Ensures-ok (StoredTables b kept) (write_bundle orm ids b ps kept)
                (write_bundle-tables b ps kept) written))))

  sync_bundle_to_local-ReplacesTables :
      (b : SyncBundle) (db : MetaDb) {db' : MetaDb} {s : Summary}
      → sync_bundle_to_local orm ids b db ≡ ok (s, db')
      → ReplacesTables b db db'
  sync_bundle_to_local-ReplacesTables b db e =
      Ensures-ok (λ (p : Summary × MetaDb). ReplacesTables b db p.1) (with_session orm ids b db)
        (with_session-Ensures b db) (with_session-returned orm ids b db e)

  -- If a synchronisation returns, a logical table that the metadata has then was there and is not
  -- imported, or it is a table of the bundle with its id.
  pub sync_bundle_to_local-tables :
      (b : SyncBundle) (db : MetaDb) {db' : MetaDb} {s : Summary} (t : LogicalTable)
      → sync_bundle_to_local orm ids b db ≡ ok (s, db')
      → Memᴰ t db'.logical_tables
      → Memᴰ t db.logical_tables × (is_imported t.extra ≡ false) ⊎ IsOf b t
  sync_bundle_to_local-tables b db t e m = (sync_bundle_to_local-ReplacesTables b db e).0 t m

  -- If a synchronisation returns, the metadata has every table of the bundle, with an id.
  pub sync_bundle_to_local-Memᴰ :
      (b : SyncBundle) (db : MetaDb) {db' : MetaDb} {s : Summary} (r : TableRecord)
      → sync_bundle_to_local orm ids b db ≡ ok (s, db')
      → Memᴰ r b.logical_tables
      → (i : ℕ) × Memᴰ (table_of r i) db'.logical_tables
  sync_bundle_to_local-Memᴰ b db r e m = (sync_bundle_to_local-ReplacesTables b db e).1 r m
