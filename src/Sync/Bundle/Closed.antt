-- ===== src/Sync/Bundle/Closed.antt =====
-- The entries of a bundle refer to entries of the bundle.
use mathlib.Core.List.Memᴰ
use mathlib.Core.List.{Memᴰ}
use sql_gatekeeper.Prelude.{String, ◌≡◌, refl, List, [], ◌∷◌, ◌++◌, map, inl, inr, ok, fold_result}
use sql_gatekeeper.Prelude.Sorting.{sorted_by, Memᴰ-sorted_by, sorted_by-Memᴰ}
use sql_gatekeeper.Prelude.Folds.{Ends-ok, Ends, Ends-bind, Ends-mono, fold_result-Ends}
use sql_gatekeeper.Sync.Library.{Library}
use sql_gatekeeper.Sync.Identifiers.{make_datasource_code}
use sql_gatekeeper.Sync.Records.{
  TableConfigRow, ImportedDatasourceTarget, DatasourceRecord, TableRecord, FactorRecord, RuleRecord,
  RouteRecord, SyncBundle,
}
use sql_gatekeeper.Sync.Routes.Origin.{IsValueError}
use sql_gatekeeper.Sync.Group.{GroupEntries, build_group}
use sql_gatekeeper.Sync.Group.Named.{WellNamed, build_group-Ends}
use sql_gatekeeper.Sync.Bundle.Collects.{WellCollected, collect-WellCollected}
use sql_gatekeeper.Sync.Bundle.{
  Collected, add_entries, group_step, empty_bundle, bundle_of, collect, build_sync_bundle,
}

abbrev pub HasTable : SyncBundle → String → Type 0
HasTable b name = (t : TableRecord) × Memᴰ t b.logical_tables × (t.table_name ≡ name)

abbrev pub HasDatasource : SyncBundle → String → Type 0
HasDatasource b code = (d : DatasourceRecord) × Memᴰ d b.datasources × (d.datasource_code ≡ code)

-- What the entries refer to is in the bundle.
pub record IsClosed (b : SyncBundle) : Type 0 where
  pub factors_closed : (f : FactorRecord) → Memᴰ f b.route_factors → HasTable b f.logical_table_name
  pub rules_closed : (r : RuleRecord) → Memᴰ r b.route_rules → HasTable b r.logical_table_name
  pub routes_closed : (r : RouteRecord) → Memᴰ r b.physical_routes → HasTable b r.logical_table_name
  pub sources_closed :
      (r : RouteRecord) → Memᴰ r b.physical_routes → HasDatasource b r.datasource_code

-- An item of two lists one after the other has what those of both have.
append-all :
    {A : Type 0} (P : A → Type 0) (xs ys : List A)
    → ((a : A) → Memᴰ a xs → P a)
    → ((a : A) → Memᴰ a ys → P a)
    → (a : A) → Memᴰ a (xs ++ ys)
    → P a
append-all P xs ys h k a m = elim (Memᴰ.append_cases xs m) [ inl l ↦ h a l | inr r ↦ k a r ]

module _ (lib : Library) (target : ImportedDatasourceTarget) where
  add_entries-IsClosed :
      (name : String) (group : List TableConfigRow) (b : SyncBundle) (e : GroupEntries)
      → IsClosed b
      → WellNamed lib name group e
      → ((row : TableConfigRow)
          → Memᴰ row group
          → HasDatasource b (make_datasource_code lib row.source_name))
      → IsClosed (add_entries lib target b e)
  add_entries-IsClosed name group b e c w sourced =
      let b' = add_entries lib target b e in
      let old : (n : String) → HasTable b n → HasTable b' n =
        λ n (t, m, p). (t, Memᴰ.append_left (e.table ∷ []) m, p) in
      let new : (n : String) → n ≡ name → HasTable b' n = λ n p.
        (e.table, Memᴰ.append_right b.logical_tables (Memᴰ.head refl), cc (p, w.table_named)) in
      record {
        factors_closed =
            append-all (λ f. HasTable b' f.logical_table_name) b.route_factors e.factors
              (λ f m. old f.logical_table_name (c.factors_closed f m))
              (λ f m. new f.logical_table_name (w.factors_named f m));
        rules_closed =
            append-all (λ r. HasTable b' r.logical_table_name) b.route_rules e.rules
              (λ r m. old r.logical_table_name (c.rules_closed r m))
              (λ r m. new r.logical_table_name (w.rules_named r m));
        routes_closed =
            append-all (λ r. HasTable b' r.logical_table_name) b.physical_routes e.routes
              (λ r m. old r.logical_table_name (c.routes_closed r m))
              (λ r m. new r.logical_table_name (w.routes_named r m));
        sources_closed =
            append-all (λ r. HasDatasource b' r.datasource_code) b.physical_routes e.routes
              c.sources_closed
              (λ r m. let (row, k, same) = w.routes_sourced r m in rw same (sourced row k));
      }

  module _ (c : Collected) (w : WellCollected lib c) where
    -- Closed, with every collected datasource.
    abbrev IsBuilt : SyncBundle → Type 0
    IsBuilt b =
        IsClosed b
        × ((code : String) (d : DatasourceRecord)
            → Memᴰ (code, d) c.datasource_map
            → HasDatasource b code)

    group_step-Ends :
        (b : SyncBundle) (g : String × List TableConfigRow)
        → Memᴰ g c.logical_groups
        → IsBuilt b
        → Ends IsBuilt IsValueError (group_step lib target b g)
    unfolding group_step
    group_step-Ends b (name, []) m h = absurd (w.is_filled name m)
    group_step-Ends b (name, sample ∷ others) m (closed, has) =
        Ends-bind (WellNamed lib name (sample ∷ others)) IsBuilt IsValueError
          (build_group lib name sample others) (λ e. ok (add_entries lib target b e))
          (build_group-Ends lib name sample others)
          (λ e same named. (
            add_entries-IsClosed name (sample ∷ others) b e closed named (λ row k.
                let (d, md) = w.is_sourced name (sample ∷ others) m row k in
                has (make_datasource_code lib row.source_name) d md),
            has,
          ))

    empty_bundle-IsBuilt : IsBuilt (empty_bundle lib target c)
    empty_bundle-IsBuilt =
        let values = map (λ (p : String × DatasourceRecord). p.1) c.datasource_map in
        (
          record {
            factors_closed = λ f m. elim m [ ];
            rules_closed = λ r m. elim m [ ];
            routes_closed = λ r m. elim m [ ];
            sources_closed = λ r m. elim m [ ];
          },
          λ code d m. (
            d,
            Memᴰ-sorted_by (λ (d : DatasourceRecord). d.datasource_code) values
                (Memᴰ.map (λ (p : String × DatasourceRecord). p.1) m),
            w.is_coded code d m,
          ),
        )

    bundle_of-Ends : Ends IsClosed IsValueError (bundle_of lib target c)
    unfolding bundle_of
    bundle_of-Ends =
        let name_of = λ (p : String × List TableConfigRow). p.0 in
        let groups = sorted_by name_of c.logical_groups in
        let ended =
          fold_result-Ends (group_step lib target) IsBuilt IsValueError groups
            (λ b g m h. group_step-Ends b g (sorted_by-Memᴰ name_of c.logical_groups m) h)
            (empty_bundle lib target c) empty_bundle-IsBuilt in
        Ends-mono IsBuilt IsClosed IsValueError
          (fold_result (group_step lib target) (empty_bundle lib target c) groups) (λ b h. h.0)
          ended

-- A bundle that is built is closed, and a value error is the only exception.
pub build_sync_bundle-Ends :
    (lib : Library) (target : ImportedDatasourceTarget) (rows : List TableConfigRow)
    → Ends IsClosed IsValueError (build_sync_bundle lib target rows)
unfolding build_sync_bundle
build_sync_bundle-Ends lib target rows =
    bundle_of-Ends lib target (collect lib target rows) (collect-WellCollected lib target rows)

-- In a bundle that is built, what a factor, a rule or a route refers to, its logical table and its
-- datasource, is an entry of the bundle.
pub build_sync_bundle-IsClosed :
    (lib : Library) (target : ImportedDatasourceTarget) (rows : List TableConfigRow)
    {b : SyncBundle}
    → build_sync_bundle lib target rows ≡ ok b
    → IsClosed b
build_sync_bundle-IsClosed lib target rows e =
    Ends-ok IsClosed IsValueError (build_sync_bundle lib target rows)
      (build_sync_bundle-Ends lib target rows) e
