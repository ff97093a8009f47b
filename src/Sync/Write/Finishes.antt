-- ===== src/Sync/Write/Finishes.antt =====
-- Synchronising a closed bundle: what can be raised.
use sql_gatekeeper.Sync.Write.Sessions.{sync-raises-cases}
use sql_gatekeeper.Prelude.{
  key_error, ◌≢◌, ◌≡◌, refl, List, [], ◌∷◌, ◌⊎◌, inl, inr, keep, map, ◌++◌, Result, Exception, ok,
  raise, multiple_results_found, Result-cases, Option, none, some, if-intro, any,
}
use sql_gatekeeper.Prelude.Folds.{Ends, Ends-ok, Ends-mono, Ends-bind, Ends-raise}
use sql_gatekeeper.Meta.{DatasourceInstance, LogicalTable, PhysicalTableRoute, PolicySet, MetaDb}
use sql_gatekeeper.Meta.Inserts.{Ids, same_policy, insert}
use sql_gatekeeper.Repositories.{Orm}
use sql_gatekeeper.Sync.Records.{TableConfigRow, ImportedDatasourceTarget, SyncBundle}
use sql_gatekeeper.Sync.Bundle.Closed.{IsClosed, build_sync_bundle-Ends}
use sql_gatekeeper.Filters.{default_policy_code}
use sql_gatekeeper.Sync.Routes.Origin.{IsValueError}
use sql_gatekeeper.Sync.Store.{
  Stored, factor_of, rule_of, route_of, add_factor, add_rule, add_route, delete_imported_tables,
  delete_imported_datasources, delete_previous_import, imported_datasource_ids, is_in,
}
use sql_gatekeeper.Sync.Store.Rounds.{IsWriteError, insert-Ends, object_id-HasKey, each_of-returns}
use sql_gatekeeper.Sync.Library.{Library}
use sql_gatekeeper.Sync.Bundle.{build_sync_bundle}
use sql_gatekeeper.Sync.Write.{
  store_datasources, store_tables, write_bundle, default_policy, insert_policy,
  ensure_default_policy, sync_bundle_to_local, with_session,
}
use sql_gatekeeper.Sync.Write.Loops.{
  Anything, store_datasources-Ends, store_tables-Ends, commit-Ends, HasTable-HasKey,
  HasDatasource-HasKey,
}

module _ (orm : Orm) (ids : Ids) where
  -- The objects that a closed bundle's entries refer to are found.
  write_found :
      (b : SyncBundle) (db : MetaDb) (ps : List PolicySet) (ds : Stored DatasourceInstance)
      (ts : Stored LogicalTable)
      → IsClosed b
      → store_datasources orm ids b.datasources db.datasources ≡ ok ds
      → store_tables orm ids b.logical_tables db.logical_tables ≡ ok ts
      → Ends Anything IsWriteError (write_bundle orm ids b ps db)
  unfolding write_bundle
  write_found b db ps ds ts closed eds ets =
      let (fs, ef) = each_of-returns (add_factor ts.objects) b.route_factors (λ f m.
        let (i, e) = object_id-HasKey ts.objects f.logical_table_name (
          HasTable-HasKey orm ids b db.logical_tables f.logical_table_name ets
            (closed.factors_closed f m)) in
        (factor_of i f, rw e refl)) in
      let (rs, er) = each_of-returns (add_rule ts.objects) b.route_rules (λ r m.
        let (i, e) = object_id-HasKey ts.objects r.logical_table_name (
          HasTable-HasKey orm ids b db.logical_tables r.logical_table_name ets
            (closed.rules_closed r m)) in
        (rule_of i r, rw e refl)) in
      let (routes, ep) = each_of-returns (add_route ts.objects ds.objects) b.physical_routes (λ r m.
        let (i, e) = object_id-HasKey ts.objects r.logical_table_name (
          HasTable-HasKey orm ids b db.logical_tables r.logical_table_name ets
            (closed.routes_closed r m)) in
        let (j, e') = object_id-HasKey ds.objects r.datasource_code (
          HasDatasource-HasKey orm ids b db.datasources r.datasource_code eds
            (closed.sources_closed r m)) in
        (route_of i j r, rw (e, e') refl)) in
      rw (eds, ets, ef, er, ep) (commit-Ends orm ids db ds ts ps fs rs routes)

  write_bundle-Ends :
      (b : SyncBundle) (db : MetaDb) (ps : List PolicySet)
      → IsClosed b
      → Ends Anything IsWriteError (write_bundle orm ids b ps db)
  unfolding write_bundle
  write_bundle-Ends b db ps closed =
      elim (Result-cases (store_datasources orm ids b.datasources db.datasources)) [
        | inr (x, e) ↦
            let raised =
              Ends-raise Anything IsWriteError
                (store_datasources orm ids b.datasources db.datasources)
                (store_datasources-Ends orm ids b.datasources db.datasources) e in
            rw (e, write_bundle, Ends) raised
        | inl (ds, e) ↦
            elim (Result-cases (store_tables orm ids b.logical_tables db.logical_tables)) [
              | inr (x, e') ↦
                  let raised =
                    Ends-raise Anything IsWriteError
                      (store_tables orm ids b.logical_tables db.logical_tables)
                      (store_tables-Ends orm ids b.logical_tables db.logical_tables) e' in
                  rw (e, e', write_bundle, Ends) raised
              | inl (ts, e') ↦ write_found b db ps ds ts closed e e'
            ]
      ]

  -- What the database and the session raise.
  abbrev IsDatabaseError : Exception → Type 0
  IsDatabaseError x = IsWriteError x ⊎ (x ≡ multiple_results_found)

  one_or_none-Ends :
      {A : Type 0} (rows : List A) → Ends Anything IsDatabaseError (orm.one_or_none A rows)
  one_or_none-Ends {A} [] = rw (orm.one_or_none_empty A, Ends) tt
  one_or_none-Ends {A} (a ∷ []) = rw (orm.one_or_none_single A a, Ends) tt
  one_or_none-Ends {A} (a ∷ b ∷ rows) = rw (orm.one_or_none_several A a b rows, Ends) (inr refl)

  widened :
      {A : Type 0} (m : Result A) → Ends Anything IsWriteError m → Ends Anything IsDatabaseError m
  widened (ok a) h = tt
  widened (raise x) h = inl h

  insert_policy-Ends :
      (ps : List PolicySet) (found : Option PolicySet)
      → Ends Anything IsDatabaseError (insert_policy orm ids ps found)
  insert_policy-Ends ps (some p) = tt
  insert_policy-Ends ps none =
      let p = default_policy (ids.next_id (map (λ (p : PolicySet). p.id) ps)) in
      widened (insert ids (same_policy orm) p ps) (
        Ends-mono (λ rows. rows ≡ ps ++ p ∷ []) Anything IsWriteError
          (insert ids (same_policy orm) p ps) (λ _ _. tt) (insert-Ends ids (same_policy orm) p ps))

  delete_previous_import-Ends :
      (db : MetaDb) → Ends Anything IsWriteError (delete_previous_import db)
  unfolding delete_previous_import delete_imported_datasources
  delete_previous_import-Ends db =
      let kept = delete_imported_tables db in
      if-intro (Ends Anything IsWriteError)
        (any
          (λ (r : PhysicalTableRoute).
            is_in (imported_datasource_ids kept.datasources) r.datasource_id)
          kept.physical_routes)
        (inl refl) tt

  with_session-Ends :
      (b : SyncBundle) (db : MetaDb)
      → IsClosed b
      → Ends Anything IsDatabaseError (with_session orm ids b db)
  unfolding with_session ensure_default_policy
  with_session-Ends b db closed =
      Ends-bind Anything Anything IsDatabaseError _ _
        (Ends-bind Anything Anything IsDatabaseError _ _
          (one_or_none-Ends
            (keep (λ (p : PolicySet). orm.same p.policy_code default_policy_code) db.policies))
          (λ found _ _. insert_policy-Ends db.policies found))
        (λ ps _ _.
          Ends-bind Anything Anything IsDatabaseError _ _
            (widened (delete_previous_import db) (delete_previous_import-Ends db))
            (λ kept _ _.
              Ends-bind Anything Anything IsDatabaseError _ _
                (widened (write_bundle orm ids b ps kept) (write_bundle-Ends b kept ps closed))
                (λ _ _ _. tt)))

  with_session-raises :
      (lib : Library) (target : ImportedDatasourceTarget) (rows : List TableConfigRow) (db : MetaDb)
      {b : SyncBundle} {x : Exception}
      → build_sync_bundle lib target rows ≡ ok b
      → with_session orm ids b db ≡ raise x
      → IsDatabaseError x
  with_session-raises lib target rows db {b} built e =
      let closed =
        Ends-ok IsClosed IsValueError (build_sync_bundle lib target rows)
          (build_sync_bundle-Ends lib target rows) built in
      Ends-raise Anything IsDatabaseError (with_session orm ids b db)
        (with_session-Ends b db closed) e

  -- If the synchronisation of a bundle that was built raises an exception, it is no `KeyError`: every
  -- table and every datasource that an entry names is found, whatever the database does.
  pub sync_bundle_to_local-raises :
      (lib : Library) (target : ImportedDatasourceTarget) (rows : List TableConfigRow) (db : MetaDb)
      {b : SyncBundle} {x : Exception}
      → build_sync_bundle lib target rows ≡ ok b
      → sync_bundle_to_local orm ids b db ≡ raise x
      → x ≢ key_error
  sync_bundle_to_local-raises lib target rows db {b} built e missing =
      elim (sync-raises-cases orm ids b db e) [
        | inl (s, outside) ↦ absurd (cc)
        | inr raised ↦ elim (with_session-raises lib target rows db built raised) [
          | inl (inl violated) ↦ absurd (cc)
          | inl (inr (s, refused)) ↦ absurd (cc)
          | inr several ↦ absurd (cc)
        ]
      ]
