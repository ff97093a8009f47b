-- ===== src/Sync/Write/Refers.antt =====
-- The rows of the imported routes refer to the rows of their table and their datasource.
use mathlib.Core.List.Memᴰ
use mathlib.Core.List.{Memᴰ}
use mathlib.Core.Path.{subst}
use sql_gatekeeper.Prelude.{
  ℕ, String, Bool, ◌≡◌, refl, ap, sym, some, List, [], ◌∷◌, ◌++◌, map, inl, inr, ok, fold_result,
  >>=-eq-ok, ok-eq, if-eq-cases, if◌then◌else◌, ◌==◌, eq_iff, arith, Option-cases, Ensures,
  Ensures-bind, Ensures-ok,
}
use sql_gatekeeper.Prelude.Dict.{Dict, get, put, get-put}
use sql_gatekeeper.Prelude.Folds.{Ends-ok, fold_result-keeps, fold_result-reaches}
use sql_gatekeeper.Meta.{
  DatasourceInstance, LogicalTable, RouteFactorDef, RouteRule, PhysicalTableRoute, PolicySet,
  MetaDb,
}
use sql_gatekeeper.Meta.Inserts.{
  Ids, insert, same_datasource, same_table, same_factor, same_rule, same_route,
}
use sql_gatekeeper.Repositories.{Orm}
use sql_gatekeeper.Sync.Records.{DatasourceRecord, TableRecord, RouteRecord, SyncBundle}
use sql_gatekeeper.Sync.Store.{
  Stored, store, commit_row, each_of, object_id, datasource_of, table_of, route_of, add_factor,
  add_rule, add_route, delete_previous_import,
}
use sql_gatekeeper.Sync.Store.Rounds.{IsWriteError, insert-Ends}
use sql_gatekeeper.Sync.Write.Sessions.{with_session-returned}
use sql_gatekeeper.Sync.Write.{
  with_session, Summary, ensure_default_policy, store_datasources, store_tables, commit,
  write_bundle, sync_bundle_to_local,
}
use sql_gatekeeper.Sync.Write.Duplicates.{committed, each_of-Memᴰ, add_route-cases}

object_id-get :
    (objects : Dict ℕ) (name : String) {i : ℕ}
    → object_id objects name ≡ ok i
    → get name objects ≡ some i
object_id-get objects name e = elim (Option-cases (get name objects)) [
  | inl none' ↦ absurd (cc (rw (none', object_id) at e))
  | inr (j, found) ↦ cc (found, ok-eq (rw (found, object_id) at e))
]

module _ {R A : Type 0} (name_of : R → String) (make : R → ℕ → A) (id_of : A → ℕ)
    (conflicts : A → A → Bool) (ids : Ids) where
  -- The id of an object is that of a row of its name.
  abbrev NamesRows : Stored A → Type 0
  NamesRows s =
      (name : String) (i : ℕ)
      → get name s.objects ≡ some i
      → (r : R) × (name_of r ≡ name) × Memᴰ (make r i) s.rows

  store-NamesRows :
      (s : Stored A) (r : R) (s' : Stored A)
      → store name_of make id_of conflicts ids s r ≡ ok s'
      → NamesRows s
      → NamesRows s'
  unfolding store
  store-NamesRows s r s' e h name i found =
      let n = ids.next_id (map id_of s.rows) in
      let (rows, inserted, last) =
        >>=-eq-ok (insert ids conflicts (make r n) s.rows)
          (λ rows. ok (record { objects = put (name_of r) n s.objects; rows = rows })) e in
      let added : rows ≡ s.rows ++ make r n ∷ [] =
        Ends-ok (λ rows'. rows' ≡ s.rows ++ make r n ∷ []) IsWriteError
          (insert ids conflicts (make r n) s.rows) (insert-Ends ids conflicts (make r n) s.rows)
          inserted in
      let same : s'.rows ≡ s.rows ++ make r n ∷ [] =
        cc (ap (λ (t : Stored A). t.rows) (ok-eq last), added) in
      let objects : s'.objects ≡ put (name_of r) n s.objects =
        sym (ap (λ (t : Stored A). t.objects) (ok-eq last)) in
      let found' : get name (put (name_of r) n s.objects) ≡ some i = cc (objects, found) in
      let taken : (if name_of r == name then some n else get name s.objects) ≡ some i =
        cc (get-put (name_of r) name n s.objects, found') in
      elim (if-eq-cases (name_of r == name) (some n) (get name s.objects) taken) [
        | inl (is_name, e') ↦
            let n≡i : n ≡ i = cc in
            (
              r,
              ground (arith, eq_iff (name_of r) name),
              rw (same, ← n≡i) (Memᴰ.append_right s.rows (Memᴰ.head refl)),
            )
        | inr (_, e') ↦
            let (q, named, m) = h name i e' in (q, named, rw same (Memᴰ.append_left _ m))
      ]

  stored-NamesRows :
      (rs : List R) (rows : List A) {s : Stored A}
      → fold_result
          (store name_of make id_of conflicts ids)
          (record { objects = []; rows = rows })
          rs
        ≡ ok s
      → NamesRows s
  unfolding get
  stored-NamesRows rs rows e =
      fold_result-keeps (store name_of make id_of conflicts ids) NamesRows rs
        (λ t r t' e' h. store-NamesRows t r t' e' h) e (λ name i x. absurd (cc))

-- A row that waits is in the table after the commit.
committed-Memᴰ :
    {A : Type 0} (id_of : A → ℕ) (conflicts : A → A → Bool) (ids : Ids) (rows : List A)
    (ws : List (ℕ → A)) (w : ℕ → A) {rows' : List A}
    → fold_result (commit_row id_of conflicts ids) rows ws ≡ ok rows'
    → Memᴰ w ws
    → (i : ℕ) × Memᴰ (w i) rows'
committed-Memᴰ {A} id_of conflicts ids rows ws w e m =
    fold_result-reaches (commit_row id_of conflicts ids)
      (λ (v : ℕ → A) (t : List A). (i : ℕ) × Memᴰ (v i) t) ws rows
      (λ t v t' e'. (
        ids.next_id (map id_of t),
        rw (committed id_of conflicts ids t v e') (Memᴰ.append_right t (Memᴰ.head refl)),
      ))
      (λ v t u t' e' (i, k). (i, rw (committed id_of conflicts ids t u e') (Memᴰ.append_left _ k)))
      e m

-- A row of the route, with the rows of its logical table and its datasource.
pub record RefersTo (db : MetaDb) (r : RouteRecord) : Type 0 where
  pub row : PhysicalTableRoute
  pub table : LogicalTable
  pub datasource : DatasourceInstance
  pub is_row : Memᴰ row db.physical_routes
  pub is_table : Memᴰ table db.logical_tables
  pub is_datasource : Memᴰ datasource db.datasources
  pub value_kept : row.route_value ≡ r.route_value
  pub physical_kept : row.physical_table_name ≡ r.physical_table_name
  pub table_id_kept : row.logical_table_id ≡ table.id
  pub datasource_id_kept : row.datasource_id ≡ datasource.id
  pub table_named : table.table_name ≡ r.logical_table_name
  pub datasource_coded : datasource.datasource_code ≡ r.datasource_code

module _ (orm : Orm) (ids : Ids) where
  store_tables-named :
      (records : List TableRecord) (rows : List LogicalTable) {s : Stored LogicalTable}
      (name : String) (i : ℕ)
      → store_tables orm ids records rows ≡ ok s
      → get name s.objects ≡ some i
      → (t : TableRecord) × (t.table_name ≡ name) × Memᴰ (table_of t i) s.rows
  unfolding store_tables
  store_tables-named records rows name i e found =
      stored-NamesRows (λ (t : TableRecord). t.table_name) table_of (λ (t : LogicalTable). t.id)
        (same_table orm) ids records rows e name i found

  store_datasources-named :
      (records : List DatasourceRecord) (rows : List DatasourceInstance)
      {s : Stored DatasourceInstance} (code : String) (i : ℕ)
      → store_datasources orm ids records rows ≡ ok s
      → get code s.objects ≡ some i
      → (d : DatasourceRecord) × (d.datasource_code ≡ code) × Memᴰ (datasource_of d i) s.rows
  unfolding store_datasources
  store_datasources-named records rows code i e found =
      stored-NamesRows (λ (d : DatasourceRecord). d.datasource_code) datasource_of
        (λ (d : DatasourceInstance). d.id) (same_datasource orm) ids records rows e code i found

  refers :
      (b : SyncBundle) (db db' : MetaDb) (r : RouteRecord) {ds : Stored DatasourceInstance}
      {ts : Stored LogicalTable} {ws : List (ℕ → PhysicalTableRoute)}
      {rows : List PhysicalTableRoute}
      → store_datasources orm ids b.datasources db.datasources ≡ ok ds
      → store_tables orm ids b.logical_tables db.logical_tables ≡ ok ts
      → each_of (add_route ts.objects ds.objects) b.physical_routes ≡ ok ws
      → fold_result
          (commit_row (λ (p : PhysicalTableRoute). p.id) (same_route orm) ids)
          db.physical_routes
          ws
        ≡ ok rows
      → Memᴰ r b.physical_routes
      → db'.datasources ≡ ds.rows
      → db'.logical_tables ≡ ts.rows
      → db'.physical_routes ≡ rows
      → RefersTo db' r
  refers b db db' r {ds} {ts} {ws} {rows} eds ets added done m sd st sr =
      let id_of = λ (p : PhysicalTableRoute). p.id in
      let (w, fw, mw) =
        each_of-Memᴰ id_of (same_route orm) ids (add_route ts.objects ds.objects) b.physical_routes
          added m in
      let (t, d, et, ed, same) = add_route-cases ts.objects ds.objects r fw in
      let (i, k) = committed-Memᴰ id_of (same_route orm) ids db.physical_routes ws w done mw in
      let (table, named, mt) =
        store_tables-named b.logical_tables db.logical_tables r.logical_table_name t ets
          (object_id-get ts.objects r.logical_table_name et) in
      let (source, coded, md) =
        store_datasources-named b.datasources db.datasources r.datasource_code d eds
          (object_id-get ds.objects r.datasource_code ed) in
      record {
        row = route_of t d r i;
        table = table_of table t;
        datasource = datasource_of source d;
        is_row = rw sr (subst (λ v. Memᴰ (v i) rows) same k);
        is_table = rw st mt;
        is_datasource = rw sd md;
        value_kept = refl;
        physical_kept = refl;
        table_id_kept = refl;
        datasource_id_kept = refl;
        table_named = named;
        datasource_coded = coded;
      }

  write_bundle-RefersTo :
      (b : SyncBundle) (ps : List PolicySet) (db : MetaDb) (r : RouteRecord)
      → Memᴰ r b.physical_routes
      → Ensures (λ db'. RefersTo db' r) (write_bundle orm ids b ps db)
  unfolding write_bundle commit
  write_bundle-RefersTo b ps db r m =
      let P = λ (d : MetaDb). RefersTo d r in
      Ensures-bind P (store_datasources orm ids b.datasources db.datasources) _ (λ ds eds.
        Ensures-bind P (store_tables orm ids b.logical_tables db.logical_tables) _ (λ ts ets.
          Ensures-bind P (each_of (add_factor ts.objects) b.route_factors) _ (λ fs _.
            Ensures-bind P (each_of (add_rule ts.objects) b.route_rules) _ (λ rs _.
              Ensures-bind P (each_of (add_route ts.objects ds.objects) b.physical_routes) _
                (λ routes added.
                  Ensures-bind P
                    (fold_result (commit_row (λ (f : RouteFactorDef). f.id) (same_factor orm) ids)
                      db.route_factors fs)
                    _
                    (λ f _.
                      Ensures-bind P
                        (fold_result (commit_row (λ (r : RouteRule). r.id) (same_rule orm) ids)
                          db.route_rules rs)
                        _
                        (λ u _.
                          Ensures-bind P
                            (fold_result
                              (commit_row (λ (r : PhysicalTableRoute). r.id) (same_route orm) ids)
                              db.physical_routes routes)
                            _
                            (λ rows done.
                              refers b db _ r eds ets added done m refl refl refl))))))))

  with_session-Ensures :
      (b : SyncBundle) (db : MetaDb) (r : RouteRecord)
      → Memᴰ r b.physical_routes
      → Ensures (λ (p : Summary × MetaDb). RefersTo p.1 r) (with_session orm ids b db)
  unfolding with_session
  with_session-Ensures b db r m =
      let P = λ (p : Summary × MetaDb). RefersTo p.1 r in
      Ensures-bind P (ensure_default_policy orm ids db.policies) _ (λ ps _.
        Ensures-bind P (delete_previous_import db) _ (λ kept _.
          Ensures-bind P (write_bundle orm ids b ps kept) _ (λ db' written.
            Ensures-ok (λ d. RefersTo d r) (write_bundle orm ids b ps kept)
              (write_bundle-RefersTo b ps kept r m) written)))

  -- If a synchronisation returns, each route of the bundle has a row with its value and physical table, which
  -- refers by id to a row of its logical table's name and a row of its datasource's code.
  pub sync_bundle_to_local-RefersTo :
      (b : SyncBundle) (db : MetaDb) {db' : MetaDb} {s : Summary} (r : RouteRecord)
      → sync_bundle_to_local orm ids b db ≡ ok (s, db')
      → Memᴰ r b.physical_routes
      → RefersTo db' r
  sync_bundle_to_local-RefersTo b db r e m =
      Ensures-ok (λ (p : Summary × MetaDb). RefersTo p.1 r) (with_session orm ids b db)
        (with_session-Ensures b db r m) (with_session-returned orm ids b db e)
