-- ===== src/Sync/Write/Duplicates.antt =====
-- A bundle with two routes of one table and one value.
use mathlib.Core.List.Memᴰ
use mathlib.Core.List.{Memᴰ}
use sql_gatekeeper.Prelude.{
  Option-cases, ℕ, ◌≡◌, refl, sym, Bool, true, ◌&&◌, List, [], ◌∷◌, ◌++◌, map, any, eqb, arith, inl,
  inr, Result, Exception, ok, raise, fold_result, >>=-eq-ok, ◌>>=◌, ok-eq, Result-cases, Ensures,
  Ensures-bind, Ensures-ok,
}
use sql_gatekeeper.Prelude.Dict.{Dict}
use sql_gatekeeper.Prelude.Folds.{Ends-ok}
use sql_gatekeeper.Meta.{RouteFactorDef, RouteRule, PhysicalTableRoute, PolicySet, MetaDb}
use sql_gatekeeper.Meta.Inserts.{Ids, insert, same_route, same_factor, same_rule}
use sql_gatekeeper.Repositories.{Orm}
use sql_gatekeeper.Sync.Records.{RouteRecord, SyncBundle}
use sql_gatekeeper.Sync.Store.{
  commit_row, each_of, object_id, route_of, add_factor, add_rule, add_route, delete_previous_import,
}
use sql_gatekeeper.Sync.Store.Rounds.{IsWriteError, insert-Ends}
use sql_gatekeeper.Sync.Write.Sessions.{with_session-returned}
use sql_gatekeeper.Sync.Write.{
  with_session, Summary, ensure_default_policy, store_datasources, store_tables, commit,
  write_bundle, sync_bundle_to_local,
}

-- A loop that returns has returned from its first round.
fold_result-cons :
    {S A : Type 0} (step : S → A → Result S) (s : S) (a : A) (rest : List A) {s' : S}
    → fold_result step s (a ∷ rest) ≡ ok s'
    → (t : S) × (step s a ≡ ok t) × (fold_result step t rest ≡ ok s')
unfolding fold_result
fold_result-cons step s a rest e = elim (Result-cases (step s a)) [
  | inl (t, same) ↦ (t, same, rw (same, fold_result) at e)
  | inr (x, same) ↦ absurd (cc (rw (same, fold_result) at e))
]

any-Memᴰ :
    {A : Type 0} (p : A → Bool) (xs : List A) {a : A} → Memᴰ a xs → p a ≡ true → any p xs ≡ true
any-Memᴰ p [] m e = elim m [ ]
any-Memᴰ p (x ∷ xs) m e = elim (Memᴰ.cases_cons m) [
  | inl same ↦ let e' : p x ≡ true = rw same at e in rw e' refl
  | inr later ↦ let e' = any-Memᴰ p xs later e in ground (arith, e')
]

module _ {A : Type 0} (id_of : A → ℕ) (conflicts : A → A → Bool) (ids : Ids) where
  -- A round adds the row that waits, where no row conflicts with it.
  pub committed :
      (rows : List A) (w : ℕ → A) {rows' : List A}
      → commit_row id_of conflicts ids rows w ≡ ok rows'
      → rows' ≡ rows ++ w (ids.next_id (map id_of rows)) ∷ []
  unfolding commit_row
  committed rows w e =
      let row = w (ids.next_id (map id_of rows)) in
      Ends-ok (λ r. r ≡ rows ++ row ∷ []) IsWriteError (insert ids conflicts row rows)
        (insert-Ends ids conflicts row rows) e

  not_committed :
      (rows : List A) (w : ℕ → A) (old : A) {rows' : List A}
      → Memᴰ old rows
      → ((i : ℕ) → conflicts old (w i) ≡ true)
      → commit_row id_of conflicts ids rows w ≡ ok rows'
      → ⊥
  unfolding commit_row insert
  not_committed rows w old m clash e =
      let row = w (ids.next_id (map id_of rows)) in
      let found : any (λ o. conflicts o row) rows ≡ true =
        any-Memᴰ (λ o. conflicts o row) rows m (clash (ids.next_id (map id_of rows))) in
      elim (Option-cases (ids.row_error A row)) [
        | inr (s, refused) ↦ absurd (cc (rw (refused, insert) at e))
        | inl fine ↦ absurd (cc (rw (fine, found, insert) at e))
      ]

  no_commit_after :
      (ws : List (ℕ → A)) (rows : List A) (old : A) (w : ℕ → A) {rows' : List A}
      → Memᴰ old rows
      → Memᴰ w ws
      → ((i : ℕ) → conflicts old (w i) ≡ true)
      → fold_result (commit_row id_of conflicts ids) rows ws ≡ ok rows'
      → ⊥
  no_commit_after [] rows old w m mw clash e = elim mw [ ]
  no_commit_after (v ∷ ws) rows old w m mw clash e =
      let (next, first, rest) = fold_result-cons (commit_row id_of conflicts ids) rows v ws e in
      elim (Memᴰ.cases_cons mw) [
        | inl same ↦
            let first' : commit_row id_of conflicts ids rows w ≡ ok next = rw same first in
            not_committed rows w old m clash first'
        | inr later ↦
            no_commit_after ws next old w (rw (committed rows v first) (Memᴰ.append_left _ m)) later
              clash rest
      ]

  module _ {R : Type 0} (f : R → Result (ℕ → A)) where
    pub each_of-Memᴰ :
        (rs : List R) {r : R} {ws : List (ℕ → A)}
        → each_of f rs ≡ ok ws
        → Memᴰ r rs
        → (w : ℕ → A) × (f r ≡ ok w) × Memᴰ w ws
    unfolding each_of
    each_of-Memᴰ [] e m = elim m [ ]
    each_of-Memᴰ (q ∷ rs) e m =
        let (w, fw, e₁) = >>=-eq-ok (f q) (λ b. each_of f rs >>= λ bs. ok (b ∷ bs)) e in
        let (ws, fws, e₂) = >>=-eq-ok (each_of f rs) (λ bs. ok (w ∷ bs)) e₁ in
        elim (Memᴰ.cases_cons m) [
          | inl same ↦ (w, rw same fw, rw (← ok-eq e₂) (Memᴰ.head refl))
          | inr later ↦
              let (v, fv, k) = each_of-Memᴰ rs fws later in (v, fv, rw (← ok-eq e₂) (Memᴰ.tail k))
        ]

    -- Two records whose rows conflict are not both committed.
    no_commit_both :
        (xs ys : List R) (q r : R) (rows : List A) {ws : List (ℕ → A)} {rows' : List A}
        → ((v w : ℕ → A) → f q ≡ ok v → f r ≡ ok w → (i j : ℕ) → conflicts (v i) (w j) ≡ true)
        → each_of f (xs ++ q ∷ ys) ≡ ok ws
        → Memᴰ r ys
        → fold_result (commit_row id_of conflicts ids) rows ws ≡ ok rows'
        → ⊥
    unfolding each_of
    no_commit_both [] ys q r rows clash e m c =
        let (v, fv, e₁) = >>=-eq-ok (f q) (λ b. each_of f ys >>= λ bs. ok (b ∷ bs)) e in
        let (ws, fws, e₂) = >>=-eq-ok (each_of f ys) (λ bs. ok (v ∷ bs)) e₁ in
        let (w, fw, mw) = each_of-Memᴰ ys fws m in
        let (next, first, rest) =
          fold_result-cons (commit_row id_of conflicts ids) rows v ws (rw (← ok-eq e₂) at c) in
        let i = ids.next_id (map id_of rows) in
        no_commit_after ws next (v i) w
          (rw (committed rows v first) (Memᴰ.append_right rows (Memᴰ.head refl))) mw
          (clash v w fv fw i) rest
    no_commit_both (x ∷ xs) ys q r rows clash e m c =
        let (v, fv, e₁) = >>=-eq-ok (f x) (λ b. each_of f (xs ++ q ∷ ys) >>= λ bs. ok (b ∷ bs)) e in
        let (ws, fws, e₂) = >>=-eq-ok (each_of f (xs ++ q ∷ ys)) (λ bs. ok (v ∷ bs)) e₁ in
        let (next, first, rest) =
          fold_result-cons (commit_row id_of conflicts ids) rows v ws (rw (← ok-eq e₂) at c) in
        no_commit_both xs ys q r next clash fws m rest

pub add_route-cases :
    (ts ds : Dict ℕ) (r : RouteRecord) {w : ℕ → PhysicalTableRoute}
    → add_route ts ds r ≡ ok w
    → (t : ℕ) × (d : ℕ) × (object_id ts r.logical_table_name ≡ ok t)
      × (object_id ds r.datasource_code ≡ ok d)
      × (w ≡ route_of t d r)
add_route-cases ts ds r e =
    let (t, et, e₁) =
      >>=-eq-ok (object_id ts r.logical_table_name)
        (λ t. object_id ds r.datasource_code >>= λ d. ok (route_of t d r)) e in
    let (d, ed, e₂) = >>=-eq-ok (object_id ds r.datasource_code) (λ d. ok (route_of t d r)) e₁ in
    (t, d, et, ed, sym (ok-eq e₂))

module _ (orm : Orm) (ids : Ids) where
  abbrev Impossible : {A : Type 0} → A → Type 0
  Impossible a = ⊥

  -- Two routes of the bundle, the one before the other, with one table and one value.
  pub record HasDuplicate (b : SyncBundle) : Type 0 where
    pub before : List RouteRecord
    pub first : RouteRecord
    pub after : List RouteRecord
    pub second : RouteRecord
    pub are_routes : b.physical_routes ≡ before ++ first ∷ after
    pub is_later : Memᴰ second after
    pub same_table_name : first.logical_table_name ≡ second.logical_table_name
    pub same_value : orm.same first.route_value second.route_value ≡ true

  clash :
      {b : SyncBundle} (h : HasDuplicate b) (ts ds : Dict ℕ) (v w : ℕ → PhysicalTableRoute)
      → add_route ts ds h.first ≡ ok v
      → add_route ts ds h.second ≡ ok w
      → (i j : ℕ) → same_route orm (v i) (w j) ≡ true
  clash h ts ds v w ev ew i j =
      let (t, d, et, _, same) = add_route-cases ts ds h.first ev in
      let (t', d', et', _, same') = add_route-cases ts ds h.second ew in
      let equal : t ≡ t' = ok-eq (cc (et, et', h.same_table_name)) in
      let value = h.same_value in
      let both : (eqb t t' && orm.same h.first.route_value h.second.route_value) ≡ true =
        ground arith in
      rw (same, same') both

  write_bundle-Impossible :
      (b : SyncBundle) (ps : List PolicySet) (db : MetaDb)
      → HasDuplicate b
      → Ensures Impossible (write_bundle orm ids b ps db)
  unfolding write_bundle commit
  write_bundle-Impossible b ps db h =
      let P = λ (d : MetaDb). ⊥ in
      Ensures-bind P (store_datasources orm ids b.datasources db.datasources) _ (λ ds _.
        Ensures-bind P (store_tables orm ids b.logical_tables db.logical_tables) _ (λ ts _.
          Ensures-bind P (each_of (add_factor ts.objects) b.route_factors) _ (λ fs _.
            Ensures-bind P (each_of (add_rule ts.objects) b.route_rules) _ (λ rs _.
              Ensures-bind P (each_of (add_route ts.objects ds.objects) b.physical_routes) _
                (λ routes added.
                  Ensures-bind P
                    (fold_result (commit_row (λ (f : RouteFactorDef). f.id) (same_factor orm) ids)
                      db.route_factors fs)
                    _
                    (λ _ _.
                      Ensures-bind P
                        (fold_result (commit_row (λ (r : RouteRule). r.id) (same_rule orm) ids)
                          db.route_rules rs)
                        _
                        (λ _ _.
                          Ensures-bind P
                            (fold_result
                              (commit_row (λ (r : PhysicalTableRoute). r.id) (same_route orm) ids)
                              db.physical_routes routes)
                            _
                            (λ _ done.
                              no_commit_both (λ (r : PhysicalTableRoute). r.id) (same_route orm) ids
                                (add_route ts.objects ds.objects) h.before h.after h.first h.second
                                db.physical_routes (clash h ts.objects ds.objects)
                                (rw h.are_routes at added) h.is_later done))))))))

  with_session-Impossible :
      (b : SyncBundle) (db : MetaDb)
      → HasDuplicate b
      → Ensures Impossible (with_session orm ids b db)
  unfolding with_session
  with_session-Impossible b db h =
      let P = λ (p : Summary × MetaDb). ⊥ in
      Ensures-bind P (ensure_default_policy orm ids db.policies) _ (λ ps _.
        Ensures-bind P (delete_previous_import db) _ (λ kept _.
          Ensures-bind P (write_bundle orm ids b ps kept) _ (λ db' written.
            Ensures-ok Impossible (write_bundle orm ids b ps kept)
              (write_bundle-Impossible b ps kept h) written)))

  -- A bundle with two routes of one table and one value is never imported: the synchronisation ends with an
  -- exception.
  pub sync_bundle_to_local-HasDuplicate :
      (b : SyncBundle) (db : MetaDb)
      → HasDuplicate b
      → (x : Exception) × (sync_bundle_to_local orm ids b db ≡ raise x)
  sync_bundle_to_local-HasDuplicate b db h =
      elim (Result-cases (sync_bundle_to_local orm ids b db)) [
        | inl (p, e) ↦ absurd (
            Ensures-ok Impossible (with_session orm ids b db) (with_session-Impossible b db h)
              (with_session-returned orm ids b db e))
        | inr raised ↦ raised
      ]
