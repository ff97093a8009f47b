-- ===== src/Sync/Routes/Conflicts.antt =====
-- What the loops over the rows of a logical table raise.
use mathlib.Core.List.Memᴰ
use mathlib.Core.List.{Memᴰ}
use sql_gatekeeper.Prelude.{
  String, ◌<>◌, ◌≡◌, ◌≢◌, refl, sym, Bool, true, false, some, List, [], ◌==◌, ◌⊎◌, inl, inr,
  Exception, ok, raise, value_error, fold_result, eq_iff, Option-cases, Result-cases, if-eq-cases,
  arith,
}
use sql_gatekeeper.Prelude.Text.Number.{ℤ}
use sql_gatekeeper.Prelude.Int.{show_ℤ, range_to}
use sql_gatekeeper.Prelude.Dict.{get, put, get-put}
use sql_gatekeeper.Prelude.Folds.{Ends-raise, Ends, Ends-intro, Ends-bind, fold_result-Ends}
use sql_gatekeeper.Prelude.Sorting.{sorted, sorted-Memᴰ}
use sql_gatekeeper.Sync.Library.{Library}
use sql_gatekeeper.Sync.Identifiers.{or_else}
use sql_gatekeeper.Sync.Records.{TableConfigRow, RouteRecord}
use sql_gatekeeper.Sync.Routes.{
  RouteState, row_le, same_target, target, noted, single_step, shard_step, shard_row, shard_name,
  row_step, physical_routes,
}
use sql_gatekeeper.Sync.Routes.Covers.{
  row_targets, physical_routes-covers, physical_routes-consistent,
}
use sql_gatekeeper.Sync.Routes.Notes.{target_of, Notes, single_step-Notes, shard_step-Notes}

same_target_refl : (s t : String × String) → s ≡ t → same_target s t ≡ true
same_target_refl (a, b) (c, d) e =
    let p : a ≡ c = cc in let q : b ≡ d = cc in ground (arith, eq_iff a c, eq_iff b d)

module _ (lib : Library) (name : String) (by_source sharded : Bool)
    (rows : List TableConfigRow) where
  -- A row asks for a route from a value to its table and datasource.
  pub record Asks (value : String) (t : String × String) : Type 0 where
    pub row : TableConfigRow
    pub physical : String
    pub is_row : Memᴰ row rows
    pub is_target : Memᴰ (value, physical) (row_targets by_source sharded row)
    pub is_led : t ≡ target lib name row physical

  -- Two rows ask for one value with different targets.
  pub record RowsConflict : Type 0 where
    pub value : String
    pub one : String × String
    pub two : String × String
    pub asks_one : Asks value one
    pub asks_two : Asks value two
    pub is_different : one ≢ two

  abbrev Fails : Exception → Type 0
  Fails x = (x ≡ value_error) × RowsConflict

  -- Every seen value is asked for by a row.
  abbrev IsAsked : RouteState → Type 0
  IsAsked s = (v : String) (t : String × String) → get v s.seen ≡ some t → Asks v t

  module _ (row : TableConfigRow) (value physical : String) (m : Memᴰ row rows)
      (k : Memᴰ (value, physical) (row_targets by_source sharded row)) where
    asks : Asks value (target lib name row physical)
    asks = record { row = row; physical = physical; is_row = m; is_target = k; is_led = refl }

    Notes-IsAsked :
        {s s' : RouteState} → Notes lib name row value physical s s' → IsAsked s → IsAsked s'
    Notes-IsAsked {s} (inl (_, e)) h v t g =
        let g' : get v (put value (target lib name row physical) s.seen) ≡ some t = rw e at g in
        elim (if-eq-cases (value == v) (some (target lib name row physical)) (get v s.seen)
          (sym (get-put value v (target lib name row physical) s.seen))) [
            | inl (same, e') ↦
                let w : value ≡ v = ground (arith, eq_iff value v) in
                let t' : target lib name row physical ≡ t = cc in rw (← w, ← t') asks
            | inr (_, e') ↦ h v t (cc)
          ]
    Notes-IsAsked (inr (_, e)) h v t g = h v t (rw e at g)

    -- A round that meets another target for its value.
    meets-RowsConflict :
        (s : RouteState) (t : String × String)
        → IsAsked s
        → get value s.seen ≡ some t
        → same_target t (target lib name row physical) ≡ false
        → RowsConflict
    meets-RowsConflict s t h g d = record {
      value = value;
      one = t;
      two = target lib name row physical;
      asks_one = h value t g;
      asks_two = asks;
      is_different = λ e. absurd (cc (same_target_refl t (target lib name row physical) e, d));
    }

    single_step-Ends :
        (s : RouteState)
        → physical ≡ row.table_name
        → IsAsked s
        → Ends IsAsked Fails (single_step lib name value s row)
    unfolding single_step
    single_step-Ends s named h =
        Ends-intro IsAsked Fails (single_step lib name value s row)
          (λ s' e. Notes-IsAsked (rw (← named) at (single_step-Notes lib name value s row s' e)) h)
          (λ x e. elim (Option-cases (get value s.seen)) [
            | inl new ↦ absurd (cc (rw (new, single_step) at e))
            | inr (t, old) ↦
                elim (if-eq-cases (same_target t (target lib name row row.table_name))
                  (ok (noted lib name row value row.table_name s)) (raise value_error)
                  (rw (old, single_step) at e)) [
                    | inl (_, e') ↦ absurd (cc)
                    | inr (d, e') ↦ (cc, meets-RowsConflict s t h old (rw named d))
                  ]
          ])

  shard_step-Ends :
      (row : TableConfigRow) (s : RouteState) (i : ℤ)
      → Memᴰ row rows
      → Memᴰ (show_ℤ i, shard_name lib name row i) (row_targets by_source sharded row)
      → IsAsked s
      → Ends IsAsked Fails (shard_step lib name row s i)
  unfolding shard_step
  shard_step-Ends row s i m k h =
      let physical = shard_name lib name row i in
      Ends-intro IsAsked Fails (shard_step lib name row s i)
        (λ s' e.
          Notes-IsAsked row (show_ℤ i) physical m k (shard_step-Notes lib name row s i s' e) h)
        (λ x e. elim (Option-cases (get (show_ℤ i) s.seen)) [
          | inl new ↦ absurd (cc (rw (new, shard_step) at e))
          | inr (t, old) ↦
              elim (if-eq-cases (same_target t (target lib name row physical)) (ok s)
                (raise value_error) (rw (old, shard_step) at e)) [
                  | inl (_, e') ↦ absurd (cc)
                  | inr (d, e') ↦ (cc, meets-RowsConflict row (show_ℤ i) physical m k s t h old d)
                ]
        ])

module _ (lib : Library) (name : String) (rows : List TableConfigRow) where
  shard_row-Ends :
      (row : TableConfigRow) (s : RouteState)
      → Memᴰ row rows
      → IsAsked lib name false true rows s
      → Ends
          (IsAsked lib name false true rows)
          (Fails lib name false true rows)
          (shard_row lib name s row)
  unfolding shard_row
  shard_row-Ends row s m h =
      let P = IsAsked lib name false true rows in
      let E = Fails lib name false true rows in
      fold_result-Ends (shard_step lib name row) P E (range_to row.begin_index row.end_index)
        (λ t i k h'.
          shard_step-Ends lib name false true rows row t i m
            (Memᴰ.map (λ j. (show_ℤ j, row.table_name <> ("_" <> show_ℤ j))) k) h')
        s h

  row_step-Ends :
      (by_source sharded : Bool) (row : TableConfigRow) (s : RouteState)
      → Memᴰ row rows
      → IsAsked lib name by_source sharded rows s
      → Ends
          (IsAsked lib name by_source sharded rows)
          (Fails lib name by_source sharded rows)
          (row_step lib name by_source sharded s row)
  unfolding row_step
  row_step-Ends true sharded row s m h =
      single_step-Ends lib name true sharded rows row (or_else row.source_name "unknown_source")
        row.table_name m (Memᴰ.head refl) s refl h
  row_step-Ends false false row s m h =
      single_step-Ends lib name false false rows row "0" row.table_name m (Memᴰ.head refl) s refl h
  row_step-Ends false true row s m h = shard_row-Ends row s m h

  physical_routes-raises :
      (by_source sharded : Bool) {x : Exception}
      → physical_routes lib name by_source sharded rows ≡ raise x
      → (x ≡ value_error) × RowsConflict lib name by_source sharded rows
  unfolding physical_routes get
  physical_routes-raises by_source sharded e =
      let P = IsAsked lib name by_source sharded rows in
      let E = Fails lib name by_source sharded rows in
      let Q = λ (routes : List RouteRecord). Unit {0} in
      let initial : RouteState = record { seen = []; routes = [] } in
      let loop = fold_result (row_step lib name by_source sharded) initial (sorted row_le rows) in
      let ended =
        fold_result-Ends (row_step lib name by_source sharded) P E (sorted row_le rows)
          (λ s row m h. row_step-Ends by_source sharded row s (sorted-Memᴰ row_le rows m) h) initial
          (λ v t g. absurd (cc)) in
      Ends-raise Q E (physical_routes lib name by_source sharded rows)
        (Ends-bind P Q E loop (λ s. ok s.routes) ended (λ s e' h. tt)) e

  -- No two rows conflict where the loops return.
  ok-RowsConflict :
      (by_source sharded : Bool) {routes : List RouteRecord}
      → physical_routes lib name by_source sharded rows ≡ ok routes
      → ¬ RowsConflict lib name by_source sharded rows
  ok-RowsConflict by_source sharded e c =
      let a = c.asks_one in
      let b = c.asks_two in
      let (q, mq, vq, tq) =
        physical_routes-covers lib name by_source sharded rows a.row (c.value, a.physical) e
          a.is_row a.is_target in
      let (r, mr, vr, tr) =
        physical_routes-covers lib name by_source sharded rows b.row (c.value, b.physical) e
          b.is_row b.is_target in
      let (p, d) =
        physical_routes-consistent lib name by_source sharded rows q r e mq mr (cc (vq, vr)) in
      let same : target_of q ≡ target_of r = cc (p, d) in
      let one = a.is_led in let two = b.is_led in c.is_different (cc)

  -- Either the loops over the rows return, and no two rows ask for routes of one value with different
  -- physical tables or datasources, or they raise a value error, and two rows do.
  pub physical_routes-cases :
      (by_source sharded : Bool)
      → ((routes : List RouteRecord) × (physical_routes lib name by_source sharded rows ≡ ok routes)
          × (¬ RowsConflict lib name by_source sharded rows))
        ⊎ (physical_routes lib name by_source sharded rows ≡ raise value_error)
          × RowsConflict lib name by_source sharded rows
  physical_routes-cases by_source sharded =
      elim (Result-cases (physical_routes lib name by_source sharded rows)) [
        | inl (routes, e) ↦ inl (routes, e, ok-RowsConflict by_source sharded e)
        | inr (x, e) ↦ let (v, c) = physical_routes-raises by_source sharded e in inr (cc, c)
      ]
