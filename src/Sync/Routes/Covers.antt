-- ===== src/Sync/Routes/Covers.antt =====
-- The routes of a logical table against an independent description of them.
use mathlib.Core.List.Memᴰ
use mathlib.Core.List.{Memᴰ}
use sql_gatekeeper.Prelude.{
  String, ◌<>◌, ◌≡◌, Bool, true, false, some, List, [], ◌∷◌, map, inl, inr, ok, fold_result, ok-eq,
  >>=-eq-ok,
}
use sql_gatekeeper.Prelude.Text.Number.{ℤ}
use sql_gatekeeper.Prelude.Int.{show_ℤ, range_to}
use sql_gatekeeper.Prelude.Dict.{get}
use sql_gatekeeper.Prelude.Folds.{fold_result-keeps, fold_result-reaches}
use sql_gatekeeper.Prelude.Sorting.{sorted, Memᴰ-sorted}
use sql_gatekeeper.Sync.Library.{Library}
use sql_gatekeeper.Sync.Identifiers.{or_else, make_datasource_code}
use sql_gatekeeper.Sync.Records.{TableConfigRow, RouteRecord}
use sql_gatekeeper.Sync.Routes.{
  RouteState, row_le, target, shard_step, shard_row, shard_name, row_step, physical_routes,
}
use sql_gatekeeper.Sync.Routes.Notes.{
  Agrees, target_of, Notes, Notes-seen, Notes-keeps, Notes-Agrees, single_step-Notes,
  shard_step-Notes,
}

-- The route values of a row, each with its physical table.
abbrev pub row_targets : Bool → Bool → TableConfigRow → List (String × String)
row_targets true sharded row = (or_else row.source_name "unknown_source", row.table_name) ∷ []
row_targets false false row = ("0", row.table_name) ∷ []
row_targets false true row =
    map (λ i. (show_ℤ i, row.table_name <> ("_" <> show_ℤ i)))
      (range_to row.begin_index row.end_index)

module _ (lib : Library) (name : String) where
  -- What every round keeps, under a property of states that `Notes` keeps.
  module _ (Q : RouteState → Type 0)
      (keep : (row : TableConfigRow) (value physical : String) (s s' : RouteState)
        → Notes lib name row value physical s s'
        → Q s
        → Q s') where
    shard_row-keeps :
        (row : TableConfigRow) (s s' : RouteState) → shard_row lib name s row ≡ ok s' → Q s → Q s'
    unfolding shard_row
    shard_row-keeps row s s' e q =
        fold_result-keeps (shard_step lib name row) Q (range_to row.begin_index row.end_index)
          (λ t i t' e'.
            keep row (show_ℤ i) (shard_name lib name row i) t t'
              (shard_step-Notes lib name row t i t' e'))
          e q

    row_step-keeps :
        (by_source sharded : Bool) (s : RouteState) (row : TableConfigRow) (s' : RouteState)
        → row_step lib name by_source sharded s row ≡ ok s'
        → Q s
        → Q s'
    unfolding row_step
    row_step-keeps true sharded s row s' e q =
        let v = or_else row.source_name "unknown_source" in
        keep row v row.table_name s s' (single_step-Notes lib name v s row s' e) q
    row_step-keeps false false s row s' e q =
        keep row "0" row.table_name s s' (single_step-Notes lib name "0" s row s' e) q
    row_step-keeps false true s row s' e q = shard_row-keeps row s s' e q

    rows-keep :
        (by_source sharded : Bool) (rows : List TableConfigRow) {s s' : RouteState}
        → fold_result (row_step lib name by_source sharded) s rows ≡ ok s'
        → Q s
        → Q s'
    rows-keep by_source sharded rows e q =
        fold_result-keeps (row_step lib name by_source sharded) Q rows
          (λ t row t' e'. row_step-keeps by_source sharded t row t' e') e q

  abbrev Sees : TableConfigRow → String × String → RouteState → Type 0
  Sees row p s = get p.0 s.seen ≡ some (target lib name row p.1)

  Sees-Notes :
      (r : TableConfigRow) (p : String × String) (row : TableConfigRow) (value physical : String)
      (s s' : RouteState)
      → Notes lib name row value physical s s'
      → Sees r p s
      → Sees r p s'
  Sees-Notes r p row value physical s s' n h =
      Notes-keeps lib name row value physical p.0 (target lib name r p.1) n h

  shard_row-Sees :
      (row : TableConfigRow) (s s' : RouteState) (i : ℤ)
      → shard_row lib name s row ≡ ok s'
      → Memᴰ i (range_to row.begin_index row.end_index)
      → Sees row (show_ℤ i, shard_name lib name row i) s'
  unfolding shard_row
  shard_row-Sees row s s' i e m =
      let of_suffix = λ (j : ℤ). Sees row (show_ℤ j, shard_name lib name row j) in
      fold_result-reaches (shard_step lib name row) of_suffix
        (range_to row.begin_index row.end_index) s
        (λ t j t' e'.
          Notes-seen lib name row (show_ℤ j) (shard_name lib name row j)
            (shard_step-Notes lib name row t j t' e'))
        (λ j t k t' e'.
          Sees-Notes row (show_ℤ j, shard_name lib name row j) row (show_ℤ k)
            (shard_name lib name row k) t t' (shard_step-Notes lib name row t k t' e'))
        e m

  row_step-Sees :
      (by_source sharded : Bool) (s : RouteState) (row : TableConfigRow) (s' : RouteState)
      → row_step lib name by_source sharded s row ≡ ok s'
      → (p : String × String) → Memᴰ p (row_targets by_source sharded row)
      → Sees row p s'
  unfolding row_step
  row_step-Sees true sharded s row s' e p m = elim (Memᴰ.cases_cons m) [
    | inl same ↦
        let v = or_else row.source_name "unknown_source" in
        rw same (Notes-seen lib name row v row.table_name (single_step-Notes lib name v s row s' e))
    | inr later ↦ elim later [ ]
  ]
  row_step-Sees false false s row s' e p m = elim (Memᴰ.cases_cons m) [
    | inl same ↦
        rw same
          (Notes-seen lib name row "0" row.table_name (single_step-Notes lib name "0" s row s' e))
    | inr later ↦ elim later [ ]
  ]
  row_step-Sees false true s row s' e p m =
      let (i, m', same) =
        Memᴰ.of_map (λ i. (show_ℤ i, row.table_name <> ("_" <> show_ℤ i)))
          (range_to row.begin_index row.end_index) m in
      rw (← same) (shard_row-Sees row s s' i e m')

  rows-Sees :
      (by_source sharded : Bool) (rows : List TableConfigRow) (s : RouteState) {s' : RouteState}
      (row : TableConfigRow) (p : String × String)
      → fold_result (row_step lib name by_source sharded) s rows ≡ ok s'
      → Memᴰ row rows
      → Memᴰ p (row_targets by_source sharded row)
      → Sees row p s'
  rows-Sees by_source sharded rows s row p e m t =
      fold_result-reaches (row_step lib name by_source sharded)
        (λ r u. (q : String × String) → Memᴰ q (row_targets by_source sharded r) → Sees r q u) rows
        s (λ u r u' e'. row_step-Sees by_source sharded u r u' e')
        (λ r u c u' e' h q k.
          row_step-keeps (Sees r q) (Sees-Notes r q) by_source sharded u c u' e' (h q k))
        e m p t

  initial-Agrees : Agrees (record { seen = []; routes = [] })
  unfolding get
  initial-Agrees = record { is_seen = λ r m. elim m [ ]; is_routed = λ v t e. absurd (cc) }

  -- The state that the loop over the rows ends in.
  pub physical_routes-ends :
      (by_source sharded : Bool) (rows : List TableConfigRow) {routes : List RouteRecord}
      → physical_routes lib name by_source sharded rows ≡ ok routes
      → (s : RouteState) × (fold_result
            (row_step lib name by_source sharded)
            (record { seen = []; routes = [] })
            (sorted row_le rows)
          ≡ ok s)
        × Agrees s
        × (s.routes ≡ routes)
  unfolding physical_routes
  physical_routes-ends by_source sharded rows e =
      let (s, e', last) =
        >>=-eq-ok
          (fold_result (row_step lib name by_source sharded) (record { seen = []; routes = [] })
            (sorted row_le rows))
          (λ s. ok s.routes) e in
      (
        s,
        e',
        rows-keep Agrees
            (λ row value physical t t' n a. Notes-Agrees lib name row value physical n a) by_source
            sharded (sorted row_le rows) e' initial-Agrees,
        ok-eq last,
      )

  -- If the loops return, each value of each row has a route, to the row's physical table for that value
  -- and the row's datasource.
  pub physical_routes-covers :
      (by_source sharded : Bool) (rows : List TableConfigRow) {routes : List RouteRecord}
      (row : TableConfigRow) (p : String × String)
      → physical_routes lib name by_source sharded rows ≡ ok routes
      → Memᴰ row rows
      → Memᴰ p (row_targets by_source sharded row)
      → (r : RouteRecord) × Memᴰ r routes
        × (r.route_value ≡ p.0)
        × (target_of r ≡ (p.1, make_datasource_code lib row.source_name))
  physical_routes-covers by_source sharded rows row p e m t =
      let (s, e', a, same) = physical_routes-ends by_source sharded rows e in
      rw (← same) (
        a.is_routed p.0 (target lib name row p.1) (
          rows-Sees by_source sharded (sorted row_le rows) (record { seen = []; routes = [] }) row p
            e' (Memᴰ-sorted row_le rows m) t))

  -- Two routes of a logical table with one value have the same physical table and the same datasource.
  pub physical_routes-consistent :
      (by_source sharded : Bool) (rows : List TableConfigRow) {routes : List RouteRecord}
      (q r : RouteRecord)
      → physical_routes lib name by_source sharded rows ≡ ok routes
      → Memᴰ q routes
      → Memᴰ r routes
      → q.route_value ≡ r.route_value
      → (q.physical_table_name ≡ r.physical_table_name) × (q.datasource_code ≡ r.datasource_code)
  physical_routes-consistent by_source sharded rows q r e mq mr v =
      let (s, e', a, same) = physical_routes-ends by_source sharded rows e in
      let hq = a.is_seen q (rw same mq) in
      let hr = a.is_seen r (rw same mr) in (cc (hq, hr, v), cc (hq, hr, v))
