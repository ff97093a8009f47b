-- ===== src/Sync/Routes/Distinct.antt =====
-- The routes of a sharded table have different values.
use mathlib.Core.List.{Memᴰ}
use sql_gatekeeper.Prelude.{
  String, refl, sym, ◌≡◌, ◌≢◌, true, false, none, List, [], ◌∷◌, ◌++◌, ◌⊎◌, inl, inr, All, ok,
  raise, value_error, fold_result, Option-cases, if-eq-cases, >>=-eq-ok, ok-eq,
}
use sql_gatekeeper.Prelude.Text.Number.{ℤ}
use sql_gatekeeper.Prelude.Int.{show_ℤ, range_to}
use sql_gatekeeper.Prelude.Dict.{get}
use sql_gatekeeper.Prelude.Folds.{fold_result-keeps}
use sql_gatekeeper.Prelude.Sorting.{sorted}
use sql_gatekeeper.Sync.Library.{Library}
use sql_gatekeeper.Sync.Records.{TableConfigRow, RouteRecord}
use sql_gatekeeper.Sync.Routes.{
  RouteState, row_le, same_target, target, noted, route_record, shard_name, shard_step, shard_row,
  row_step, physical_routes,
}
use sql_gatekeeper.Sync.Routes.Notes.{Agrees, Notes-Agrees, shard_step-Notes}

abbrev pub DistinctValues : List RouteRecord → Type 0
DistinctValues [] = Unit
DistinctValues (r ∷ rs) =
    All (λ (q : RouteRecord). r.route_value ≢ q.route_value) rs × DistinctValues rs

All-last :
    (P : RouteRecord → Type 0) (rs : List RouteRecord) (q : RouteRecord)
    → All P rs
    → P q
    → All P (rs ++ q ∷ [])
All-last P [] q h p = (p, tt)
All-last P (r ∷ rs) q (h, k) p = (h, All-last P rs q k p)

DistinctValues-last :
    (rs : List RouteRecord) (q : RouteRecord)
    → DistinctValues rs
    → ((r : RouteRecord) → Memᴰ r rs → r.route_value ≢ q.route_value)
    → DistinctValues (rs ++ q ∷ [])
DistinctValues-last [] q h new = (tt, tt)
DistinctValues-last (r ∷ rs) q (h, k) new = (
  All-last (λ (p : RouteRecord). r.route_value ≢ p.route_value) rs q h (new r (Memᴰ.head refl)),
  DistinctValues-last rs q k (λ p m. new p (Memᴰ.tail m)),
)

module _ (lib : Library) (name : String) where
  -- A round adds a route only for a value that is new.
  shard_step-cases :
      (row : TableConfigRow) (s : RouteState) (i : ℤ) {s' : RouteState}
      → shard_step lib name row s i ≡ ok s'
      → (get (show_ℤ i) s.seen ≡ none)
          × (s' ≡ noted lib name row (show_ℤ i) (shard_name lib name row i) s)
        ⊎ (s' ≡ s)
  unfolding shard_step
  shard_step-cases row s i e = elim (Option-cases (get (show_ℤ i) s.seen)) [
    | inl new ↦ inl (new, sym (ok-eq (rw (new, shard_step) at e)))
    | inr (t, old) ↦
        elim (if-eq-cases (same_target t (target lib name row (shard_name lib name row i))) (ok s)
          (raise value_error) (rw (old, shard_step) at e)) [
            | inl (_, e') ↦ inr (sym (ok-eq e'))
            | inr (_, e') ↦ absurd (cc)
          ]
  ]

  abbrev AreDistinct : RouteState → Type 0
  AreDistinct s = Agrees s × DistinctValues s.routes

  shard_step-AreDistinct :
      (row : TableConfigRow) (s : RouteState) (i : ℤ) (s' : RouteState)
      → shard_step lib name row s i ≡ ok s'
      → AreDistinct s
      → AreDistinct s'
  shard_step-AreDistinct row s i s' e (a, d) = (
    Notes-Agrees lib name row (show_ℤ i) (shard_name lib name row i)
        (shard_step-Notes lib name row s i s' e) a,
    elim (shard_step-cases row s i e) [
      | inr same ↦ rw same d
      | inl (new, same) ↦ rw same (
          DistinctValues-last s.routes
            (route_record lib name row (show_ℤ i) (shard_name lib name row i)) d
            (λ r m v. let there = a.is_seen r m in absurd (cc (new, v, there))))
    ],
  )

  row_step-AreDistinct :
      (s : RouteState) (row : TableConfigRow) (s' : RouteState)
      → row_step lib name false true s row ≡ ok s'
      → AreDistinct s
      → AreDistinct s'
  unfolding row_step shard_row
  row_step-AreDistinct s row s' e h =
      fold_result-keeps (shard_step lib name row) AreDistinct
        (range_to row.begin_index row.end_index)
        (λ t i t' e' k. shard_step-AreDistinct row t i t' e' k) e h

  -- The routes of a sharded table have pairwise different values, as their unique constraint demands.
  pub physical_routes-DistinctValues :
      (rows : List TableConfigRow) {routes : List RouteRecord}
      → physical_routes lib name false true rows ≡ ok routes
      → DistinctValues routes
  unfolding physical_routes get
  physical_routes-DistinctValues rows e =
      let start : RouteState = record { seen = []; routes = [] } in
      let (s, e', last) =
        >>=-eq-ok (fold_result (row_step lib name false true) start (sorted row_le rows))
          (λ s. ok s.routes) e in
      let kept =
        fold_result-keeps (row_step lib name false true) AreDistinct (sorted row_le rows)
          (λ t row t' e'' k. row_step-AreDistinct t row t' e'' k) e'
          (record { is_seen = λ r m. elim m [ ]; is_routed = λ v t x. absurd (cc) }, tt) in
      rw (← ok-eq last) kept.1
