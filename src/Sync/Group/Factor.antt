-- ===== src/Sync/Group/Factor.antt =====
-- The modulus of a sharded table against its routes.
use mathlib.Core.List.Memᴰ
use mathlib.Core.List.{Memᴰ}
use mathlib.Core.Path.{subst}
use sql_gatekeeper.Prelude.{
  ℕ, zero, suc, ◌+◌, ◌<◌, String, ◌<>◌, refl, ap, sym, ◌≡◌, true, false, ◌&&◌, List, [], ◌∷◌, ◌++◌,
  inl, inr, length, ok, >>=-eq-ok, ok-eq, Bool-cases, if-eq-cases, and_true, arith, eqb→eq,
}
use sql_gatekeeper.Prelude.Text.Number.{ℤ, pos, negsuc, show}
use sql_gatekeeper.Prelude.Int.{show_ℤ, eqb_ℤ, is_positive, range_to, range_below, count_from}
use sql_gatekeeper.Sync.Library.{Library}
use sql_gatekeeper.Sync.Records.{TableConfigRow, RouteRecord}
use sql_gatekeeper.Sync.Routes.{physical_routes}
use sql_gatekeeper.Sync.Routes.Covers.{physical_routes-covers}
use sql_gatekeeper.Sync.Group.Dedup.{dedup}
use sql_gatekeeper.Sync.Group.{
  is_sharded, requires_source_routing, shard_suffixes, shard_modulus, contains, all_in, same_set,
  supports_business_factor_routing, GroupEntries, entries, build_group,
}

eqb_ℤ-eq : (i j : ℤ) → eqb_ℤ i j ≡ true → i ≡ j
eqb_ℤ-eq (pos a) (pos b) e = ap pos (eqb→eq a b e)
eqb_ℤ-eq (negsuc a) (negsuc b) e = ap negsuc (eqb→eq a b e)
eqb_ℤ-eq (pos a) (negsuc b) e = absurd (cc)
eqb_ℤ-eq (negsuc a) (pos b) e = absurd (cc)

contains-Memᴰ : (is : List ℤ) (i : ℤ) → contains is i ≡ true → Memᴰ i is
contains-Memᴰ [] i e = absurd (cc)
contains-Memᴰ (j ∷ is) i e = elim (Bool-cases (eqb_ℤ j i)) [
  | inl same ↦ Memᴰ.head (sym (eqb_ℤ-eq j i same))
  | inr other ↦ Memᴰ.tail (contains-Memᴰ is i (ground arith))
]

all_in-Memᴰ : (is js : List ℤ) (i : ℤ) → all_in is js ≡ true → Memᴰ i is → Memᴰ i js
unfolding all_in
all_in-Memᴰ [] js i e m = elim m [ ]
all_in-Memᴰ (j ∷ is) js i e m =
    let (here, rest) = and_true (contains js j) (all_in is js) e in
    elim (Memᴰ.cases_cons m) [
      | inl same ↦ contains-Memᴰ js i (cc)
      | inr later ↦ all_in-Memᴰ is js i rest later
    ]

Memᴰ-count_from : (n k r : ℕ) → r < n → Memᴰ (pos (k + r)) (count_from n (pos k))
unfolding count_from
Memᴰ-count_from zero k r h = absurd (omega arith)
Memᴰ-count_from (suc n) k zero h = Memᴰ.head (ap pos (omega arith))
Memᴰ-count_from (suc n) k (suc r) h =
    let e : k + suc r ≡ k + 1 + r = omega arith in
    rw e (Memᴰ.tail (Memᴰ-count_from n (k + 1) r (omega arith)))

Memᴰ-range_below : (n r : ℕ) → r < n → Memᴰ (pos r) (range_below (pos n))
Memᴰ-range_below n r h =
    let zero_add : 0 + r ≡ r = omega arith in
    subst (λ k. Memᴰ (pos k) (count_from n (pos 0))) zero_add (Memᴰ-count_from n 0 r h)

-- A suffix is one of a row that is sharded.
shard_suffixes-Memᴰ :
    (rows : List TableConfigRow) (i : ℤ)
    → Memᴰ i (shard_suffixes rows)
    → (row : TableConfigRow) × Memᴰ row rows × Memᴰ i (range_to row.begin_index row.end_index)
unfolding shard_suffixes
shard_suffixes-Memᴰ [] i m = elim m [ ]
shard_suffixes-Memᴰ (r ∷ rows) i m =
    let rest : Memᴰ i (shard_suffixes rows)
        → (row : TableConfigRow) × Memᴰ row (r ∷ rows)
          × Memᴰ i (range_to row.begin_index row.end_index) =
      λ k. let (row, mr, mi) = shard_suffixes-Memᴰ rows i k in (row, Memᴰ.tail mr, mi) in
    elim (if-eq-cases (is_positive r.shard_count)
      (range_to r.begin_index r.end_index ++ shard_suffixes rows) (shard_suffixes rows) refl) [
        | inl (_, e) ↦
            elim (Memᴰ.append_cases (range_to r.begin_index r.end_index) (rw (← e) at m)) [
              | inl here ↦ (r, Memᴰ.head refl, here)
              | inr later ↦ rest later
            ]
        | inr (_, e) ↦ rest (rw (← e) at m)
      ]

requires-sharded :
    (rows : List TableConfigRow) → is_sharded rows ≡ true → requires_source_routing rows ≡ false
requires-sharded rows e = rw e refl

-- If a group supports routing by business factor with the modulus m, each remainder below m has a route
-- of its printed value.
pub build_group-routes_every_remainder :
    (lib : Library) (name : String) (sample : TableConfigRow) (others : List TableConfigRow)
    (m r : ℕ) {e : GroupEntries}
    → build_group lib name sample others ≡ ok e
    → supports_business_factor_routing (dedup (sample ∷ others)) ≡ true
    → shard_modulus (dedup (sample ∷ others)) ≡ pos m
    → r < m
    → (route : RouteRecord) × Memᴰ route e.routes × (route.route_value ≡ show r)
unfolding build_group supports_business_factor_routing
build_group-routes_every_remainder lib name sample others m r {e} built supported modulus below =
    let rows = dedup (sample ∷ others) in
    let (sharded, both) =
      and_true (is_sharded rows)
        (is_positive (shard_modulus rows)
          && same_set (shard_suffixes rows) (range_below (shard_modulus rows)))
        supported in
    let (_, same) =
      and_true (is_positive (shard_modulus rows))
        (same_set (shard_suffixes rows) (range_below (shard_modulus rows))) both in
    let (_, back) =
      and_true (all_in (shard_suffixes rows) (range_below (shard_modulus rows)))
        (all_in (range_below (shard_modulus rows)) (shard_suffixes rows)) same in
    let suffix : Memᴰ (pos r) (shard_suffixes rows) =
      all_in-Memᴰ (range_below (shard_modulus rows)) (shard_suffixes rows) (pos r) back
        (rw modulus (Memᴰ-range_below m r below)) in
    let (row, mr, mi) = shard_suffixes-Memᴰ rows (pos r) suffix in
    let (routes, e', last) =
      >>=-eq-ok (physical_routes lib name (requires_source_routing rows) (is_sharded rows) rows)
        (λ routes. ok (entries lib name sample (length (sample ∷ others)) rows routes)) built in
    let e'' : physical_routes lib name false true rows ≡ ok routes =
      rw (requires-sharded rows sharded, sharded) at e' in
    let (route, k, value, _) =
      physical_routes-covers lib name false true rows row
        (show r, row.table_name <> ("_" <> show r)) e'' mr
        (Memᴰ.map (λ i. (show_ℤ i, row.table_name <> ("_" <> show_ℤ i))) mi) in
    (route, rw (← ok-eq last) k, value)
