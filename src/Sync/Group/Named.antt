-- ===== src/Sync/Group/Named.antt =====
-- The entries of a group all name its table, and its routes have sources.
use mathlib.Core.List.Memᴰ
use mathlib.Core.List.{Memᴰ}
use sql_gatekeeper.Prelude.{String, refl, ◌≡◌, List, [], ◌∷◌, inl, inr, length, ok, if-intro}
use sql_gatekeeper.Prelude.Folds.{Ends, Ends-bind}
use sql_gatekeeper.Sync.Library.{Library}
use sql_gatekeeper.Sync.Identifiers.{make_datasource_code}
use sql_gatekeeper.Sync.Records.{TableConfigRow, FactorRecord, RuleRecord, RouteRecord}
use sql_gatekeeper.Sync.Routes.{physical_routes}
use sql_gatekeeper.Sync.Routes.Origin.{ComesFromRow, IsValueError, physical_routes-Ends}
use sql_gatekeeper.Sync.Group.Dedup.{dedup, dedup-Memᴰ}
use sql_gatekeeper.Sync.Group.{
  is_sharded, requires_source_routing, supports_business_factor_routing, factor_records,
  rule_record, GroupEntries, entries, build_group,
}

singleton-Memᴰ : {A : Type 0} (P : A → Type 0) {a b : A} → Memᴰ a (b ∷ []) → P b → P a
singleton-Memᴰ P m p = elim (Memᴰ.cases_cons m) [
  | inl same ↦ rw same p
  | inr later ↦ elim later [ ]
]

module _ (lib : Library) (name : String) where
  abbrev IsNamed : List FactorRecord → Type 0
  IsNamed fs = (f : FactorRecord) → Memᴰ f fs → f.logical_table_name ≡ name

  factor_records-IsNamed : (rows : List TableConfigRow) → IsNamed (factor_records lib name rows)
  factor_records-IsNamed rows =
      let named = λ (f : FactorRecord). f.logical_table_name ≡ name in
      if-intro IsNamed (supports_business_factor_routing rows) (λ f m. singleton-Memᴰ named m refl)
        (if-intro IsNamed (is_sharded rows) (λ f m. singleton-Memᴰ named m refl)
          (if-intro IsNamed (requires_source_routing rows) (λ f m. singleton-Memᴰ named m refl)
            (λ f m. elim m [ ])))

  rule_record-IsNamed :
      (rows : List TableConfigRow) → (rule_record lib name rows).logical_table_name ≡ name
  rule_record-IsNamed rows =
      let named = λ (r : RuleRecord). r.logical_table_name ≡ name in
      if-intro named (supports_business_factor_routing rows) refl (
        if-intro named (is_sharded rows) refl
          (if-intro named (requires_source_routing rows) refl refl))

  pub record WellNamed (group : List TableConfigRow) (e : GroupEntries) : Type 0 where
    pub table_named : e.table.table_name ≡ name
    pub factors_named : (f : FactorRecord) → Memᴰ f e.factors → f.logical_table_name ≡ name
    pub rules_named : (r : RuleRecord) → Memᴰ r e.rules → r.logical_table_name ≡ name
    pub routes_named : (r : RouteRecord) → Memᴰ r e.routes → r.logical_table_name ≡ name
    pub routes_sourced :
        (r : RouteRecord)
        → Memᴰ r e.routes
        → (row : TableConfigRow) × Memᴰ row group
          × (r.datasource_code ≡ make_datasource_code lib row.source_name)

  pub build_group-Ends :
      (sample : TableConfigRow) (others : List TableConfigRow)
      → Ends (WellNamed (sample ∷ others)) IsValueError (build_group lib name sample others)
  unfolding build_group
  build_group-Ends sample others =
      let rows = dedup (sample ∷ others) in
      let FromRow = ComesFromRow lib name (requires_source_routing rows) (is_sharded rows) rows in
      Ends-bind (λ (routes : List RouteRecord). (r : RouteRecord) → Memᴰ r routes → FromRow r)
        (WellNamed (sample ∷ others)) IsValueError
        (physical_routes lib name (requires_source_routing rows) (is_sharded rows) rows)
        (λ routes. ok (entries lib name sample (length (sample ∷ others)) rows routes))
        (physical_routes-Ends lib name (requires_source_routing rows) (is_sharded rows) rows)
        (λ routes e from. record {
          table_named = refl;
          factors_named = factor_records-IsNamed rows;
          rules_named = λ r m.
              singleton-Memᴰ (λ (r : RuleRecord). r.logical_table_name ≡ name) m
                (rule_record-IsNamed rows);
          routes_named = λ r m. (from r m).is_named;
          routes_sourced = λ r m. (
            (from r m).row,
            dedup-Memᴰ (sample ∷ others) (from r m).is_row,
            (from r m).is_source,
          );
        })
