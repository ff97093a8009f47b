-- ===== src/Repositories/Found.antt =====
-- What the repositories return is a row of its table that meets the query.
use mathlib.Core.List.{Memᴰ}
use sql_gatekeeper.Prelude.{
  ℕ, String, ◌≡◌, refl, Bool, true, some, List, [], ◌∷◌, keep, keep-Memᴰ, ok, arith, and_true,
}
use sql_gatekeeper.Meta.{
  DatasourceInstance, LogicalTable, RouteRule, PhysicalTableRoute, PolicySet, MetaDb,
}
use sql_gatekeeper.Repositories.{
  Orm, get_enabled_datasource, get_enabled_physical, get_enabled_route, get_enabled_policy,
  get_enabled_logical_table, get_enabled_rule,
}

module _ (orm : Orm) {A : Type 0} where
  one_or_none-single :
      (rows : List A) {a : A} → orm.one_or_none A rows ≡ ok (some a) → rows ≡ a ∷ []
  one_or_none-single [] e = cc (orm.one_or_none_empty A)
  one_or_none-single (x ∷ []) e = cc (orm.one_or_none_single A x)
  one_or_none-single (x ∷ y ∷ rows) e = cc (orm.one_or_none_several A x y rows)

  query-Memᴰ :
      (p : A → Bool) (rows : List A) {a : A}
      → orm.one_or_none A (keep p rows) ≡ ok (some a)
      → (p a ≡ true) × Memᴰ a rows
  query-Memᴰ p rows {a} e =
      keep-Memᴰ p rows (rw (one_or_none-single (keep p rows) e) (Memᴰ.head refl))

module _ (orm : Orm) (db : MetaDb) where
  pub datasource_found :
      (code : String) {d : DatasourceInstance}
      → get_enabled_datasource orm db code ≡ ok (some d)
      → (orm.same d.datasource_code code ≡ true) × (d.enabled ≡ true) × Memᴰ d db.datasources
  unfolding get_enabled_datasource
  datasource_found code e =
      let (p, m) = query-Memᴰ orm _ db.datasources e in let (s, on) = and_true _ _ p in (s, on, m)

  pub physical_found :
      (name : String) {r : PhysicalTableRoute}
      → get_enabled_physical orm db name ≡ ok (some r)
      → (orm.same r.physical_table_name name ≡ true)
        × (r.enabled ≡ true)
        × Memᴰ r db.physical_routes
  unfolding get_enabled_physical
  physical_found name e =
      let (p, m) = query-Memᴰ orm _ db.physical_routes e in
      let (s, on) = and_true _ _ p in (s, on, m)

  pub route_found :
      (table_id : ℕ) (value : String) {r : PhysicalTableRoute}
      → get_enabled_route orm db table_id value ≡ ok (some r)
      → (r.logical_table_id ≡ table_id)
        × (orm.same r.route_value value ≡ true)
        × (r.enabled ≡ true)
        × Memᴰ r db.physical_routes
  unfolding get_enabled_route
  route_found table_id value e =
      let (p, m) = query-Memᴰ orm _ db.physical_routes e in
      let (i, q) = and_true _ _ p in let (s, on) = and_true _ _ q in (ground arith, s, on, m)

  pub policy_found :
      (code : String) {p : PolicySet}
      → get_enabled_policy orm db code ≡ ok (some p)
      → (orm.same p.policy_code code ≡ true) × (p.enabled ≡ true) × Memᴰ p db.policies
  unfolding get_enabled_policy
  policy_found code e =
      let (p, m) = query-Memᴰ orm _ db.policies e in let (s, on) = and_true _ _ p in (s, on, m)

  pub logical_found :
      (name : String) {t : LogicalTable}
      → get_enabled_logical_table orm db name ≡ ok (some t)
      → (orm.same t.table_name name ≡ true) × (t.enabled ≡ true) × Memᴰ t db.logical_tables
  unfolding get_enabled_logical_table
  logical_found name e =
      let (p, m) = query-Memᴰ orm _ db.logical_tables e in
      let (s, on) = and_true _ _ p in (s, on, m)

  pub rule_found :
      (table_id : ℕ) {r : RouteRule}
      → get_enabled_rule orm db table_id ≡ ok (some r)
      → (r.logical_table_id ≡ table_id) × (r.enabled ≡ true) × Memᴰ r db.route_rules
  unfolding get_enabled_rule
  rule_found table_id e =
      let (p, m) = query-Memᴰ orm _ db.route_rules e in
      let (i, on) = and_true _ _ p in (ground arith, on, m)
