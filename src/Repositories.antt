-- ===== src/Repositories.antt =====
-- repositories/*.py: the queries over the metadata tables. SQLAlchemy and the database behind it are
-- the record `Orm`.
pub mod Found
use sql_gatekeeper.Prelude.{
  ℕ, String, ◌≡◌, Bool, true, ◌&&◌, Option, none, some, List, [], ◌∷◌, map, take, length, keep, eqb,
  Result, ok, raise, multiple_results_found, if◌then◌else◌,
}
use sql_gatekeeper.Meta.{
  DatasourceInstance, LogicalTable, RouteFactorDef, RouteRule, PhysicalTableRoute, PolicySet,
  MetaDb,
}

pub record Orm : Type 1 where
  -- `column == text` in a where clause: the database's comparison, by the column's collation.
  pub same : String → String → Bool
  pub same_refl : (s : String) → same s s ≡ true
  -- `order_by(column.asc())` on a column of texts.
  pub ascending : List String → List String
  -- `scalar_one_or_none()`: at most one row, or the exception `MultipleResultsFound`.
  pub one_or_none : (A : Type 0) → List A → Result (Option A)
  pub one_or_none_empty : (A : Type 0) → one_or_none A [] ≡ ok none
  pub one_or_none_single : (A : Type 0) (a : A) → one_or_none A (a ∷ []) ≡ ok (some a)
  pub one_or_none_several :
      (A : Type 0) (a b : A) (rest : List A)
      → one_or_none A (a ∷ b ∷ rest) ≡ raise multiple_results_found

-- `session.get(Model, id)`
abbrev pub get_by_id {ℓ} : {A : Type ℓ} → (A → ℕ) → ℕ → List A → Option A
get_by_id id n [] = none
get_by_id id n (a ∷ rows) = if eqb (id a) n then some a else get_by_id id n rows

module _ (orm : Orm) (db : MetaDb) where
  abbrev has_code : String → DatasourceInstance → Bool
  has_code code d = orm.same d.datasource_code code && d.enabled

  unfoldable pub get_enabled_datasource : String → Result (Option DatasourceInstance)
  get_enabled_datasource code =
      orm.one_or_none DatasourceInstance (keep (has_code code) db.datasources)

  abbrev has_name : String → LogicalTable → Bool
  has_name name t = orm.same t.table_name name && t.enabled

  unfoldable pub get_enabled_logical_table : String → Result (Option LogicalTable)
  get_enabled_logical_table name =
      orm.one_or_none LogicalTable (keep (has_name name) db.logical_tables)

  unfoldable pub list_enabled_logical_tables : List LogicalTable
  list_enabled_logical_tables = keep (λ t. t.enabled) db.logical_tables

  abbrev routes_to : ℕ → String → PhysicalTableRoute → Bool
  routes_to table_id value r =
      eqb r.logical_table_id table_id && (orm.same r.route_value value && r.enabled)

  unfoldable pub get_enabled_route : ℕ → String → Result (Option PhysicalTableRoute)
  get_enabled_route table_id value =
      orm.one_or_none PhysicalTableRoute (keep (routes_to table_id value) db.physical_routes)

  abbrev pub has_physical_name : String → PhysicalTableRoute → Bool
  has_physical_name name r = orm.same r.physical_table_name name && r.enabled

  unfoldable pub get_enabled_physical : String → Result (Option PhysicalTableRoute)
  get_enabled_physical name =
      orm.one_or_none PhysicalTableRoute (keep (has_physical_name name) db.physical_routes)

  enabled_routes_of : ℕ → List PhysicalTableRoute
  enabled_routes_of table_id =
      keep (λ r. eqb r.logical_table_id table_id && r.enabled) db.physical_routes

  -- The default of its parameter `limit` is 20.
  unfoldable pub list_enabled_route_values : ℕ → List String
  unfolding enabled_routes_of
  list_enabled_route_values table_id =
      take 20 (orm.ascending (map (λ r. r.route_value) (enabled_routes_of table_id)))

  unfoldable pub count_enabled_routes : ℕ → ℕ
  unfolding enabled_routes_of
  count_enabled_routes table_id = length (enabled_routes_of table_id)

  abbrev has_policy_code : String → PolicySet → Bool
  has_policy_code code p = orm.same p.policy_code code && p.enabled

  unfoldable pub get_enabled_policy : String → Result (Option PolicySet)
  get_enabled_policy code = orm.one_or_none PolicySet (keep (has_policy_code code) db.policies)

  unfoldable pub list_required_factors : ℕ → List RouteFactorDef
  list_required_factors table_id =
      keep (λ f. eqb f.logical_table_id table_id && (f.enabled && f.required)) db.route_factors

  abbrev rule_of : ℕ → RouteRule → Bool
  rule_of table_id r = eqb r.logical_table_id table_id && r.enabled

  unfoldable pub get_enabled_rule : ℕ → Result (Option RouteRule)
  get_enabled_rule table_id = orm.one_or_none RouteRule (keep (rule_of table_id) db.route_rules)
