-- ===== src/Meta/Inserts.antt =====
-- db/models.py: the primary keys and the unique constraints of the tables, for the code that writes.
use mathlib.Core.List.{Memᴰ}
use sql_gatekeeper.Prelude.{
  ℕ, ◌≢◌, Bool, ◌&&◌, List, [], ◌∷◌, ◌++◌, any, eqb, String, Option, none, some, Result, ok, raise,
  integrity_error, external, if◌then◌else◌,
}
use sql_gatekeeper.Meta.{
  DatasourceInstance, LogicalTable, RouteFactorDef, RouteRule, PhysicalTableRoute, PolicySet,
  MetaDb,
}
use sql_gatekeeper.Repositories.{Orm}

-- The database behind a session: the id of a new row where the table has the ids `is`, and the errors
-- that it answers with besides those of the unique constraints, as for a value too long for its column
-- or a lost connection.
pub record Ids : Type 1 where
  pub next_id : List ℕ → ℕ
  pub next_id-fresh : (is : List ℕ) (i : ℕ) → Memᴰ i is → i ≢ next_id is
  pub row_error : (A : Type 0) → A → Option String
  pub schema_error : Option String
  pub commit_error : MetaDb → Option String

-- A call that ends with the error, if there is one.
abbrev pub unless_error : Option String → Result (Unit {0})
unless_error none = ok tt
unless_error (some e) = raise (external e)

-- A row is added unless the database refuses it or a row that is there has its unique columns.
unfoldable pub insert : {A : Type 0} → Ids → (A → A → Bool) → A → List A → Result (List A)
insert {A} ids conflicts row rows = elim (ids.row_error A row) [
  | some e ↦ raise (external e)
  | none ↦
      if any (λ old. conflicts old row) rows then raise integrity_error else ok (rows ++ row ∷ [])
]

-- The unique constraints.
module _ (orm : Orm) where
  abbrev pub same_datasource : DatasourceInstance → DatasourceInstance → Bool
  same_datasource d e = orm.same d.datasource_code e.datasource_code

  abbrev pub same_table : LogicalTable → LogicalTable → Bool
  same_table t u = orm.same t.table_name u.table_name

  abbrev pub same_factor : RouteFactorDef → RouteFactorDef → Bool
  same_factor f g =
      eqb f.logical_table_id g.logical_table_id && orm.same f.factor_name g.factor_name

  abbrev pub same_rule : RouteRule → RouteRule → Bool
  same_rule r s = eqb r.logical_table_id s.logical_table_id && orm.same r.rule_name s.rule_name

  abbrev pub same_route : PhysicalTableRoute → PhysicalTableRoute → Bool
  same_route r s = eqb r.logical_table_id s.logical_table_id && orm.same r.route_value s.route_value

  abbrev pub same_policy : PolicySet → PolicySet → Bool
  same_policy p q = orm.same p.policy_code q.policy_code
