-- ===== src/Bootstrap/Rows.antt =====
-- `one_or_none()` followed by an `add` with a `flush`, or by assignments to the object that is found.
pub mod Touch
pub mod Settled
use sql_gatekeeper.Prelude.{
  ℕ, Bool, Option, none, some, List, [], ◌∷◌, map, keep, Result, ok, raise, ◌>>=◌, if◌then◌else◌,
}
use sql_gatekeeper.Meta.Inserts.{Ids, insert}
use sql_gatekeeper.Repositories.{Orm}

-- The query, the unique constraint, the new object for its id and the assignments.
pub record Upsert (A : Type 0) : Type 0 where
  pub matches : A → Bool
  pub conflicts : A → A → Bool
  pub fresh : ℕ → A
  pub update : A → A
  pub id_of : A → ℕ

module _ (orm : Orm) (ids : Ids) {A : Type 0} (u : Upsert A) where
  -- The assignments reach the row that is found, the only one that matches.
  abbrev pub updated : List A → List A
  updated rows = map (λ r. if u.matches r then u.update r else r) rows

  abbrev pub with_found : List A → Option A → Result (ℕ × List A)
  with_found rows (some existing) = ok (u.id_of existing, updated rows)
  with_found rows none =
      let i = ids.next_id (map u.id_of rows) in
      insert ids u.conflicts (u.fresh i) rows >>= λ rows'. ok (i, rows')

  -- The id of the object and the table's rows.
  unfoldable pub upsert : List A → Result (ℕ × List A)
  upsert rows = orm.one_or_none A (keep u.matches rows) >>= with_found rows
