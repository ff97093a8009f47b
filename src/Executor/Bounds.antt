-- ===== src/Executor/Bounds.antt =====
-- What an executed statement has met, and what a refused one returns.
use sql_gatekeeper.Prelude.{
  ℕ, ◌+◌, ◌≤◌, String, ◌<>◌, ◌≡◌, refl, sym, ap, ◌∙◌, ◌⊎◌, inl, inr, true, false, Option, none,
  some, List, [], ◌∷◌, length, ltb, not-ltb→le, ok, ok-eq, >>=-eq-ok, if-eq-cases,
}
use sql_gatekeeper.Prelude.Dict.{Dict}
use sql_gatekeeper.Meta.{Value, DatasourceInstance, PolicySet, MetaDb}
use sql_gatekeeper.Repositories.{Orm, get_enabled_datasource, get_enabled_policy}
use sql_gatekeeper.Runtime.{Mysql, build_runtime_dsn}
use sql_gatekeeper.Filters.{distinct, default_policy_code}
use sql_gatekeeper.Checker.{CheckResult}
use sql_gatekeeper.Executor.{
  ExecuteResult, fetch_rows, limit_rows, execute_under, execute_on, execute_codes, execute,
}

module _ (orm : Orm) (mysql : Mysql) (db : MetaDb) (execution_ms : ℕ) where
  -- The statement was approved for one datasource, and its rows are what that datasource returned
  -- for it, no more than the policy's limit of them.
  pub record IsExecuted (checked : CheckResult) (r : ExecuteResult) : Type 0 where
    pub approved : checked.allowed ≡ true
    pub code : String
    pub one_datasource : distinct checked.datasource_codes ≡ code ∷ []
    pub datasource : DatasourceInstance
    pub datasource_row : get_enabled_datasource orm db code ≡ ok (some datasource)
    pub policy : PolicySet
    pub policy_row : get_enabled_policy orm db default_policy_code ≡ ok (some policy)
    pub fetched :
        mysql.fetch_many
          (build_runtime_dsn datasource)
          ("/*+ MAX_EXECUTION_TIME(5000) */ " <> checked.rewritten_sql)
          (policy.max_limit + 1)
        ≡ ok r.rows
    pub bounded : length r.rows ≤ policy.max_limit
    pub counted : r.row_count ≡ length r.rows

  -- A refused run returns nothing.
  abbrev pub IsEmpty : ExecuteResult → Type 0
  IsEmpty r = (r.allowed ≡ false) × (r.rows ≡ []) × (r.row_count ≡ 0)

  limit_rows-cases :
      (policy : PolicySet) (rows : List (Dict Value)) {r : ExecuteResult}
      → limit_rows orm mysql db execution_ms policy rows ≡ r
      → IsEmpty r
        ⊎ ((r.rows ≡ rows) × (length r.rows ≤ policy.max_limit) × (r.row_count ≡ length r.rows))
  unfolding limit_rows
  limit_rows-cases policy rows {r} e =
      elim (if-eq-cases (ltb policy.max_limit (length rows)) _ _ e) [
        | inl (over, same) ↦ inl (rw (← same) (refl, refl, refl))
        | inr (under, same) ↦
            inr (rw (← same) (refl, not-ltb→le policy.max_limit (length rows) under, refl))
      ]

  execute_codes-cases :
      (checked : CheckResult) (codes : List String) {r : ExecuteResult}
      → checked.allowed ≡ true
      → distinct checked.datasource_codes ≡ codes
      → execute_codes orm mysql db execution_ms checked codes ≡ ok r
      → IsEmpty r ⊎ IsExecuted checked r
  unfolding execute_codes execute_on execute_under fetch_rows
  execute_codes-cases checked [] on same e = inl (rw (← ok-eq e) (refl, refl, refl))
  execute_codes-cases checked (x ∷ y ∷ ys) on same e = inl (rw (← ok-eq e) (refl, refl, refl))
  execute_codes-cases checked (code ∷ []) on same e =
      let (o, found, e1) = >>=-eq-ok (get_enabled_datasource orm db code) _ e in go o found e1
    where
      go2 :
          (d : DatasourceInstance) (o : Option PolicySet) {r : ExecuteResult}
          → get_enabled_datasource orm db code ≡ ok (some d)
          → get_enabled_policy orm db default_policy_code ≡ ok o
          → execute_under orm mysql db execution_ms checked d o ≡ ok r
          → IsEmpty r ⊎ IsExecuted checked r
      go2 d none known found e = inl (rw (← ok-eq e) (refl, refl, refl))
      go2 d (some p) {r} known found e =
          let (rows, fetched, e1) =
            >>=-eq-ok (fetch_rows orm mysql db execution_ms d checked.rewritten_sql p.max_limit) _
              e in
          elim (limit_rows-cases p rows (ok-eq e1)) [
            | inl empty ↦ inl empty
            | inr (all, le, counted) ↦ inr (record {
              approved = on;
              code = code;
              one_datasource = same;
              datasource = d;
              datasource_row = known;
              policy = p;
              policy_row = found;
              fetched = fetched ∙ ap ok (sym all);
              bounded = le;
              counted = counted;
            })
          ]

      go :
          (o : Option DatasourceInstance) {r : ExecuteResult}
          → get_enabled_datasource orm db code ≡ ok o
          → execute_on orm mysql db execution_ms checked o ≡ ok r
          → IsEmpty r ⊎ IsExecuted checked r
      go none found e = inl (rw (← ok-eq e) (refl, refl, refl))
      go (some d) found e =
          let (o, known, e1) = >>=-eq-ok (get_enabled_policy orm db default_policy_code) _ e in
          go2 d o found known e1

  -- A run that returns is refused, without rows, or it ran an approved statement on its one enabled
  -- datasource, and gives the rows that it answered, at most the policy's limit of them (IsExecuted).
  pub execute-cases :
      (checked : CheckResult) {r : ExecuteResult}
      → execute orm mysql db execution_ms checked ≡ ok r
      → IsEmpty r ⊎ IsExecuted checked r
  unfolding execute
  execute-cases checked e = elim (if-eq-cases checked.allowed _ _ e) [
    | inr (off, same) ↦ inl (rw (← ok-eq same) (refl, refl, refl))
    | inl (on, ran) ↦ execute_codes-cases checked _ on refl ran
  ]
