-- ===== src/Redis/Execute/Bounds.antt =====
-- What an executed Redis command has met, and what a refused one returns.
use sql_gatekeeper.Prelude.{
  ℕ, ◌≤◌, String, ◌≡◌, refl, ◌⊎◌, inl, inr, true, false, Option, none, some, List, [], length, ltb,
  not-ltb→le, ok, ok-eq, >>=-eq-ok, if-eq-cases,
}
use sql_gatekeeper.Prelude.Dict.{Dict}
use sql_gatekeeper.Meta.{Value, DatasourceInstance, MetaDb}
use sql_gatekeeper.Repositories.{Orm}
use sql_gatekeeper.Redis.Types.{Settings, RedisDecision, RedisExecuteResult}
use sql_gatekeeper.Redis.Routing.{datasource}
use sql_gatekeeper.Redis.Execute.{
  Connection, RedisClient, connection, Reply, run_command, format_rows, preflight_result_size,
  limit_rows, run_checked, execute_on, execute,
}

module _ (orm : Orm) (settings : Settings) (session : Option MetaDb)
    (server : Connection → RedisClient) (execution_ms : ℕ) where
  -- The command was allowed, its size was within the limit before it ran, and its rows are what the
  -- datasource answered, no more than the limit of them.
  pub record IsExecuted (decision : RedisDecision) (r : RedisExecuteResult) : Type 0 where
    pub approved : decision.allowed ≡ true
    pub target : DatasourceInstance
    pub known : datasource orm settings session decision.datasource_code ≡ ok (some target)
    pub measured :
        preflight_result_size orm settings session server execution_ms
          (server (connection target))
          decision
        ≡ ok none
    pub reply : Reply
    pub answered :
        run_command (server (connection target)) decision.command decision.args ≡ ok reply
    pub formatted : r.rows ≡ format_rows decision.command decision.args reply
    pub bounded : length r.rows ≤ settings.redis_max_result_items
    pub counted : r.row_count ≡ length r.rows

  -- A refused run returns nothing.
  abbrev pub IsEmpty : RedisExecuteResult → Type 0
  IsEmpty r = (r.allowed ≡ false) × (r.rows ≡ []) × (r.row_count ≡ 0)

  limit_rows-cases :
      (rows : List (Dict Value)) {r : RedisExecuteResult}
      → limit_rows orm settings session server execution_ms rows ≡ r
      → IsEmpty r
        ⊎ ((r.rows ≡ rows)
            × (length r.rows ≤ settings.redis_max_result_items)
            × (r.row_count ≡ length r.rows))
  unfolding limit_rows
  limit_rows-cases rows e =
      elim (if-eq-cases (ltb settings.redis_max_result_items (length rows)) _ _ e) [
        | inl (over, same) ↦ inl (rw (← same) (refl, refl, refl))
        | inr (under, same) ↦ inr (
            rw (← same)
              (refl, not-ltb→le settings.redis_max_result_items (length rows) under, refl))
      ]

  execute_on-cases :
      (decision : RedisDecision) (o : Option DatasourceInstance) {r : RedisExecuteResult}
      → decision.allowed ≡ true
      → datasource orm settings session decision.datasource_code ≡ ok o
      → execute_on orm settings session server execution_ms decision o ≡ ok r
      → IsEmpty r ⊎ IsExecuted decision r
  unfolding execute_on run_checked
  execute_on-cases decision none on found e = inl (rw (← ok-eq e) (refl, refl, refl))
  execute_on-cases decision (some d) on found e =
      let (p, measured, e1) =
        >>=-eq-ok
          (preflight_result_size orm settings session server execution_ms (server (connection d))
            decision)
          _ e in
      go p measured e1
    where
      go :
          (p : Option (String × String)) {r : RedisExecuteResult}
          → preflight_result_size orm settings session server execution_ms
              (server (connection d))
              decision
            ≡ ok p
          → run_checked orm settings session server execution_ms (server (connection d)) decision p
            ≡ ok r
          → IsEmpty r ⊎ IsExecuted decision r
      go (some (code, message)) measured e1 = inl (rw (← ok-eq e1) (refl, refl, refl))
      go none measured e1 =
          let (reply, answered, e2) =
            >>=-eq-ok (run_command (server (connection d)) decision.command decision.args) _ e1 in
          elim (limit_rows-cases (format_rows decision.command decision.args reply) (ok-eq e2)) [
            | inl empty ↦ inl empty
            | inr (all, le, counted) ↦ inr (record {
              approved = on;
              target = d;
              known = found;
              measured = measured;
              reply = reply;
              answered = answered;
              formatted = all;
              bounded = le;
              counted = counted;
            })
          ]

  -- A run that returns is refused, without rows, or it ran an allowed command of admissible size on
  -- its datasource, and gives the answer's rows, at most the limit of them (IsExecuted).
  pub redis_execute-cases :
      (decision : RedisDecision) {r : RedisExecuteResult}
      → execute orm settings session server execution_ms decision ≡ ok r
      → IsEmpty r ⊎ IsExecuted decision r
  unfolding execute
  redis_execute-cases decision e = elim (if-eq-cases decision.allowed _ _ e) [
    | inr (off, same) ↦ inl (rw (← ok-eq same) (refl, refl, refl))
    | inl (on, ran) ↦
        let (o, found, e1) =
          >>=-eq-ok (datasource orm settings session decision.datasource_code) _ ran in
        execute_on-cases decision o on found e1
  ]
