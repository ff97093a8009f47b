-- ===== src/Runtime.antt =====
-- services/datasource_runtime.py, and the MySQL servers behind the datasources.
use sql_gatekeeper.Prelude.{
  ℕ, ◌≤◌, String, ◌<>◌, ◌≡◌, Option, List, length, starts_with, Result, ok, if◌then◌else◌,
}
use sql_gatekeeper.Prelude.Text.{after_char}
use sql_gatekeeper.Prelude.Int.{show_ℤ}
use sql_gatekeeper.Prelude.Dict.{Dict}
use sql_gatekeeper.Meta.{Value, DatasourceInstance}

-- A row of EXPLAIN: the columns that the code reads, each of which may be NULL.
pub record ExplainRow : Type 0 where
  pub access_type : Option String
  pub key : Option String
  pub rows : Option ℕ
  pub extra : Option String
  pub table : Option String

-- The servers, reached by the DSN of an engine.
pub record Mysql : Type 0 where
  -- `coalesce(table_rows, 0)` of a schema's table in information_schema.
  pub table_rows : String → String → String → Result (Option ℕ)
  -- `select count(*) from` a table.
  pub count_rows : String → String → Result ℕ
  -- The first row of the EXPLAIN of a statement.
  pub explain : String → String → Result (Option ExplainRow)
  -- `fetchmany(n)` on the result of a statement.
  pub fetch_many : String → String → ℕ → Result (List (Dict Value))
  pub fetch_many_bound :
      (dsn sql : String) (n : ℕ) (rows : List (Dict Value))
      → fetch_many dsn sql n ≡ ok rows
      → length rows ≤ n

-- `_resolve_password`
unfoldable pub resolve_password : String → String
resolve_password secret_ref =
    if starts_with secret_ref "local:" then after_char b':' secret_ref else secret_ref

unfoldable pub build_runtime_dsn : DatasourceInstance → String
unfolding resolve_password
build_runtime_dsn d =
    "mysql+pymysql://"
    <> d.username
    <> ":"
    <> resolve_password d.password_secret_ref
    <> "@"
    <> d.host
    <> ":"
    <> show_ℤ d.port
    <> "/"
    <> d.database_name
