-- ===== src/Tests/Parsing.antt =====
-- The parser at statements of the repository's tests.
use sql_gatekeeper.Prelude.{◌≡◌, refl, some, [], ◌∷◌, map, String}
use sql_gatekeeper.Parser.{ParsedTable, tables_of, parse_limit_value, parse, predicate_value}
use sql_gatekeeper.Tests.Runs.{router_runs}

abbrev aliased : String
aliased = "select u.uid from user u join user u2 on u.uid = u2.uid where u.uid = '10001' limit 10"

two_tables :
    tables_of aliased
    ≡ record { table_name = "user"; alias = some "u"; token_start = 18; token_end = 22 }
      ∷ record { table_name = "user"; alias = some "u2"; token_start = 30; token_end = 34 }
      ∷ []
unfolding router_runs
two_tables = refl

first_limit : parse_limit_value aliased ≡ some 10
unfolding router_runs
first_limit = refl

inner_limit :
    parse_limit_value "select * from user where uid in (select uid from t limit 5)" ≡ some 5
unfolding router_runs
inner_limit = refl

uid : predicate_value (parse aliased) "uid" (some "u") ≡ some "10001"
unfolding router_runs
uid = refl

-- The keyword behind an unaliased table is taken for its alias.
joined :
    map (λ (t : ParsedTable). t.table_name) (tables_of "select * from user join secret limit 1")
    ≡ "user" ∷ []
unfolding router_runs
joined = refl

comma_joined :
    map (λ (t : ParsedTable). t.table_name) (tables_of "select * from user u, secret s limit 1")
    ≡ "user" ∷ []
unfolding router_runs
comma_joined = refl
