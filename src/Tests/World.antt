-- ===== src/Tests/World.antt =====
-- A small deployment for the examples: one MySQL and one Redis datasource, a logical table with two
-- shards, a rule and a policy.
use sql_gatekeeper.Prelude.{
  ℕ, zero, suc, ◌≤◌, String, refl, true, Option, none, some, List, [], ◌∷◌, ◌==◌, eq_iff, take,
  length, Result, ok, raise, external, multiple_results_found, ok-eq, arith,
}
use sql_gatekeeper.Prelude.Text.Number.{pos}
use sql_gatekeeper.Prelude.Dict.{Dict, get}
use sql_gatekeeper.Meta.{
  Value, DatasourceInstance, LogicalTable, RouteFactorDef, RouteRule, PhysicalTableRoute, PolicySet,
  MetaDb,
}
use sql_gatekeeper.Repositories.{Orm}
use sql_gatekeeper.Routing.Resolve.{RuleEngine}
use sql_gatekeeper.Runtime.{ExplainRow, Mysql}

abbrev one_row : (A : Type 0) → List A → Result (Option A)
one_row A [] = ok none
one_row A (a ∷ []) = ok (some a)
one_row A (a ∷ b ∷ rows) = raise multiple_results_found

abbrev pub orm : Orm
orm = record {
  same = λ s t. s == t;
  same_refl = λ s. (eq_iff s s).1 refl;
  ascending = λ xs. xs;
  one_or_none = one_row;
  one_or_none_empty = λ A. refl;
  one_or_none_single = λ A a. refl;
  one_or_none_several = λ A a b rest. refl;
}

abbrev known_value : Option String → Result String
known_value none = raise (external "KeyError")
known_value (some v) = ok v

-- Each rule's expression is the name of a factor.
abbrev pub rules : RuleEngine
rules = record {
  RuleValue = String;
  eval_expression = λ expression values. known_value (get expression values);
  format_output = λ format value values. ok value;
}

abbrev pub mysql_datasource : DatasourceInstance
mysql_datasource = record {
  id = 1;
  datasource_code = "mysql_a";
  display_name = "MySQL A";
  db_type = "mysql";
  host = "mysql";
  port = pos 3306;
  database_name = "shop";
  username = "reader";
  password_secret_ref = "local:pw";
  read_only = true;
  enabled = true;
  extra = none;
}

abbrev pub redis_datasource : DatasourceInstance
redis_datasource = record {
  id = 2;
  datasource_code = "redis_a";
  display_name = "Redis A";
  db_type = "redis";
  host = "redis";
  port = pos 6379;
  database_name = "0";
  username = "";
  password_secret_ref = "";
  read_only = true;
  enabled = true;
  extra = some (
      ("catlog_name", Value.text "cache")
      ∷ ("allowed_key_prefixes", Value.list ("user:" ∷ []) "['user:']")
      ∷ []);
}

abbrev user_table : LogicalTable
user_table = record {
  id = 1;
  table_name = "user";
  description = "";
  route_source = "config";
  physical_name_template = "user_{route_value}";
  default_policy_code = "default_select_guard";
  enabled = true;
  extra = none;
}

abbrev uid_factor : RouteFactorDef
uid_factor = record {
  id = 1;
  logical_table_id = 1;
  factor_name = "uid";
  source_type = "sql_predicate";
  source_key = "uid";
  required = true;
  extractor_config = none;
  enabled = true;
}

abbrev uid_rule : RouteRule
uid_rule = record {
  id = 1;
  logical_table_id = 1;
  rule_name = "by_uid";
  rule_type = "expression";
  expression = "uid";
  output_format = "{value}";
  enabled = true;
}

abbrev pub shard : ℕ → String → String → PhysicalTableRoute
shard n value name = record {
  id = n;
  logical_table_id = 1;
  route_value = value;
  physical_table_name = name;
  datasource_id = 1;
  enabled = true;
  extra = none;
}

abbrev pub guard_policy : PolicySet
guard_policy = record {
  id = 1;
  policy_code = "default_select_guard";
  allow_sql_types = "select" ∷ [];
  require_limit = true;
  max_limit = 100;
  large_table_row_threshold = 1000;
  max_scan_rows = 50;
  reject_full_scan_on_large_table = true;
  reject_using_temporary = true;
  reject_using_filesort = true;
  enabled = true;
}

abbrev pub meta : MetaDb
meta = record {
  datasources = mysql_datasource ∷ redis_datasource ∷ [];
  logical_tables = user_table ∷ [];
  route_factors = uid_factor ∷ [];
  route_rules = uid_rule ∷ [];
  physical_routes = shard 1 "7" "user_7" ∷ shard 2 "8" "user_8" ∷ [];
  policies = guard_policy ∷ [];
}

abbrev pub rows_of_user : List (Dict Value)
rows_of_user = (("uid", Value.text "7") ∷ []) ∷ (("uid", Value.text "7") ∷ []) ∷ []

pub length-take : {A : Type 0} (n : ℕ) (xs : List A) → length (take n xs) ≤ n
length-take zero xs = omega arith
length-take (suc n) [] = omega arith
length-take (suc n) (x ∷ xs) = let h = length-take n xs in omega arith

abbrev pub plan_row : ExplainRow
plan_row = record {
  access_type = some "ref";
  key = some "idx_uid";
  rows = some 2;
  extra = some "Using where";
  table = some "user_7";
}

abbrev pub mysql : Mysql
mysql = record {
  table_rows = λ dsn schema table. ok (some 20);
  count_rows = λ dsn table. ok 20;
  explain = λ dsn sql. ok (some plan_row);
  fetch_many = λ dsn sql n. ok (take n rows_of_user);
  fetch_many_bound = λ dsn sql n rows e. rw (← ok-eq e) (length-take n rows_of_user);
}
