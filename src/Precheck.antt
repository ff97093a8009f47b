-- ===== src/Precheck.antt =====
-- services/precheck.py: the tests that a statement passes before it is parsed.
pub mod Laws
use sql_gatekeeper.Prelude.{
  String, ◌<>◌, Bool, true, false, ◌||◌, Option, none, some, List, [], ◌∷◌, any, ◌==◌, starts_with,
  if◌then◌else◌,
}
use sql_gatekeeper.Prelude.Text.{lower, strip, is_empty}
use sql_gatekeeper.Parser.{first_word, holds_semicolon}

pub record PrecheckDecision : Type 0 where
  pub allowed : Bool
  pub reason_code : String
  pub message : String

abbrev reject : String → String → PrecheckDecision
reject code message = record { allowed = false; reason_code = code; message = message }

abbrev pub disallowed_sql_prefixes : List String
disallowed_sql_prefixes =
    "update" ∷ "delete" ∷ "insert" ∷ "replace" ∷ "drop" ∷ "alter" ∷ "truncate" ∷ []

abbrev pub one_of : List String → String → Bool
one_of words s = any (λ w. w == s) words

abbrev pub first_token : String → String
first_token lowered = elim (first_word lowered) [ some w ↦ w | none ↦ "" ]

-- The tests of `evaluate` on the stripped statement, from the first token on.
abbrev pub judge_token : String → PrecheckDecision
judge_token token =
    if one_of disallowed_sql_prefixes token
    then reject "SQL_TYPE_DENIED" ("SQL type '" <> token <> "' is not allowed")
    else if token == "select"
    then record { allowed = true; reason_code = "ALLOW"; message = "SQL passed the basic precheck" }
    else reject "UNSUPPORTED_SQL" "Only SELECT SQL is supported in the current stage"

abbrev pub leading_comment : String → Bool
leading_comment lowered = starts_with lowered "--" || starts_with lowered "/*"

unfoldable pub evaluate : String → PrecheckDecision
evaluate sql =
    let normalized = strip sql in
    let lowered = lower normalized in
    if is_empty normalized
    then reject "EMPTY_SQL" "SQL must not be empty"
    else if holds_semicolon lowered
    then reject "MULTI_STATEMENT" "Multiple SQL statements are not allowed"
    else if leading_comment lowered
    then reject "LEADING_COMMENT" "Leading comments are not allowed"
    else judge_token (first_token lowered)
