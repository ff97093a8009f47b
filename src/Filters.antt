-- ===== src/Filters.antt =====
-- services/filter_chain.py: the filters, each of which may write to the context that they share.
pub mod Laws
pub mod Explained
pub mod Chain
use sql_gatekeeper.Prelude.{
  ℕ, String, ◌<>◌, Bool, true, false, not, ◌&&◌, Option, none, some, List, [], ◌∷◌, ◌++◌, map, any,
  length, ltb, ◌==◌, Result, ok, raise, index_error, key_error, assertion_error, ◌>>=◌,
  if◌then◌else◌,
}
use sql_gatekeeper.Prelude.Text.Number.{show}
use sql_gatekeeper.Prelude.Dict.{Dict, get, put}
use sql_gatekeeper.Meta.{Value, DatasourceInstance, PolicySet, MetaDb}
use sql_gatekeeper.Parser.{ParsedSql}
use sql_gatekeeper.Repositories.{Orm, get_enabled_datasource, get_enabled_policy}
use sql_gatekeeper.Routing.Decision.{RouteTarget, RouteDecision}
use sql_gatekeeper.Runtime.{Mysql}
use sql_gatekeeper.Explain.{ExplainPlanSummary, ExplainRiskDecision, evaluate}

pub record FilterContext : Type 0 where
  pub sql : String
  pub route_context : Dict Value
  pub parsed_sql : ParsedSql
  pub rewritten_sql : String
  pub route_decision : RouteDecision
  pub policy : Option PolicySet
  pub datasources : Dict DatasourceInstance
  pub explain_summaries : List ExplainPlanSummary

pub record FilterDecision : Type 0 where
  pub allowed : Bool
  pub reason_code : String
  pub message : String

abbrev pub pass : String → FilterDecision
pass message = record { allowed = true; reason_code = "ALLOW"; message = message }

abbrev pub reject : String → String → FilterDecision
reject code message = record { allowed = false; reason_code = code; message = message }

-- A filter's decision, and the context behind it.
abbrev pub Outcome : Type 0
Outcome = Result (FilterDecision × FilterContext)

abbrev pub answer : FilterContext → FilterDecision → Outcome
answer c d = ok (d, c)

-- `assert context.policy is not None`
abbrev pub with_policy : FilterContext → (PolicySet → Outcome) → Outcome
with_policy c k = elim c.policy [ none ↦ raise assertion_error | some p ↦ k p ]

abbrev pub default_policy_code : String
default_policy_code = "default_select_guard"

-- The texts of a list, each once: its set.
unfoldable pub distinct : List String → List String
distinct [] = []
distinct (s ∷ ss) = let rest = distinct ss in if any (λ t. t == s) ss then rest else s ∷ rest

abbrev pub codes : FilterContext → List String
codes c = map (λ (t : RouteTarget). t.datasource_code) c.route_decision.targets

module _ (orm : Orm) (mysql : Mysql) (db : MetaDb) where
  abbrev pub keep_policy : FilterContext → Option PolicySet → Outcome
  keep_policy c none = answer c (reject "POLICY_NOT_FOUND" "No enabled policy set was found")
  keep_policy c (some p) = answer (record c { policy = some p }) (pass "Policy loaded")

  -- `targets[0]` is read, though its value is not used.
  unfoldable pub policy_load : FilterContext → List RouteTarget → Outcome
  policy_load c [] = raise index_error
  policy_load c (t ∷ ts) = do
    policy ← get_enabled_policy orm db default_policy_code
    keep_policy c policy

  unfoldable pub validate_targets : List RouteTarget → FilterContext → Outcome
  validate_targets [] c = answer c (pass "Physical tables and datasources validated")
  validate_targets (t ∷ ts) c = elim (get_enabled_datasource orm db t.datasource_code) [
    | raise e ↦ raise e
    | ok none ↦
        answer c
          (reject "DATASOURCE_NOT_FOUND" ("Datasource '" <> t.datasource_code <> "' was not found"))
    | ok (some d) ↦
        validate_targets ts (record c { datasources = put t.datasource_code d c.datasources })
  ]

  unfoldable pub sql_type_filter : FilterContext → Outcome
  sql_type_filter c = with_policy c λ p. answer c (
      if any (λ s. s == c.parsed_sql.sql_type) p.allow_sql_types
      then pass "SQL type allowed by policy"
      else reject "SQL_TYPE_DENIED"
          ("SQL type '" <> c.parsed_sql.sql_type <> "' is not allowed by policy"))

  unfoldable pub cross_datasource_filter : FilterContext → Outcome
  cross_datasource_filter c = answer c (
      if ltb 1 (length (distinct (codes c)))
      then reject "CROSS_DATASOURCE_JOIN" "A single SQL request cannot span multiple datasources"
      else pass "Datasource scope check passed")

  abbrev pub exceeds : Option ℕ → ℕ → Bool
  exceeds none n = false
  exceeds (some limit) n = ltb n limit

  abbrev limit_text : Option ℕ → String
  limit_text none = "None"
  limit_text (some n) = show n

  unfoldable pub limit_filter : FilterContext → Outcome
  limit_filter c = with_policy c λ p. answer c (
      if p.require_limit && not c.parsed_sql.has_limit
      then reject "LIMIT_REQUIRED" "A LIMIT clause is required by policy"
      else if exceeds c.parsed_sql.limit_value p.max_limit
      then reject "LIMIT_EXCEEDED" (
          "LIMIT "
          <> limit_text c.parsed_sql.limit_value
          <> " exceeded policy max "
          <> show p.max_limit)
      else pass "Limit check passed")

  abbrev pub note_summary : Option ExplainPlanSummary → FilterContext → FilterContext
  note_summary none c = c
  note_summary (some s) c = record c { explain_summaries = c.explain_summaries ++ s ∷ [] }

  abbrev pub explain_target : PolicySet → RouteTarget → FilterContext → Result ExplainRiskDecision
  explain_target p t c = elim (get t.datasource_code c.datasources) [
    | none ↦ raise key_error
    | some d ↦ evaluate mysql d c.rewritten_sql t.physical_table_name p
  ]

  unfoldable pub explain_targets : PolicySet → List RouteTarget → FilterContext → Outcome
  explain_targets p [] c = answer c (pass "Explain checks passed")
  explain_targets p (t ∷ ts) c = elim (explain_target p t c) [
    | raise e ↦ raise e
    | ok d ↦ elim d.allowed [
      | false ↦ answer (note_summary d.summary c) (reject d.reason_code d.message)
      | true ↦ explain_targets p ts (note_summary d.summary c)
    ]
  ]

  unfoldable pub explain_risk_filter : FilterContext → Outcome
  explain_risk_filter c = with_policy c λ p. explain_targets p c.route_decision.targets c

-- The classes of filters.
pub data SqlFilter : Type 0 where
  policy_load_filter physical_table_validate_filter type_filter cross_filter : SqlFilter
  limit_check_filter explain_filter : SqlFilter

module _ (orm : Orm) (mysql : Mysql) (db : MetaDb) where
  unfoldable pub apply : SqlFilter → FilterContext → Outcome
  apply policy_load_filter c = policy_load orm mysql db c c.route_decision.targets
  apply physical_table_validate_filter c = validate_targets orm mysql db c.route_decision.targets c
  apply type_filter c = sql_type_filter orm mysql db c
  apply cross_filter c = cross_datasource_filter orm mysql db c
  apply limit_check_filter c = limit_filter orm mysql db c
  apply explain_filter c = explain_risk_filter orm mysql db c

  -- `FilterChain.run`
  unfoldable pub run : List SqlFilter → FilterContext → Outcome
  run [] c = answer c (pass "All filters passed")
  run (f ∷ fs) c = elim (apply f c) [
    | raise e ↦ raise e
    | ok (d, c') ↦ elim d.allowed [ false ↦ ok (d, c') | true ↦ run fs c' ]
  ]
