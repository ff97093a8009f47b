-- ===== src/Filters/Explained.antt =====
-- The EXPLAIN filter: a statement that it lets pass has a harmless plan for each of its targets.
use sql_gatekeeper.Prelude.{
  ◌≡◌, inl, inr, true, Option, none, some, List, [], ◌∷◌, All, Bool-cases, Option-cases,
  Result-cases, ok, arith,
}
use sql_gatekeeper.Prelude.Dict.{get}
use sql_gatekeeper.Meta.{DatasourceInstance, PolicySet, MetaDb}
use sql_gatekeeper.Repositories.{Orm}
use sql_gatekeeper.Routing.Decision.{RouteTarget}
use sql_gatekeeper.Runtime.{Mysql}
use sql_gatekeeper.Explain.{ExplainPlanSummary, ExplainRiskDecision}
use sql_gatekeeper.Explain.Laws.{IsSafePlan, evaluate-IsSafePlan}
use sql_gatekeeper.Filters.{
  FilterContext, note_summary, explain_target, explain_targets, explain_risk_filter,
}
use sql_gatekeeper.Filters.Laws.{Allows}

module _ (orm : Orm) (mysql : Mysql) (db : MetaDb) where
  -- The target's datasource is known to the context, and its plan is harmless.
  pub record IsExplained (c : FilterContext) (p : PolicySet) (t : RouteTarget) : Type 0 where
    pub datasource : DatasourceInstance
    pub known : get t.datasource_code c.datasources ≡ some datasource
    pub plan : IsSafePlan mysql datasource c.rewritten_sql t.physical_table_name p

  explain_target-IsExplained :
      (p : PolicySet) (t : RouteTarget) (c : FilterContext) {x : ExplainRiskDecision}
      → explain_target orm mysql db p t c ≡ ok x
      → x.allowed ≡ true
      → IsExplained c p t
  explain_target-IsExplained p t c {x} e allowed =
      elim (Option-cases (get t.datasource_code c.datasources)) [
        | inl missing ↦ absurd (ground arith)
        | inr (d, known) ↦ record {
          datasource = d;
          known = known;
          plan =
              evaluate-IsSafePlan mysql d c.rewritten_sql t.physical_table_name p {e = x}
                (ground arith) allowed;
        }
      ]

  IsExplained-note_summary :
      (p : PolicySet) (t : RouteTarget) (s : Option ExplainPlanSummary) (c : FilterContext)
      → IsExplained (note_summary orm mysql db s c) p t
      → IsExplained c p t
  IsExplained-note_summary p t none c h = h
  IsExplained-note_summary p t (some s) c h = record {
    datasource = h.datasource;
    known = h.known;
    plan = h.plan;
  }

  All-IsExplained-note_summary :
      (p : PolicySet) (ts : List RouteTarget) (s : Option ExplainPlanSummary) (c : FilterContext)
      → All (IsExplained (note_summary orm mysql db s c) p) ts
      → All (IsExplained c p) ts
  All-IsExplained-note_summary p [] s c h = tt
  All-IsExplained-note_summary p (t ∷ ts) s c (x, h) =
      (IsExplained-note_summary p t s c x, All-IsExplained-note_summary p ts s c h)

  explain_targets-Allows :
      (p : PolicySet) (targets : List RouteTarget) (c : FilterContext) {c' : FilterContext}
      → Allows orm mysql db (explain_targets orm mysql db p targets c) c'
      → All (IsExplained c p) targets
  unfolding explain_targets
  explain_targets-Allows p [] c h = tt
  explain_targets-Allows p (t ∷ ts) c {c'} (d, e, allowed) =
      elim (Result-cases (explain_target orm mysql db p t c)) [
        | inr (x, failed) ↦ absurd (cc (rw (failed, explain_targets) at e))
        | inl (x, explained) ↦
            let e' = rw (explained, explain_targets) at e in
            elim (Bool-cases x.allowed) [
              | inr refused ↦ absurd (ground arith)
              | inl passed ↦ (
                explain_target-IsExplained p t c explained passed,
                All-IsExplained-note_summary p ts x.summary c (
                    explain_targets-Allows p ts (note_summary orm mysql db x.summary c) {c' = c'}
                      (d, ground arith, allowed)),
              )
            ]
      ]

  pub explain_risk_filter-Allows :
      (c : FilterContext) (p : PolicySet) {c' : FilterContext}
      → c.policy ≡ some p
      → Allows orm mysql db (explain_risk_filter orm mysql db c) c'
      → All (IsExplained c p) c.route_decision.targets
  unfolding explain_risk_filter
  explain_risk_filter-Allows c p {c'} loaded (d, e, allowed) =
      explain_targets-Allows p c.route_decision.targets c {c' = c'} (d, ground arith, allowed)
