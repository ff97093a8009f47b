-- ===== src/Filters/Chain.antt =====
-- The chain: a statement passes exactly if every filter, in order, lets it pass, and then it meets
-- the policy in all respects.
use sql_gatekeeper.Prelude.{
  ◌≤◌, String, ◌≡◌, refl, ap, ◌∙◌, inl, inr, true, false, not, ◌&&◌, some, List, [], ◌∷◌, any,
  length, All, ◌==◌, Bool-cases, Result-cases, ok, arith,
}
use sql_gatekeeper.Prelude.Dict.{Dict, get}
use sql_gatekeeper.Meta.{DatasourceInstance, PolicySet, MetaDb}
use sql_gatekeeper.Repositories.{Orm, get_enabled_policy, get_enabled_datasource}
use sql_gatekeeper.Routing.Decision.{RouteTarget}
use sql_gatekeeper.Runtime.{Mysql}
use sql_gatekeeper.Explain.Laws.{IsSafePlan}
use sql_gatekeeper.Filters.{
  FilterContext, SqlFilter, policy_load_filter, physical_table_validate_filter, type_filter,
  cross_filter, limit_check_filter, explain_filter, distinct, codes, exceeds, default_policy_code,
  apply, run,
}
use sql_gatekeeper.Filters.Laws.{
  Allows, IsSourced, policy_load-Allows, validate_targets-Allows, sql_type_filter-Allows,
  cross_datasource_filter-Allows, limit_filter-Allows,
}
use sql_gatekeeper.Filters.Explained.{IsExplained, explain_risk_filter-Allows}

module _ (orm : Orm) (mysql : Mysql) (db : MetaDb) where
  run-cons-Allows :
      (f : SqlFilter) (fs : List SqlFilter) (c : FilterContext) {c'' : FilterContext}
      → Allows orm mysql db (run orm mysql db (f ∷ fs) c) c''
      → (c' : FilterContext) × Allows orm mysql db (apply orm mysql db f c) c'
        × Allows orm mysql db (run orm mysql db fs c') c''
  unfolding run
  run-cons-Allows f fs c (d, e, allowed) = elim (Result-cases (apply orm mysql db f c)) [
    | inr (x, failed) ↦ absurd (cc (rw (failed, run) at e))
    | inl ((x, c'), applied) ↦
        let e' = rw (applied, run) at e in
        elim (Bool-cases x.allowed) [
          | inr refused ↦ absurd (ground arith)
          | inl passed ↦ (c', (x, applied, passed), (d, ground arith, allowed))
        ]
  ]

  -- The enabled datasource of the target's code answers the target's plan, which is harmless.
  pub record IsServed (sql : String) (p : PolicySet) (t : RouteTarget) : Type 0 where
    pub datasource : DatasourceInstance
    pub enabled_row : get_enabled_datasource orm db t.datasource_code ≡ ok (some datasource)
    pub plan : IsSafePlan mysql datasource sql t.physical_table_name p

  -- What the policy asks of a statement, of its targets and of their plans.
  pub record IsAdmitted (c : FilterContext) : Type 0 where
    pub policy : PolicySet
    pub policy_row : get_enabled_policy orm db default_policy_code ≡ ok (some policy)
    pub type_listed : any (λ s. s == c.parsed_sql.sql_type) policy.allow_sql_types ≡ true
    pub one_datasource : length (distinct (codes c)) ≤ 1
    pub limit_given : (policy.require_limit && not c.parsed_sql.has_limit) ≡ false
    pub limit_kept : exceeds orm mysql db c.parsed_sql.limit_value policy.max_limit ≡ false
    pub served : All (IsServed c.rewritten_sql policy) c.route_decision.targets

  All-IsServed :
      (c : FilterContext) (p : PolicySet) (ts : List RouteTarget)
      → IsSourced orm mysql db c.datasources
      → All (IsExplained orm mysql db c p) ts
      → All (IsServed c.rewritten_sql p) ts
  All-IsServed c p [] sourced h = tt
  All-IsServed c p (t ∷ ts) sourced (x, h) = (
    record {
      datasource = x.datasource;
      enabled_row = sourced t.datasource_code x.datasource x.known;
      plan = x.plan;
    },
    All-IsServed c p ts sourced h,
  )

  -- The contexts agree in all but the policy and the datasources that the first two filters load.
  loaded : FilterContext → PolicySet → Dict DatasourceInstance → FilterContext
  loaded c p ds = record c { policy = some p; datasources = ds }

  late_filters-IsAdmitted :
      (c : FilterContext) (p : PolicySet) (ds : Dict DatasourceInstance) {c' : FilterContext}
      → get_enabled_policy orm db default_policy_code ≡ ok (some p)
      → IsSourced orm mysql db ds
      → Allows orm mysql db
          (run orm mysql db
            (type_filter ∷ cross_filter ∷ limit_check_filter ∷ explain_filter ∷ [])
            (loaded c p ds))
          c'
      → IsAdmitted c
  unfolding apply loaded
  late_filters-IsAdmitted c p ds found sourced h =
      let (c3, typed, h3) = run-cons-Allows type_filter _ (loaded c p ds) h in
      let (listed, same3) = sql_type_filter-Allows orm mysql db (loaded c p ds) p refl typed in
      let (c4, crossed, h4) = run-cons-Allows cross_filter _ c3 h3 in
      let (single, same4) = cross_datasource_filter-Allows orm mysql db c3 crossed in
      let at4 : c4 ≡ loaded c p ds = same4 ∙ same3 in
      let (c5, limited, h5) = run-cons-Allows limit_check_filter _ c4 h4 in
      let (given, kept, same5) =
        limit_filter-Allows orm mysql db c4 p (ap (λ (x : FilterContext). x.policy) at4) limited in
      let at5 : c5 ≡ loaded c p ds = same5 ∙ at4 in
      let (c6, explained, h6) = run-cons-Allows explain_filter _ c5 h5 in
      let plans =
        explain_risk_filter-Allows orm mysql db (loaded c p ds) p refl (rw at5 at explained) in
      record {
        policy = p;
        policy_row = found;
        type_listed = listed;
        one_datasource = rw same3 at single;
        limit_given = rw at4 at given;
        limit_kept = rw at4 at kept;
        served = All-IsServed (loaded c p ds) p c.route_decision.targets sourced plans;
      }

  -- A statement that the six filters of the service let pass, from a context without datasources,
  -- meets the enabled policy in all respects (IsAdmitted).
  pub run-IsAdmitted :
      (c : FilterContext) {c' : FilterContext}
      → c.datasources ≡ []
      → Allows orm mysql db
          (run orm mysql db
            (policy_load_filter ∷ physical_table_validate_filter ∷ type_filter ∷ cross_filter
              ∷ limit_check_filter ∷ explain_filter ∷ [])
            c)
          c'
      → IsAdmitted c
  unfolding apply loaded
  run-IsAdmitted c empty h =
      let (c1, loaded_policy, h1) = run-cons-Allows policy_load_filter _ c h in
      let (p, found, same1) =
        policy_load-Allows orm mysql db c c.route_decision.targets loaded_policy in
      let (c2, validated, h2) = run-cons-Allows physical_table_validate_filter _ c1 h1 in
      let none_yet : c1.datasources ≡ [] =
        ap (λ (x : FilterContext). x.datasources) same1 ∙ empty in
      let v =
        validate_targets-Allows orm mysql db c1.route_decision.targets c1
          (rw none_yet (λ code d e. unfold get in cc e)) validated in
      let at2 : c2 ≡ loaded c p c2.datasources =
        v.left ∙ ap (λ (x : FilterContext). record x { datasources = c2.datasources }) same1 in
      late_filters-IsAdmitted c p c2.datasources found v.sourced (rw at2 at h2)
