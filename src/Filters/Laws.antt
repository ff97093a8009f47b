-- ===== src/Filters/Laws.antt =====
-- What each filter has established when it lets a statement pass, and what it writes.
use sql_gatekeeper.Prelude.{
  ◌≤◌, String, ◌≡◌, refl, ap, ◌∙◌, inl, inr, true, false, not, ◌&&◌, Option, none, some, List, [],
  ◌∷◌, any, length, All, ◌==◌, eq_iff, Bool-cases, Option-cases, Result-cases, ok, >>=-eq-ok, arith,
}
use sql_gatekeeper.Prelude.Dict.{Dict, get, put, get-put}
use sql_gatekeeper.Meta.{DatasourceInstance, PolicySet, MetaDb}
use sql_gatekeeper.Repositories.{Orm, get_enabled_datasource, get_enabled_policy}
use sql_gatekeeper.Routing.Decision.{RouteTarget}
use sql_gatekeeper.Runtime.{Mysql}
use sql_gatekeeper.Filters.{
  FilterContext, FilterDecision, Outcome, keep_policy, default_policy_code, distinct, codes,
  policy_load, validate_targets, sql_type_filter, cross_datasource_filter, exceeds, limit_filter,
}

module _ (orm : Orm) (mysql : Mysql) (db : MetaDb) where
  -- The filter has answered `d` and left the context `c'`, and lets the statement pass.
  abbrev pub Allows : Outcome → FilterContext → Type 0
  Allows o c' = (d : FilterDecision) × (o ≡ ok (d, c')) × (d.allowed ≡ true)

  keep_policy-Allows :
      (c : FilterContext) (o : Option PolicySet) {c' : FilterContext}
      → Allows (keep_policy orm mysql db c o) c'
      → (p : PolicySet) × (o ≡ some p) × (c' ≡ record c { policy = some p })
  keep_policy-Allows c none (d, e, allowed) = absurd (ground arith)
  keep_policy-Allows c (some p) (d, e, allowed) = (p, refl, ground arith)

  pub policy_load-Allows :
      (c : FilterContext) (targets : List RouteTarget) {c' : FilterContext}
      → Allows (policy_load orm mysql db c targets) c'
      → (p : PolicySet) × (get_enabled_policy orm db default_policy_code ≡ ok (some p))
        × (c' ≡ record c { policy = some p })
  unfolding policy_load
  policy_load-Allows c [] (d, e, allowed) = absurd (cc)
  policy_load-Allows c (t ∷ ts) (d, e, allowed) =
      let (o, found, e') = >>=-eq-ok (get_enabled_policy orm db default_policy_code) _ e in
      let (p, same, left) = keep_policy-Allows c o (d, e', allowed) in (p, found ∙ ap ok same, left)

  -- Every entry of the dict is the enabled datasource of its code.
  abbrev pub IsSourced : Dict DatasourceInstance → Type 0
  IsSourced ds =
      (code : String) (d : DatasourceInstance)
      → get code ds ≡ some d
      → get_enabled_datasource orm db code ≡ ok (some d)

  abbrev pub Has : Dict DatasourceInstance → String → Type 0
  Has ds code = (d : DatasourceInstance) × (get code ds ≡ some d)

  put-IsSourced :
      (ds : Dict DatasourceInstance) (code : String) (d : DatasourceInstance)
      → get_enabled_datasource orm db code ≡ ok (some d)
      → IsSourced ds
      → IsSourced (put code d ds)
  put-IsSourced ds code d found h j x e = ground (arith, get-put code j d ds, eq_iff code j, h j x)

  put-Has :
      (ds : Dict DatasourceInstance) (code j : String) (d : DatasourceInstance)
      → Has ds j
      → Has (put code d ds) j
  put-Has ds code j d (x, e) = elim (Bool-cases (code == j)) [
    | inl same ↦ (d, ground (arith, get-put code j d ds))
    | inr other ↦ (x, ground (arith, get-put code j d ds))
  ]

  put-Has_self :
      (ds : Dict DatasourceInstance) (code : String) (d : DatasourceInstance)
      → Has (put code d ds) code
  put-Has_self ds code d = (d, ground (arith, get-put code code d ds, eq_iff code code))

  -- The invariant of the loop over the targets: what it keeps, and what it adds.
  pub record IsValidated (targets : List RouteTarget) (c c' : FilterContext) : Type 0 where
    pub left : c' ≡ record c { datasources = c'.datasources }
    pub sourced : IsSourced c'.datasources
    pub kept : (j : String) → Has c.datasources j → Has c'.datasources j
    pub present : All (λ t. Has c'.datasources t.datasource_code) targets

  abbrev with_datasource : FilterContext → RouteTarget → DatasourceInstance → FilterContext
  with_datasource c t x = record c { datasources = put t.datasource_code x c.datasources }

  IsValidated-cons :
      (t : RouteTarget) (ts : List RouteTarget) (c c' : FilterContext) (x : DatasourceInstance)
      → IsValidated ts (with_datasource c t x) c'
      → IsValidated (t ∷ ts) c c'
  IsValidated-cons t ts c c' x v = record {
    left = v.left;
    sourced = v.sourced;
    kept = λ j k. v.kept j (put-Has c.datasources t.datasource_code j x k);
    present =
        (v.kept t.datasource_code (put-Has_self c.datasources t.datasource_code x), v.present);
  }

  pub validate_targets-Allows :
      (targets : List RouteTarget) (c : FilterContext) {c' : FilterContext}
      → IsSourced c.datasources
      → Allows (validate_targets orm mysql db targets c) c'
      → IsValidated targets c c'
  unfolding validate_targets
  validate_targets-Allows [] c {c'} h (d, e, allowed) =
      let same : c ≡ c' = ground arith in
      rw (← same) (record { left = refl; sourced = h; kept = λ j k. k; present = tt })
  validate_targets-Allows (t ∷ ts) c {c'} h (d, e, allowed) =
      elim (Result-cases (get_enabled_datasource orm db t.datasource_code)) [
        | inr (x, failed) ↦ absurd (cc (rw (failed, validate_targets) at e))
        | inl (o, found) ↦ elim (Option-cases o) [
          | inl missing ↦
              let found' : get_enabled_datasource orm db t.datasource_code ≡ ok none =
                found ∙ ap ok missing in
              let e' = rw (found', validate_targets) at e in absurd (ground arith)
          | inr (x, there) ↦
              let found' : get_enabled_datasource orm db t.datasource_code ≡ ok (some x) =
                found ∙ ap ok there in
              IsValidated-cons t ts c c' x (
                validate_targets-Allows ts (with_datasource c t x)
                  (put-IsSourced c.datasources t.datasource_code x found' h)
                  (d, rw (found', validate_targets) at e, allowed))
        ]
      ]

  -- The policy of the context lists the statement's type.
  pub sql_type_filter-Allows :
      (c : FilterContext) (p : PolicySet) {c' : FilterContext}
      → c.policy ≡ some p
      → Allows (sql_type_filter orm mysql db c) c'
      → (any (λ s. s == c.parsed_sql.sql_type) p.allow_sql_types ≡ true) × (c' ≡ c)
  unfolding sql_type_filter
  sql_type_filter-Allows c p loaded (d, e, allowed) = ground arith

  pub cross_datasource_filter-Allows :
      (c : FilterContext) {c' : FilterContext}
      → Allows (cross_datasource_filter orm mysql db c) c'
      → (length (distinct (codes c)) ≤ 1) × (c' ≡ c)
  unfolding cross_datasource_filter
  cross_datasource_filter-Allows c (d, e, allowed) = ground arith

  pub limit_filter-Allows :
      (c : FilterContext) (p : PolicySet) {c' : FilterContext}
      → c.policy ≡ some p
      → Allows (limit_filter orm mysql db c) c'
      → ((p.require_limit && not c.parsed_sql.has_limit) ≡ false)
        × (exceeds orm mysql db c.parsed_sql.limit_value p.max_limit ≡ false)
        × (c' ≡ c)
  unfolding limit_filter
  limit_filter-Allows c p loaded (d, e, allowed) = ground arith
