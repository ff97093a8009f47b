-- ===== src/Bootstrap/Idempotent.antt =====
-- Seeding twice leaves what seeding once leaves.
use sql_gatekeeper.Prelude.{ℕ, ◌≡◌, refl, List, ok, Ensures, Ensures-bind, Ensures-ok}
use sql_gatekeeper.Meta.{
  DatasourceInstance, LogicalTable, RouteFactorDef, RouteRule, PhysicalTableRoute, MetaDb,
}
use sql_gatekeeper.Meta.Inserts.{Ids, unless_error}
use sql_gatekeeper.Repositories.{Orm}
use sql_gatekeeper.Redis.Types.{Settings}
use sql_gatekeeper.Bootstrap.Rows.{Upsert, upsert}
use sql_gatekeeper.Bootstrap.Rows.Touch.{Lawful, Apart}
use sql_gatekeeper.Bootstrap.Rows.Settled.{
  Settled, Settled-upsert, upsert-Settled, upsert-keeps-Settled,
}
use sql_gatekeeper.Bootstrap.Names.{
  IsCollated, TellsApart, policy-Lawful, datasource-Lawful, table-Lawful, factor-Lawful,
  rule-Lawful, route-Lawful, datasource-Apart, table-Apart, factor-Apart, rule-Apart, route-Apart,
}
use sql_gatekeeper.Bootstrap.Upserts.{
  upsert_policy, upsert_datasource, upsert_logical_table, upsert_route_factor, upsert_route_rule,
  upsert_physical_route,
}
use sql_gatekeeper.Bootstrap.Seed.{
  DemoSettings, user_datasource, order_datasource, redis_datasource, seed_datasources,
  seed_logical_tables, seed_route_factors, seed_route_rules, seed_physical_routes,
  seed_reference_data,
}

module _ (orm : Orm) (ids : Ids) where
  -- After two upserts of different rows both are settled.
  two_settled :
      {A : Type 0} (u v : Upsert A) (rows one : List A) {two : List A} {i j : ℕ}
      → Lawful u
      → Lawful v
      → Apart u v
      → upsert orm ids u rows ≡ ok (i, one)
      → upsert orm ids v one ≡ ok (j, two)
      → (upsert orm ids u two ≡ ok (i, two)) × (upsert orm ids v two ≡ ok (j, two))
  two_settled u v rows one lu lv apart eu ev = (
    Settled-upsert orm ids u
        (upsert-keeps-Settled orm ids u v one apart ev (upsert-Settled orm ids u rows lu eu)),
    Settled-upsert orm ids v (upsert-Settled orm ids v one lv ev),
  )

  module _ (collated : IsCollated orm) (settings : Settings) (names : TellsApart orm settings) where
    seed_logical_tables-again :
        (rows : List LogicalTable)
        → Ensures (λ p. seed_logical_tables orm ids p.1 ≡ ok p) (seed_logical_tables orm ids rows)
    unfolding seed_logical_tables
    seed_logical_tables-again rows =
        let P = λ (p : (ℕ × ℕ) × List LogicalTable). seed_logical_tables orm ids p.1 ≡ ok p in
        let u =
          upsert_logical_table orm "user" "Logical user table" "sql_or_physical_table"
            "user_{suffix}" in
        let v =
          upsert_logical_table orm "order" "Logical order table" "route_context_or_sql"
            "order_{biz_date}" in
        Ensures-bind P (upsert orm ids u rows) _ (λ p eu.
          Ensures-bind P (upsert orm ids v p.1) _ (λ q ev.
            let (su, sv) =
              two_settled u v rows p.1 (table-Lawful orm _ _ _ _) (table-Lawful orm _ _ _ _)
                (table-Apart orm collated _ _ _ _ _ _ _ _ names.tables) eu ev in
            rw (su, sv) refl))

    seed_route_factors-again :
        (t t' : ℕ) (rows : List RouteFactorDef)
        → Ensures
            (λ p. seed_route_factors orm ids t t' p ≡ ok p)
            (seed_route_factors orm ids t t' rows)
    unfolding seed_route_factors
    seed_route_factors-again t t' rows =
        let P = λ (p : List RouteFactorDef). seed_route_factors orm ids t t' p ≡ ok p in
        let u = upsert_route_factor orm t "uid" "sql_predicate" "uid" in
        let v = upsert_route_factor orm t' "biz_date" "route_context" "biz_date" in
        Ensures-bind P (upsert orm ids u rows) _ (λ p eu.
          Ensures-bind P (upsert orm ids v p.1) _ (λ q ev.
            let (su, sv) =
              two_settled u v rows p.1 (factor-Lawful orm _ _ _ _) (factor-Lawful orm _ _ _ _)
                (factor-Apart orm collated _ _ _ _ _ _ _ _ names.factors) eu ev in
            rw (su, sv) refl))

    seed_route_rules-again :
        (t t' : ℕ) (rows : List RouteRule)
        → Ensures (λ p. seed_route_rules orm ids t t' p ≡ ok p) (seed_route_rules orm ids t t' rows)
    unfolding seed_route_rules
    seed_route_rules-again t t' rows =
        let P = λ (p : List RouteRule). seed_route_rules orm ids t t' p ≡ ok p in
        let u = upsert_route_rule orm t "user_mod_2" "mod" "int(uid) % 2" "{value}" in
        let v =
          upsert_route_rule orm t' "order_month" "format" "biz_date.replace('-', '_')" "{value}" in
        Ensures-bind P (upsert orm ids u rows) _ (λ p eu.
          Ensures-bind P (upsert orm ids v p.1) _ (λ q ev.
            let (su, sv) =
              two_settled u v rows p.1 (rule-Lawful orm _ _ _ _ _) (rule-Lawful orm _ _ _ _ _)
                (rule-Apart orm collated _ _ _ _ _ _ _ _ _ _ names.rule_names) eu ev in
            rw (su, sv) refl))

    seed_physical_routes-again :
        (t t' d d' : ℕ) (rows : List PhysicalTableRoute)
        → Ensures
            (λ p. seed_physical_routes orm ids t t' d d' p ≡ ok p)
            (seed_physical_routes orm ids t t' d d' rows)
    unfolding seed_physical_routes
    seed_physical_routes-again t t' d d' rows =
        let P = λ (p : List PhysicalTableRoute). seed_physical_routes orm ids t t' d d' p ≡ ok p in
        let u = upsert_physical_route orm t "0" "user_0" d in
        let v = upsert_physical_route orm t "1" "user_1" d in
        let w = upsert_physical_route orm t' "2025_06" "order_2025_06" d' in
        let x = upsert_physical_route orm t' "2025_07" "order_2025_07" d' in
        Ensures-bind P (upsert orm ids u rows) _ (λ a eu.
          Ensures-bind P (upsert orm ids v a.1) _ (λ b ev.
            Ensures-bind P (upsert orm ids w b.1) _ (λ c ew.
              Ensures-bind P (upsert orm ids x c.1) _ (λ e ex.
                let su = upsert-Settled orm ids u rows (route-Lawful orm _ _ _ _) eu in
                let sv = upsert-Settled orm ids v a.1 (route-Lawful orm _ _ _ _) ev in
                let su' =
                  upsert-keeps-Settled orm ids u w b.1
                    (route-Apart orm collated _ _ _ _ _ _ _ _ names.user_0_june) ew
                    (upsert-keeps-Settled orm ids u v a.1
                      (route-Apart orm collated _ _ _ _ _ _ _ _ names.users) ev su) in
                let sv' =
                  upsert-keeps-Settled orm ids v w b.1
                    (route-Apart orm collated _ _ _ _ _ _ _ _ names.user_1_june) ew sv in
                let last : (q : Upsert PhysicalTableRoute) (i : ℕ)
                    → Apart q x
                    → Settled orm ids q i c.1
                    → upsert orm ids q e.1 ≡ ok (i, e.1) =
                  λ q i apart s.
                    Settled-upsert orm ids q (upsert-keeps-Settled orm ids q x c.1 apart ex s) in
                let fu =
                  last u a.0 (route-Apart orm collated _ _ _ _ _ _ _ _ names.user_0_july) su' in
                let fv =
                  last v b.0 (route-Apart orm collated _ _ _ _ _ _ _ _ names.user_1_july) sv' in
                let (fw, fx) =
                  two_settled w x b.1 c.1 (route-Lawful orm _ _ _ _) (route-Lawful orm _ _ _ _)
                    (route-Apart orm collated _ _ _ _ _ _ _ _ names.months) ew ex in
                rw (fu, fv, fw, fx) refl))))

    module _ (demo : DemoSettings) where
      seed_datasources-again :
          (rows : List DatasourceInstance)
          → Ensures
              (λ p. seed_datasources orm ids demo settings p.1 ≡ ok p)
              (seed_datasources orm ids demo settings rows)
      unfolding seed_datasources
      seed_datasources-again rows =
          let P = λ (p : (ℕ × ℕ) × List DatasourceInstance).
            seed_datasources orm ids demo settings p.1 ≡ ok p in
          let u = upsert_datasource orm (user_datasource demo) in
          let v = upsert_datasource orm (order_datasource demo) in
          let w = upsert_datasource orm (redis_datasource settings) in
          Ensures-bind P (upsert orm ids u rows) _ (λ a eu.
            Ensures-bind P (upsert orm ids v a.1) _ (λ b ev.
              Ensures-bind P (upsert orm ids w b.1) _ (λ c ew.
                let su = upsert-Settled orm ids u rows (datasource-Lawful orm _) eu in
                let su' =
                  upsert-keeps-Settled orm ids u v a.1
                    (datasource-Apart orm collated (user_datasource demo) (order_datasource demo)
                      names.user_order_db)
                    ev su in
                let fu = Settled-upsert orm ids u (
                  upsert-keeps-Settled orm ids u w b.1
                    (datasource-Apart orm collated (user_datasource demo)
                      (redis_datasource settings) names.user_redis_db)
                    ew su') in
                let (fv, fw) =
                  two_settled v w a.1 b.1 (datasource-Lawful orm _) (datasource-Lawful orm _)
                    (datasource-Apart orm collated (order_datasource demo)
                      (redis_datasource settings) names.order_redis_db)
                    ev ew in
                rw (fu, fv, fw) refl)))

      seed_again :
          (db : MetaDb)
          → Ensures
              (λ db'. seed_reference_data orm ids demo settings db' ≡ ok db')
              (seed_reference_data orm ids demo settings db)
      unfolding seed_reference_data
      seed_again db =
          let P = λ (db' : MetaDb). seed_reference_data orm ids demo settings db' ≡ ok db' in
          let T = λ (p : (ℕ × ℕ) × List LogicalTable). seed_logical_tables orm ids p.1 ≡ ok p in
          let D = λ (p : (ℕ × ℕ) × List DatasourceInstance).
            seed_datasources orm ids demo settings p.1 ≡ ok p in
          let u = upsert_policy orm in
          Ensures-bind P (upsert orm ids u db.policies) _ (λ p ep.
            Ensures-bind P (seed_datasources orm ids demo settings db.datasources) _ (λ d ed.
              Ensures-bind P (seed_logical_tables orm ids db.logical_tables) _ (λ t et.
                Ensures-bind P (seed_route_factors orm ids t.0.0 t.0.1 db.route_factors) _ (λ f ef.
                  Ensures-bind P (seed_route_rules orm ids t.0.0 t.0.1 db.route_rules) _ (λ r er.
                    Ensures-bind P
                      (seed_physical_routes orm ids t.0.0 t.0.1 d.0.0 d.0.1 db.physical_routes) _
                      (λ x ex.
                        let sp =
                          Settled-upsert orm ids u
                            (upsert-Settled orm ids u db.policies (policy-Lawful orm) ep) in
                        let sd =
                          Ensures-ok D (seed_datasources orm ids demo settings db.datasources)
                            (seed_datasources-again db.datasources) ed in
                        let st =
                          Ensures-ok T (seed_logical_tables orm ids db.logical_tables)
                            (seed_logical_tables-again db.logical_tables) et in
                        let sf =
                          Ensures-ok (λ f. seed_route_factors orm ids t.0.0 t.0.1 f ≡ ok f)
                            (seed_route_factors orm ids t.0.0 t.0.1 db.route_factors)
                            (seed_route_factors-again t.0.0 t.0.1 db.route_factors) ef in
                        let sr =
                          Ensures-ok (λ r. seed_route_rules orm ids t.0.0 t.0.1 r ≡ ok r)
                            (seed_route_rules orm ids t.0.0 t.0.1 db.route_rules)
                            (seed_route_rules-again t.0.0 t.0.1 db.route_rules) er in
                        let sx =
                          Ensures-ok
                            (λ x. seed_physical_routes orm ids t.0.0 t.0.1 d.0.0 d.0.1 x ≡ ok x)
                            (seed_physical_routes orm ids t.0.0 t.0.1 d.0.0 d.0.1
                              db.physical_routes)
                            (seed_physical_routes-again t.0.0 t.0.1 d.0.0 d.0.1 db.physical_routes)
                            ex in
                        Ensures-bind P
                          (unless_error (
                            ids.commit_error (record {
                              datasources = d.1;
                              logical_tables = t.1;
                              route_factors = f;
                              route_rules = r;
                              physical_routes = x;
                              policies = p.1;
                            })))
                          _ (λ _ committed. rw (sp, sd, st, sf, sr, sx, committed) refl)))))))

      -- If names that match one column value match each other, as by any collation, and the comparison
      -- tells the seed's own names apart, the code of the Redis datasource among them, seeding again
      -- returns and changes nothing, the ids included.
      pub seed_reference_data-idempotent :
          (db : MetaDb) {db' : MetaDb}
          → seed_reference_data orm ids demo settings db ≡ ok db'
          → seed_reference_data orm ids demo settings db' ≡ ok db'
      seed_reference_data-idempotent db e =
          Ensures-ok (λ d. seed_reference_data orm ids demo settings d ≡ ok d)
            (seed_reference_data orm ids demo settings db) (seed_again db) e
