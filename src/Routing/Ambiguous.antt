-- ===== src/Routing/Ambiguous.antt =====
-- Two enabled routes with one physical name.
use sql_gatekeeper.Prelude.{
  ◌≡◌, refl, ap, ◌∙◌, List, [], ◌∷◌, keep, is_nil, raise, multiple_results_found, if-false,
}
use sql_gatekeeper.Prelude.Dict.{Dict}
use sql_gatekeeper.Meta.{Value, PhysicalTableRoute, MetaDb}
use sql_gatekeeper.Parser.{ParsedTable, ParsedSql}
use sql_gatekeeper.Repositories.{Orm, has_physical_name, get_enabled_physical}
use sql_gatekeeper.Routing.Decision.{RouteDiagnostic}
use sql_gatekeeper.Routing.Resolve.{RuleEngine, route_table, resolve_tables, resolve}

module _ (orm : Orm) (rules : RuleEngine) (db : MetaDb) where
  module _ (parsed : ParsedSql) (route_context : Dict Value) where
    route_table-raise :
        (t : ParsedTable) (ds : List RouteDiagnostic) (a b : PhysicalTableRoute)
        (rest : List PhysicalTableRoute)
        → keep (has_physical_name orm db t.table_name) db.physical_routes ≡ a ∷ b ∷ rest
        → route_table orm rules db parsed route_context t ds ≡ raise multiple_results_found
    unfolding route_table get_enabled_physical
    route_table-raise t ds a b rest several =
        let raised =
          ap (orm.one_or_none PhysicalTableRoute) several
          ∙ orm.one_or_none_several PhysicalTableRoute a b rest in
        rw raised refl

    resolve_tables-raise :
        (t : ParsedTable) (ts : List ParsedTable)
        → route_table orm rules db parsed route_context t [] ≡ raise multiple_results_found
        → resolve_tables orm rules db parsed route_context (t ∷ ts) [] []
          ≡ raise multiple_results_found
    unfolding resolve_tables
    resolve_tables-raise t ts e = rw (e, resolve_tables) refl

    -- If the first table of a statement names the physical table of two enabled routes or more, the
    -- resolution ends with the exception of `scalar_one_or_none`, not with a decision.
    pub resolve-Ambiguous :
        (t : ParsedTable) (ts : List ParsedTable) (a b : PhysicalTableRoute)
        (rest : List PhysicalTableRoute)
        → parsed.tables ≡ t ∷ ts
        → keep (has_physical_name orm db t.table_name) db.physical_routes ≡ a ∷ b ∷ rest
        → resolve orm rules db parsed route_context ≡ raise multiple_results_found
    unfolding resolve
    resolve-Ambiguous t ts a b rest first several =
        if-false (is_nil parsed.tables) _ _ (ap is_nil first)
        ∙ ap (λ tables. resolve_tables orm rules db parsed route_context tables [] []) first
        ∙ resolve_tables-raise t ts (route_table-raise t [] a b rest several)
