-- ===== src/Rewrite/Tokens.antt =====
-- The plans of routed tokens: what the router makes of the parser's tokens is what splicing needs.
use Prim.Native.String.{count}
use mathlib.Core.List.{filter_map}
use sql_gatekeeper.Prelude.{ℕ, ◌≤◌, inl, inr, String, List, [], ◌∷◌, arith}
use sql_gatekeeper.Prelude.Dict.{Dict}
use sql_gatekeeper.Meta.{Value, MetaDb}
use sql_gatekeeper.Parser.{ParsedTable, ParsedSql}
use sql_gatekeeper.Parser.Tokens.{TokensInOrder}
use sql_gatekeeper.Rewrite.{TableRewritePlan}
use sql_gatekeeper.Rewrite.Splice.{PlansInOrder}
use sql_gatekeeper.Repositories.{Orm}
use sql_gatekeeper.Routing.Decision.{RouteTarget}
use sql_gatekeeper.Routing.Resolve.{RuleEngine}
use sql_gatekeeper.Routing.Loop.{AllRouted}

PlansInOrder-mono :
    (sql : String) (lo hi : ℕ) (ps : List TableRewritePlan)
    → lo ≤ hi
    → PlansInOrder sql hi ps
    → PlansInOrder sql lo ps
PlansInOrder-mono sql lo hi [] le h = omega arith
PlansInOrder-mono sql lo hi (p ∷ ps) le (from, ne, fits, h) = (omega arith, ne, fits, h)

module _ (orm : Orm) (rules : RuleEngine) (db : MetaDb) (parsed : ParsedSql) (context : Dict Value)
    (sql : String) where
  pub plans-InOrder :
      (lo : ℕ) (tables : List ParsedTable) (targets : List RouteTarget)
      → lo ≤ count sql
      → TokensInOrder sql lo tables
      → AllRouted orm rules db parsed context tables targets
      → PlansInOrder sql lo (filter_map (λ (t : RouteTarget). t.rewrite_plan) targets)
  unfolding filter_map
  plans-InOrder lo [] [] le h r = le
  plans-InOrder lo (t ∷ ts) (x ∷ xs) le (from, token, h) (routed, r) =
      let rest = plans-InOrder t.token_end ts xs token.within h r in
      elim routed.plan [
        | inl (unchanged, _) ↦
            rw (unchanged, filter_map)
              (PlansInOrder-mono sql lo t.token_end _ (omega (arith, token.nonempty)) rest)
        | inr (planned, _) ↦ rw (planned, filter_map) (from, token.nonempty, token.within, rest)
      ]
  plans-InOrder lo [] (x ∷ xs) le h r = absurd r
  plans-InOrder lo (t ∷ ts) [] le h r = absurd r
