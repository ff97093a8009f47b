-- ===== src/Routing/Loop.antt =====
-- The loop of `resolve`: one target for each table, or a refusal without targets.
use mathlib.Core.List.{append-nil, append_assoc}
use sql_gatekeeper.Prelude.{
  ◌≡◌, refl, sym, ◌∙◌, ◌⊎◌, inl, inr, true, false, List, [], ◌∷◌, ◌++◌, is_nil, Bool-cases, Result,
  ok, raise, Ensures, Ensures-mono, Ensures-ok,
}
use sql_gatekeeper.Prelude.Dict.{Dict}
use sql_gatekeeper.Meta.{Value, MetaDb}
use sql_gatekeeper.Parser.{ParsedTable, ParsedSql}
use sql_gatekeeper.Repositories.{Orm}
use sql_gatekeeper.Routing.Decision.{RouteTarget, RouteDiagnostic, RouteDecision}
use sql_gatekeeper.Routing.Resolve.{
  RuleEngine, Round, routed, stopped, route_table, resolve_tables, resolve,
}
use sql_gatekeeper.Routing.Sound.{IsRefusal, IsRouted, RoundOf, route_table-RoundOf}

module _ (orm : Orm) (rules : RuleEngine) (db : MetaDb) (parsed : ParsedSql)
    (route_context : Dict Value) where
  -- One target for each table, in order.
  abbrev pub AllRouted : List ParsedTable → List RouteTarget → Type 0
  AllRouted [] [] = Unit
  AllRouted (t ∷ ts) (x ∷ xs) = IsRouted orm rules db parsed route_context t x × AllRouted ts xs
  AllRouted _ _ = ⊥

  abbrev Settled : List ParsedTable → List RouteTarget → RouteDecision → Type 0
  Settled tables done d =
      IsRefusal d
      ⊎ ((more : List RouteTarget) × (d.allowed ≡ true)
          × (d.targets ≡ done ++ more)
          × AllRouted tables more)

  Settled-cons :
      (table : ParsedTable) (tables : List ParsedTable) (done : List RouteTarget)
      (target : RouteTarget) (d : RouteDecision)
      → IsRouted orm rules db parsed route_context table target
      → Settled tables (done ++ target ∷ []) d
      → Settled (table ∷ tables) done d
  Settled-cons table tables done target d r (inl refused) = inl refused
  Settled-cons table tables done target d r (inr (more, allowed, e, all)) =
      inr (target ∷ more, allowed, e ∙ append_assoc done (target ∷ []) more, (r, all))

  resolve_tables-Settled :
      (tables : List ParsedTable) (done : List RouteTarget) (ds : List RouteDiagnostic)
      → Ensures
          (Settled tables done)
          (resolve_tables orm rules db parsed route_context tables done ds)
  unfolding resolve_tables
  resolve_tables-Settled [] done ds = inr ([], refl, sym (append-nil done), tt)
  resolve_tables-Settled (t ∷ tables) done ds =
      go (route_table orm rules db parsed route_context t ds)
        (route_table-RoundOf orm rules db parsed route_context t ds)
        (λ x later. resolve_tables-Settled tables (done ++ x ∷ []) later)
    where
      go :
          (r : Result Round)
          → Ensures (RoundOf orm rules db parsed route_context t) r
          → ((x : RouteTarget) (later : List RouteDiagnostic)
              → Ensures
                  (Settled tables (done ++ x ∷ []))
                  (resolve_tables orm rules db parsed route_context tables (done ++ x ∷ []) later))
          → Ensures (Settled (t ∷ tables) done) (elim r [
            | raise e ↦ raise e
            | ok (stopped decision) ↦ ok decision
            | ok (routed target later) ↦
                resolve_tables orm rules db parsed route_context tables (done ++ target ∷ []) later
          ])
      go (raise e) h ih = tt
      go (ok (stopped d)) h ih = inl h
      go (ok (routed x later)) h ih =
          Ensures-mono (Settled tables (done ++ x ∷ [])) (Settled (t ∷ tables) done) _
            (λ d k. Settled-cons t tables done x d h k) (ih x later)

  -- A decision refuses with no target, or it allows with one target for each table that was parsed, in
  -- order: an enabled route with an enabled datasource, whose physical table the statement names, or
  -- which belongs to the logical table that it names and has the value of that table's rule.
  pub resolve-Settled :
      {d : RouteDecision}
      → resolve orm rules db parsed route_context ≡ ok d
      → IsRefusal d
        ⊎ ((d.allowed ≡ true) × (is_nil parsed.tables ≡ false) × AllRouted parsed.tables d.targets)
  unfolding resolve
  resolve-Settled {d} e = elim (Bool-cases (is_nil parsed.tables)) [
    | inl empty ↦ let e' = rw (empty, resolve) at e in inl (cc, cc)
    | inr full ↦
        elim (Ensures-ok (Settled parsed.tables []) _ (resolve_tables-Settled parsed.tables [] [])
          (rw (full, resolve) at e)) [
            | inl refused ↦ inl refused
            | inr (more, allowed, same, all) ↦ inr (allowed, full, rw same all)
          ]
  ]
