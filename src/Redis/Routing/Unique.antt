-- ===== src/Redis/Routing/Unique.antt =====
-- Routing by catalog never picks among several datasources.
use mathlib.Core.List.{Memᴰ}
use mathlib.Core.List.Memᴰ
use sql_gatekeeper.Prelude.{
  String, ◌≡◌, refl, ap, ◌∙◌, inl, inr, true, some, List, [], ◌∷◌, keep, keep-Memᴰ, Memᴰ-keep,
  if-eq-cases,
}
use sql_gatekeeper.Prelude.Text.{is_empty}
use sql_gatekeeper.Meta.{DatasourceInstance, MetaDb}
use sql_gatekeeper.Repositories.{Orm}
use sql_gatekeeper.Redis.Types.{Settings, RedisRouteResolution}
use sql_gatekeeper.Redis.Routing.{
  is_enabled_redis, in_catalog, takes_key, choose_one, match_catalog, route_by_catalog,
}

module _ (orm : Orm) (settings : Settings) (db : MetaDb) (catalog key : String) where
  -- The datasource is an enabled Redis datasource of the catalog that takes the key.
  pub record Matches (d : DatasourceInstance) : Type 0 where
    pub registered : Memᴰ d db.datasources
    pub enabled : is_enabled_redis orm.same d ≡ true
    pub catalogued : in_catalog catalog d ≡ true
    pub taken : takes_key settings key d ≡ true

  candidates : List DatasourceInstance
  candidates =
      keep (takes_key settings key)
        (keep (in_catalog catalog) (keep (is_enabled_redis orm.same) db.datasources))

  candidates-Matches : {d : DatasourceInstance} → Memᴰ d candidates → Matches d
  unfolding candidates
  candidates-Matches m =
      let (taken, m1) = keep-Memᴰ (takes_key settings key) _ m in
      let (catalogued, m2) = keep-Memᴰ (in_catalog catalog) _ m1 in
      let (enabled, m3) = keep-Memᴰ (is_enabled_redis orm.same) db.datasources m2 in
      record { registered = m3; enabled = enabled; catalogued = catalogued; taken = taken }

  Matches-candidates : (d : DatasourceInstance) → Matches d → Memᴰ d candidates
  unfolding candidates
  Matches-candidates d h = Memᴰ-keep (takes_key settings key) _ h.taken (
      Memᴰ-keep (in_catalog catalog) _ h.catalogued
        (Memᴰ-keep (is_enabled_redis orm.same) db.datasources h.enabled h.registered))

  choose_one-single :
      (ds : List DatasourceInstance) {d : DatasourceInstance}
      → (choose_one catalog key ds).datasource ≡ some d
      → ds ≡ d ∷ []
  choose_one-single [] e = cc
  choose_one-single (x ∷ []) e = cc
  choose_one-single (x ∷ y ∷ ds) e = cc

  match_catalog-single :
      (ds : List DatasourceInstance) {d : DatasourceInstance}
      → (match_catalog settings catalog key ds).datasource ≡ some d
      → keep (takes_key settings key) ds ≡ d ∷ []
  match_catalog-single [] e = cc
  match_catalog-single (x ∷ ds) e = choose_one-single (keep (takes_key settings key) (x ∷ ds)) e

  -- A datasource that the catalog and the key lead to is an enabled Redis datasource that matches them
  -- (Matches), and no other one does.
  pub route_by_catalog-Matches :
      {d : DatasourceInstance}
      → (route_by_catalog orm settings db catalog key).datasource ≡ some d
      → Matches d × ((x : DatasourceInstance) → Matches x → x ≡ d)
  unfolding route_by_catalog candidates
  route_by_catalog-Matches {d} e =
      elim (if-eq-cases (is_empty catalog) _ _
        (refl {a = route_by_catalog orm settings db catalog key})) [
          | inl (empty, same) ↦
              absurd (cc (ap (λ (r : RedisRouteResolution). r.datasource) same, e))
          | inr (given, same) ↦
              let single : candidates ≡ d ∷ [] =
                match_catalog-single _ (ap (λ (r : RedisRouteResolution). r.datasource) same ∙ e) in
              (
                candidates-Matches (rw single (Memᴰ.head refl)),
                λ x h.
                    let m = Matches-candidates x h in
                    elim (Memᴰ.cases_cons (rw single at m)) [
                      | inl same' ↦ same'
                      | inr later ↦ elim later [ ]
                    ],
              )
        ]
