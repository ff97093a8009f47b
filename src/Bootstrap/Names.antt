-- ===== src/Bootstrap/Names.antt =====
-- The upserts of the seed: each finds its row again, and names tell them apart.
use sql_gatekeeper.Prelude.{
  ℕ, String, ◌≡◌, refl, Bool, true, false, ◌&&◌, eqb, arith, and_true, inl, inr, Bool-cases,
}
use sql_gatekeeper.Repositories.{Orm}
use sql_gatekeeper.Redis.Types.{Settings}
use sql_gatekeeper.Bootstrap.Rows.Touch.{Lawful, Apart}
use sql_gatekeeper.Bootstrap.Upserts.{
  DatasourceArguments, upsert_policy, upsert_datasource, upsert_logical_table, upsert_route_factor,
  upsert_route_rule, upsert_physical_route,
}

-- Two names that match one column value match each other: the comparison by a collation does so, whether
-- or not it tells letter cases or accents apart.
abbrev pub IsCollated : Orm → Type 0
IsCollated orm = (c s t : String) → orm.same c s ≡ true → orm.same c t ≡ true → orm.same s t ≡ true

-- The comparison tells the seed's own names of one table apart.
pub record TellsApart (orm : Orm) (settings : Settings) : Type 0 where
  pub user_order_db : orm.same "biz_user_db" "biz_order_db" ≡ false
  pub user_redis_db : orm.same "biz_user_db" settings.redis_datasource_code ≡ false
  pub order_redis_db : orm.same "biz_order_db" settings.redis_datasource_code ≡ false
  pub tables : orm.same "user" "order" ≡ false
  pub factors : orm.same "uid" "biz_date" ≡ false
  pub rule_names : orm.same "user_mod_2" "order_month" ≡ false
  pub users : orm.same "0" "1" ≡ false
  pub user_0_june : orm.same "0" "2025_06" ≡ false
  pub user_0_july : orm.same "0" "2025_07" ≡ false
  pub user_1_june : orm.same "1" "2025_06" ≡ false
  pub user_1_july : orm.same "1" "2025_07" ≡ false
  pub months : orm.same "2025_06" "2025_07" ≡ false

module _ (orm : Orm) where
  both : (n : ℕ) (s : String) → (eqb n n && orm.same s s) ≡ true
  both n s = ground (arith, orm.same_refl s)

  pub policy-Lawful : Lawful (upsert_policy orm)
  policy-Lawful = record {
    fresh_matches = λ i. orm.same_refl "default_select_guard";
    fresh_updated = λ i. refl;
    fresh_id = λ i. refl;
    update_matches = λ p. refl;
    update_twice = λ p. refl;
    update_id = λ p. refl;
  }

  pub datasource-Lawful : (a : DatasourceArguments) → Lawful (upsert_datasource orm a)
  datasource-Lawful a = record {
    fresh_matches = λ i. orm.same_refl a.datasource_code;
    fresh_updated = λ i. refl;
    fresh_id = λ i. refl;
    update_matches = λ d. refl;
    update_twice = λ d. refl;
    update_id = λ d. refl;
  }

  pub table-Lawful : (n d s t : String) → Lawful (upsert_logical_table orm n d s t)
  table-Lawful n d s t = record {
    fresh_matches = λ i. orm.same_refl n;
    fresh_updated = λ i. refl;
    fresh_id = λ i. refl;
    update_matches = λ t. refl;
    update_twice = λ t. refl;
    update_id = λ t. refl;
  }

  pub factor-Lawful : (t : ℕ) (n s k : String) → Lawful (upsert_route_factor orm t n s k)
  factor-Lawful t n s k = record {
    fresh_matches = λ i. both t n;
    fresh_updated = λ i. refl;
    fresh_id = λ i. refl;
    update_matches = λ f. refl;
    update_twice = λ f. refl;
    update_id = λ f. refl;
  }

  pub rule-Lawful : (t : ℕ) (n y e o : String) → Lawful (upsert_route_rule orm t n y e o)
  rule-Lawful t n y e o = record {
    fresh_matches = λ i. both t n;
    fresh_updated = λ i. refl;
    fresh_id = λ i. refl;
    update_matches = λ r. refl;
    update_twice = λ r. refl;
    update_id = λ r. refl;
  }

  pub route-Lawful : (t : ℕ) (v p : String) (d : ℕ) → Lawful (upsert_physical_route orm t v p d)
  route-Lawful t v p d = record {
    fresh_matches = λ i. both t v;
    fresh_updated = λ i. refl;
    fresh_id = λ i. refl;
    update_matches = λ r. refl;
    update_twice = λ r. refl;
    update_id = λ r. refl;
  }

  module _ (collated : IsCollated orm) where
    -- What one name finds another does not.
    other_name :
        (c s t : String) → orm.same c t ≡ true → orm.same s t ≡ false → orm.same c s ≡ false
    other_name c s t e h = elim (Bool-cases (orm.same c s)) [
      | inl found ↦ absurd (cc (collated c s t found e, h))
      | inr missed ↦ missed
    ]

    other_pair :
        (a b : Bool) (c s t : String)
        → (a && orm.same c t) ≡ true
        → orm.same s t ≡ false
        → (b && orm.same c s) ≡ false
    other_pair a b c s t e h =
        let (_, e') = and_true a (orm.same c t) e in let f = other_name c s t e' h in ground arith

    pub datasource-Apart :
        (a b : DatasourceArguments)
        → orm.same a.datasource_code b.datasource_code ≡ false
        → Apart (upsert_datasource orm a) (upsert_datasource orm b)
    datasource-Apart a b h = record {
      finds_other = λ d e. other_name d.datasource_code a.datasource_code b.datasource_code e h;
      makes_other = λ i.
          other_name b.datasource_code a.datasource_code b.datasource_code
            (orm.same_refl b.datasource_code) h;
      updates_other = λ d. refl;
    }

    pub table-Apart :
        (n d s t n' d' s' t' : String)
        → orm.same n n' ≡ false
        → Apart (upsert_logical_table orm n d s t) (upsert_logical_table orm n' d' s' t')
    table-Apart n d s t n' d' s' t' h = record {
      finds_other = λ r e. other_name r.table_name n n' e h;
      makes_other = λ i. other_name n' n n' (orm.same_refl n') h;
      updates_other = λ r. refl;
    }

    pub factor-Apart :
        (t t' : ℕ) (n s k n' s' k' : String)
        → orm.same n n' ≡ false
        → Apart (upsert_route_factor orm t n s k) (upsert_route_factor orm t' n' s' k')
    factor-Apart t t' n s k n' s' k' h = record {
      finds_other = λ r e.
          other_pair (eqb r.logical_table_id t') (eqb r.logical_table_id t) r.factor_name n n' e h;
      makes_other = λ i. other_pair (eqb t' t') (eqb t' t) n' n n' (both t' n') h;
      updates_other = λ r. refl;
    }

    pub rule-Apart :
        (t t' : ℕ) (n y e o n' y' e' o' : String)
        → orm.same n n' ≡ false
        → Apart (upsert_route_rule orm t n y e o) (upsert_route_rule orm t' n' y' e' o')
    rule-Apart t t' n y e o n' y' e' o' h = record {
      finds_other = λ r m.
          other_pair (eqb r.logical_table_id t') (eqb r.logical_table_id t) r.rule_name n n' m h;
      makes_other = λ i. other_pair (eqb t' t') (eqb t' t) n' n n' (both t' n') h;
      updates_other = λ r. refl;
    }

    pub route-Apart :
        (t t' : ℕ) (v p v' p' : String) (d d' : ℕ)
        → orm.same v v' ≡ false
        → Apart (upsert_physical_route orm t v p d) (upsert_physical_route orm t' v' p' d')
    route-Apart t t' v p v' p' d d' h = record {
      finds_other = λ r m.
          other_pair (eqb r.logical_table_id t') (eqb r.logical_table_id t) r.route_value v v' m h;
      makes_other = λ i. other_pair (eqb t' t') (eqb t' t) v' v v' (both t' v') h;
      updates_other = λ r. refl;
    }
