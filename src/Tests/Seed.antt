-- ===== src/Tests/Seed.antt =====
-- The seed at concrete inputs.
use sql_gatekeeper.Prelude.{◌≡◌, refl, ok, raise, eq_iff, ◌==◌, arith}
use sql_gatekeeper.Prelude.Text.Number.{pos}
use sql_gatekeeper.Meta.{MetaDb}
use sql_gatekeeper.Repositories.{Orm}
use sql_gatekeeper.Bootstrap.Names.{IsCollated, TellsApart}
use sql_gatekeeper.Bootstrap.Seed.{DemoSettings, seed_reference_data}
use sql_gatekeeper.Prelude.Text.{lower}
use sql_gatekeeper.Bootstrap.Idempotent.{seed_reference_data-idempotent}
use sql_gatekeeper.Tests.World.{orm, meta}
use sql_gatekeeper.Tests.Redis.{settings}
use sql_gatekeeper.Tests.Runs.{write_runs}
use sql_gatekeeper.Tests.Import.{ids}

abbrev demo : DemoSettings
demo = record {
  demo_user_db_host = "127.0.0.1";
  demo_user_db_port = pos 33062;
  demo_user_db_name = "biz_user";
  demo_user_db_user = "readonly";
  demo_user_db_password = "readonly";
  demo_order_db_host = "127.0.0.1";
  demo_order_db_port = pos 33063;
  demo_order_db_name = "biz_order";
  demo_order_db_user = "readonly";
  demo_order_db_password = "readonly";
}

-- A column of names that does not tell letter cases apart.
abbrev caseless : Orm
caseless = record {
  same = λ s t. lower s == lower t;
  same_refl = λ s. (eq_iff (lower s) (lower s)).1 refl;
  ascending = orm.ascending;
  one_or_none = orm.one_or_none;
  one_or_none_empty = orm.one_or_none_empty;
  one_or_none_single = orm.one_or_none_single;
  one_or_none_several = orm.one_or_none_several;
}

caseless-IsCollated : IsCollated caseless
caseless-IsCollated c s t e f =
    ground
      (arith, eq_iff (lower c) (lower s), eq_iff (lower c) (lower t), eq_iff (lower s) (lower t))

caseless-TellsApart : TellsApart caseless settings
unfolding write_runs lower
caseless-TellsApart = record {
  user_order_db = refl;
  user_redis_db = refl;
  order_redis_db = refl;
  tables = refl;
  factors = refl;
  rule_names = refl;
  users = refl;
  user_0_june = refl;
  user_0_july = refl;
  user_1_june = refl;
  user_1_july = refl;
  months = refl;
}

abbrev seeded : MetaDb
seeded = elim (seed_reference_data caseless ids demo settings meta) [ ok db ↦ db | raise x ↦ meta ]

seed_returns : seed_reference_data caseless ids demo settings meta ≡ ok seeded
unfolding write_runs
seed_returns = refl

seed_reference_data-idempotent_example :
    seed_reference_data caseless ids demo settings seeded ≡ ok seeded
seed_reference_data-idempotent_example =
    seed_reference_data-idempotent caseless ids caseless-IsCollated settings caseless-TellsApart
      demo meta seed_returns
