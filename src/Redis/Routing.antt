-- ===== src/Redis/Routing.antt =====
-- `_datasource` and `_resolve_datasource`: by code, by the settings, or by catalog and key.
pub mod Unique
use sql_gatekeeper.Prelude.{
  ℕ, String, ◌<>◌, Bool, true, false, not, ◌&&◌, ◌||◌, Option, none, some, List, [], ◌∷◌, keep,
  take, ◌==◌, Result, ok, ◌>>=◌, if◌then◌else◌,
}
use sql_gatekeeper.Prelude.Text.{is_empty, lower}
use sql_gatekeeper.Prelude.Text.Number.{show}
use sql_gatekeeper.Prelude.Dict.{Dict, get}
use sql_gatekeeper.Meta.{Value, Extra, str, truthy, DatasourceInstance, MetaDb}
use sql_gatekeeper.Repositories.{Orm, get_enabled_datasource}
use sql_gatekeeper.Redis.Types.{Settings, RedisRouteResolution}
use sql_gatekeeper.Redis.Keys.{key_args, key_allowed_by_datasource}

-- `str(v or d)`
abbrev pub text_or : Option Value → String → String
text_or none d = d
text_or (some v) d = if truthy v then str v else d

-- `str(get(a) or get(b) or get(c) or "")`
abbrev pub first_text : Dict Value → String → String → String → String
first_text d a b c = text_or (get a d) (text_or (get b d) (text_or (get c d) ""))

-- `_catalog_name`
unfoldable pub catalog_name : Dict Value → String
catalog_name redis_context = first_text redis_context "catlog_name" "catalog_name" "catalog"

-- `_datasource_catalog`
unfoldable pub datasource_catalog : Extra → String
datasource_catalog none = ""
datasource_catalog (some extra) = first_text extra "catlog_name" "catalog_name" "redis_catalog"

-- The datasource that `_datasource` makes of the settings where there is no session; it is not a
-- row, and its id is not set.
abbrev pub configured : Settings → DatasourceInstance
configured settings = record {
  id = 0;
  datasource_code = settings.redis_datasource_code;
  display_name = "Configured Redis";
  db_type = "redis";
  host = settings.redis_host;
  port = settings.redis_port;
  database_name = show settings.redis_db;
  username = "";
  password_secret_ref =
      if is_empty settings.redis_password then "" else "local:" <> settings.redis_password;
  read_only = true;
  enabled = true;
  extra = some [];
}

abbrev pub route_to : DatasourceInstance → RedisRouteResolution
route_to d = record { datasource = some d; reason_code = ""; message = "" }

abbrev pub no_route : String → String → RedisRouteResolution
no_route code message = record { datasource = none; reason_code = code; message = message }

abbrev pub found_or_missing : String → Option DatasourceInstance → RedisRouteResolution
found_or_missing code none =
    no_route "REDIS_DATASOURCE_NOT_FOUND" ("Redis datasource '" <> code <> "' was not found")
found_or_missing code (some d) = route_to d

abbrev pub is_enabled_redis : (String → String → Bool) → DatasourceInstance → Bool
is_enabled_redis same d = same d.db_type "redis" && d.enabled

abbrev route_key : List String → String
route_key [] = ""
route_key (key ∷ keys) = key

-- The choice among the datasources of the catalog that take the key.
abbrev pub choose_one : String → String → List DatasourceInstance → RedisRouteResolution
choose_one catalog key [] =
    no_route "REDIS_ROUTE_NOT_FOUND"
      ("No Redis datasource matched catalog '" <> catalog <> "' and key '" <> key <> "'")
choose_one catalog key (d ∷ []) = route_to d
choose_one catalog key (d ∷ e ∷ ds) =
    no_route "REDIS_ROUTE_AMBIGUOUS"
      ("Multiple Redis datasources matched catalog '" <> catalog <> "' and key '" <> key <> "'")

abbrev pub in_catalog : String → DatasourceInstance → Bool
in_catalog catalog d = lower (datasource_catalog d.extra) == lower catalog

abbrev pub takes_key : Settings → String → DatasourceInstance → Bool
takes_key settings key d = is_empty key || key_allowed_by_datasource settings key d

abbrev pub match_catalog :
    Settings → String → String → List DatasourceInstance → RedisRouteResolution
match_catalog settings catalog key [] =
    no_route "REDIS_ROUTE_NOT_FOUND" ("No Redis datasource matched catalog '" <> catalog <> "'")
match_catalog settings catalog key (d ∷ ds) =
    choose_one catalog key (keep (takes_key settings key) (d ∷ ds))

module _ (orm : Orm) (settings : Settings) where
  -- `_datasource`; `none` is a service without a session.
  unfoldable pub datasource : Option MetaDb → String → Result (Option DatasourceInstance)
  datasource (some db) code = get_enabled_datasource orm db code
  datasource none code =
      if code == settings.redis_datasource_code then ok (some (configured settings)) else ok none

  unfoldable pub route_by_catalog : MetaDb → String → String → RedisRouteResolution
  route_by_catalog db catalog key =
      if is_empty catalog
      then no_route "REDIS_ROUTE_CONTEXT_REQUIRED"
          "Redis routing requires redis_context.catlog_name/catalog_name or redis_context.datasource_code"
      else match_catalog settings catalog key
          (keep (in_catalog catalog) (keep (is_enabled_redis orm.same) db.datasources))

  abbrev by_code : Option MetaDb → String → Result RedisRouteResolution
  by_code session code = datasource session code >>= λ found. ok (found_or_missing code found)

  -- Without a code: the configured datasource, or the catalog's.
  unfoldable pub route_without_code :
      Option MetaDb → String → List String → Dict Value → Result RedisRouteResolution
  route_without_code none command args redis_context = by_code none settings.redis_datasource_code
  route_without_code (some db) command args redis_context = ok (
      route_by_catalog db (catalog_name redis_context) (route_key (take 1 (key_args command args))))

  unfoldable pub resolve_datasource :
      Option MetaDb → String → List String → Dict Value → Result RedisRouteResolution
  resolve_datasource session command args redis_context =
      let code = text_or (get "datasource_code" redis_context) "" in
      if is_empty code
      then route_without_code session command args redis_context
      else by_code session code
