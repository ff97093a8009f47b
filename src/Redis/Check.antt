-- ===== src/Redis/Check.antt =====
-- `RedisGatekeeperService.check`.
pub mod Sound
use sql_gatekeeper.Prelude.{
  String, ◌<>◌, Bool, true, false, not, Option, none, some, List, [], ◌∷◌, ◌==◌, Result, ok, ◌>>=◌,
  if◌then◌else◌,
}
use sql_gatekeeper.Prelude.Text.{is_empty, lower, upper, strip}
use sql_gatekeeper.Prelude.Dict.{Dict, get}
use sql_gatekeeper.Meta.{Value, DatasourceInstance, MetaDb}
use sql_gatekeeper.Precheck.{one_of}
use sql_gatekeeper.Repositories.{Orm}
use sql_gatekeeper.Redis.Types.{
  readonly_commands, denied_commands, sorted_commands, Settings, RedisDiagnostic, RedisDecision,
  RedisRouteResolution, reject,
}
use sql_gatekeeper.Redis.Arguments.{validate_args}
use sql_gatekeeper.Redis.Keys.{allowed_prefixes, validate_keys}
use sql_gatekeeper.Redis.Routing.{text_or, catalog_name, resolve_datasource}

module _ (orm : Orm) (settings : Settings) (session : Option MetaDb) where
  abbrev diagnostic : DatasourceInstance → Dict Value → RedisDiagnostic
  diagnostic d redis_context = record {
    code = d.datasource_code;
    host = d.host;
    port = d.port;
    database = d.database_name;
    allowed_commands = sorted_commands;
    max_keys_per_request = settings.redis_max_keys_per_request;
    max_result_items = settings.redis_max_result_items;
    allowed_key_prefixes = allowed_prefixes settings d;
    catlog_name = catalog_name redis_context;
  }

  module _ (command : String) (args : List String) (redis_context : Dict Value) where
    abbrev given_code : String → String
    given_code d = text_or (get "datasource_code" redis_context) d

    abbrev pub or_allow : DatasourceInstance → Option RedisDecision → RedisDecision
    or_allow d (some refused) = refused
    or_allow d none = record {
      allowed = true;
      reason_code = "ALLOW";
      message = "Redis command passed readonly command, key scope, and result limit checks";
      command = command;
      args = args;
      datasource_code = given_code d.datasource_code;
      diagnostics = diagnostic d redis_context ∷ [];
    }

    -- The rest of `check` on the resolved datasource.
    unfoldable pub check_routed : RedisRouteResolution → Option DatasourceInstance → RedisDecision
    check_routed route none = reject route.reason_code route.message command args (given_code "")
    check_routed route (some d) =
        if lower d.db_type == "redis"
        then or_allow d (validate_keys settings command args d)
        else reject "REDIS_DATASOURCE_TYPE_INVALID"
            ("Datasource '" <> given_code d.datasource_code <> "' is not a Redis datasource")
            command args (given_code d.datasource_code)

    unfoldable pub check_valid : Option RedisDecision → Result RedisDecision
    check_valid (some refused) = ok refused
    check_valid none =
        resolve_datasource orm settings session command args redis_context >>= λ route.
        ok (check_routed route route.datasource)

    -- `check`, on the stripped upper-case command.
    unfoldable pub check_normalized : Result RedisDecision
    check_normalized =
        let code = given_code "" in
        if is_empty command
        then ok (reject "EMPTY_REDIS_COMMAND" "Redis command must not be empty" command args "")
        else if one_of denied_commands command
        then ok (
            reject "REDIS_COMMAND_DENIED" ("Redis command '" <> command <> "' is not allowed")
              command args code)
        else if not (one_of readonly_commands command)
        then ok (
            reject "REDIS_COMMAND_UNSUPPORTED"
              ("Redis command '" <> command <> "' is not supported by the safe Redis gatekeeper")
              command args code)
        else check_valid (validate_args settings command args code)

  unfoldable pub check : String → List String → Dict Value → Result RedisDecision
  check command args redis_context = check_normalized (upper (strip command)) args redis_context
