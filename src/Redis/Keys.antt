-- ===== src/Redis/Keys.antt =====
-- The keys of a command, and the prefixes within which a datasource lets them be read.
pub mod Scope
use Prim.Native.String.{count}
use sql_gatekeeper.Prelude.{
  ℕ, String, ◌<>◌, Bool, true, false, not, ◌&&◌, ◌||◌, Option, none, some, List, [], ◌∷◌, map, any,
  keep, take, is_nil, ltb, starts_with, if◌then◌else◌,
}
use sql_gatekeeper.Prelude.Text.{is_empty, strip, split, has_text}
use sql_gatekeeper.Prelude.Text.Number.{show}
use sql_gatekeeper.Prelude.Dict.{Dict, get}
use sql_gatekeeper.Meta.{Value, Extra, DatasourceInstance}
use sql_gatekeeper.Precheck.{one_of}
use sql_gatekeeper.Redis.Types.{Settings, RedisDecision, reject}
use sql_gatekeeper.Redis.Arguments.{many_key_commands}

-- `_key_args`
unfoldable pub key_args : String → List String → List String
key_args command args = if one_of many_key_commands command then args else take 1 args

-- `[item.strip() for item in items if item.strip()]`
abbrev clean : List String → List String
clean items = keep (λ s. not (is_empty s)) (map strip items)

abbrev listed_prefixes : Option Value → Option (List String)
listed_prefixes (some (Value.list items shown)) = some (clean items)
listed_prefixes (some (Value.text s)) = some (clean (split b',' s))
listed_prefixes _ = none

abbrev extra_get : String → Extra → Option Value
extra_get key none = none
extra_get key (some extra) = get key extra

-- `_allowed_prefixes`
unfoldable pub allowed_prefixes : Settings → DatasourceInstance → List String
allowed_prefixes settings d = elim (listed_prefixes (extra_get "allowed_key_prefixes" d.extra)) [
  | some prefixes ↦ prefixes
  | none ↦ clean (split b',' settings.redis_allowed_key_prefixes)
]

abbrev pub in_scope : List String → String → Bool
in_scope prefixes key =
    is_nil prefixes || one_of prefixes "*" || any (λ prefix. starts_with key prefix) prefixes

-- `_key_allowed_by_datasource`
unfoldable pub key_allowed_by_datasource : Settings → String → DatasourceInstance → Bool
key_allowed_by_datasource settings key d = in_scope (allowed_prefixes settings d) key

abbrev pub has_wildcard : String → Bool
has_wildcard key = any (λ token. has_text token key) ("*" ∷ "?" ∷ "[" ∷ [])

module _ (settings : Settings) (command : String) (args : List String)
    (d : DatasourceInstance) where
  unfoldable pub judge_key : String → Option RedisDecision
  judge_key key =
      if is_empty key
      then some
          (reject "REDIS_KEY_EMPTY" "Redis key must not be empty" command args d.datasource_code)
      else if ltb settings.redis_max_key_length (count key)
      then some (
          reject "REDIS_KEY_TOO_LONG"
            ("Redis key length exceeded max " <> show settings.redis_max_key_length) command args
            d.datasource_code)
      else if has_wildcard key
      then some (
          reject "REDIS_KEY_PATTERN_DENIED" "Redis wildcard key patterns are not allowed" command
            args d.datasource_code)
      else if in_scope (allowed_prefixes settings d) key
      then none
      else some (
          reject "REDIS_KEY_SCOPE_DENIED" ("Redis key '" <> key <> "' is outside allowed prefixes")
            command args d.datasource_code)

  unfoldable pub judge_keys : List String → Option RedisDecision
  judge_keys [] = none
  judge_keys (key ∷ keys) = elim (judge_key key) [ some d ↦ some d | none ↦ judge_keys keys ]

  -- `_validate_keys`
  unfoldable pub validate_keys : Option RedisDecision
  validate_keys = judge_keys (key_args command args)
