-- ===== src/Redis/Check/Sound.antt =====
-- What an allowed Redis command has met.
use sql_gatekeeper.Prelude.{
  String, ◌≡◌, refl, sym, ap, inl, inr, true, false, Option, none, some, List, All, ◌==◌,
  Bool-cases, Option-cases, ok, ok-eq, >>=-eq-ok, if-eq-cases,
}
use sql_gatekeeper.Prelude.Text.{is_empty, lower, upper, strip}
use sql_gatekeeper.Prelude.Dict.{Dict, get}
use sql_gatekeeper.Meta.{Value, DatasourceInstance, MetaDb}
use sql_gatekeeper.Precheck.{one_of}
use sql_gatekeeper.Repositories.{Orm}
use sql_gatekeeper.Redis.Types.{
  readonly_commands, denied_commands, Settings, RedisDecision, RedisRouteResolution,
}
use sql_gatekeeper.Redis.Arguments.{validate_args}
use sql_gatekeeper.Redis.Keys.{key_args, validate_keys}
use sql_gatekeeper.Redis.Refusals.{validate_args-refused, validate_keys-refused}
use sql_gatekeeper.Redis.Routing.{text_or, resolve_datasource}
use sql_gatekeeper.Redis.Check.{check_routed, check_valid, check_normalized, check}
use sql_gatekeeper.Redis.Keys.Scope.{IsReadable, validate_keys-none_iff}

module _ (orm : Orm) (settings : Settings) (session : Option MetaDb) where
  module _ (command : String) (args : List String) (redis_context : Dict Value) where
    -- The command is a read-only one with valid arguments, and its keys are in the scope of the
    -- Redis datasource to which it is routed.
    pub record IsPermitted (r : RedisDecision) : Type 0 where
      pub same_command : r.command ≡ command
      pub same_args : r.args ≡ args
      pub listed : one_of readonly_commands command ≡ true
      pub not_denied : one_of denied_commands command ≡ false
      pub valid :
          validate_args settings command args (text_or (get "datasource_code" redis_context) "")
          ≡ none
      pub route : RedisRouteResolution
      pub resolved : resolve_datasource orm settings session command args redis_context ≡ ok route
      pub datasource : DatasourceInstance
      pub routed : route.datasource ≡ some datasource
      pub is_redis : (lower datasource.db_type == "redis") ≡ true
      pub readable : All (IsReadable settings datasource) (key_args command args)
      pub code :
          r.datasource_code
          ≡ text_or (get "datasource_code" redis_context) datasource.datasource_code

    check_valid-IsPermitted :
        (o : Option RedisDecision) {r : RedisDecision}
        → one_of readonly_commands command ≡ true
        → one_of denied_commands command ≡ false
        → validate_args settings command args (text_or (get "datasource_code" redis_context) "") ≡ o
        → check_valid orm settings session command args redis_context o ≡ ok r
        → r.allowed ≡ true
        → IsPermitted r
    unfolding check_valid check_routed
    check_valid-IsPermitted (some d) listed fine same e allowed =
        absurd (cc (ok-eq e, validate_args-refused settings command args _ same, allowed))
    check_valid-IsPermitted none {r} listed fine same e allowed =
        let (route, resolved, e1) =
          >>=-eq-ok (resolve_datasource orm settings session command args redis_context) _ e in
        let e2 : check_routed orm settings session command args redis_context route route.datasource
            ≡ r =
          ok-eq e1 in
        elim (Option-cases route.datasource) [
          | inl missing ↦ absurd (cc (rw missing at e2, allowed))
          | inr (d, found) ↦ elim (if-eq-cases (lower d.db_type == "redis") _ _ (rw found at e2)) [
            | inr (other, same') ↦ absurd (cc (same', allowed))
            | inl (redis, same') ↦ elim (Option-cases (validate_keys settings command args d)) [
              | inr (x, bad) ↦
                  let off = validate_keys-refused settings command args d bad in
                  absurd (cc (same', bad, off, allowed))
              | inl fine_keys ↦
                  let same'' = rw fine_keys at same' in
                  record {
                    same_command = ap (λ (y : RedisDecision). y.command) (sym same'');
                    same_args = ap (λ (y : RedisDecision). y.args) (sym same'');
                    listed = listed;
                    not_denied = fine;
                    valid = same;
                    route = route;
                    resolved = resolved;
                    datasource = d;
                    routed = found;
                    is_redis = redis;
                    readable = (validate_keys-none_iff settings command args d).0 fine_keys;
                    code = ap (λ (y : RedisDecision). y.datasource_code) (sym same'');
                  }
            ]
          ]
        ]

    check_normalized-IsPermitted :
        {r : RedisDecision}
        → check_normalized orm settings session command args redis_context ≡ ok r
        → r.allowed ≡ true
        → IsPermitted r
    unfolding check_normalized
    check_normalized-IsPermitted e allowed = elim (if-eq-cases (is_empty command) _ _ e) [
      | inl (empty, same) ↦ absurd (cc (ok-eq same, allowed))
      | inr (given, e1) ↦ elim (if-eq-cases (one_of denied_commands command) _ _ e1) [
        | inl (denied, same) ↦ absurd (cc (ok-eq same, allowed))
        | inr (fine, e2) ↦ elim (Bool-cases (one_of readonly_commands command)) [
          | inr unlisted ↦ absurd (cc (unlisted, e2, allowed))
          | inl listed ↦
              check_valid-IsPermitted
                (validate_args settings command args
                  (text_or (get "datasource_code" redis_context) ""))
                listed fine refl (rw listed at e2) allowed
        ]
      ]
    ]

  -- An allowed command is, upper-cased and stripped, one of the read-only commands with valid
  -- arguments, and its keys are in the scope of the Redis datasource to which it is routed.
  pub check-IsPermitted :
      (command : String) (args : List String) (redis_context : Dict Value) {r : RedisDecision}
      → check orm settings session command args redis_context ≡ ok r
      → r.allowed ≡ true
      → IsPermitted (upper (strip command)) args redis_context r
  unfolding check
  check-IsPermitted command args redis_context e allowed =
      check_normalized-IsPermitted (upper (strip command)) args redis_context e allowed
