-- ===== src/Redis/Refusals.antt =====
-- The validators answer nothing or a refusal.
use sql_gatekeeper.Prelude.{
  ℕ, String, ◌≡◌, ◌∙◌, inl, inr, Bool, false, Option, none, some, List, [], ◌∷◌, Option-cases,
  if-eq-cases, length, eqb, leb, ltb, not, ◌&&◌, arith,
}
use sql_gatekeeper.Meta.{DatasourceInstance}
use sql_gatekeeper.Precheck.{one_of}
use sql_gatekeeper.Redis.Types.{Settings, RedisDecision}
use sql_gatekeeper.Redis.Arguments.{
  one_key_commands, many_key_commands, range_commands, judge_range, validate_range, validate_args,
}
use sql_gatekeeper.Redis.Keys.{key_args, judge_key, judge_keys, validate_keys}

module _ (settings : Settings) (command : String) (args : List String) (code : String) where
  judge_range-refused :
      (b : Bool) (o : Option (ℕ × ℕ)) {d : RedisDecision}
      → judge_range settings command args code b o ≡ some d
      → d.allowed ≡ false
  unfolding judge_range
  judge_range-refused b none e = cc
  judge_range-refused b (some (i, j)) e = ground arith

  validate_range-refused :
      (xs : List String) {d : RedisDecision}
      → validate_range settings command args code xs ≡ some d
      → d.allowed ≡ false
  validate_range-refused [] e = cc
  validate_range-refused (a ∷ []) e = cc
  validate_range-refused (a ∷ b ∷ []) e = cc
  validate_range-refused (a ∷ b ∷ c ∷ []) e = judge_range-refused _ _ e
  validate_range-refused (a ∷ b ∷ c ∷ d ∷ xs) e = cc

  pub validate_args-refused :
      {d : RedisDecision} → validate_args settings command args code ≡ some d → d.allowed ≡ false
  unfolding validate_args
  validate_args-refused e =
      let n = length args in
      elim (if-eq-cases (one_of one_key_commands command && not (eqb n 1)) _ _ e) [
        | inl (_, e1) ↦ cc
        | inr (_, e1) ↦ elim (if-eq-cases (one_of ("HGET" ∷ []) command && not (eqb n 2)) _ _ e1) [
          | inl (_, e2) ↦ cc
          | inr (_, e2) ↦
              elim (if-eq-cases
                (one_of many_key_commands command
                  && not (leb 1 n && leb n settings.redis_max_keys_per_request))
                _ _ e2) [
                  | inl (_, e3) ↦ cc
                  | inr (_, e3) ↦
                      elim (if-eq-cases (one_of ("HMGET" ∷ []) command && ltb n 2) _ _ e3) [
                        | inl (_, e4) ↦ cc
                        | inr (_, e4) ↦ elim (if-eq-cases (one_of range_commands command) _ _ e4) [
                          | inl (_, e5) ↦ validate_range-refused args e5
                          | inr (_, e5) ↦ cc
                        ]
                      ]
                ]
        ]
      ]

module _ (settings : Settings) (command : String) (args : List String)
    (d : DatasourceInstance) where
  judge_key-refused :
      (key : String) {r : RedisDecision}
      → judge_key settings command args d key ≡ some r
      → r.allowed ≡ false
  unfolding judge_key
  judge_key-refused key e = ground arith

  judge_keys-refused :
      (keys : List String) {r : RedisDecision}
      → judge_keys settings command args d keys ≡ some r
      → r.allowed ≡ false
  unfolding judge_keys
  judge_keys-refused [] e = cc
  judge_keys-refused (key ∷ keys) e = elim (Option-cases (judge_key settings command args d key)) [
    | inl fine ↦ judge_keys-refused keys (rw (fine, judge_keys) at e)
    | inr (x, bad) ↦ judge_key-refused key (bad ∙ rw (bad, judge_keys) at e)
  ]

  pub validate_keys-refused :
      {r : RedisDecision} → validate_keys settings command args d ≡ some r → r.allowed ≡ false
  unfolding validate_keys
  validate_keys-refused e = judge_keys-refused (key_args command args) e
