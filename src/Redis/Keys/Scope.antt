-- ===== src/Redis/Keys/Scope.antt =====
-- When the keys of a command pass.
use Prim.Native.String.{count}
use sql_gatekeeper.Prelude.{
  ◌≤◌, String, ◌≡◌, refl, ◌↔◌, inl, inr, true, false, none, List, [], ◌∷◌, All, Option-cases, arith,
}
use sql_gatekeeper.Prelude.Text.{is_empty}
use sql_gatekeeper.Meta.{DatasourceInstance}
use sql_gatekeeper.Redis.Types.{Settings}
use sql_gatekeeper.Redis.Keys.{
  key_args, allowed_prefixes, in_scope, has_wildcard, judge_key, judge_keys, validate_keys,
}

-- The datasource lets the key be read.
pub record IsReadable (settings : Settings) (d : DatasourceInstance) (key : String) : Type 0 where
  pub given : is_empty key ≡ false
  pub short : count key ≤ settings.redis_max_key_length
  pub plain : has_wildcard key ≡ false
  pub scoped : in_scope (allowed_prefixes settings d) key ≡ true

module _ (settings : Settings) (command : String) (args : List String)
    (d : DatasourceInstance) where
  judge_key-none→IsReadable :
      (key : String) → judge_key settings command args d key ≡ none → IsReadable settings d key
  unfolding judge_key
  judge_key-none→IsReadable key e = record {
    given = ground arith;
    short = ground arith;
    plain = ground arith;
    scoped = ground arith;
  }

  IsReadable→judge_key-none :
      (key : String) → IsReadable settings d key → judge_key settings command args d key ≡ none
  unfolding judge_key
  IsReadable→judge_key-none key r = ground (arith, r.given, r.short, r.plain, r.scoped)

  judge_keys-none :
      (keys : List String)
      → (judge_keys settings command args d keys ≡ none) ↔ All (IsReadable settings d) keys
  unfolding judge_keys
  judge_keys-none [] = (λ _. tt, λ _. refl)
  judge_keys-none (key ∷ keys) = elim (Option-cases (judge_key settings command args d key)) [
    | inl fine ↦ (
      λ e. (
        judge_key-none→IsReadable key fine,
        (judge_keys-none keys).0 (rw (fine, judge_keys) at e),
      ),
      λ h. rw (fine, judge_keys) ((judge_keys-none keys).1 h.1),
    )
    | inr (x, refused) ↦ (
      λ e. absurd (cc (rw (refused, judge_keys) at e)),
      λ h. absurd (cc (refused, IsReadable→judge_key-none key h.0)),
    )
  ]

  -- `_validate_keys` passes the keys of a command exactly if each is nonempty, short enough, free of
  -- wildcards and within the datasource's prefixes.
  pub validate_keys-none_iff :
      (validate_keys settings command args d ≡ none)
      ↔ All (IsReadable settings d) (key_args command args)
  unfolding validate_keys
  validate_keys-none_iff = judge_keys-none (key_args command args)
