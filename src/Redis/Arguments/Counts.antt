-- ===== src/Redis/Arguments/Counts.antt =====
-- How many arguments `_validate_args` lets pass.
use sql_gatekeeper.Prelude.{
  ℕ, String, ◌≡◌, ◌&&◌, leb, refl, inl, inr, true, false, none, List, [], ◌∷◌, length, ltb, eqb,
  Bool-cases, arith,
}
use sql_gatekeeper.Precheck.{one_of}
use sql_gatekeeper.Redis.Types.{Settings}
use sql_gatekeeper.Redis.Arguments.{one_key_commands, many_key_commands, validate_args}

single_arg : (args : List String) → eqb (length args) 1 ≡ true → (key : String) × (args ≡ key ∷ [])
single_arg [] e = absurd (ground arith)
single_arg (key ∷ []) e = (key, refl)
single_arg (key ∷ b ∷ args) e = absurd (ground arith)

pair_args :
    (args : List String)
    → eqb (length args) 2 ≡ true
    → (key : String) × (field : String) × (args ≡ key ∷ field ∷ [])
pair_args [] e = absurd (ground arith)
pair_args (key ∷ []) e = absurd (ground arith)
pair_args (key ∷ field ∷ []) e = (key, field, refl)
pair_args (key ∷ field ∷ c ∷ args) e = absurd (ground arith)

several_args :
    (args : List String)
    → ltb (length args) 2 ≡ false
    → (key : String) × (field : String) × (names : List String) × (args ≡ key ∷ field ∷ names)
several_args [] e = absurd (ground arith)
several_args (key ∷ []) e = absurd (ground arith)
several_args (key ∷ field ∷ names) e = (key, field, names, refl)

nonempty_args :
    (args : List String) (most : ℕ)
    → (leb 1 (length args) && leb (length args) most) ≡ true
    → (key : String) × (keys : List String) × (args ≡ key ∷ keys)
nonempty_args [] most e = absurd (ground arith)
nonempty_args (key ∷ keys) most e = (key, keys, refl)

module _ (settings : Settings) (code : String) where
  pub one_key_args :
      (command : String) (args : List String)
      → one_of one_key_commands command ≡ true
      → validate_args settings command args code ≡ none
      → (key : String) × (args ≡ key ∷ [])
  unfolding validate_args
  one_key_args command args listed e = elim (Bool-cases (eqb (length args) 1)) [
    | inl one ↦ single_arg args one
    | inr other ↦ absurd (cc (rw (listed, other) at e))
  ]

  pub two_args :
      (args : List String)
      → validate_args settings "HGET" args code ≡ none
      → (key : String) × (field : String) × (args ≡ key ∷ field ∷ [])
  unfolding validate_args
  two_args args e = elim (Bool-cases (eqb (length args) 2)) [
    | inl two ↦ pair_args args two
    | inr other ↦ absurd (cc (rw other at e))
  ]

  pub some_args :
      (args : List String)
      → validate_args settings "HMGET" args code ≡ none
      → (key : String) × (field : String) × (names : List String) × (args ≡ key ∷ field ∷ names)
  unfolding validate_args
  some_args args e = elim (Bool-cases (ltb (length args) 2)) [
    | inl few ↦ absurd (cc (rw few at e))
    | inr enough ↦ several_args args enough
  ]

  pub many_args :
      (command : String) (args : List String)
      → one_of one_key_commands command ≡ false
      → one_of ("HGET" ∷ []) command ≡ false
      → one_of many_key_commands command ≡ true
      → validate_args settings command args code ≡ none
      → (key : String) × (keys : List String) × (args ≡ key ∷ keys)
  unfolding validate_args
  many_args command args several other listed e =
      let fits = leb 1 (length args) && leb (length args) settings.redis_max_keys_per_request in
      elim (Bool-cases fits) [
        | inl enough ↦ nonempty_args args settings.redis_max_keys_per_request enough
        | inr few ↦ absurd (cc (rw (several, other, listed, few) at e))
      ]
