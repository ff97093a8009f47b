-- ===== src/Redis/Arguments/Ranges.antt =====
-- The ranges that `_validate_args` lets pass.
use sql_gatekeeper.Prelude.{
  ℕ, ◌+◌, ◌-◌, ◌≤◌, String, ◌≡◌, refl, inl, inr, Bool, true, not, ◌&&◌, Option, none, some, List,
  [], ◌∷◌, length, ltb, leb, eqb, leb→le, not-ltb→le, if-eq-cases, arith,
}
use sql_gatekeeper.Prelude.Text.Number.{ℤ, pos, negsuc, parse_int}
use sql_gatekeeper.Precheck.{one_of}
use sql_gatekeeper.Redis.Types.{Settings}
use sql_gatekeeper.Redis.Arguments.{
  one_key_commands, many_key_commands, range_commands, ordered, judge_range, validate_range,
  validate_args,
}

-- The arguments are a key and two numbers in order, with at most `max` numbers from one to the other.
pub record IsRange (max : ℕ) (args : List String) : Type 0 where
  pub key : String
  pub start : String
  pub stop : String
  pub given : args ≡ key ∷ start ∷ stop ∷ []
  pub first : ℕ
  pub last : ℕ
  pub start_parsed : parse_int start ≡ some (pos first)
  pub stop_parsed : parse_int stop ≡ some (pos last)
  pub in_order : first ≤ last
  pub bounded : last - first + 1 ≤ max

ordered-eq-some :
    (x y : Option ℤ) {i j : ℕ}
    → ordered x y ≡ some (i, j)
    → (x ≡ some (pos i)) × (y ≡ some (pos j)) × (i ≤ j)
ordered-eq-some none y e = cc
ordered-eq-some (some (negsuc n)) y e = cc
ordered-eq-some (some (pos n)) none e = cc
ordered-eq-some (some (pos n)) (some (negsuc m)) e = cc
ordered-eq-some (some (pos n)) (some (pos m)) e = elim (if-eq-cases (leb n m) _ _ e) [
  | inl (le, same) ↦ let h = leb→le n m le in ground arith
  | inr (_, same) ↦ cc
]

module _ (settings : Settings) (command : String) (args : List String) (code : String) where
  judge_range-none :
      (b : Bool) (o : Option (ℕ × ℕ))
      → judge_range settings command args code b o ≡ none
      → (i : ℕ) × (j : ℕ) × (o ≡ some (i, j)) × (j - i + 1 ≤ settings.redis_max_result_items)
  unfolding judge_range
  judge_range-none b none e = cc
  judge_range-none b (some (i, j)) e =
      elim (if-eq-cases (ltb settings.redis_max_result_items (j - i + 1)) _ _ e) [
        | inl (over, same) ↦ cc
        | inr (under, same) ↦
            (i, j, refl, not-ltb→le settings.redis_max_result_items (j - i + 1) under)
      ]

  validate_range-none :
      (xs : List String)
      → validate_range settings command args code xs ≡ none
      → IsRange settings.redis_max_result_items xs
  validate_range-none [] e = cc
  validate_range-none (a ∷ []) e = cc
  validate_range-none (a ∷ b ∷ []) e = cc
  validate_range-none (a ∷ b ∷ c ∷ d ∷ xs) e = cc
  validate_range-none (a ∷ b ∷ c ∷ []) e =
      let (i, j, same, le) = judge_range-none _ _ e in
      let (from, to, le') = ordered-eq-some (parse_int b) (parse_int c) same in
      record {
        key = a;
        start = b;
        stop = c;
        given = refl;
        first = i;
        last = j;
        start_parsed = from;
        stop_parsed = to;
        in_order = le';
        bounded = le;
      }

  -- The arguments that pass for LRANGE and ZRANGE are a key and an ordered pair of nonnegative
  -- numbers that spans at most `redis_max_result_items` elements.
  pub validate_args-IsRange :
      one_of range_commands command ≡ true
      → validate_args settings command args code ≡ none
      → IsRange settings.redis_max_result_items args
  unfolding validate_args
  validate_args-IsRange ranged e =
      let n = length args in
      elim (if-eq-cases (one_of one_key_commands command && not (eqb n 1)) _ _ e) [
        | inl (_, e1) ↦ cc
        | inr (_, e1) ↦ elim (if-eq-cases (one_of ("HGET" ∷ []) command && not (eqb n 2)) _ _ e1) [
          | inl (_, e2) ↦ cc
          | inr (_, e2) ↦
              elim (if-eq-cases
                (one_of many_key_commands command
                  && not (leb 1 n && leb n settings.redis_max_keys_per_request))
                _ _ e2) [
                  | inl (_, e3) ↦ cc
                  | inr (_, e3) ↦
                      elim (if-eq-cases (one_of ("HMGET" ∷ []) command && ltb n 2) _ _ e3) [
                        | inl (_, e4) ↦ cc
                        | inr (_, e4) ↦ elim (if-eq-cases (one_of range_commands command) _ _ e4) [
                          | inl (_, e5) ↦ validate_range-none args e5
                          | inr (off, e5) ↦ absurd (cc (off, ranged))
                        ]
                      ]
                ]
        ]
      ]
