-- ===== src/Sync/Identifiers/Bounds.antt =====
-- How long the made names are.
use Prim.Native.Char.{code}
use Prim.Native.String.{count, [], ◌∷◌}
use text.Mathlib.TextLemmas.{length-nil, length-cons, length-append}
use sql_gatekeeper.Prelude.{
  ℕ, zero, suc, refl, ap, ◌+◌, ◌-◌, ◌≤◌, ◌≡◌, String, ◌<>◌, Bool, ◌&&◌, inl, inr, leb, leb→le,
  if-eq-cases, arith,
}
use sql_gatekeeper.Prelude.Text.{is_empty, rstrip}
use sql_gatekeeper.Prelude.Text.Slice.{take, count-take}
use sql_gatekeeper.Sync.Library.{Library}
use sql_gatekeeper.Sync.Identifiers.{
  is_underscore, base_name, at_least_one, make_stable_identifier, make_datasource_code,
  make_logical_table_name,
}

count-rstrip : (p : ℕ → Bool) (s : String) → count (rstrip p s) ≤ count s
unfolding rstrip
count-rstrip p [] = omega arith
count-rstrip p (c ∷ s) =
    elim (if-eq-cases (is_empty (rstrip p s) && p (code c)) [] (c ∷ rstrip p s) refl) [
      | inl (_, e) ↦ omega (arith, ap count e, length-nil)
      | inr (_, e) ↦
          omega (arith, ap count e, length-cons c (rstrip p s), length-cons c s, count-rstrip p s)
    ]

count-take-le : (n : ℕ) (s : String) → count (take n s) ≤ n
unfolding take
count-take-le zero s = omega (arith, length-nil)
count-take-le (suc n) [] = omega (arith, length-nil)
count-take-le (suc n) (c ∷ s) = omega (arith, count-take-le n s, length-cons c (take n s))

module _ (lib : Library) where
  -- A made name is as long as its column allows, where the column has room for the prefix, one
  -- character, an underscore and the eight characters of the digest.
  pub count-make_stable_identifier-le :
      (raw prefix : String) (max_length : ℕ)
      → count prefix + 10 ≤ max_length
      → count (make_stable_identifier lib raw prefix max_length) ≤ max_length
  unfolding make_stable_identifier
  count-make_stable_identifier-le raw prefix max_length room =
      let base = base_name raw in
      let digest = take 8 (lib.sha1_hex raw) in
      let size : count digest ≡ 8 =
        count-take 8 (lib.sha1_hex raw) (omega (arith, lib.count-sha1_hex raw)) in
      let kept = at_least_one (max_length - count prefix - count digest - 1) in
      let cut = rstrip is_underscore (take kept base) in
      elim (if-eq-cases (leb (count (prefix <> base)) max_length) (prefix <> base)
        (prefix <> (cut <> ("_" <> digest))) refl) [
          | inl (fits, e) ↦ rw (← e) (leb→le (count (prefix <> base)) max_length fits)
          | inr (_, e) ↦
              let one : count cut ≤ kept =
                omega
                  (arith, count-rstrip is_underscore (take kept base), count-take-le kept base) in
              let few : kept + count prefix + 9 ≤ max_length = ground arith in
              rw (← e) (
                omega (
                  arith,
                  length-append prefix (cut <> ("_" <> digest)),
                  length-append cut ("_" <> digest),
                  length-append "_" digest,
                ))
        ]

  -- The made codes of datasources have at most 64 characters and the made names of tables at most 128, as
  -- their columns allow.
  pub made_names-le :
      (source_name catlog_name table_name : String)
      → (count (make_datasource_code lib source_name) ≤ 64)
        × (count (make_logical_table_name lib catlog_name table_name) ≤ 128)
  unfolding make_datasource_code make_logical_table_name
  made_names-le source_name catlog_name table_name = (
    count-make_stable_identifier-le _ "spy_src_" 64 (omega arith),
    count-make_stable_identifier-le _ "" 128 (omega arith),
  )
