-- ===== src/Sync/Identifiers.antt =====
-- `make_stable_identifier` and the names that it makes.
pub mod Bounds
use Prim.Native.Char.{Char, code}
use Prim.Native.String.{count, [], ◌∷◌}
use sql_gatekeeper.Prelude.{ℕ, ◌+◌, ◌-◌, String, ◌<>◌, Bool, ◌||◌, leb, eqb, if◌then◌else◌}
use sql_gatekeeper.Prelude.Text.{
  is_alpha, is_digit, translate_char, upper_letters, lower_letters, is_empty, lstrip, rstrip,
}
use sql_gatekeeper.Prelude.Text.Slice.{take}
use sql_gatekeeper.Sync.Library.{Library}

abbrev pub is_underscore : ℕ → Bool
is_underscore c = eqb c b'_'

-- `ch.lower() if ch.isalnum() else "_"`
abbrev pub clean_char : Char → Char
clean_char c =
    if is_alpha (code c) || is_digit (code c)
    then translate_char upper_letters lower_letters c
    else "_"

unfoldable pub clean : String → String
clean [] = []
clean (c ∷ s) = clean_char c ∷ clean s

-- `x or y` on texts.
abbrev pub or_else : String → String → String
or_else s d = if is_empty s then d else s

-- `.strip("_")`, and the name for nothing.
unfoldable pub base_name : String → String
unfolding clean lstrip rstrip is_alpha is_digit
base_name raw = or_else (rstrip is_underscore (lstrip is_underscore (clean raw))) "unknown"

abbrev pub at_least_one : ℕ → ℕ
at_least_one n = if leb n 1 then 1 else n

module _ (lib : Library) where
  -- `available`, which may be negative in the source, is only used in `max(1, available)`.
  unfoldable pub make_stable_identifier : String → String → ℕ → String
  make_stable_identifier raw prefix max_length =
      let base = base_name raw in
      let digest = take 8 (lib.sha1_hex raw) in
      let available = max_length - count prefix - count digest - 1 in
      if leb (count (prefix <> base)) max_length
      then prefix <> base
      else prefix <> (rstrip is_underscore (take (at_least_one available) base) <> ("_" <> digest))

  unfoldable pub make_datasource_code : String → String
  make_datasource_code source_name =
      make_stable_identifier (or_else source_name "unknown_source") "spy_src_" 64

  unfoldable pub make_logical_table_name : String → String → String
  make_logical_table_name catlog_name table_name =
      make_stable_identifier (or_else catlog_name "unknown_catalog" <> ("__" <> table_name)) "" 128
