-- ===== src/Prelude/Int.antt =====
-- Python's `int` beyond its parsing: comparison, printing and `range`.
use sql_gatekeeper.Prelude.{
  ℕ, zero, suc, ◌+◌, ◌-◌, String, ◌<>◌, Bool, true, false, List, [], ◌∷◌, ltb, leb, eqb,
  if◌then◌else◌,
}
use sql_gatekeeper.Prelude.Text.Number.{ℤ, pos, negsuc, show}

abbrev pub eqb_ℤ : ℤ → ℤ → Bool
eqb_ℤ (pos a) (pos b) = eqb a b
eqb_ℤ (negsuc a) (negsuc b) = eqb a b
eqb_ℤ _ _ = false

abbrev pub leb_ℤ : ℤ → ℤ → Bool
leb_ℤ (pos a) (pos b) = leb a b
leb_ℤ (pos a) (negsuc b) = false
leb_ℤ (negsuc a) (pos b) = true
leb_ℤ (negsuc a) (negsuc b) = leb b a

abbrev pub is_positive : ℤ → Bool
is_positive (pos n) = ltb 0 n
is_positive (negsuc n) = false

abbrev pub suc_ℤ : ℤ → ℤ
suc_ℤ (pos n) = pos (n + 1)
suc_ℤ (negsuc zero) = pos 0
suc_ℤ (negsuc (suc n)) = negsuc n

-- `str(i)`
abbrev pub show_ℤ : ℤ → String
show_ℤ (pos n) = show n
show_ℤ (negsuc n) = "-" <> show (n + 1)

-- The `n` numbers from `i` on.
unfoldable pub count_from : ℕ → ℤ → List ℤ
count_from zero i = []
count_from (suc n) i = i ∷ count_from n (suc_ℤ i)

-- How many numbers `range(i, j + 1)` has.
abbrev pub span : ℤ → ℤ → ℕ
span (pos a) (pos b) = b + 1 - a
span (pos a) (negsuc b) = 0
span (negsuc a) (pos b) = a + 1 + (b + 1)
span (negsuc a) (negsuc b) = a + 1 - b

-- `range(i, j + 1)`
abbrev pub range_to : ℤ → ℤ → List ℤ
range_to i j = count_from (span i j) i

-- `range(n)`
abbrev pub range_below : ℤ → List ℤ
range_below (pos n) = count_from n (pos 0)
range_below (negsuc n) = []

abbrev pub max_ℤ : ℤ → ℤ → ℤ
max_ℤ i j = if leb_ℤ i j then j else i
