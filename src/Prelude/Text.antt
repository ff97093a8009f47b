-- ===== src/Prelude/Text.antt =====
-- Python's `str`: the methods that the source calls, at the characters of ASCII (case, digits) and
-- at all of Unicode's white space. Positions count characters, as Python's do.
pub mod Slice
pub mod Number
use Prim.Native.Nat.{ℕ, ◌-◌}
use Prim.Native.Char.{Char, code}
use Prim.Native.String
use Prim.Native.String.{String, [], ◌∷◌}
use mathlib.Core.Bool.{Bool, true, false, not, ◌&&◌, ◌||◌}
use mathlib.Core.List.{List}
use mathlib.Core.List
use text.Mathlib.Text.{◌==◌, starts_with}
use sql_gatekeeper.Prelude.Tests.{leb, eqb, if◌then◌else◌}

-- `str.isspace`, which is also `\s` of `re`.
unfoldable pub is_space : ℕ → Bool
is_space c =
    (leb 9 c && leb c 13)
    || (leb 28 c && leb c 32)
    || eqb c 0x85
    || eqb c 0xa0
    || eqb c 0x1680
    || (leb 0x2000 c && leb c 0x200a)
    || eqb c 0x2028
    || eqb c 0x2029
    || eqb c 0x202f
    || eqb c 0x205f
    || eqb c 0x3000

unfoldable pub is_digit : ℕ → Bool
is_digit c = leb b'0' c && leb c b'9'

unfoldable pub is_alpha : ℕ → Bool
is_alpha c = (leb b'a' c && leb c b'z') || (leb b'A' c && leb c b'Z')

-- `\w` of `re`.
unfoldable pub is_word : ℕ → Bool
unfolding is_alpha is_digit
is_word c = is_alpha c || is_digit c || eqb c b'_'

unfoldable pub is_quote : ℕ → Bool
is_quote c = eqb c 39 || eqb c 34

-- The character that stands in `targets` where `c` stands in `sources`, or `c`.
abbrev pub translate_char : String → String → Char → Char
translate_char [] targets c = c
translate_char (s ∷ sources) [] c = c
translate_char (s ∷ sources) (t ∷ targets) c =
    if eqb (code s) (code c) then t else translate_char sources targets c

translate : String → String → String → String
translate sources targets [] = []
translate sources targets (c ∷ s) = translate_char sources targets c ∷ translate sources targets s

abbrev pub upper_letters : String
upper_letters = "ABCDEFGHIJKLMNOPQRSTUVWXYZ"

abbrev pub lower_letters : String
lower_letters = "abcdefghijklmnopqrstuvwxyz"

unfoldable pub lower : String → String
unfolding translate
lower s = translate upper_letters lower_letters s

unfoldable pub upper : String → String
unfolding translate
upper s = translate lower_letters upper_letters s

abbrev pub is_empty : String → Bool
is_empty [] = true
is_empty (c ∷ s) = false

-- `lstrip` and `rstrip` of the characters that satisfy `p`.
unfoldable pub lstrip : (ℕ → Bool) → String → String
lstrip p [] = []
lstrip p (c ∷ s) = let rest = lstrip p s in if p (code c) then rest else c ∷ s

unfoldable pub rstrip : (ℕ → Bool) → String → String
rstrip p [] = []
rstrip p (c ∷ s) = let rest = rstrip p s in if is_empty rest && p (code c) then [] else c ∷ rest

unfoldable pub strip : String → String
unfolding lstrip rstrip is_space
strip s = rstrip is_space (lstrip is_space s)

-- `c in s` for one character.
unfoldable pub has_char : ℕ → String → Bool
has_char k [] = false
has_char k (c ∷ s) = eqb (code c) k || has_char k s

-- `t in s`.
unfoldable pub has_text : String → String → Bool
has_text t [] = is_empty t
has_text t (c ∷ s) = starts_with (c ∷ s) t || has_text t s

-- `s.endswith` of a character that satisfies `p`, and `s.startswith`.
unfoldable pub ends_in : (ℕ → Bool) → String → Bool
ends_in p [] = false
ends_in p (c ∷ s) = if is_empty s then p (code c) else ends_in p s

unfoldable pub starts_in : (ℕ → Bool) → String → Bool
starts_in p [] = false
starts_in p (c ∷ s) = p (code c)

-- The text before the first `k`: `s.split(k, 1)[0]`.
unfoldable pub before_char : ℕ → String → String
before_char k [] = []
before_char k (c ∷ s) = let rest = before_char k s in if eqb (code c) k then [] else c ∷ rest

-- The text after the first `k`: `s.split(k, 1)[1]`, where there is one.
unfoldable pub after_char : ℕ → String → String
after_char k [] = []
after_char k (c ∷ s) = let rest = after_char k s in if eqb (code c) k then s else rest

abbrev cons_head : Char → List String → List String
cons_head c List.[] = List.◌∷◌ (c ∷ []) List.[]
cons_head c (List.◌∷◌ t ts) = List.◌∷◌ (c ∷ t) ts

-- `s.split(k)`.
unfoldable pub split : ℕ → String → List String
split k [] = List.◌∷◌ [] List.[]
split k (c ∷ s) =
    let rest = split k s in if eqb (code c) k then List.◌∷◌ [] rest else cons_head c rest

-- `sep.join(parts)`.
unfoldable pub join : String → List String → String
join sep List.[] = []
join sep (List.◌∷◌ t List.[]) = t
join sep (List.◌∷◌ t (List.◌∷◌ u us)) = String.◌++◌ t (String.◌++◌ sep (join sep (List.◌∷◌ u us)))
