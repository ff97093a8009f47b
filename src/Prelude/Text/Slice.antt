-- ===== src/Prelude/Text/Slice.antt =====
-- `s[:n]` and `s[n:]`, and how they meet `+`.
use Prim.Native.Nat.{ℕ, zero, suc, ◌+◌, ◌-◌, ◌≤◌}
use Prim.Native.Nat.add
use Prim.Native.String
use Prim.Native.String.{String, [], ◌∷◌, count}
use mathlib.Core.Path.{◌≡◌, refl, ap, ◌∙◌}
use native.Mathlib.Omega.{arith}
use text.Mathlib.TextLemmas.{nil-append, cons-append, length-nil, length-cons}

infixl 65 ◌<>◌
abbrev ◌<>◌ : String → String → String
s <> t = String.◌++◌ s t

unfoldable pub take : ℕ → String → String
take zero s = []
take (suc n) [] = []
take (suc n) (c ∷ s) = c ∷ take n s

unfoldable pub drop : ℕ → String → String
drop zero s = s
drop (suc n) [] = []
drop (suc n) (c ∷ s) = drop n s

-- `s[i:j]` for i ≤ j.
abbrev pub slice : String → ℕ → ℕ → String
slice s i j = take (j - i) (drop i s)

pub take-append-drop : (n : ℕ) (s : String) → take n s <> drop n s ≡ s
unfolding take drop
take-append-drop zero s = nil-append s
take-append-drop (suc n) [] = nil-append []
take-append-drop (suc n) (c ∷ s) = cons-append c _ _ ∙ ap (λ t. c ∷ t) (take-append-drop n s)

pub take-count-append : (s t : String) → take (count s) (s <> t) ≡ s
unfolding take
take-count-append [] t = refl
take-count-append (c ∷ s) t =
    rw (length-cons, cons-append) (ap (λ u. c ∷ u) (take-count-append s t))

pub drop-count-append : (s t : String) → drop (count s) (s <> t) ≡ t
unfolding drop
drop-count-append [] t = nil-append t
drop-count-append (c ∷ s) t = rw (length-cons, cons-append) (drop-count-append s t)

-- A slice of a longer text that ends inside its first part.
pub take-append : (n : ℕ) (s t : String) → n ≤ count s → take n (s <> t) ≡ take n s
unfolding take
take-append zero s t h = refl
take-append (suc n) [] t h = absurd (omega (arith, length-nil))
take-append (suc n) (c ∷ s) t h =
    rw cons-append (ap (λ u. c ∷ u) (take-append n s t (omega (arith, length-cons c s))))

pub drop-append : (n : ℕ) (s t : String) → n ≤ count s → drop n (s <> t) ≡ drop n s <> t
unfolding drop
drop-append zero s t h = refl
drop-append (suc n) [] t h = absurd (omega (arith, length-nil))
drop-append (suc n) (c ∷ s) t h =
    rw cons-append (drop-append n s t (omega (arith, length-cons c s)))

pub count-drop : (n : ℕ) (s : String) → count (drop n s) ≡ count s - n
unfolding drop
count-drop zero s = omega arith
count-drop (suc n) [] = omega (arith, length-nil)
count-drop (suc n) (c ∷ s) = omega (arith, count-drop n s, length-cons c s)

pub count-take : (n : ℕ) (s : String) → n ≤ count s → count (take n s) ≡ n
unfolding take
count-take zero s h = length-nil
count-take (suc n) [] h = absurd (omega (arith, length-nil))
count-take (suc n) (c ∷ s) h =
    let fits : n ≤ count s = omega (arith, length-cons c s) in
    omega (arith, length-cons c (take n s), count-take n s fits)

pub drop-drop : (m n : ℕ) (s : String) → drop m (drop n s) ≡ drop (n + m) s
unfolding drop
drop-drop m zero s = rw add.zero
drop-drop zero (suc n) [] = rw add.suc
drop-drop (suc m) (suc n) [] = rw add.suc
drop-drop m (suc n) (c ∷ s) = rw add.suc (drop-drop m n s)

pub take-add : (m n : ℕ) (s : String) → take (m + n) s ≡ take m s <> take n (drop m s)
unfolding take drop
take-add zero n s = rw (add.zero, nil-append)
take-add (suc m) zero [] = rw (add.suc, nil-append)
take-add (suc m) (suc n) [] = rw (add.suc, nil-append)
take-add (suc m) n (c ∷ s) = rw (add.suc, cons-append) (ap (λ u. c ∷ u) (take-add m n s))
