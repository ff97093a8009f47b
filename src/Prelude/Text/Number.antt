-- ===== src/Prelude/Text/Number.antt =====
-- Integers as texts: `str(n)` of a natural number, `int(s)`, and Python's `%` by a positive number.
use Prim.Native.Nat.{ℕ, zero, suc, ◌+◌, ◌-◌, ◌*◌, ◌/◌, ◌%◌, ◌<◌}
use Prim.Native.Char.{code}
use Prim.Native.String
use Prim.Native.String.{String, [], ◌∷◌}
use mathlib.Core.Bool.{Bool, true, false, ◌&&◌}
use mathlib.Core.Option
use mathlib.Core.Option.{Option, none, some}
use native.Mathlib.Omega.{arith}
use sql_gatekeeper.Prelude.Tests.{ltb, eqb, if◌then◌else◌}
use sql_gatekeeper.Prelude.Text.{is_digit, strip}

-- `negsuc n` is -(n + 1).
pub data ℤ : Type 0 where
  pos : ℕ → ℤ
  negsuc : ℕ → ℤ

digit : ℕ → String
digit d =
    if eqb d 0
    then "0"
    else if eqb d 1
    then "1"
    else if eqb d 2
    then "2"
    else if eqb d 3
    then "3"
    else if eqb d 4
    then "4"
    else if eqb d 5
    then "5"
    else if eqb d 6
    then "6"
    else if eqb d 7
    then "7"
    else if eqb d 8
    then "8"
    else "9"

-- The digits of `n` in front of `acc`. A number has at most as many digits as its value plus one,
-- which is the fuel of `show`.
show_from : ℕ → ℕ → String → String
show_from zero n acc = acc
show_from (suc fuel) n acc =
    let rest = show_from fuel (n / 10) (String.◌++◌ (digit (n % 10)) acc) in
    if ltb n 10 then String.◌++◌ (digit n) acc else rest

unfoldable pub show : ℕ → String
unfolding show_from digit
show n = show_from (suc n) n ""

-- The value of a run of digits, where single underscores may stand between two of them. `ready`
-- says that the last character was a digit.
digits_value : Bool → ℕ → String → Option ℕ
digits_value ready acc [] = if ready then some acc else none
digits_value ready acc (c ∷ s) =
    let under = digits_value false acc s in
    let next = digits_value true (acc * 10 + (code c - 48)) s in
    if is_digit (code c) then next else if ready && eqb (code c) b'_' then under else none

abbrev negate : ℕ → ℤ
negate zero = pos 0
negate (suc n) = negsuc n

abbrev signed : String → Option ℤ
signed [] = none
signed (c ∷ s) =
    if eqb (code c) b'-'
    then Option.map negate (digits_value false 0 s)
    else if eqb (code c) b'+'
    then Option.map pos (digits_value false 0 s)
    else Option.map pos (digits_value false 0 (c ∷ s))

-- `int(s)`; `none` stands for the `ValueError`.
unfoldable pub parse_int : String → Option ℤ
unfolding digits_value is_digit strip
parse_int s = signed (strip s)

infixl 70 ◌%ℤ◌
-- `i % n` for n > 0: the sign is that of the divisor.
unfoldable pub ◌%ℤ◌ : ℤ → ℕ → ℕ
pos a %ℤ n = a % n
negsuc a %ℤ n = n - 1 - a % n

pub mod-lt : (i : ℤ) (n : ℕ) → 0 < n → i %ℤ n < n
unfolding ◌%ℤ◌
mod-lt (pos a) n h = omega arith
mod-lt (negsuc a) n h = omega arith
