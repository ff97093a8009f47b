-- ===== src/Regex.antt =====
-- The part of Python's `re` that the patterns of services/sql_parser.py and services/precheck.py
-- use: a backtracking matcher that takes the first success in `re`'s order of preference. A cursor
-- is the matcher's place in the subject: what it has passed, what is left, the groups closed so far.
pub mod Laws
pub mod Spans
pub mod Search
use Prim.Native.Char.{Char, code}
use Prim.Native.String.{[], ◌∷◌}
use sql_gatekeeper.Prelude.{
  ℕ, zero, suc, ◌+◌, ◌-◌, String, Bool, true, false, Option, none, some, List, eqb, ◌||◌, ◌&&◌, not,
  if◌then◌else◌,
}
use sql_gatekeeper.Prelude.Text.{is_word}
use sql_gatekeeper.Prelude.Text.Slice.{take}
use mathlib.Core.List

pub data Regex : Type 0 where
  one : (ℕ → Bool) → Regex
  many : (ℕ → Bool) → Regex
  seq alt : Regex → Regex → Regex
  opt : Regex → Regex
  capture : ℕ → Regex → Regex
  word_edge : Regex

pub record Group : Type 0 where
  pub index : ℕ
  pub start : ℕ
  pub stop : ℕ
  pub text : String

pub record Cursor : Type 0 where
  pub after_word : Bool
  pub pos : ℕ
  pub rest : String
  pub groups : List Group

abbrev pub move : Cursor → Char → String → Cursor
move c ch s = record c { after_word = is_word (code ch); pos = c.pos + 1; rest = s }

-- Group `n`, which opened at `from` and closes at `to`.
abbrev pub close : ℕ → Cursor → Cursor → Cursor
close n from to = record to {
  groups =
      List.◌∷◌
        (record {
          index = n;
          start = from.pos;
          stop = to.pos;
          text = take (to.pos - from.pos) from.rest;
        })
        to.groups;
}

abbrev next_is_word : String → Bool
next_is_word [] = false
next_is_word (ch ∷ s) = is_word (code ch)

-- `\b`
abbrev pub at_edge : Cursor → Bool
at_edge c = if c.after_word then not (next_is_word c.rest) else next_is_word c.rest

abbrev pub Continuation : Type 0
Continuation = Cursor → Option Cursor

unfoldable pub match_one : (ℕ → Bool) → Cursor → String → Continuation → Option Cursor
match_one p c [] k = none
match_one p c (ch ∷ s) k = if p (code ch) then k (move c ch s) else none

-- As many characters as there are; one fewer each time that what follows fails.
unfoldable pub match_many : (ℕ → Bool) → Cursor → String → Continuation → Option Cursor
match_many p c [] k = k c
match_many p c (ch ∷ s) k = elim (p (code ch)) [
  | false ↦ k c
  | true ↦ elim (match_many p (move c ch s) s k) [ some d ↦ some d | none ↦ k c ]
]

unfoldable pub match : Regex → Cursor → Continuation → Option Cursor
match (one p) c k = match_one p c c.rest k
match (many p) c k = match_many p c c.rest k
match (seq a b) c k = match a c (λ d. match b d k)
match (alt a b) c k = elim (match a c k) [ some d ↦ some d | none ↦ match b c k ]
match (opt a) c k = elim (match a c k) [ some d ↦ some d | none ↦ k c ]
match (capture n a) c k = match a c (λ d. k (close n c d))
match word_edge c k = if at_edge c then k c else none

-- A match: where it began, and the cursor behind it.
pub record Found : Type 0 where
  pub start : ℕ
  pub end : Cursor

abbrev pub begin : Bool → ℕ → String → Cursor
begin after pos s = record { after_word = after; pos = pos; rest = s; groups = List.[] }

-- `pattern.match(s)`
unfoldable pub match_at : Regex → Bool → ℕ → String → Option Cursor
unfolding match match_one match_many
match_at r after pos s = match r (begin after pos s) some

-- `pattern.search(s)`: the leftmost match.
unfoldable pub search_from : Regex → Bool → ℕ → String → Option Found
search_from r after pos [] = elim (match_at r after pos []) [
  | some d ↦ some (record { start = pos; end = d })
  | none ↦ none
]
search_from r after pos (ch ∷ s) = elim (match_at r after pos (ch ∷ s)) [
  | some d ↦ some (record { start = pos; end = d })
  | none ↦ search_from r (is_word (code ch)) (pos + 1) s
]

-- `pattern.finditer(s)`, for patterns that match no empty text: after a match the search goes on
-- behind it. `skip` characters of the text still belong to the last match.
unfoldable pub find_all_from : Regex → ℕ → Bool → ℕ → String → List Found
find_all_from r skip after pos [] = List.[]
find_all_from r (suc skip) after pos (ch ∷ s) = find_all_from r skip (is_word (code ch)) (pos + 1) s
find_all_from r zero after pos (ch ∷ s) = elim (match_at r after pos (ch ∷ s)) [
  | some d ↦
      List.◌∷◌ (record { start = pos; end = d })
        (find_all_from r (d.pos - pos - 1) (is_word (code ch)) (pos + 1) s)
  | none ↦ find_all_from r zero (is_word (code ch)) (pos + 1) s
]

-- `m.group(n)` with its span: the last closed group of that number.
unfoldable pub find_group : ℕ → List Group → Option Group
find_group n List.[] = none
find_group n (List.◌∷◌ g gs) = if eqb g.index n then some g else find_group n gs
