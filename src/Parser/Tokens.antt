-- ===== src/Parser/Tokens.antt =====
-- The table tokens of a parsed statement: where they stand in it.
use Prim.Native.String.{count}
use mathlib.Core.List.{filter_map}
use sql_gatekeeper.Prelude.{
  ℕ, ◌≤◌, ◌<◌, ◌≡◌, refl, inl, inr, String, some, List, [], ◌∷◌, All, eqb, Bool-cases, Option-cases,
  arith,
}
use sql_gatekeeper.Prelude.Text.Slice.{slice, drop}
use sql_gatekeeper.Regex.{Group, Found, find_all_from, find_group}
use sql_gatekeeper.Regex.Spans.{IsCapture}
use sql_gatekeeper.Regex.Search.{InOrder, find_all_from-InOrder}
use sql_gatekeeper.Parser.{ParsedTable, table_of, table_pattern, tables_of}

-- The token is a nonempty slice of the statement, and its table name is that slice.
pub record IsToken (sql : String) (t : ParsedTable) : Type 0 where
  pub nonempty : t.token_start < t.token_end
  pub within : t.token_end ≤ count sql
  pub sliced : slice sql t.token_start t.token_end ≡ t.table_name

-- The tokens stand one behind the other, the first at `lo` or later.
abbrev pub TokensInOrder : String → ℕ → List ParsedTable → Type 0
TokensInOrder sql lo [] = Unit
TokensInOrder sql lo (t ∷ ts) =
    (lo ≤ t.token_start) × IsToken sql t × TokensInOrder sql t.token_end ts

find_group-All :
    (P : Group → Type 0) (n : ℕ) (gs : List Group) {g : Group}
    → All P gs
    → find_group n gs ≡ some g
    → P g
unfolding find_group
find_group-All P n [] h e = cc
find_group-All P n (x ∷ gs) {g} (p, h) e = elim (Bool-cases (eqb x.index n)) [
  | inl same ↦ let here : x ≡ g = ground arith in rw (← here) p
  | inr other ↦ find_group-All P n gs h (ground arith)
]

TokensInOrder-mono :
    (sql : String) (lo lo' : ℕ) (ts : List ParsedTable)
    → lo ≤ lo'
    → TokensInOrder sql lo' ts
    → TokensInOrder sql lo ts
TokensInOrder-mono sql lo lo' [] le h = tt
TokensInOrder-mono sql lo lo' (t ∷ ts) le (h, k, hs) = (omega arith, k, hs)

filter_map-TokensInOrder :
    (sql : String) (lo : ℕ) (ms : List Found)
    → InOrder table_pattern sql lo ms
    → TokensInOrder sql lo (filter_map table_of ms)
unfolding filter_map
filter_map-TokensInOrder sql lo [] h = tt
filter_map-TokensInOrder sql lo (m ∷ ms) (le, g, hs) =
    elim (Option-cases (find_group 2 m.end.groups)) [
      | inl absent ↦
          rw (absent, filter_map)
            (TokensInOrder-mono sql lo m.end.pos _ (omega (arith, g.forward))
              (filter_map-TokensInOrder sql m.end.pos ms hs))
      | inr (x, found) ↦
          let c =
            find_group-All (IsCapture sql m.start m.end.pos) 2 m.end.groups g.good.captured found in
          rw (found, filter_map)
            (
              omega (arith, c.after),
              record {
                nonempty = c.ordered;
                within = omega (arith, c.before, g.good.within);
                sliced = c.sliced;
              },
              TokensInOrder-mono sql x.stop m.end.pos _ c.before
                  (filter_map-TokensInOrder sql m.end.pos ms hs),
            )
    ]

-- The tables of a statement carry slices of it, nonempty, in the order of the text and disjoint.
pub tables_of-TokensInOrder : (sql : String) → TokensInOrder sql 0 (tables_of sql)
unfolding tables_of drop table_pattern
tables_of-TokensInOrder sql =
    filter_map-TokensInOrder sql 0 (find_all_from table_pattern 0 _ 0 sql)
      (find_all_from-InOrder table_pattern sql 0 _ 0 sql refl (omega arith) refl)
