-- ===== src/Parser.antt =====
-- services/sql_parser.py: what the gatekeeper reads off a statement, by three regular expressions.
pub mod Tokens
use Prim.Native.Char.{code}
use Prim.Native.String
use Prim.Native.String.{count}
use mathlib.Core.Option
use mathlib.Core.List.{filter_map}
use sql_gatekeeper.Prelude.{
  ℕ, zero, ◌+◌, ◌-◌, ◌*◌, String, Bool, true, false, not, ◌&&◌, ◌||◌, Option, none, some, List, [],
  ◌∷◌, map, ◌==◌, eqb, if◌then◌else◌,
}
use sql_gatekeeper.Prelude.Text.{
  is_space, is_digit, is_alpha, is_word, is_quote, lower, strip, rstrip, has_char, ends_in,
  starts_in,
}
use sql_gatekeeper.Prelude.Text.Slice.{take, drop}
use sql_gatekeeper.Regex.{
  Regex, one, many, seq, alt, opt, capture, word_edge, Group, Cursor, Found, match_at, search_from,
  find_all_from, find_group,
}

-- A lower-case letter under `re.IGNORECASE`.
abbrev either_case : ℕ → ℕ → Bool
either_case k c = eqb c k || eqb c (k - 32)

abbrev letters : String → Regex
letters String.[] = many (λ _. false)
letters (String.◌∷◌ c s) = seq (one (either_case (code c))) (letters s)

-- [A-Za-z_]
abbrev starts_name : ℕ → Bool
starts_name c = is_alpha c || eqb c b'_'

abbrev spaces : Regex
spaces = seq (one is_space) (many is_space)

abbrev digits : Regex
digits = seq (one is_digit) (many is_digit)

abbrev name : Regex
name = seq (one starts_name) (many is_word)

-- \b(from|join)\s+(NAME)(?:\s+(?:as\s+)?(NAME))?
unfoldable pub table_pattern : Regex
table_pattern = seq word_edge (
    seq (capture 1 (alt (letters "from") (letters "join"))) (
      seq spaces (
        seq (capture 2 name)
          (opt (seq spaces (seq (opt (seq (letters "as") spaces)) (capture 3 name)))))))

abbrev quoted : ℕ → Regex
quoted q = seq (one (λ c. eqb c q)) (seq (many (λ c. not (eqb c q))) (one (λ c. eqb c q)))

-- (?:(?P<qualifier>NAME)\.)?(?P<column>NAME)\s*=\s*(?P<value>'[^']*'|"[^"]*"|-?\d+)
-- The named groups are 1, 2 and 3.
unfoldable pub predicate_pattern : Regex
predicate_pattern = seq (opt (seq (capture 1 name) (one (λ c. eqb c b'.')))) (
    seq (capture 2 name) (
      seq (many is_space) (
        seq (one (λ c. eqb c b'=')) (
          seq (many is_space) (
            capture 3
              (alt (quoted 39) (alt (quoted 34) (seq (opt (one (λ c. eqb c b'-'))) digits))))))))

-- \blimit\s+(\d+)(?:\s*,\s*(\d+))?\b
unfoldable pub limit_pattern : Regex
limit_pattern = seq word_edge (
    seq (letters "limit") (
      seq spaces (
        seq (capture 1 digits) (
          seq
            (opt (
              seq (many is_space)
                (seq (one (λ c. eqb c b',')) (seq (many is_space) (capture 2 digits)))))
            word_edge))))

-- ([a-zA-Z]+) behind ^\s*
unfoldable pub first_word_pattern : Regex
first_word_pattern = seq (many is_space) (capture 1 (seq (one is_alpha) (many is_alpha)))

pub record ParsedTable : Type 0 where
  pub table_name : String
  pub alias : Option String
  pub token_start : ℕ
  pub token_end : ℕ

pub record ParsedPredicate : Type 0 where
  pub qualifier : Option String
  pub column : String
  pub value : String

pub record ParsedSql : Type 0 where
  pub original_sql : String
  pub sql_type : String
  pub tables : List ParsedTable
  pub predicates : List ParsedPredicate
  pub has_limit : Bool
  pub limit_value : Option ℕ
  pub is_multi_statement : Bool

abbrev or_blank : Option String → String
or_blank none = ""
or_blank (some s) = s

-- Whether the loop of `predicate_value` takes the predicate.
abbrev pub selects : String → Option String → ParsedPredicate → Bool
selects column none p = lower p.column == lower column
selects column (some q) p =
    (lower p.column == lower column) && (lower (or_blank p.qualifier) == lower q)

find_predicate : String → Option String → List ParsedPredicate → Option String
find_predicate column qualifier [] = none
find_predicate column qualifier (p ∷ ps) =
    if selects column qualifier p then some p.value else find_predicate column qualifier ps

unfoldable pub predicate_value : ParsedSql → String → Option String → Option String
unfolding find_predicate
predicate_value parsed column qualifier = find_predicate column qualifier parsed.predicates

-- `_normalize_value`
unfoldable pub normalize_value : String → String
normalize_value raw =
    if starts_in is_quote raw && ends_in is_quote raw
    then take (count raw - 2) (drop 1 raw)
    else raw

-- `int` of a run of digits.
unfoldable pub number_of : ℕ → String → ℕ
number_of acc String.[] = acc
number_of acc (String.◌∷◌ c s) = number_of (acc * 10 + (code c - 48)) s

abbrev pub group_text : ℕ → Cursor → Option String
group_text n m = Option.map (λ (g : Group). g.text) (find_group n m.groups)

abbrev pub table_of : Found → Option ParsedTable
table_of m =
    Option.map
      (λ (g : Group). record {
        table_name = g.text;
        alias = group_text 3 m.end;
        token_start = g.start;
        token_end = g.stop;
      })
      (find_group 2 m.end.groups)

abbrev predicate_of : Found → ParsedPredicate
predicate_of m = record {
  qualifier = group_text 1 m.end;
  column = or_blank (group_text 2 m.end);
  value = normalize_value (or_blank (group_text 3 m.end));
}

-- `_parse_limit_value`: the count of `limit n`, and of `limit offset, n`.
unfoldable pub parse_limit_value : String → Option ℕ
parse_limit_value sql = elim (search_from limit_pattern false 0 sql) [
  | none ↦ none
  | some m ↦ elim (group_text 2 m.end) [
    | some t ↦ some (number_of 0 t)
    | none ↦ some (number_of 0 (or_blank (group_text 1 m.end)))
  ]
]

abbrev is_some {ℓ} : {A : Type ℓ} → Option A → Bool
is_some none = false
is_some (some a) = true

-- `re.match(r"^\s*([a-zA-Z]+)", s).group(1)`
unfoldable pub first_word : String → Option String
first_word s = elim (match_at first_word_pattern false 0 s) [
  | none ↦ none
  | some m ↦ group_text 1 m
]

abbrev pub semicolon : ℕ → Bool
semicolon c = eqb c b';'

-- `";" in lowered.rstrip(";").strip()`
unfoldable pub holds_semicolon : String → Bool
holds_semicolon lowered = has_char b';' (strip (rstrip semicolon lowered))

unfoldable pub tables_of : String → List ParsedTable
tables_of sql = filter_map table_of (find_all_from table_pattern 0 false 0 sql)

unfoldable pub parse : String → ParsedSql
parse sql = record {
  original_sql = sql;
  sql_type = elim (first_word (strip sql)) [ some w ↦ lower w | none ↦ "unknown" ];
  tables = tables_of sql;
  predicates = map predicate_of (find_all_from predicate_pattern 0 false 0 sql);
  has_limit = is_some (search_from limit_pattern false 0 sql);
  limit_value = parse_limit_value sql;
  is_multi_statement = holds_semicolon (lower (strip sql));
}
