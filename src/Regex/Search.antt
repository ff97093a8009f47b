-- ===== src/Regex/Search.antt =====
-- `finditer`: the matches stand one behind the other, each a way through the pattern.
use Prim.Native.Char.{code}
use Prim.Native.String.{[], ◌∷◌, count}
use text.Mathlib.TextLemmas.{length-cons}
use sql_gatekeeper.Prelude.{
  ℕ, zero, suc, ◌+◌, ◌-◌, ◌≤◌, ◌≡◌, refl, sym, ap, ◌∙◌, inl, inr, Bool, true, String, some, List,
  [] as nil, ◌∷◌ as ◌∷ᴸ◌, Option-cases, arith,
}
use sql_gatekeeper.Prelude.Text.{is_word}
use sql_gatekeeper.Prelude.Text.Slice.{drop, drop-drop, count-drop}
use sql_gatekeeper.Regex.{Regex, Cursor, Found, begin, match_at, find_all_from}
use sql_gatekeeper.Regex.Laws.{Steps, match_sound}
use sql_gatekeeper.Regex.Spans.{solid, IsGood, Steps-IsGood}

-- `m` is a match of `r` in `text`.
pub record IsMatch (r : Regex) (text : String) (m : Found) : Type 0 where
  pub origin : Cursor
  pub from : origin.pos ≡ m.start
  pub way : Steps r origin m.end
  pub good : IsGood text m.start m.end
  pub forward : m.start ≤ m.end.pos

-- Every match begins where the one before it has ended, or later.
abbrev pub InOrder : Regex → String → ℕ → List Found → Type 0
InOrder r text lo nil = Unit
InOrder r text lo (m ∷ᴸ ms) = (lo ≤ m.start) × IsMatch r text m × InOrder r text m.end.pos ms

InOrder-mono :
    (r : Regex) (text : String) (lo lo' : ℕ) (ms : List Found)
    → lo ≤ lo'
    → InOrder r text lo' ms
    → InOrder r text lo ms
InOrder-mono r text lo lo' nil le h = tt
InOrder-mono r text lo lo' (m ∷ᴸ ms) le (h, g, hs) = (omega arith, g, hs)

pub match_at-IsMatch :
    (r : Regex) (text : String) (after : Bool) (pos : ℕ) (s : String) {d : Cursor}
    → drop pos text ≡ s
    → pos ≤ count text
    → solid r ≡ true
    → match_at r after pos s ≡ some d
    → IsMatch r text (record { start = pos; end = d })
unfolding match_at
match_at-IsMatch r text after pos s {d} e le ok h =
    let (d', way, same) = match_sound r (begin after pos s) some h in
    let same' : d' ≡ d = ground (arith, same) in
    let way' : Steps r (begin after pos s) d = rw (← same') way in
    let (good, forward, _) =
      Steps-IsGood text pos r (begin after pos s) d ok way'
        (record { suffix = e; within = le; after = omega arith; captured = tt }) in
    record { origin = begin after pos s; from = refl; way = way'; good = good; forward = forward }

pub find_all_from-InOrder :
    (r : Regex) (text : String) (skip : ℕ) (after : Bool) (pos : ℕ) (s : String)
    → drop pos text ≡ s
    → pos ≤ count text
    → solid r ≡ true
    → InOrder r text (pos + skip) (find_all_from r skip after pos s)
unfolding find_all_from drop
find_all_from-InOrder r text skip after pos [] e le ok = tt
find_all_from-InOrder r text (suc skip) after pos (ch ∷ s) e le ok =
    InOrder-mono r text (pos + suc skip) (pos + 1 + skip) _ (omega arith) (
      find_all_from-InOrder r text skip (is_word (code ch)) (pos + 1) s
        (sym (drop-drop 1 pos text) ∙ ap (drop 1) e)
        (omega (arith, count-drop pos text, ap count e, length-cons ch s)) ok)
find_all_from-InOrder r text zero after pos (ch ∷ s) e le ok =
    let tail : drop (pos + 1) text ≡ s = sym (drop-drop 1 pos text) ∙ ap (drop 1) e in
    let room : pos + 1 ≤ count text =
      omega (arith, count-drop pos text, ap count e, length-cons ch s) in
    elim (Option-cases (match_at r after pos (ch ∷ s))) [
      | inl failed ↦
          rw (failed, find_all_from)
            (InOrder-mono r text (pos + zero) (pos + 1 + zero) _ (omega arith)
              (find_all_from-InOrder r text zero (is_word (code ch)) (pos + 1) s tail room ok))
      | inr (d, found) ↦
          rw (found, find_all_from)
            (
              omega arith,
              match_at-IsMatch r text after pos (ch ∷ s) e le ok found,
              InOrder-mono r text d.pos (pos + 1 + (d.pos - pos - 1)) _ (omega arith) (
                  find_all_from-InOrder r text (d.pos - pos - 1) (is_word (code ch)) (pos + 1) s
                    tail room ok),
            )
    ]
