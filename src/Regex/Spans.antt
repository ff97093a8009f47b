-- ===== src/Regex/Spans.antt =====
-- Where the matcher has been: a cursor's rest is the subject from its position on, and a group's
-- text is the slice of the subject at its span.
use Prim.Native.Char.{Char}
use Prim.Native.String.{◌∷◌, count}
use text.Mathlib.TextLemmas.{length-cons}
use sql_gatekeeper.Prelude.{
  ℕ, ◌+◌, ◌-◌, ◌≤◌, ◌<◌, ◌≡◌, refl, sym, ap, ◌∙◌, ◌⊎◌, inl, inr, Bool, true, false, ◌&&◌, ◌||◌,
  and_true, String, List, [], ◌∷◌ as ◌∷ᴸ◌, All, arith,
}
use sql_gatekeeper.Prelude.Text.Slice.{take, drop, slice, drop-drop, count-drop}
use sql_gatekeeper.Regex.{
  Regex, one, many, seq, alt, opt, capture, word_edge, Group, Cursor, move, close,
}
use sql_gatekeeper.Regex.Laws.{Run, stay, go, Steps}

-- The pattern matches no empty text.
abbrev pub consumes : Regex → Bool
consumes (one p) = true
consumes (many p) = false
consumes (seq a b) = consumes a || consumes b
consumes (alt a b) = consumes a && consumes b
consumes (opt a) = false
consumes (capture n a) = consumes a
consumes word_edge = false

-- No group of the pattern matches an empty text.
abbrev pub solid : Regex → Bool
solid (seq a b) = solid a && solid b
solid (alt a b) = solid a && solid b
solid (opt a) = solid a
solid (capture n a) = consumes a && solid a
solid _ = true

or_true : (a b : Bool) → (a || b) ≡ true → (a ≡ true) ⊎ (b ≡ true)
or_true true b h = inl refl
or_true false b h = inr h

-- The group lies between `lo` and `hi` and holds the subject's text there.
pub record IsCapture (text : String) (lo hi : ℕ) (g : Group) : Type 0 where
  pub after : lo ≤ g.start
  pub ordered : g.start < g.stop
  pub before : g.stop ≤ hi
  pub sliced : slice text g.start g.stop ≡ g.text

pub record IsGood (text : String) (lo : ℕ) (c : Cursor) : Type 0 where
  pub suffix : drop c.pos text ≡ c.rest
  pub within : c.pos ≤ count text
  pub after : lo ≤ c.pos
  pub captured : All (IsCapture text lo c.pos) c.groups

module _ (text : String) (lo : ℕ) where
  All-IsCapture-mono :
      (hi hi' : ℕ) (gs : List Group)
      → hi ≤ hi'
      → All (IsCapture text lo hi) gs
      → All (IsCapture text lo hi') gs
  All-IsCapture-mono hi hi' [] le _ = tt
  All-IsCapture-mono hi hi' (g ∷ᴸ gs) le (h, hs) = (
    record { after = h.after; ordered = h.ordered; before = omega arith; sliced = h.sliced },
    All-IsCapture-mono hi hi' gs le hs,
  )

  move-IsGood :
      (c : Cursor) (ch : Char) (s : String)
      → c.rest ≡ ch ∷ s
      → IsGood text lo c
      → IsGood text lo (move c ch s)
  unfolding drop
  move-IsGood c ch s e h =
      let here : drop c.pos text ≡ ch ∷ s = h.suffix ∙ e in
      let room : c.pos + 1 ≤ count text =
        omega (arith, h.within, count-drop c.pos text, ap count here, length-cons ch s) in
      record {
        suffix = sym (drop-drop 1 c.pos text) ∙ ap (drop 1) here;
        within = room;
        after = omega (arith, h.after);
        captured = All-IsCapture-mono c.pos (c.pos + 1) c.groups (omega arith) h.captured;
      }

  Run-IsGood :
      {p : ℕ → Bool} {c d : Cursor}
      → Run p c d
      → IsGood text lo c
      → IsGood text lo d × (c.pos ≤ d.pos)
  Run-IsGood stay h = (h, omega arith)
  Run-IsGood (go {c} ch s e ok run) h =
      let (g, le) = Run-IsGood run (move-IsGood c ch s e h) in (g, omega arith)

  close-IsGood :
      (n : ℕ) (c m : Cursor)
      → IsGood text lo c
      → IsGood text lo m
      → c.pos < m.pos
      → IsGood text lo (close n c m)
  close-IsGood n c m h g le = record {
    suffix = g.suffix;
    within = g.within;
    after = g.after;
    captured = (
      record {
        after = h.after;
        ordered = le;
        before = omega arith;
        sliced = ap (take (m.pos - c.pos)) h.suffix;
      },
      g.captured,
    );
  }

  -- A way through a pattern moves forward and keeps spans and texts in step.
  pub Steps-IsGood :
      (a : Regex) (c d : Cursor)
      → solid a ≡ true
      → Steps a c d
      → IsGood text lo c
      → IsGood text lo d × (c.pos ≤ d.pos) × (consumes a ≡ true → c.pos < d.pos)
  Steps-IsGood (one p) c d ok (ch, s, e, _, moved) h =
      rw (← moved) (move-IsGood c ch s e h, omega arith, λ _. omega arith)
  Steps-IsGood (many p) c d ok run h =
      let (g, le) = Run-IsGood run h in (g, le, λ (e : false ≡ true). cc)
  Steps-IsGood (seq a b) c d ok (m, first, second) h =
      let (ok_a, ok_b) = and_true _ _ ok in
      let (g, le, lt) = Steps-IsGood a c m ok_a first h in
      let (g', le', lt') = Steps-IsGood b m d ok_b second g in
      (
        g',
        omega arith,
        λ e. elim (or_true _ _ e) [ inl x ↦ omega (arith, lt x) | inr y ↦ omega (arith, lt' y) ],
      )
  Steps-IsGood (alt a b) c d ok (inl way) h =
      let (g, le, lt) = Steps-IsGood a c d (and_true _ _ ok).0 way h in
      (g, le, λ e. lt (and_true _ _ e).0)
  Steps-IsGood (alt a b) c d ok (inr way) h =
      let (g, le, lt) = Steps-IsGood b c d (and_true _ _ ok).1 way h in
      (g, le, λ e. lt (and_true _ _ e).1)
  Steps-IsGood (opt a) c d ok (inl way) h =
      let (g, le, lt) = Steps-IsGood a c d ok way h in (g, le, λ (e : false ≡ true). cc)
  Steps-IsGood (opt a) c d ok (inr same) h = rw (← same) (h, omega arith, λ (e : false ≡ true). cc)
  Steps-IsGood (capture n a) c d ok (m, way, closed) h =
      let (eats, ok_a) = and_true _ _ ok in
      let (g, le, lt) = Steps-IsGood a c m ok_a way h in
      rw (← closed) (close-IsGood n c m h g (lt eats), le, lt)
  Steps-IsGood word_edge c d ok (edge, same) h =
      rw (← same) (h, omega arith, λ (e : false ≡ true). cc)
