-- ===== src/Regex/Laws.antt =====
-- What the matcher's success means: a way through the pattern, over the subject's characters in
-- order, whose groups hold the slices of the subject at their spans.
use Prim.Native.Char.{Char, code}
use Prim.Native.String.{[], ◌∷◌}
use sql_gatekeeper.Prelude.{
  ℕ, ◌≡◌, refl, ◌⊎◌, inl, inr, String, Bool, true, some, Option-cases, Bool-cases, arith,
}
use sql_gatekeeper.Regex.{
  Regex, one, many, seq, alt, opt, capture, word_edge, Cursor, move, close, at_edge, Continuation,
  match_one, match_many, match,
}

-- `d` is `c` after some characters, all of them in `p`.
pub data Run (p : ℕ → Bool) : Cursor → Cursor → Type 0 where
  stay : {c : Cursor} → Run p c c
  go :
      {c d : Cursor} (ch : Char) (s : String)
      → c.rest ≡ ch ∷ s
      → p (code ch) ≡ true
      → Run p (move c ch s) d
      → Run p c d

-- `d` is reached from `c` by way of the pattern.
abbrev pub Steps : Regex → Cursor → Cursor → Type 0
Steps (one p) c d =
    (ch : Char) × (s : String) × (c.rest ≡ ch ∷ s) × (p (code ch) ≡ true) × (move c ch s ≡ d)
Steps (many p) c d = Run p c d
Steps (seq a b) c d = (m : Cursor) × Steps a c m × Steps b m d
Steps (alt a b) c d = Steps a c d ⊎ Steps b c d
Steps (opt a) c d = Steps a c d ⊎ (c ≡ d)
Steps (capture n a) c d = (m : Cursor) × Steps a c m × (close n c m ≡ d)
Steps word_edge c d = (at_edge c ≡ true) × (c ≡ d)

match_one_sound :
    (p : ℕ → Bool) (c : Cursor) (s : String) (k : Continuation) {r : Cursor}
    → c.rest ≡ s
    → match_one p c s k ≡ some r
    → (d : Cursor) × Steps (one p) c d × (k d ≡ some r)
unfolding match_one
match_one_sound p c [] k e h = cc
match_one_sound p c (ch ∷ s) k e h = elim (Bool-cases (p (code ch))) [
  | inl yes' ↦ (move c ch s, (ch, s, e, yes', refl), rw (yes', match_one) at h)
  | inr no' ↦ absurd (cc (rw (no', match_one) at h))
]

match_many_sound :
    (p : ℕ → Bool) (c : Cursor) (s : String) (k : Continuation) {r : Cursor}
    → c.rest ≡ s
    → match_many p c s k ≡ some r
    → (d : Cursor) × Run p c d × (k d ≡ some r)
unfolding match_many
match_many_sound p c [] k e h = (c, stay, h)
match_many_sound p c (ch ∷ s) k e h = elim (Bool-cases (p (code ch))) [
  | inr no' ↦ (c, stay, ground arith)
  | inl yes' ↦ elim (Option-cases (match_many p (move c ch s) s k)) [
    | inl none' ↦ (c, stay, ground arith)
    | inr (r', found) ↦
        let (d, run, e') = match_many_sound p (move c ch s) s k refl found in
        (d, go ch s e yes' run, ground arith)
  ]
]

-- A success of the matcher is a way through the pattern to a cursor that the rest accepts.
pub match_sound :
    (a : Regex) (c : Cursor) (k : Continuation) {r : Cursor}
    → match a c k ≡ some r
    → (d : Cursor) × Steps a c d × (k d ≡ some r)
unfolding match
match_sound (one p) c k h = match_one_sound p c c.rest k refl h
match_sound (many p) c k h = match_many_sound p c c.rest k refl h
match_sound (seq a b) c k h =
    let (m, first, h') = match_sound a c (λ d. match b d k) h in
    let (d, second, e) = match_sound b m k h' in (d, (m, first, second), e)
match_sound (alt a b) c k h = elim (Option-cases (match a c k)) [
  | inl none' ↦ let (d, way, e) = match_sound b c k (ground arith) in (d, inr way, e)
  | inr (r', found) ↦ let (d, way, e) = match_sound a c k found in (d, inl way, ground arith)
]
match_sound (opt a) c k h = elim (Option-cases (match a c k)) [
  | inl none' ↦ (c, inr refl, ground arith)
  | inr (r', found) ↦ let (d, way, e) = match_sound a c k found in (d, inl way, ground arith)
]
match_sound (capture n a) c k h =
    let (m, way, e) = match_sound a c (λ d. k (close n c d)) h in (close n c m, (m, way, refl), e)
match_sound word_edge c k h = elim (Bool-cases (at_edge c)) [
  | inl edge ↦ (c, (edge, refl), ground arith)
  | inr inner ↦ absurd (ground arith)
]
