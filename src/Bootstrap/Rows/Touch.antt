-- ===== src/Bootstrap/Rows/Touch.antt =====
-- Upserts that find their row again, and the rows that an update leaves.
use mathlib.Core.List.{Memᴰ}
use sql_gatekeeper.Prelude.{
  ℕ, ◌≡◌, refl, ap, Bool, true, false, List, [], ◌∷◌, ◌++◌, map, keep, ◌⊎◌, inl, inr, Bool-cases,
  if◌then◌else◌,
}
use sql_gatekeeper.Bootstrap.Rows.{Upsert}

-- The new object is found again, and the assignments leave the query, the id and themselves.
pub record Lawful {A : Type 0} (u : Upsert A) : Type 0 where
  pub fresh_matches : (i : ℕ) → u.matches (u.fresh i) ≡ true
  pub fresh_updated : (i : ℕ) → u.update (u.fresh i) ≡ u.fresh i
  pub fresh_id : (i : ℕ) → u.id_of (u.fresh i) ≡ i
  pub update_matches : (a : A) → u.matches (u.update a) ≡ u.matches a
  pub update_twice : (a : A) → u.update (u.update a) ≡ u.update a
  pub update_id : (a : A) → u.id_of (u.update a) ≡ u.id_of a

-- `v` neither finds nor makes a row of `u`.
pub record Apart {A : Type 0} (u v : Upsert A) : Type 0 where
  pub finds_other : (a : A) → v.matches a ≡ true → u.matches a ≡ false
  pub makes_other : (i : ℕ) → u.matches (v.fresh i) ≡ false
  pub updates_other : (a : A) → u.matches (v.update a) ≡ u.matches a

pub keep-nil : {A : Type 0} (p : A → Bool) → keep p [] ≡ []
unfolding keep
keep-nil p = refl

pub keep-match :
    {A : Type 0} (p : A → Bool) (a : A) (xs : List A) → p a ≡ true → keep p (a ∷ xs) ≡ a ∷ keep p xs
unfolding keep
keep-match p a xs e = rw e refl

pub keep-other :
    {A : Type 0} (p : A → Bool) (a : A) (xs : List A) → p a ≡ false → keep p (a ∷ xs) ≡ keep p xs
unfolding keep
keep-other p a xs e = rw e refl

pub keep-append :
    {A : Type 0} (p : A → Bool) (xs ys : List A) → keep p (xs ++ ys) ≡ keep p xs ++ keep p ys
unfolding keep
keep-append p [] ys = refl
keep-append p (x ∷ xs) ys = elim (Bool-cases (p x)) [
  | inl e ↦ rw (e, keep) (ap (λ zs. x ∷ zs) (keep-append p xs ys))
  | inr e ↦ rw (e, keep) (keep-append p xs ys)
]

-- A list has no item, one or several.
pub List-cases :
    {A : Type 0} (xs : List A)
    → (xs ≡ [])
      ⊎ ((a : A) × (xs ≡ a ∷ []))
      ⊎ ((a : A) × (b : A) × (rest : List A) × (xs ≡ a ∷ b ∷ rest))
List-cases [] = inl refl
List-cases (a ∷ []) = inr (inl (a, refl))
List-cases (a ∷ b ∷ rest) = inr (inr (a, b, rest, refl))

module _ {A : Type 0} (u : Upsert A) where
  abbrev pub touch : A → A
  touch a = if u.matches a then u.update a else a

  pub touch-match : (a : A) → u.matches a ≡ true → touch a ≡ u.update a
  touch-match a e = rw e refl

  pub touch-other : (a : A) → u.matches a ≡ false → touch a ≡ a
  touch-other a e = rw e refl

  pub map-touch :
      (rows : List A)
      → ((a : A) → Memᴰ a rows → u.matches a ≡ true → u.update a ≡ a)
      → map touch rows ≡ rows
  map-touch [] h = refl
  map-touch (a ∷ rows) h =
      let rest = map-touch rows (λ b m. h b (Memᴰ.tail m)) in
      elim (Bool-cases (u.matches a)) [
        | inl e ↦ cc (touch-match a e, h a (Memᴰ.head refl) e, rest)
        | inr e ↦ cc (touch-other a e, rest)
      ]

  pub keep-touch :
      (lawful : Lawful u) (rows : List A)
      → keep u.matches (map touch rows) ≡ map touch (keep u.matches rows)
  keep-touch lawful [] = cc (keep-nil u.matches, ap (map touch) (keep-nil u.matches))
  keep-touch lawful (a ∷ rows) = elim (Bool-cases (u.matches a)) [
    | inl e ↦
        let e' : u.matches (touch a) ≡ true = cc (lawful.update_matches a, e, touch-match a e) in
        cc (
          keep-match u.matches (touch a) (map touch rows) e',
          keep-match u.matches a rows e,
          keep-touch lawful rows,
        )
    | inr e ↦
        let e' : u.matches (touch a) ≡ false = cc (e, touch-other a e) in
        cc (
          keep-other u.matches (touch a) (map touch rows) e',
          keep-other u.matches a rows e,
          keep-touch lawful rows,
        )
  ]
