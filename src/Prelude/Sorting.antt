-- ===== src/Prelude/Sorting.antt =====
-- `sorted`: an insertion sort that keeps the order of equal items.
use Prim.Native.String.{String, compare}
use package.text.Mathlib.Text.{is_le}
use mathlib.Core.List.Memᴰ
use mathlib.Core.List.{List, [], ◌∷◌, Memᴰ}
use mathlib.Core.Bool.{Bool}
use mathlib.Core.Logic.{inl, inr}
use sql_gatekeeper.Prelude.Tests.{if◌then◌else◌, Bool-cases}

module _ {ℓ} {A : Type ℓ} (le : A → A → Bool) where
  insert_ordered : A → List A → List A
  insert_ordered a [] = a ∷ []
  insert_ordered a (b ∷ bs) =
      let later = insert_ordered a bs in if le a b then a ∷ b ∷ bs else b ∷ later

  unfoldable pub sorted : List A → List A
  unfolding insert_ordered
  sorted [] = []
  sorted (a ∷ as') = insert_ordered a (sorted as')

  insert_ordered-Memᴰ :
      (a : A) {x : A} (bs : List A) → Memᴰ x (a ∷ bs) → Memᴰ x (insert_ordered a bs)
  unfolding insert_ordered
  insert_ordered-Memᴰ a [] m = m
  insert_ordered-Memᴰ a (b ∷ bs) m = elim (Bool-cases (le a b)) [
    | inl first ↦ rw (first, insert_ordered) m
    | inr other ↦
        rw (other, insert_ordered)
          (elim (Memᴰ.cases_cons m) [
            | inl same ↦ Memᴰ.tail (insert_ordered-Memᴰ a bs (Memᴰ.head same))
            | inr later ↦ elim (Memᴰ.cases_cons later) [
              | inl same ↦ Memᴰ.head same
              | inr rest ↦ Memᴰ.tail (insert_ordered-Memᴰ a bs (Memᴰ.tail rest))
            ]
          ])
  ]

  Memᴰ-insert_ordered :
      (a : A) {x : A} (bs : List A) → Memᴰ x (insert_ordered a bs) → Memᴰ x (a ∷ bs)
  unfolding insert_ordered
  Memᴰ-insert_ordered a [] m = m
  Memᴰ-insert_ordered a (b ∷ bs) m = elim (Bool-cases (le a b)) [
    | inl first ↦ rw (first, insert_ordered) at m
    | inr other ↦ elim (Memᴰ.cases_cons (rw (other, insert_ordered) at m)) [
      | inl same ↦ Memᴰ.tail (Memᴰ.head same)
      | inr later ↦ elim (Memᴰ.cases_cons (Memᴰ-insert_ordered a bs later)) [
        | inl same ↦ Memᴰ.head same
        | inr rest ↦ Memᴰ.tail (Memᴰ.tail rest)
      ]
    ]
  ]

  -- Sorting keeps the members.
  pub Memᴰ-sorted : {x : A} (xs : List A) → Memᴰ x xs → Memᴰ x (sorted xs)
  unfolding sorted
  Memᴰ-sorted [] m = m
  Memᴰ-sorted (a ∷ xs) m = insert_ordered-Memᴰ a (sorted xs) (elim (Memᴰ.cases_cons m) [
    | inl same ↦ Memᴰ.head same
    | inr later ↦ Memᴰ.tail (Memᴰ-sorted xs later)
  ])

  pub sorted-Memᴰ : {x : A} (xs : List A) → Memᴰ x (sorted xs) → Memᴰ x xs
  unfolding sorted
  sorted-Memᴰ [] m = m
  sorted-Memᴰ (a ∷ xs) m = elim (Memᴰ.cases_cons (Memᴰ-insert_ordered a (sorted xs) m)) [
    | inl same ↦ Memᴰ.head same
    | inr later ↦ Memᴰ.tail (sorted-Memᴰ xs later)
  ]

-- `s <= t` on texts.
abbrev pub text_le : String → String → Bool
text_le s t = is_le (compare s t)

-- `sorted` on texts by a key.
unfoldable pub sorted_by {ℓ} : {A : Type ℓ} → (A → String) → List A → List A
unfolding sorted
sorted_by key xs = sorted (λ a b. text_le (key a) (key b)) xs

pub Memᴰ-sorted_by {ℓ} :
    {A : Type ℓ} (key : A → String) {x : A} (xs : List A) → Memᴰ x xs → Memᴰ x (sorted_by key xs)
unfolding sorted_by
Memᴰ-sorted_by key xs m = Memᴰ-sorted (λ a b. text_le (key a) (key b)) xs m

pub sorted_by-Memᴰ {ℓ} :
    {A : Type ℓ} (key : A → String) {x : A} (xs : List A) → Memᴰ x (sorted_by key xs) → Memᴰ x xs
unfolding sorted_by
sorted_by-Memᴰ key xs m = sorted-Memᴰ (λ a b. text_le (key a) (key b)) xs m
