-- ===== src/Prelude/Lists.antt =====
-- Lists: the Boolean quantifiers and filter of the source's comprehensions, and predicates on
-- every member.
use Prim.Native.Nat.{ℕ, zero, suc}
use mathlib.Core.Path.{◌≡◌}
use mathlib.Core.Logic.{inl, inr}
use mathlib.Core.Bool.{Bool, true, false, ◌||◌}
use mathlib.Core.List.{List, [], ◌∷◌, ◌++◌, Memᴰ}
use mathlib.Core.List.Memᴰ
use sql_gatekeeper.Prelude.Tests.{if◌then◌else◌, Bool-cases}

module _ {ℓ} {A : Type ℓ} where
  abbrev pub length : List A → ℕ
  length [] = 0
  length (x ∷ xs) = suc (length xs)

  abbrev pub take : ℕ → List A → List A
  take zero xs = []
  take (suc n) [] = []
  take (suc n) (x ∷ xs) = x ∷ take n xs

  abbrev pub any : (A → Bool) → List A → Bool
  any p [] = false
  any p (x ∷ xs) = p x || any p xs

  -- `[x for x in xs if p x]`
  unfoldable pub keep : (A → Bool) → List A → List A
  keep p [] = []
  keep p (x ∷ xs) = let rest = keep p xs in if p x then x ∷ rest else rest

  abbrev pub is_nil : List A → Bool
  is_nil [] = true
  is_nil (x ∷ xs) = false

module _ {ℓ κ} {A : Type ℓ} where
  abbrev pub All : (A → Type κ) → List A → Type κ
  All P [] = Unit
  All P (x ∷ xs) = P x × All P xs

  pub All-append : (P : A → Type κ) (xs ys : List A) → All P xs → All P ys → All P (xs ++ ys)
  All-append P [] ys _ k = k
  All-append P (x ∷ xs) ys (p, h) k = (p, All-append P xs ys h k)

module _ {ℓ} {A : Type ℓ} where
  -- A row that a query returns satisfies its condition and is a row of the table.
  pub keep-Memᴰ :
      (p : A → Bool) {a : A} (xs : List A) → Memᴰ a (keep p xs) → (p a ≡ true) × Memᴰ a xs
  unfolding keep
  keep-Memᴰ p [] m = elim m [ ]
  keep-Memᴰ p (x ∷ xs) m = elim (Bool-cases (p x)) [
    | inl e ↦ elim (Memᴰ.cases_cons (rw (e, keep) at m)) [
      | inl same ↦ (rw same e, Memᴰ.head same)
      | inr later ↦ let (q, k) = keep-Memᴰ p xs later in (q, Memᴰ.tail k)
    ]
    | inr e ↦ let (q, k) = keep-Memᴰ p xs (rw (e, keep) at m) in (q, Memᴰ.tail k)
  ]

  -- A row of the table that satisfies the condition is returned.
  pub Memᴰ-keep : (p : A → Bool) {a : A} (xs : List A) → p a ≡ true → Memᴰ a xs → Memᴰ a (keep p xs)
  unfolding keep
  Memᴰ-keep p [] e m = elim m [ ]
  Memᴰ-keep p (x ∷ xs) e m = elim (Bool-cases (p x)) [
    | inl here ↦
        rw (here, keep)
          (elim (Memᴰ.cases_cons m) [
            | inl same ↦ Memᴰ.head same
            | inr later ↦ Memᴰ.tail (Memᴰ-keep p xs e later)
          ])
    | inr other ↦ elim (Memᴰ.cases_cons m) [
      | inl same ↦ absurd (cc)
      | inr later ↦ rw (other, keep) (Memᴰ-keep p xs e later)
    ]
  ]
