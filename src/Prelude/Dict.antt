-- ===== src/Prelude/Dict.antt =====
-- Python's `dict` with text keys: pairs in the order of their first insertion.
use sql_gatekeeper.Prelude.{
  String, ◌≡◌, refl, Option, none, some, List, [], ◌∷◌, ◌==◌, eq_iff, arith, if◌then◌else◌,
}

abbrev pub Dict {ℓ} : Type ℓ → Type ℓ
Dict A = List (String × A)

module _ {ℓ} {A : Type ℓ} where
  -- `d.get(k)`
  unfoldable pub get : String → Dict A → Option A
  get k [] = none
  get k ((j, a) ∷ d) = if j == k then some a else get k d

  -- `d[k] = a`
  unfoldable pub put : String → A → Dict A → Dict A
  put k a [] = (k, a) ∷ []
  put k a ((j, b) ∷ d) = if j == k then (j, a) ∷ d else (j, b) ∷ put k a d

  pub get-put :
      (k j : String) (a : A) (d : Dict A) → get j (put k a d) ≡ (if k == j then some a else get j d)
  unfolding get put
  get-put k j a [] = refl
  get-put k j a ((i, b) ∷ d) = ground (arith, eq_iff k j, eq_iff i k, eq_iff i j, get-put k j a d)
