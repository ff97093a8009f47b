-- ===== src/Prelude/Outcome.antt =====
-- What a Python call does: it returns, or an exception leaves it. An exception of code outside the
-- repository carries its text.
use Prim.Native.String.{String}
use mathlib.Core.Path.{◌≡◌, refl}
use mathlib.Core.List.{List, [], ◌∷◌}
use mathlib.Core.Logic.{◌⊎◌, inl, inr}

pub data Exception : Type 0 where
  multiple_results_found index_error key_error assertion_error value_error runtime_error
        integrity_error :
      Exception
  external : String → Exception

pub data Result {ℓ} (A : Type ℓ) : Type ℓ where
  raise : Exception → Result A
  ok : A → Result A

-- An exception skips what follows.
infixl 5 ◌>>=◌
abbrev pub ◌>>=◌ {ℓ κ} : {A : Type ℓ} {B : Type κ} → Result A → (A → Result B) → Result B
raise x >>= next = raise x
ok value >>= next = next value

-- A sequence that returned has had both its calls return.
pub >>=-eq-ok {κ ℓ} :
    {A : Type κ} {B : Type ℓ} (first : Result A) (next : A → Result B) {result : B}
    → (first >>= next) ≡ ok result
    → (value : A) × (first ≡ ok value) × (next value ≡ ok result)
>>=-eq-ok (raise x) next returned = absurd (cc)
>>=-eq-ok (ok value) next returned = (value, refl, returned)

-- A sequence that raised has had one of its calls raise.
pub >>=-eq-raise {κ ℓ} :
    {A : Type κ} {B : Type ℓ} (first : Result A) (next : A → Result B) {x : Exception}
    → (first >>= next) ≡ raise x
    → (first ≡ raise x) ⊎ ((value : A) × (first ≡ ok value) × (next value ≡ raise x))
>>=-eq-raise (raise y) next raised = inl (cc)
>>=-eq-raise (ok value) next raised = inr (value, refl, raised)

-- If the call returns, its value satisfies `P`.
abbrev pub Ensures {ℓ κ} : {A : Type ℓ} → (A → Type κ) → Result A → Type κ
Ensures P (ok a) = P a
Ensures P (raise e) = Unit

module _ {ℓ κ μ} {A : Type ℓ} {B : Type κ} where
  pub Ensures-bind :
      (P : B → Type μ) (m : Result A) (f : A → Result B)
      → ((a : A) → m ≡ ok a → Ensures P (f a))
      → Ensures P (m >>= f)
  Ensures-bind P (ok a) f h = h a refl
  Ensures-bind P (raise e) f h = tt

module _ {ℓ κ} {A : Type ℓ} where
  pub Ensures-ok : (P : A → Type κ) (m : Result A) {a : A} → Ensures P m → m ≡ ok a → P a
  Ensures-ok P m h e = rw e at h

  pub Ensures-mono {μ} :
      (P : A → Type κ) (Q : A → Type μ) (m : Result A)
      → ((a : A) → P a → Q a)
      → Ensures P m
      → Ensures Q m
  Ensures-mono P Q (ok a) f h = f a h
  Ensures-mono P Q (raise e) f h = tt

pub Result-cases {ℓ} :
    {A : Type ℓ} (r : Result A) → ((a : A) × (r ≡ ok a)) ⊎ ((e : Exception) × (r ≡ raise e))
Result-cases (ok a) = inl (a, refl)
Result-cases (raise e) = inr (e, refl)

pub ok-eq {ℓ} : {A : Type ℓ} {x y : A} → ok x ≡ ok y → x ≡ y
ok-eq e = cc

-- A loop that carries a state and may end with an exception.
unfoldable pub fold_result {ℓ κ} :
    {S : Type ℓ} {A : Type κ} → (S → A → Result S) → S → List A → Result S
fold_result step s [] = ok s
fold_result step s (a ∷ as') = elim (step s a) [
  | raise e ↦ raise e
  | ok s' ↦ fold_result step s' as'
]
