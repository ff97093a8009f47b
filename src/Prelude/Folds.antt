-- ===== src/Prelude/Folds.antt =====
-- What a loop with exceptions keeps, reaches and raises.
use mathlib.Core.Path.{◌≡◌, refl}
use mathlib.Core.List.{List, [], ◌∷◌, Memᴰ, foldl}
use mathlib.Core.List.Memᴰ
use mathlib.Core.Logic.{inl, inr}
use sql_gatekeeper.Prelude.Outcome.{
  Exception, Result, raise, ok, ◌>>=◌, fold_result, Result-cases, ok-eq,
}

-- A returned value satisfies `P`, an exception `E`.
abbrev pub Ends {ℓ κ} : {A : Type ℓ} → (A → Type κ) → (Exception → Type κ) → Result A → Type κ
Ends P E (ok a) = P a
Ends P E (raise e) = E e

pub Ends-intro {ℓ κ} :
    {A : Type ℓ} (P : A → Type κ) (E : Exception → Type κ) (m : Result A)
    → ((a : A) → m ≡ ok a → P a)
    → ((x : Exception) → m ≡ raise x → E x)
    → Ends P E m
Ends-intro P E (ok a) h k = h a refl
Ends-intro P E (raise x) h k = k x refl

pub Ends-ok {ℓ κ} :
    {A : Type ℓ} (P : A → Type κ) (E : Exception → Type κ) (m : Result A) {a : A}
    → Ends P E m
    → m ≡ ok a
    → P a
Ends-ok P E m h e = rw e at h

pub Ends-raise {ℓ κ} :
    {A : Type ℓ} (P : A → Type κ) (E : Exception → Type κ) (m : Result A) {x : Exception}
    → Ends P E m
    → m ≡ raise x
    → E x
Ends-raise P E m h e = rw e at h

pub Ends-mono {ℓ κ} :
    {A : Type ℓ} (P : A → Type κ) (Q : A → Type κ) (E : Exception → Type κ) (m : Result A)
    → ((a : A) → P a → Q a)
    → Ends P E m
    → Ends Q E m
Ends-mono P Q E (ok a) f h = f a h
Ends-mono P Q E (raise x) f h = h

pub Ends-bind {ℓ κ μ} :
    {A : Type ℓ} {B : Type κ} (Q : A → Type μ) (P : B → Type μ) (E : Exception → Type μ)
    (m : Result A) (f : A → Result B)
    → Ends Q E m
    → ((a : A) → m ≡ ok a → Q a → Ends P E (f a))
    → Ends P E (m >>= f)
Ends-bind Q P E (ok a) f h k = k a refl h
Ends-bind Q P E (raise x) f h k = h

module _ {ℓ κ μ} {S : Type ℓ} {A : Type κ} (step : S → A → Result S) where
  -- An invariant of the rounds is one of the loop, and so is what the rounds raise.
  pub fold_result-Ends :
      (P : S → Type μ) (E : Exception → Type μ) (xs : List A)
      → ((s : S) (a : A) → Memᴰ a xs → P s → Ends P E (step s a))
      → (s : S) → P s
      → Ends P E (fold_result step s xs)
  unfolding fold_result
  fold_result-Ends P E [] keep s h = h
  fold_result-Ends P E (a ∷ xs) keep s h = elim (Result-cases (step s a)) [
    | inl (s', e) ↦
        let k = keep s a (Memᴰ.head refl) h in
        let k' : P s' = rw e at k in
        rw (e, fold_result, Ends) (fold_result-Ends P E xs (λ t b m. keep t b (Memᴰ.tail m)) s' k')
    | inr (x, e) ↦
        let k = keep s a (Memᴰ.head refl) h in
        let k' : E x = rw e at k in rw (e, fold_result, Ends) k'
  ]

  -- What a round establishes for its item and the later rounds keep holds for every item.
  pub fold_result-keeps :
      (Q : S → Type μ) (xs : List A) {s s' : S}
      → ((t : S) (a : A) (t' : S) → step t a ≡ ok t' → Q t → Q t')
      → fold_result step s xs ≡ ok s'
      → Q s
      → Q s'
  unfolding fold_result
  fold_result-keeps Q [] keep e q = rw (ok-eq e) at q
  fold_result-keeps Q (a ∷ xs) {s} keep e q = elim (Result-cases (step s a)) [
    | inl (t, same) ↦ fold_result-keeps Q xs keep (rw (same, fold_result) at e) (keep s a t same q)
    | inr (x, same) ↦ absurd (cc (rw (same, fold_result) at e))
  ]

  -- Every item is reached: what its round establishes holds at the end.
  pub fold_result-reaches :
      (Q : A → S → Type μ) (xs : List A) (s : S) {s' : S} {a : A}
      → ((t : S) (b : A) (t' : S) → step t b ≡ ok t' → Q b t')
      → ((b : A) (t : S) (c : A) (t' : S) → step t c ≡ ok t' → Q b t → Q b t')
      → fold_result step s xs ≡ ok s'
      → Memᴰ a xs
      → Q a s'
  unfolding fold_result
  fold_result-reaches Q [] s make keep e m = elim m [ ]
  fold_result-reaches Q (b ∷ xs) s {s'} {a} make keep e m = elim (Result-cases (step s b)) [
    | inr (x, same) ↦ absurd (cc (rw (same, fold_result) at e))
    | inl (t, same) ↦
        let e' = rw (same, fold_result) at e in
        elim (Memᴰ.cases_cons m) [
          | inl here ↦ fold_result-keeps (Q a) xs (keep a) e' (rw (← here) at (make s b t same))
          | inr later ↦ fold_result-reaches Q xs t make keep e' later
        ]
  ]

-- An invariant of the rounds of a loop that raises nothing.
pub foldl-keeps {ℓ κ μ} :
    {S : Type ℓ} {A : Type κ} (step : S → A → S) (P : S → Type μ) (xs : List A)
    → ((s : S) (a : A) → Memᴰ a xs → P s → P (step s a))
    → (s : S) → P s
    → P (foldl step s xs)
foldl-keeps step P [] keep s h = h
foldl-keeps step P (a ∷ xs) keep s h =
    foldl-keeps step P xs (λ t b m. keep t b (Memᴰ.tail m)) (step s a) (keep s a (Memᴰ.head refl) h)
