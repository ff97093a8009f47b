-- ===== src/Prelude/DictMembers.antt =====
-- The pairs of a dict after an assignment.
use mathlib.Core.List.Memᴰ
use mathlib.Core.List.{Memᴰ}
use sql_gatekeeper.Prelude.{
  String, ◌≡◌, refl, none, some, [], ◌∷◌, ◌==◌, ◌⊎◌, inl, inr, eq_iff, arith, if-eq-cases,
}
use sql_gatekeeper.Prelude.Dict.{Dict, get, put}

module _ {ℓ} {A : Type ℓ} where
  pub put-Memᴰ :
      (k : String) (a : A) (d : Dict A) {p : String × A}
      → Memᴰ p (put k a d)
      → Memᴰ p d ⊎ (p ≡ (k, a))
  unfolding put
  put-Memᴰ k a [] m = elim (Memᴰ.cases_cons m) [ inl same ↦ inr same | inr later ↦ inl later ]
  put-Memᴰ k a ((j, b) ∷ d) m = elim (if-eq-cases (j == k) ((j, a) ∷ d) ((j, b) ∷ put k a d) refl) [
    | inl (same, e) ↦
        let j≡k : j ≡ k = ground (arith, eq_iff j k) in
        elim (Memᴰ.cases_cons (rw (← e) at m)) [
          | inl here ↦ inr (cc)
          | inr later ↦ inl (Memᴰ.tail later)
        ]
    | inr (_, e) ↦ elim (Memᴰ.cases_cons (rw (← e) at m)) [
      | inl here ↦ inl (Memᴰ.head here)
      | inr later ↦ elim (put-Memᴰ k a d later) [
        | inl old ↦ inl (Memᴰ.tail old)
        | inr new ↦ inr new
      ]
    ]
  ]

  -- The pair that is put is a pair of the dict.
  pub Memᴰ-put : (k : String) (a : A) (d : Dict A) → Memᴰ (k, a) (put k a d)
  unfolding put
  Memᴰ-put k a [] = Memᴰ.head refl
  Memᴰ-put k a ((j, b) ∷ d) = elim (if-eq-cases (j == k) ((j, a) ∷ d) ((j, b) ∷ put k a d) refl) [
    | inl (same, e) ↦ let j≡k : j ≡ k = ground (arith, eq_iff j k) in rw (← e) (Memᴰ.head (cc))
    | inr (_, e) ↦ rw (← e) (Memᴰ.tail (Memᴰ-put k a d))
  ]

  -- A new key leaves the other pairs.
  pub Memᴰ-put_new :
      (k : String) (a : A) (d : Dict A) {p : String × A}
      → get k d ≡ none
      → Memᴰ p d
      → Memᴰ p (put k a d)
  unfolding put get
  Memᴰ-put_new k a [] new m = elim m [ ]
  Memᴰ-put_new k a ((j, b) ∷ d) new m = elim (if-eq-cases (j == k) (some b) (get k d) new) [
    | inl (_, e) ↦ absurd (cc)
    | inr (other, new') ↦ rw other (elim (Memᴰ.cases_cons m) [
      | inl here ↦ Memᴰ.head here
      | inr later ↦ Memᴰ.tail (Memᴰ-put_new k a d new' later)
    ])
  ]

  pub get-Memᴰ : (k : String) (d : Dict A) {a : A} → get k d ≡ some a → Memᴰ (k, a) d
  unfolding get
  get-Memᴰ k [] e = absurd (cc)
  get-Memᴰ k ((j, b) ∷ d) {a} e = elim (if-eq-cases (j == k) (some b) (get k d) e) [
    | inl (same, e') ↦
        let j≡k : j ≡ k = ground (arith, eq_iff j k) in let b≡a : b ≡ a = cc in Memᴰ.head (cc)
    | inr (_, e') ↦ Memᴰ.tail (get-Memᴰ k d e')
  ]
