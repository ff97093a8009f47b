-- ===== src/Sync/Store/Rounds.antt =====
-- What the loops that add objects leave, and what they raise.
use mathlib.Core.List.Memᴰ
use mathlib.Core.List.{Memᴰ}
use sql_gatekeeper.Prelude.{
  ℕ, String, ◌≡◌, refl, sym, Bool, some, List, [], ◌∷◌, ◌++◌, map, any, ◌⊎◌, inl, inr, Result,
  Exception, ok, integrity_error, external, Option-cases, if-intro, fold_result, if-eq-cases, ◌==◌,
  eq_iff, arith,
}
use sql_gatekeeper.Prelude.Dict.{Dict, get, put, get-put}
use sql_gatekeeper.Prelude.Folds.{
  Ends, Ends-ok, Ends-mono, Ends-bind, fold_result-Ends, fold_result-reaches,
}
use sql_gatekeeper.Meta.Inserts.{Ids, insert}
use sql_gatekeeper.Sync.Store.{Stored, store, commit_row, object_id, each_of}

-- A violated constraint, or another error of the database.
abbrev pub IsWriteError : Exception → Type 0
IsWriteError x = (x ≡ integrity_error) ⊎ ((e : String) × (x ≡ external e))

pub insert-Ends :
    {A : Type 0} (ids : Ids) (conflicts : A → A → Bool) (row : A) (rows : List A)
    → Ends (λ rows'. rows' ≡ rows ++ row ∷ []) IsWriteError (insert ids conflicts row rows)
unfolding insert
insert-Ends {A} ids conflicts row rows = elim (Option-cases (ids.row_error A row)) [
  | inr (e, refused) ↦ rw (refused, insert, Ends) (inr (e, refl))
  | inl fine ↦
      rw (fine, insert, Ends)
        (if-intro (Ends (λ rows'. rows' ≡ rows ++ row ∷ []) IsWriteError)
          (any (λ old. conflicts old row) rows) (inl refl) refl)
]

abbrev pub HasKey : Dict ℕ → String → Type 0
HasKey objects name = (i : ℕ) × (get name objects ≡ some i)

-- A key that is there stays, and one that is put is there.
put-HasKey : (k j : String) (i : ℕ) (d : Dict ℕ) → (k ≡ j) ⊎ HasKey d j → HasKey (put k i d) j
put-HasKey k j i d h = elim (if-eq-cases (k == j) (some i) (get j d) (sym (get-put k j i d))) [
  | inl (_, e) ↦ (i, sym e)
  | inr (other, e) ↦ elim h [
    | inl same ↦ absurd (ground (arith, eq_iff k j))
    | inr (i', old) ↦ (i', cc)
  ]
]

module _ {R A : Type 0} (name_of : R → String) (make : R → ℕ → A) (id_of : A → ℕ)
    (conflicts : A → A → Bool) (ids : Ids) where
  -- The object of the record is in its dict and its row in the table.
  abbrev pub IsStored : R → Stored A → Type 0
  IsStored r s = HasKey s.objects (name_of r) × ((i : ℕ) × Memᴰ (make r i) s.rows)

  abbrev Round : Stored A → R → Stored A → Type 0
  Round s r s' =
      (s'.objects ≡ put (name_of r) (ids.next_id (map id_of s.rows)) s.objects)
      × (s'.rows ≡ s.rows ++ make r (ids.next_id (map id_of s.rows)) ∷ [])

  store-Ends :
      (s : Stored A) (r : R)
      → Ends (Round s r) IsWriteError (store name_of make id_of conflicts ids s r)
  unfolding store
  store-Ends s r =
      let i = ids.next_id (map id_of s.rows) in
      Ends-bind (λ rows. rows ≡ s.rows ++ make r i ∷ []) (Round s r) IsWriteError
        (insert ids conflicts (make r i) s.rows)
        (λ rows. ok (record { objects = put (name_of r) i s.objects; rows = rows }))
        (insert-Ends ids conflicts (make r i) s.rows) (λ rows e same. (refl, same))

  Round-IsStored : (s : Stored A) (r : R) (s' : Stored A) → Round s r s' → IsStored r s'
  Round-IsStored s r s' (o, e) =
      let i = ids.next_id (map id_of s.rows) in
      (
        rw o (put-HasKey (name_of r) (name_of r) i s.objects (inl refl)),
        (i, rw e (Memᴰ.append_right s.rows (Memᴰ.head refl))),
      )

  Round-keeps :
      (q : R) (s : Stored A) (r : R) (s' : Stored A) → Round s r s' → IsStored q s → IsStored q s'
  Round-keeps q s r s' (o, e) (h, (j, m)) =
      let i = ids.next_id (map id_of s.rows) in
      (
        rw o (put-HasKey (name_of r) (name_of q) i s.objects (inr h)),
        (j, rw e (Memᴰ.append_left (make r i ∷ []) m)),
      )

  -- A row is one of before or that of a record.
  abbrev pub IsFrom : List R → List A → A → Type 0
  IsFrom rs before a = Memᴰ a before ⊎ ((r : R) × (i : ℕ) × Memᴰ r rs × (a ≡ make r i))

  pub stored-IsStored :
      (rs : List R) (s : Stored A) {s' : Stored A} {r : R}
      → fold_result (store name_of make id_of conflicts ids) s rs ≡ ok s'
      → Memᴰ r rs
      → IsStored r s'
  stored-IsStored rs s e m =
      fold_result-reaches (store name_of make id_of conflicts ids) IsStored rs s
        (λ t q t' e'. Round-IsStored t q t' (
          Ends-ok (Round t q) IsWriteError (store name_of make id_of conflicts ids t q)
            (store-Ends t q) e'))
        (λ p t q t' e'. Round-keeps p t q t' (
          Ends-ok (Round t q) IsWriteError (store name_of make id_of conflicts ids t q)
            (store-Ends t q) e'))
        e m

  pub stored-Ends :
      (rs : List R) (s : Stored A)
      → Ends
          (λ s'. (a : A) → Memᴰ a s'.rows → IsFrom rs s.rows a)
          IsWriteError
          (fold_result (store name_of make id_of conflicts ids) s rs)
  stored-Ends rs s =
      let P = λ (t : Stored A). (a : A) → Memᴰ a t.rows → IsFrom rs s.rows a in
      fold_result-Ends (store name_of make id_of conflicts ids) P IsWriteError rs
        (λ t r m h.
          Ends-mono (Round t r) P IsWriteError (store name_of make id_of conflicts ids t r)
            (λ t' (_, e) a k. elim (Memᴰ.append_cases t.rows (rw e at k)) [
              | inl old ↦ h a old
              | inr last ↦ elim (Memᴰ.cases_cons last) [
                | inl same ↦ inr (r, ids.next_id (map id_of t.rows), m, same)
                | inr later ↦ elim later [ ]
              ]
            ])
            (store-Ends t r))
        s (λ a m. inl m)

-- With every key there, a loop raises nothing.
pub object_id-HasKey :
    (objects : Dict ℕ) (name : String)
    → HasKey objects name
    → (i : ℕ) × (object_id objects name ≡ ok i)
object_id-HasKey objects name (i, e) = (i, rw (e, object_id) refl)

pub each_of-returns :
    {R B : Type 0} (f : R → Result B) (rs : List R)
    → ((r : R) → Memᴰ r rs → (b : B) × (f r ≡ ok b))
    → (bs : List B) × (each_of f rs ≡ ok bs)
unfolding each_of
each_of-returns f [] h = ([], refl)
each_of-returns f (r ∷ rs) h =
    let (b, e) = h r (Memᴰ.head refl) in
    let (bs, e') = each_of-returns f rs (λ q m. h q (Memᴰ.tail m)) in (b ∷ bs, rw (e, e') refl)

-- A commit of rows raises at most the integrity error.
pub committed-Ends :
    {A : Type 0} (id_of : A → ℕ) (conflicts : A → A → Bool) (ids : Ids) (rows : List A)
    (waiting : List (ℕ → A))
    → Ends
        (λ (rows' : List A). Unit)
        IsWriteError
        (fold_result (commit_row id_of conflicts ids) rows waiting)
unfolding commit_row
committed-Ends {A} id_of conflicts ids rows waiting =
    fold_result-Ends (commit_row id_of conflicts ids) (λ (rows' : List A). Unit) IsWriteError
      waiting
      (λ s w m t.
        let row = w (ids.next_id (map id_of s)) in
        Ends-mono (λ rows'. rows' ≡ s ++ row ∷ []) (λ (rows' : List A). Unit) IsWriteError
          (insert ids conflicts row s) (λ _ _. tt) (insert-Ends ids conflicts row s))
      rows tt
