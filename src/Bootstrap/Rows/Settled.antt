-- ===== src/Bootstrap/Rows/Settled.antt =====
-- An upsert whose row is there already, and what other upserts leave of it.
use mathlib.Core.List.Memᴰ
use mathlib.Core.List.{Memᴰ}
use sql_gatekeeper.Prelude.{
  ℕ, ◌≡◌, refl, ap, sym, true, false, List, [], ◌∷◌, ◌++◌, map, keep, Memᴰ-keep, if-intro, ◌⊎◌, inl,
  inr, ok, >>=-eq-ok, ok-eq, Bool-cases,
}
use sql_gatekeeper.Prelude.Folds.{Ends-ok}
use sql_gatekeeper.Meta.Inserts.{Ids, insert}
use sql_gatekeeper.Repositories.{Orm}
use sql_gatekeeper.Sync.Store.Rounds.{IsWriteError, insert-Ends}
use sql_gatekeeper.Bootstrap.Rows.{Upsert, upsert}
use sql_gatekeeper.Bootstrap.Rows.Touch.{
  Lawful, Apart, keep-match, keep-other, keep-append, List-cases, touch, touch-match, touch-other,
  map-touch, keep-touch,
}

module _ (orm : Orm) (ids : Ids) {A : Type 0} where
  -- The upsert adds a row or updates the one that is found.
  upsert-cases :
      (u : Upsert A) (rows : List A) {i : ℕ} {rows' : List A}
      → upsert orm ids u rows ≡ ok (i, rows')
      → (keep u.matches rows ≡ []) × (rows' ≡ rows ++ u.fresh i ∷ [])
        ⊎ ((a : A) × (keep u.matches rows ≡ a ∷ [])
            × (u.id_of a ≡ i)
            × (rows' ≡ map (touch u) rows))
  unfolding upsert
  upsert-cases u rows {i} {rows'} e = elim (List-cases (keep u.matches rows)) [
    | inl k ↦
        let n = ids.next_id (map u.id_of rows) in
        let (r, inserted, last) =
          >>=-eq-ok (insert ids u.conflicts (u.fresh n) rows) (λ r. ok (n, r))
            (rw (k, orm.one_or_none_empty A, upsert) at e) in
        let added =
          Ends-ok (λ r. r ≡ rows ++ u.fresh n ∷ []) IsWriteError
            (insert ids u.conflicts (u.fresh n) rows) (insert-Ends ids u.conflicts (u.fresh n) rows)
            inserted in
        let same = ok-eq last in inl (k, cc (ap (λ p. p.0) same, ap (λ p. p.1) same, added))
    | inr (inl (a, k)) ↦
        let same = ok-eq (rw (k, orm.one_or_none_single A a, upsert) at e) in
        inr (a, k, ap (λ p. p.0) same, sym (ap (λ p. p.1) same))
    | inr (inr (a, b, rest, k)) ↦
        absurd (cc (rw (k, orm.one_or_none_several A a b rest, upsert) at e))
  ]

  -- One row is found, and the assignments change nothing.
  pub record Settled (u : Upsert A) (i : ℕ) (rows : List A) : Type 0 where
    pub row : A
    pub is_found : keep u.matches rows ≡ row ∷ []
    pub has_id : u.id_of row ≡ i
    pub is_updated : (a : A) → Memᴰ a rows → u.matches a ≡ true → u.update a ≡ a

  pub Settled-upsert :
      (u : Upsert A) {i : ℕ} {rows : List A}
      → Settled u i rows
      → upsert orm ids u rows ≡ ok (i, rows)
  unfolding upsert
  Settled-upsert u {i} {rows} s =
      rw (s.is_found, orm.one_or_none_single A s.row, map-touch u rows s.is_updated, s.has_id) refl

  pub upsert-Settled :
      (u : Upsert A) (rows : List A) {i : ℕ} {rows' : List A}
      → Lawful u
      → upsert orm ids u rows ≡ ok (i, rows')
      → Settled u i rows'
  unfolding keep
  upsert-Settled u rows {i} {rows'} lawful e = elim (upsert-cases u rows e) [
    | inl (k, same) ↦ record {
      row = u.fresh i;
      is_found =
          rw (same, keep-append u.matches rows (u.fresh i ∷ []), k, lawful.fresh_matches i) refl;
      has_id = lawful.fresh_id i;
      is_updated = λ a m match. elim (Memᴰ.append_cases rows (rw same at m)) [
        | inl old ↦ elim (rw k at (Memᴰ-keep u.matches rows match old)) [ ]
        | inr last ↦ elim (Memᴰ.cases_cons last) [
          | inl new ↦ rw new (lawful.fresh_updated i)
          | inr later ↦ elim later [ ]
        ]
      ];
    }
    | inr (a, k, has, same) ↦ record {
      row = touch u a;
      is_found = cc (same, keep-touch u lawful rows, ap (map (touch u)) k);
      has_id = if-intro (λ b. u.id_of b ≡ i) (u.matches a) (cc (lawful.update_id a, has)) has;
      is_updated = λ b m match.
          let (c, mc, made) = Memᴰ.of_map (touch u) rows (rw same at m) in
          elim (Bool-cases (u.matches c)) [
            | inl yes' ↦ cc (made, touch-match u c yes', lawful.update_twice c)
            | inr other ↦ absurd (cc (made, touch-other u c other, other, match))
          ];
    }
  ]

  keep-touch-Apart :
      (u v : Upsert A) (rows : List A)
      → Apart u v
      → keep u.matches (map (touch v) rows) ≡ keep u.matches rows
  keep-touch-Apart u v [] apart = refl
  keep-touch-Apart u v (a ∷ rows) apart = elim (Bool-cases (v.matches a)) [
    | inl e ↦
        let other = apart.finds_other a e in
        let other' : u.matches (touch v a) ≡ false =
          cc (other, apart.updates_other a, touch-match v a e) in
        cc (
          keep-other u.matches (touch v a) (map (touch v) rows) other',
          keep-other u.matches a rows other,
          keep-touch-Apart u v rows apart,
        )
    | inr e ↦ elim (Bool-cases (u.matches a)) [
      | inl m ↦
          let m' : u.matches (touch v a) ≡ true = cc (m, touch-other v a e) in
          cc (
            keep-match u.matches (touch v a) (map (touch v) rows) m',
            keep-match u.matches a rows m,
            touch-other v a e,
            keep-touch-Apart u v rows apart,
          )
      | inr m ↦
          let m' : u.matches (touch v a) ≡ false = cc (m, touch-other v a e) in
          cc (
            keep-other u.matches (touch v a) (map (touch v) rows) m',
            keep-other u.matches a rows m,
            keep-touch-Apart u v rows apart,
          )
    ]
  ]

  -- An upsert of another row leaves a settled one settled.
  pub upsert-keeps-Settled :
      (u v : Upsert A) (rows : List A) {i j : ℕ} {rows' : List A}
      → Apart u v
      → upsert orm ids v rows ≡ ok (j, rows')
      → Settled u i rows
      → Settled u i rows'
  unfolding keep
  upsert-keeps-Settled u v rows {i} {j} apart e s = elim (upsert-cases v rows e) [
    | inl (_, same) ↦ record {
      row = s.row;
      is_found =
          rw (same, keep-append u.matches rows (v.fresh j ∷ []), s.is_found, apart.makes_other j)
            refl;
      has_id = s.has_id;
      is_updated = λ a m match. elim (Memᴰ.append_cases rows (rw same at m)) [
        | inl old ↦ s.is_updated a old match
        | inr last ↦ elim (Memᴰ.cases_cons last) [
          | inl new ↦ absurd (cc (new, apart.makes_other j, match))
          | inr later ↦ elim later [ ]
        ]
      ];
    }
    | inr (_, _, _, same) ↦ record {
      row = s.row;
      is_found = cc (same, keep-touch-Apart u v rows apart, s.is_found);
      has_id = s.has_id;
      is_updated = λ b m match.
          let (c, mc, made) = Memᴰ.of_map (touch v) rows (rw same at m) in
          elim (Bool-cases (v.matches c)) [
            | inl found ↦ absurd (
                cc (
                  made,
                  touch-match v c found,
                  apart.updates_other c,
                  apart.finds_other c found,
                  match,
                ))
            | inr other ↦
                let b≡c : b ≡ c = cc (made, touch-other v c other) in
                rw b≡c (s.is_updated c mc (rw b≡c at match))
          ];
    }
  ]
