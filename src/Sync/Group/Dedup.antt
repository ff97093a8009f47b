-- ===== src/Sync/Group/Dedup.antt =====
-- `unique_segments`: of the rows with the same segment the last one, at the place of the first.
use mathlib.Core.List.Memᴰ
use mathlib.Core.List.{foldl, Memᴰ}
use sql_gatekeeper.Prelude.{List, [], ◌∷◌, ◌≡◌, refl, ◌⊎◌, inl, inr, if-eq-cases, if◌then◌else◌}
use sql_gatekeeper.Prelude.Folds.{foldl-keeps}
use sql_gatekeeper.Sync.Records.{TableConfigRow, same_segment}

unfoldable pub put_segment : List TableConfigRow → TableConfigRow → List TableConfigRow
put_segment [] row = row ∷ []
put_segment (r ∷ rows) row =
    let later = put_segment rows row in if same_segment r row then row ∷ rows else r ∷ later

unfoldable pub dedup : List TableConfigRow → List TableConfigRow
dedup rows = foldl put_segment [] rows

put_segment-Memᴰ :
    (rows : List TableConfigRow) (row : TableConfigRow) {r : TableConfigRow}
    → Memᴰ r (put_segment rows row)
    → Memᴰ r rows ⊎ (r ≡ row)
unfolding put_segment
put_segment-Memᴰ [] row m = elim (Memᴰ.cases_cons m) [ inl same ↦ inr same | inr later ↦ inl later ]
put_segment-Memᴰ (s ∷ rows) row m =
    elim (if-eq-cases (same_segment s row) (row ∷ rows) (s ∷ put_segment rows row) refl) [
      | inl (_, e) ↦ elim (Memᴰ.cases_cons (rw (← e) at m)) [
        | inl same ↦ inr same
        | inr later ↦ inl (Memᴰ.tail later)
      ]
      | inr (_, e) ↦ elim (Memᴰ.cases_cons (rw (← e) at m)) [
        | inl same ↦ inl (Memᴰ.head same)
        | inr later ↦ elim (put_segment-Memᴰ rows row later) [
          | inl old ↦ inl (Memᴰ.tail old)
          | inr same ↦ inr same
        ]
      ]
    ]

-- A deduplicated row is a row.
pub dedup-Memᴰ :
    (rows : List TableConfigRow) {r : TableConfigRow} → Memᴰ r (dedup rows) → Memᴰ r rows
unfolding dedup
dedup-Memᴰ rows {r} m =
    foldl-keeps put_segment (λ kept. (s : TableConfigRow) → Memᴰ s kept → Memᴰ s rows) rows
      (λ kept row k h s m'. elim (put_segment-Memᴰ kept row m') [
        | inl old ↦ h s old
        | inr same ↦ rw same k
      ])
      [] (λ s m'. elim m' [ ]) r m
