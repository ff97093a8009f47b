-- ===== src/Sync/Bundle/Collects.antt =====
-- What the loop over the rows has collected: every row of a group has its datasource.
use mathlib.Core.List.Memᴰ
use mathlib.Core.List.{Memᴰ}
use sql_gatekeeper.Prelude.{
  String, ◌≡◌, refl, ap, List, [], ◌∷◌, ◌++◌, ◌⊎◌, inl, inr, Option-cases, if-intro,
}
use sql_gatekeeper.Prelude.Text.{is_empty, strip}
use sql_gatekeeper.Prelude.Dict.{Dict, get}
use sql_gatekeeper.Prelude.DictMembers.{put-Memᴰ, Memᴰ-put, Memᴰ-put_new, get-Memᴰ}
use sql_gatekeeper.Prelude.Folds.{foldl-keeps}
use sql_gatekeeper.Sync.Library.{Library}
use sql_gatekeeper.Sync.Identifiers.{make_datasource_code, make_logical_table_name}
use sql_gatekeeper.Sync.Records.{TableConfigRow, ImportedDatasourceTarget, DatasourceRecord}
use sql_gatekeeper.Sync.Bundle.{
  Collected, set_default, append_to, normalized, datasource_record, collect_normalized, collect_row,
  collect,
}

module _ {A : Type 0} (k : String) (a : A) (d : Dict A) where
  set_default-Memᴰ : {p : String × A} → Memᴰ p (set_default k a d) → Memᴰ p d ⊎ (p ≡ (k, a))
  unfolding set_default
  set_default-Memᴰ m = elim (Option-cases (get k d)) [
    | inl e ↦ put-Memᴰ k a d (rw (e, set_default) at m)
    | inr (b, e) ↦ inl (rw (e, set_default) at m)
  ]

  Memᴰ-set_default : {p : String × A} → Memᴰ p d → Memᴰ p (set_default k a d)
  unfolding set_default
  Memᴰ-set_default m = elim (Option-cases (get k d)) [
    | inl e ↦ rw (e, set_default) (Memᴰ-put_new k a d e m)
    | inr (b, e) ↦ rw (e, set_default) m
  ]

  -- The key is there afterwards.
  set_default-has : (b : A) × Memᴰ (k, b) (set_default k a d)
  unfolding set_default
  set_default-has = elim (Option-cases (get k d)) [
    | inl e ↦ (a, rw (e, set_default) (Memᴰ-put k a d))
    | inr (b, e) ↦ (b, rw (e, set_default) (get-Memᴰ k d e))
  ]

-- A list of the dict after an `append` is one before it, or it ends with the item.
append_to-Memᴰ :
    {A : Type 0} (k : String) (a : A) (d : Dict (List A)) {p : String × List A}
    → Memᴰ p (append_to k a d)
    → Memᴰ p d ⊎ ((as' : List A) × ((as' ≡ []) ⊎ Memᴰ (k, as') d) × (p ≡ (k, as' ++ a ∷ [])))
unfolding append_to
append_to-Memᴰ k a d m = elim (Option-cases (get k d)) [
  | inl e ↦ elim (put-Memᴰ k (a ∷ []) d (rw (e, append_to) at m)) [
    | inl old ↦ inl old
    | inr new ↦ inr ([], inl refl, new)
  ]
  | inr (as', e) ↦ elim (put-Memᴰ k (as' ++ a ∷ []) d (rw (e, append_to) at m)) [
    | inl old ↦ inl old
    | inr new ↦ inr (as', inr (get-Memᴰ k d e), new)
  ]
]

module _ (lib : Library) where
  abbrev pub HasSource : Dict DatasourceRecord → TableConfigRow → Type 0
  HasSource sources row =
      (d : DatasourceRecord) × Memᴰ (make_datasource_code lib row.source_name, d) sources

  abbrev pub IsSourced : Dict DatasourceRecord → List TableConfigRow → Type 0
  IsSourced sources rows = (row : TableConfigRow) → Memᴰ row rows → HasSource sources row

  pub record WellCollected (c : Collected) : Type 0 where
    pub is_coded :
        (k : String) (d : DatasourceRecord) → Memᴰ (k, d) c.datasource_map → d.datasource_code ≡ k
    pub is_filled : (k : String) → Memᴰ (k, []) c.logical_groups → ⊥
    pub is_sourced :
        (k : String) (rows : List TableConfigRow)
        → Memᴰ (k, rows) c.logical_groups
        → IsSourced c.datasource_map rows

  module _ (target : ImportedDatasourceTarget) where
    collect_normalized-WellCollected :
        (c : Collected) (row : TableConfigRow)
        → WellCollected c
        → WellCollected (collect_normalized lib target c row)
    collect_normalized-WellCollected c row w =
        let code = make_datasource_code lib row.source_name in
        let source = datasource_record lib target row.source_name in
        let name = make_logical_table_name lib row.catlog_name row.table_name in
        let widen : (r : TableConfigRow)
            → HasSource c.datasource_map r
            → HasSource (set_default code source c.datasource_map) r =
          λ r h. (h.0, Memᴰ-set_default code source c.datasource_map h.1) in
        record {
          is_coded = λ k d m. elim (set_default-Memᴰ code source c.datasource_map m) [
            | inl old ↦ w.is_coded k d old
            | inr new ↦ cc (ap (λ p. p.0) new, ap (λ p. p.1.datasource_code) new)
          ];
          is_filled = λ k m. elim (append_to-Memᴰ name row c.logical_groups m) [
            | inl old ↦ w.is_filled k old
            | inr ([], old, new) ↦ absurd (cc (ap (λ p. p.1) new))
            | inr (a ∷ as', old, new) ↦ absurd (cc (ap (λ p. p.1) new))
          ];
          is_sourced = λ k rows m r mr. elim (append_to-Memᴰ name row c.logical_groups m) [
            | inl old ↦ widen r (w.is_sourced k rows old r mr)
            | inr (as', from, new) ↦ elim (Memᴰ.append_cases as' (rw (ap (λ p. p.1) new) at mr)) [
              | inl before ↦ elim from [
                | inl none' ↦ elim (rw none' at before) [ ]
                | inr old ↦ widen r (w.is_sourced name as' old r before)
              ]
              | inr last ↦ elim (Memᴰ.cases_cons last) [
                | inl same ↦ rw same (set_default-has code source c.datasource_map)
                | inr later ↦ elim later [ ]
              ]
            ]
          ];
        }

    collect_row-WellCollected :
        (c : Collected) (row : TableConfigRow)
        → WellCollected c
        → WellCollected (collect_row lib target c row)
    unfolding collect_row
    collect_row-WellCollected c row w =
        if-intro WellCollected (is_empty (strip row.table_name))
          (record { is_coded = w.is_coded; is_filled = w.is_filled; is_sourced = w.is_sourced })
          (collect_normalized-WellCollected c (normalized row) w)

    pub collect-WellCollected :
        (rows : List TableConfigRow) → WellCollected (collect lib target rows)
    unfolding collect
    collect-WellCollected rows =
        foldl-keeps (collect_row lib target) WellCollected rows
          (λ c row m w. collect_row-WellCollected c row w)
          (record { datasource_map = []; logical_groups = []; skipped_rows = 0 })
          (record {
            is_coded = λ k d m. elim m [ ];
            is_filled = λ k m. elim m [ ];
            is_sourced = λ k r m. elim m [ ];
          })
