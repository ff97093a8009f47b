-- ===== src/Rewrite/Splice.antt =====
-- Rewriting tokens from right to left is the same as copying the statement from left to right with
-- each token replaced.
use Prim.Native.String.{count}
use mathlib.Core.List.{foldl, foldl-append}
use text.Mathlib.TextLemmas.{append_assoc}
use sql_gatekeeper.Prelude.{
  ℕ, ◌-◌, ◌≤◌, ◌<◌, ◌+◌, ◌≡◌, refl, sym, ap, ap₂, ◌∙◌, String, ◌<>◌, List, [], ◌∷◌, ◌++◌, arith,
}
use sql_gatekeeper.Prelude.Text.Slice.{
  take, drop, take-append, take-add, count-take, drop-drop, take-append-drop, drop-count-append,
}
use sql_gatekeeper.Parser.{ParsedSql}
use sql_gatekeeper.Rewrite.{TableRewritePlan, insert_plan, sort_plans, replace_token, rewrite}

-- The statement from `pos` on, with the token of each plan replaced.
unfoldable pub splice : String → ℕ → List TableRewritePlan → String
splice sql pos [] = drop pos sql
splice sql pos (p ∷ ps) =
    take (p.token_start - pos) (drop pos sql)
    <> (p.physical_table_name <> splice sql p.token_end ps)

-- The tokens are nonempty, lie in the statement and stand one behind the other.
abbrev pub PlansInOrder : String → ℕ → List TableRewritePlan → Type 0
PlansInOrder sql pos [] = pos ≤ count sql
PlansInOrder sql pos (p ∷ ps) =
    (pos ≤ p.token_start)
    × (p.token_start < p.token_end)
    × (p.token_end ≤ count sql)
    × PlansInOrder sql p.token_end ps

abbrev Below : ℕ → List TableRewritePlan → Type 0
Below n [] = Unit
Below n (q ∷ qs) = (n < q.token_start) × Below n qs

insert_plan-last :
    (p : TableRewritePlan) (qs : List TableRewritePlan)
    → Below p.token_start qs
    → insert_plan p qs ≡ qs ++ p ∷ []
unfolding insert_plan
insert_plan-last p [] h = refl
insert_plan-last p (q ∷ qs) (lt, h) = ground (arith, insert_plan-last p qs h)

insert_plan-Below :
    (n : ℕ) (p : TableRewritePlan) (qs : List TableRewritePlan)
    → n < p.token_start
    → Below n qs
    → Below n (insert_plan p qs)
unfolding insert_plan
insert_plan-Below n p [] lt h = (lt, tt)
insert_plan-Below n p (q ∷ qs) lt (k, h) = ground (arith, insert_plan-Below n p qs lt h)

sort_plans-Below :
    (sql : String) (n pos : ℕ) (ps : List TableRewritePlan)
    → n < pos
    → PlansInOrder sql pos ps
    → Below n (sort_plans ps)
unfolding sort_plans
sort_plans-Below sql n pos [] lt h = tt
sort_plans-Below sql n pos (p ∷ ps) lt (le, ne, fits, h) =
    insert_plan-Below n p (sort_plans ps) (omega arith)
      (sort_plans-Below sql n p.token_end ps (omega arith) h)

sort_plans-last :
    (sql : String) (p : TableRewritePlan) (ps : List TableRewritePlan)
    → p.token_start < p.token_end
    → PlansInOrder sql p.token_end ps
    → sort_plans (p ∷ ps) ≡ sort_plans ps ++ p ∷ []
unfolding sort_plans
sort_plans-last sql p ps ne h =
    insert_plan-last p (sort_plans ps) (sort_plans-Below sql p.token_start p.token_end ps ne h)

-- Copying may begin anywhere before the first token.
splice_shift :
    (sql : String) (i e : ℕ) (ps : List TableRewritePlan)
    → i ≤ e
    → PlansInOrder sql e ps
    → splice sql i ps ≡ take (e - i) (drop i sql) <> splice sql e ps
unfolding splice
splice_shift sql i e [] le h =
    let there : i + (e - i) ≡ e = omega arith in
    sym (take-append-drop (e - i) (drop i sql))
    ∙ ap (λ t. take (e - i) (drop i sql) <> t)
        (drop-drop (e - i) i sql ∙ ap (λ n. drop n sql) there)
splice_shift sql i e (p ∷ ps) le (le', ne, fits, h) =
    let there : i + (e - i) ≡ e = omega arith in
    let parts : e - i + (p.token_start - e) ≡ p.token_start - i = omega arith in
    let from_e : drop (e - i) (drop i sql) ≡ drop e sql =
      drop-drop (e - i) i sql ∙ ap (λ n. drop n sql) there in
    let head : take (p.token_start - i) (drop i sql)
        ≡ take (e - i) (drop i sql) <> take (p.token_start - e) (drop e sql) =
      ap (λ n. take n (drop i sql)) (sym parts)
      ∙ take-add (e - i) (p.token_start - e) (drop i sql)
      ∙ ap (λ t. take (e - i) (drop i sql) <> take (p.token_start - e) t) from_e in
    ap (λ t. t <> (p.physical_table_name <> splice sql p.token_end ps)) head ∙ append_assoc _ _ _

PlansInOrder-within :
    (sql : String) (pos : ℕ) (ps : List TableRewritePlan)
    → PlansInOrder sql pos ps
    → pos ≤ count sql
PlansInOrder-within sql pos [] h = h
PlansInOrder-within sql pos (p ∷ ps) (le, ne, fits, h) = omega arith

-- Replacing the first token last meets a text in which all behind it is done.
replace_first :
    (sql : String) (p : TableRewritePlan) (ps : List TableRewritePlan)
    → p.token_start < p.token_end
    → p.token_end ≤ count sql
    → PlansInOrder sql p.token_end ps
    → replace_token (splice sql 0 ps) p ≡ splice sql 0 (p ∷ ps)
unfolding replace_token splice drop
replace_first sql p ps ne fits h =
    let front : String = take p.token_end sql in
    let size : count front ≡ p.token_end = count-take p.token_end sql fits in
    let split : splice sql 0 ps ≡ front <> splice sql p.token_end ps =
      splice_shift sql 0 p.token_end ps (omega arith) h
      ∙ ap (λ n. take n sql <> splice sql p.token_end ps) (omega arith) in
    let before : take p.token_start (splice sql 0 ps) ≡ take (p.token_start - 0) sql =
      ap (take p.token_start) split
      ∙ take-append p.token_start front _ (omega arith)
      ∙ sym (take-append p.token_start front (drop p.token_end sql) (omega arith))
      ∙ ap (take p.token_start) (take-append-drop p.token_end sql)
      ∙ ap (λ n. take n sql) (omega arith) in
    let behind : drop p.token_end (splice sql 0 ps) ≡ splice sql p.token_end ps =
      ap (drop p.token_end) split
      ∙ ap (λ n. drop n (front <> splice sql p.token_end ps)) (sym size)
      ∙ drop-count-append front (splice sql p.token_end ps) in
    ap₂ (λ s t. s <> (p.physical_table_name <> t)) before behind

foldl-replace_token :
    (sql : String) (pos : ℕ) (ps : List TableRewritePlan)
    → PlansInOrder sql pos ps
    → foldl replace_token sql (sort_plans ps) ≡ splice sql 0 ps
unfolding foldl splice drop sort_plans
foldl-replace_token sql pos [] h = refl
foldl-replace_token sql pos (p ∷ ps) (le, ne, fits, h) =
    ap (foldl replace_token sql) (sort_plans-last sql p ps ne h)
    ∙ foldl-append replace_token sql (sort_plans ps) (p ∷ [])
    ∙ ap (λ s. replace_token s p) (foldl-replace_token sql p.token_end ps h)
    ∙ replace_first sql p ps ne fits h

-- For tokens that are nonempty, disjoint and in order, the rewritten statement is the statement
-- with each token replaced by its physical table and every other character kept.
pub rewrite-eq-splice :
    (parsed : ParsedSql) (ps : List TableRewritePlan)
    → PlansInOrder parsed.original_sql 0 ps
    → rewrite parsed ps ≡ splice parsed.original_sql 0 ps
unfolding rewrite
rewrite-eq-splice parsed [] h = unfold splice drop in refl
rewrite-eq-splice parsed (p ∷ ps) h = foldl-replace_token parsed.original_sql 0 (p ∷ ps) h
