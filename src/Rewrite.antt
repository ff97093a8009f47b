-- ===== src/Rewrite.antt =====
-- services/sql_rewrite.py: table tokens are replaced from the last one to the first, so that the
-- positions of the others stay right.
pub mod Splice
pub mod Tokens
use Prim.Native.String.{String}
use mathlib.Core.List.{foldl}
use sql_gatekeeper.Prelude.{ℕ, ◌<>◌, List, [], ◌∷◌, leb, if◌then◌else◌}
use sql_gatekeeper.Prelude.Text.Slice.{take, drop}
use sql_gatekeeper.Parser.{ParsedSql}

pub record TableRewritePlan : Type 0 where
  pub original_table_name : String
  pub physical_table_name : String
  pub token_start : ℕ
  pub token_end : ℕ

-- `sorted(plans, key=token_start, reverse=True)`, which keeps the order of equal keys.
insert_plan : TableRewritePlan → List TableRewritePlan → List TableRewritePlan
insert_plan p [] = p ∷ []
insert_plan p (q ∷ qs) =
    let later = insert_plan p qs in
    if leb q.token_start p.token_start then p ∷ q ∷ qs else q ∷ later

sort_plans : List TableRewritePlan → List TableRewritePlan
sort_plans [] = []
sort_plans (p ∷ ps) = insert_plan p (sort_plans ps)

-- One round of the loop.
replace_token : String → TableRewritePlan → String
replace_token rewritten plan =
    take plan.token_start rewritten <> (plan.physical_table_name <> drop plan.token_end rewritten)

unfoldable pub rewrite : ParsedSql → List TableRewritePlan → String
unfolding sort_plans insert_plan replace_token foldl
rewrite parsed [] = parsed.original_sql
rewrite parsed (p ∷ ps) = foldl replace_token parsed.original_sql (sort_plans (p ∷ ps))
