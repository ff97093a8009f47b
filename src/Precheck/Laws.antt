-- ===== src/Precheck/Laws.antt =====
-- When the precheck lets a statement through.
use sql_gatekeeper.Prelude.{
  String, ◌≡◌, ◌↔◌, refl, inl, inr, Bool-cases, true, false, ◌==◌, eq_iff, arith,
}
use sql_gatekeeper.Prelude.Text.{lower, strip, is_empty}
use sql_gatekeeper.Parser.{holds_semicolon}
use sql_gatekeeper.Precheck.{evaluate, judge_token, first_token, leading_comment}

-- The statement is not blank, has no semicolon but at its end, opens with no comment, and its first
-- word is `select` in any case.
abbrev pub IsSelect : String → Type 0
IsSelect sql =
    (is_empty (strip sql) ≡ false)
    × (holds_semicolon (lower (strip sql)) ≡ false)
    × (leading_comment (lower (strip sql)) ≡ false)
    × (first_token (lower (strip sql)) ≡ "select")

judge_token-allowed_iff : (t : String) → ((judge_token t).allowed ≡ true) ↔ (t ≡ "select")
judge_token-allowed_iff t = (
  λ h. elim (Bool-cases (t == "select")) [
    | inl same ↦ (eq_iff t "select").0 same
    | inr other ↦ absurd (ground arith)
  ],
  λ e. rw e refl,
)

-- The guard allows exactly where none of its tests refuses.
pub evaluate-allowed_iff : (sql : String) → ((evaluate sql).allowed ≡ true) ↔ IsSelect sql
unfolding evaluate
evaluate-allowed_iff sql = (
  λ h. ground (arith, (judge_token-allowed_iff (first_token (lower (strip sql)))).0),
  λ (blank, several, comment, word).
      rw (blank, several, comment) ((judge_token-allowed_iff _).1 word),
)
