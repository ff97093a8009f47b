-- ===== src/Sync/Group.antt =====
-- One logical table: the rows of a group become a table, its factor, its rule and its routes.
pub mod Dedup
pub mod Factor
pub mod Named
use sql_gatekeeper.Prelude.{
  ℕ, String, ◌<>◌, Bool, true, false, not, ◌&&◌, ◌||◌, Option, none, some, List, [], ◌∷◌, ◌++◌, map,
  any, keep, length, ltb, ◌==◌, Result, ok, ◌>>=◌, if◌then◌else◌,
}
use sql_gatekeeper.Prelude.Text.Number.{ℤ, pos, show}
use sql_gatekeeper.Prelude.Int.{show_ℤ, eqb_ℤ, leb_ℤ, is_positive, max_ℤ, range_to, range_below}
use sql_gatekeeper.Prelude.Sorting.{sorted, sorted_by}
use sql_gatekeeper.Prelude.Dict.{Dict}
use sql_gatekeeper.Meta.{Value, null, text, list, number}
use sql_gatekeeper.Filters.{distinct, default_policy_code}
use sql_gatekeeper.Sync.Library.{Library}
use sql_gatekeeper.Sync.Identifiers.{or_else}
use sql_gatekeeper.Sync.Records.{
  TableConfigRow, TableRecord, FactorRecord, RuleRecord, RouteRecord, sync_origin, integer, boolean,
}
use sql_gatekeeper.Sync.Group.Dedup.{dedup}
use sql_gatekeeper.Sync.Routes.{physical_routes}

-- What is computed of the deduplicated rows.
abbrev pub is_sharded : List TableConfigRow → Bool
is_sharded rows = any (λ (r : TableConfigRow). is_positive r.shard_count) rows

-- `sorted({row.source_name or "unknown_source" for row in rows})`
abbrev pub distinct_source_names : List TableConfigRow → List String
distinct_source_names rows =
    sorted_by (λ s. s)
      (distinct (map (λ (r : TableConfigRow). or_else r.source_name "unknown_source") rows))

abbrev pub requires_source_routing : List TableConfigRow → Bool
requires_source_routing rows = not (is_sharded rows) && ltb 1 (length (distinct_source_names rows))

-- The suffixes of the rows with a positive shard count, with repetitions.
unfoldable pub shard_suffixes : List TableConfigRow → List ℤ
shard_suffixes [] = []
shard_suffixes (r ∷ rows) =
    let rest = shard_suffixes rows in
    if is_positive r.shard_count then range_to r.begin_index r.end_index ++ rest else rest

-- `max(shard counts, default=0)`
unfoldable pub max_count : ℤ → List TableConfigRow → ℤ
max_count m [] = m
max_count m (r ∷ rows) = max_count (max_ℤ m r.shard_count) rows

abbrev pub shard_modulus : List TableConfigRow → ℤ
shard_modulus [] = pos 0
shard_modulus (r ∷ rows) = max_count r.shard_count rows

abbrev pub contains : List ℤ → ℤ → Bool
contains is i = any (λ j. eqb_ℤ j i) is

unfoldable pub all_in : List ℤ → List ℤ → Bool
all_in [] js = true
all_in (i ∷ is) js = contains js i && all_in is js

-- `set(is) == set(js)`
abbrev pub same_set : List ℤ → List ℤ → Bool
same_set is js = all_in is js && all_in js is

unfoldable pub supports_business_factor_routing : List TableConfigRow → Bool
supports_business_factor_routing rows =
    is_sharded rows
    && (is_positive (shard_modulus rows)
        && same_set (shard_suffixes rows) (range_below (shard_modulus rows)))

-- A set of integers, sorted.
abbrev pub distinct_counts : List TableConfigRow → List ℤ
distinct_counts [] = []
distinct_counts (r ∷ rows) =
    let rest = distinct_counts rows in
    if contains rest r.shard_count then rest else r.shard_count ∷ rest

-- The entries that one group adds to the bundle.
pub record GroupEntries : Type 0 where
  pub table : TableRecord
  pub factors : List FactorRecord
  pub rules : List RuleRecord
  pub routes : List RouteRecord

module _ (lib : Library) (logical_name : String) where
  abbrev texts : List String → Value
  texts items = list items (lib.shown_texts items)

  abbrev integers : List ℤ → Value
  integers items = list (map show_ℤ items) (lib.shown_integers (map show_ℤ items))

  abbrev route_source : Bool → Bool → Bool → String
  route_source business sharded by_source =
      if business
      then "sql_and_route_context"
      else if sharded || by_source
      then "route_context_or_sql"
      else "sql_or_physical_table"

  -- `sample` is the first row of the group, `rows` are the deduplicated ones.
  abbrev pub table_record : TableConfigRow → ℕ → List TableConfigRow → TableRecord
  table_record sample group_size rows =
      let business = supports_business_factor_routing rows in
      record {
        table_name = logical_name;
        description =
            "Imported from "
            <> (sync_origin <> (": " <> (sample.catlog_name <> ("." <> sample.table_name))));
        route_source = route_source business (is_sharded rows) (requires_source_routing rows);
        physical_name_template =
            if not (is_sharded rows)
            then sample.table_name
            else sample.table_name <> "_{route_suffix}";
        default_policy_code = default_policy_code;
        enabled = true;
        extra =
            ("sync_origin", text sync_origin)
            ∷ ("original_catlog_name", text sample.catlog_name)
            ∷ ("original_table_name", text sample.table_name)
            ∷ (
              "source_names",
              texts (
                  sorted_by (λ s. s) (distinct (map (λ (r : TableConfigRow). r.source_name) rows))),
            )
            ∷ ("row_count_in_table_config", number group_size)
            ∷ ("deduped_segment_count", number (length rows))
            ∷ ("shard_count_values", integers (sorted leb_ℤ (distinct_counts rows)))
            ∷ ("shard_modulus", if business then integer (shard_modulus rows) else null)
            ∷ ("business_factor_routing", boolean business)
            ∷ [];
      }

  abbrev factor : String → String → String → Dict Value → FactorRecord
  factor name source_type source_key config = record {
    logical_table_name = logical_name;
    factor_name = name;
    source_type = source_type;
    source_key = source_key;
    required = true;
    extractor_config = config;
    enabled = true;
  }

  abbrev rule : String → String → String → RuleRecord
  rule name rule_type expression = record {
    logical_table_name = logical_name;
    rule_name = name;
    rule_type = rule_type;
    expression = expression;
    output_format = "{value}";
    enabled = true;
  }

  abbrev pub factor_records : List TableConfigRow → List FactorRecord
  factor_records rows =
      if supports_business_factor_routing rows
      then factor "shard_value" "sql_predicate_from_context" "shard_column" (
          (
            "hint",
            text
                "Provide the mapper/DAO shard column name in route_context.shard_column and include its value as an SQL equality predicate",
          )
          ∷ [])
        ∷ []
      else if is_sharded rows
      then factor "route_suffix" "route_context" "route_suffix"
          (("hint", text "Provide the concrete table suffix from route_context.route_suffix") ∷ [])
        ∷ []
      else if requires_source_routing rows
      then factor "source_name" "route_context" "source_name" (
          ("hint", text "Provide the source_name from route_context.source_name")
          ∷ ("allowed_values", texts (distinct_source_names rows))
          ∷ [])
        ∷ []
      else []

  abbrev pub rule_record : List TableConfigRow → RuleRecord
  rule_record rows =
      if supports_business_factor_routing rows
      then rule "imported_business_shard_mod" "mod"
          ("str(int(shard_value) % " <> (show_ℤ (shard_modulus rows) <> ")"))
      else if is_sharded rows
      then rule "imported_route_suffix_passthrough" "route_context_passthrough"
          "str(int(route_suffix))"
      else if requires_source_routing rows
      then rule "imported_source_name_passthrough" "route_context_passthrough" "str(source_name)"
      else rule "imported_constant_single_table" "constant" "'0'"

  abbrev pub entries : TableConfigRow → ℕ → List TableConfigRow → List RouteRecord → GroupEntries
  entries sample group_size rows routes = record {
    table = table_record sample group_size rows;
    factors = factor_records rows;
    rules = rule_record rows ∷ [];
    routes = routes;
  }

  -- One round of the loop over the groups, on the first row of the group and the others.
  unfoldable pub build_group : TableConfigRow → List TableConfigRow → Result GroupEntries
  build_group sample others =
      let rows = dedup (sample ∷ others) in
      physical_routes lib logical_name (requires_source_routing rows) (is_sharded rows) rows
      >>= λ routes. ok (entries sample (length (sample ∷ others)) rows routes)
