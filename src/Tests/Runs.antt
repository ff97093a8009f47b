-- ===== src/Tests/Runs.antt =====
-- What the examples compute with.
use mathlib.Core.List.{filter_map}
use sql_gatekeeper.Prelude.{keep, fold_result}
use sql_gatekeeper.Prelude.Int.{count_from}
use sql_gatekeeper.Prelude.Sorting.{sorted, sorted_by}
use sql_gatekeeper.Prelude.Dict.{get, put}
use sql_gatekeeper.Prelude.Text.{
  is_space, is_digit, is_alpha, is_word, is_quote, lower, upper, lstrip, rstrip, strip, has_char,
  has_text, ends_in, starts_in, before_char, after_char, split, join,
}
use sql_gatekeeper.Prelude.Text.Number.{show, parse_int}
use sql_gatekeeper.Prelude.Text.Slice
use sql_gatekeeper.Regex.{
  match_one, match_many, match, match_at, search_from, find_all_from, find_group,
}
use sql_gatekeeper.Parser.{
  table_pattern, predicate_pattern, limit_pattern, first_word_pattern, predicate_value,
  normalize_value, number_of, parse_limit_value, first_word, holds_semicolon, tables_of, parse,
}
use sql_gatekeeper.Rewrite.{rewrite}
use sql_gatekeeper.Rewrite.Splice.{splice}
use sql_gatekeeper.Precheck
use sql_gatekeeper.Repositories.{
  get_enabled_datasource, get_enabled_logical_table, list_enabled_logical_tables, get_enabled_route,
  get_enabled_physical, list_enabled_route_values, count_enabled_routes, get_enabled_policy,
  list_required_factors, get_enabled_rule,
}
use sql_gatekeeper.Routing.Factors.{
  qualified_value, extract_factor_value, derive_legacy_route_suffix, factor_value, extract_factors,
  build_route_diagnostic,
}
use sql_gatekeeper.Routing.Resolve.{
  datasource_code_from_id, match_invalid_physical_table, evaluate_route_rule, build_physical_target,
  build_rewritten_target, apply_rule, route_logical, route_by_name, route_match, route_table,
  resolve_tables, resolve,
}
use sql_gatekeeper.Runtime
use sql_gatekeeper.Explain
use sql_gatekeeper.Filters.{
  distinct, policy_load, validate_targets, sql_type_filter, cross_datasource_filter, limit_filter,
  explain_targets, explain_risk_filter, apply, run,
}
use sql_gatekeeper.Checker
use sql_gatekeeper.Executor
use sql_gatekeeper.Redis.Arguments.{judge_range, validate_args}
use sql_gatekeeper.Redis.Keys.{
  key_args, allowed_prefixes, key_allowed_by_datasource, judge_key, judge_keys, validate_keys,
}
use sql_gatekeeper.Redis.Routing
use sql_gatekeeper.Redis.Check
use sql_gatekeeper.Redis.Execute
use sql_gatekeeper.Audit
use sql_gatekeeper.Api
use sql_gatekeeper.Filters
use sql_gatekeeper.Sync.Identifiers
use sql_gatekeeper.Sync.Routes
use sql_gatekeeper.Sync.Group
use sql_gatekeeper.Sync.Group.Dedup
use sql_gatekeeper.Sync.Bundle
use sql_gatekeeper.Sync.Store
use sql_gatekeeper.Sync.Write
use sql_gatekeeper.Meta.Inserts.{insert}
use sql_gatekeeper.Bootstrap.Rows
use sql_gatekeeper.Bootstrap.Seed.{
  seed_datasources, seed_logical_tables, seed_route_factors, seed_route_rules, seed_physical_routes,
  seed_reference_data,
}

-- The texts, the parser and the router.
unfoldable pub router_runs : Unit {0}
unfolding filter_map keep get put is_space is_digit is_alpha is_word is_quote lower upper lstrip
    rstrip strip has_char has_text ends_in starts_in before_char after_char split join show
    parse_int Slice.take Slice.drop match_one match_many match match_at search_from find_all_from
    find_group table_pattern predicate_pattern limit_pattern first_word_pattern predicate_value
    normalize_value number_of parse_limit_value first_word holds_semicolon tables_of parse rewrite
    splice Precheck.evaluate get_enabled_datasource get_enabled_logical_table
    list_enabled_logical_tables get_enabled_route get_enabled_physical list_enabled_route_values
    count_enabled_routes get_enabled_policy list_required_factors get_enabled_rule qualified_value
    extract_factor_value derive_legacy_route_suffix factor_value extract_factors
    build_route_diagnostic datasource_code_from_id match_invalid_physical_table evaluate_route_rule
    build_physical_target build_rewritten_target apply_rule route_logical route_by_name route_match
    route_table resolve_tables resolve
router_runs = tt

-- The SQL gatekeeper.
unfoldable pub sql_runs : Unit {0}
unfolding router_runs Runtime.resolve_password Runtime.build_runtime_dsn Explain.judge_plan
    Explain.estimate_rows Explain.evaluate distinct policy_load validate_targets sql_type_filter
    cross_datasource_filter limit_filter explain_targets explain_risk_filter apply run
    Checker.rewrite_plans Checker.check_routed Checker.check Executor.fetch_rows Executor.limit_rows
    Executor.execute_under Executor.execute_on Executor.execute_codes Executor.execute Audit.add
    Audit.log_check Audit.log_execute Api.check_sql Api.answer_execute Api.execute_sql
sql_runs = tt

-- The Redis gatekeeper.
unfoldable pub redis_runs : Unit {0}
unfolding router_runs judge_range validate_args key_args allowed_prefixes key_allowed_by_datasource
    judge_key judge_keys validate_keys Routing.catalog_name Routing.datasource_catalog
    Routing.datasource Routing.route_by_catalog Routing.route_without_code
    Routing.resolve_datasource Check.check_routed Check.check_valid Check.check_normalized
    Check.check Execute.redis_db Execute.resolve_password Execute.connection sorted sorted_by
    Execute.run_command Execute.format_rows Execute.preflight_result_size Execute.limit_rows
    Execute.run_checked Execute.execute_on Execute.execute Audit.add Audit.log_redis_check
    Audit.log_redis_execute Api.check_redis Api.answer_redis_execute Api.execute_redis
redis_runs = tt

-- The import.
unfoldable pub sync_runs : Unit {0}
unfolding router_runs sorted sorted_by count_from fold_result Filters.distinct Identifiers.clean
    Identifiers.base_name Identifiers.make_stable_identifier Identifiers.make_datasource_code
    Identifiers.make_logical_table_name Routes.single_step Routes.shard_step Routes.shard_row
    Routes.row_step Routes.physical_routes Dedup.put_segment Dedup.dedup Group.shard_suffixes
    Group.max_count Group.all_in Group.supports_business_factor_routing Group.build_group
    Bundle.collect_row Bundle.collect Bundle.group_step Bundle.bundle_of Bundle.build_sync_bundle
    Bundle.set_default Bundle.append_to
sync_runs = tt

-- The writes of the import and the seed.
unfoldable pub write_runs : Unit {0}
unfolding sync_runs keep insert Store.delete_imported_tables Store.delete_imported_datasources
    Store.delete_previous_import Store.store Store.commit_row Store.each_of
    Write.ensure_default_policy Write.store_datasources Write.store_tables Write.commit
    Write.write_bundle Write.with_session Write.sync_bundle_to_local Rows.upsert seed_datasources
    seed_logical_tables seed_route_factors seed_route_rules seed_physical_routes seed_reference_data
write_runs = tt
