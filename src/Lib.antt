-- ===== src/Lib.antt =====
-- SQL Gatekeeper: a service that checks SQL and Redis requests against metadata tables, rewrites
-- the tables of a SQL statement to physical shards, and executes what it has allowed.
--
-- The parts, from src/sql_gatekeeper/, and how they work together. An endpoint (api/routes.py: Api)
-- opens a session, asks the SQL check service (services/checker.py: Checker) or the Redis
-- gatekeeper (services/redis_gatekeeper.py: Redis and its children) for a decision, executes an
-- allowed one (services/executor.py: Executor; Redis.Execute), writes an audit row
-- (services/audit.py and repositories/audit_log.py: Audit) and commits. The SQL check runs the
-- guard (services/precheck.py: Precheck), the parser (services/sql_parser.py: Parser), the router
-- (services/routing.py: Routing), the rewriting (services/sql_rewrite.py: Rewrite) and six filters
-- (services/filter_chain.py: Filters), the last of which judges the plans of EXPLAIN
-- (services/explain.py: Explain). The router and the filters read the metadata rows (db/models.py:
-- Meta) by the queries of repositories/*.py (Repositories). services/datasource_runtime.py is
-- Runtime. Two programs write the metadata rows: tools/spy_table_config_sync.py (Sync) makes a
-- bundle of the rows of a remote table configuration (Sync.Identifiers, Sync.Routes, Sync.Group,
-- Sync.Bundle) and replaces the rows of the last import by it (Sync.Store, Sync.Write), and
-- bootstrap/meta.py (Bootstrap) adds the seed rows.
--
-- State and operations. A session's rows are the record MetaDb, which the services only read and
-- the import and the seed take and return; an exception leaves it as it was. A session's pending
-- audit rows are a list that Api.commit appends to the log, or drops with an exception. A
-- FilterContext goes in and out of each filter. A call that may raise returns a Result. A method
-- keeps its name without the leading underscore; a method with several early returns is a chain of
-- functions, one for each value that it looks up. The loop of `resolve` is a recursion over the
-- tables, with one round for each (Routing.Resolve.Round).
--
-- Regular expressions. Python's `re` is Regex: a syntax tree and a backtracking matcher by
-- structural recursion, which tries the alternatives in Python's order. The four patterns of the
-- parser are trees (Parser). Case folding, letters, digits and white space are those of ASCII.
--
-- Parameters, for code outside the repository: Orm (SQLAlchemy's `scalar_one_or_none` and the
-- database's comparison and order of texts), RuleEngine (Python's `eval` of a rule's expression,
-- and `str.format`), Library (hashlib and the printed lists of the import), Ids (the database of
-- the import and the seed: the ids of new rows, by those that the table has, and the errors that it
-- answers with besides those of the unique constraints), Mysql (the servers behind the
-- datasources), RedisClient (redis-py), and the elapsed milliseconds. The laws of the records Orm,
-- Library, Ids and Mysql are what their documentation says.
--
-- Numbers. Ids, limits, thresholds and row counts are natural numbers; `int(s)` of a text gives an
-- integer, which may be negative, as ports and the bounds of shards are. Only the printing of a
-- number runs on fuel (Prelude.Text.Number): a number n has at most n + 1 digits, which is the
-- fuel. JSON values are Meta.Value, with the texts and the truth values that the code takes of
-- them. A set is a list, without repetition where its size or its order counts.
--
-- Not modelled: bootstrap/redis_demo.py (fixed demo values), the remote query of the import, what
-- create_metadata_schema does besides failing, the widths of the columns, which only show as errors
-- of Ids, db/session.py, db/base.py and api/app.py (construction of the application), the settings
-- that nothing modelled reads, the validation of requests by FastAPI, the health endpoint, time
-- stamps.
pub mod Prelude
pub mod Regex
pub mod Parser
pub mod Rewrite
pub mod Precheck
pub mod Meta
pub mod Repositories
pub mod Routing
pub mod Runtime
pub mod Explain
pub mod Filters
pub mod Redis
pub mod Checker
pub mod Executor
pub mod Audit
pub mod Api
pub mod Sync
pub mod Bootstrap
mod Tests
