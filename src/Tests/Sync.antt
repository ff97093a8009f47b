-- ===== src/Tests/Sync.antt =====
-- The import on the rows of the repository's test.
use sql_gatekeeper.Prelude.{ℕ, String, ◌≡◌, refl, List, [], ◌∷◌, map, ok, raise}
use sql_gatekeeper.Prelude.Text.Number.{pos}
use sql_gatekeeper.Sync.Library.{Library}
use sql_gatekeeper.Sync.Records.{TableConfigRow, ImportedDatasourceTarget, RouteRecord, SyncBundle}
use sql_gatekeeper.Sync.Bundle.{build_sync_bundle, empty_bundle, collect}
use sql_gatekeeper.Tests.Runs.{sync_runs}

abbrev pub lib : Library
lib = record {
  sha1_hex = λ raw. "da39a3ee5e6b4b0d3255bfef95601890afd80709";
  count-sha1_hex = λ raw. refl;
  shown_texts = λ items. "[]";
  shown_integers = λ items. "[]";
}

abbrev pub target : ImportedDatasourceTarget
target = record {
  host = "db.example.com";
  port = pos 3306;
  database_name = "demo";
  username = "reader";
  password_secret_ref = "local:secret";
}

abbrev pub row : String → String → String → ℕ → ℕ → ℕ → TableConfigRow
row source catlog table begin end count = record {
  source_name = source;
  catlog_name = catlog;
  table_name = table;
  begin_index = pos begin;
  end_index = pos end;
  shard_count = pos count;
}

abbrev pub rows : List TableConfigRow
rows =
    row "user1" "user" "appUser" 0 1 2
    ∷ row "user1" "user" "appUser" 0 1 2
    ∷ row "user2" "user" "appUser" 2 3 4
    ∷ row "main" "main" "app_signature" 0 0 0
    ∷ row "main" "main" " " 0 0 0
    ∷ []

abbrev pub bundle : SyncBundle
bundle = elim (build_sync_bundle lib target rows) [
  | ok b ↦ b
  | raise e ↦ empty_bundle lib target (collect lib target [])
]

pub bundle_built : build_sync_bundle lib target rows ≡ ok bundle
unfolding sync_runs
bundle_built = refl

route_names :
    map (λ (r : RouteRecord). r.physical_table_name) bundle.physical_routes
    ≡ "app_signature" ∷ "appUser_0" ∷ "appUser_1" ∷ "appUser_2" ∷ "appUser_3" ∷ []
unfolding sync_runs
route_names = refl

skipped : bundle.skipped_rows ≡ 1
unfolding sync_runs
skipped = refl

-- Two rows of an unsharded table that differ in their bounds give two routes with the value "0".
twice :
    elim (build_sync_bundle lib target (row "main" "m" "t" 0 0 0 ∷ row "main" "m" "t" 1 1 0 ∷ [])) [
      | ok b ↦ map (λ (r : RouteRecord). r.route_value) b.physical_routes
      | raise e ↦ []
    ]
    ≡ "0" ∷ "0" ∷ []
unfolding sync_runs
twice = refl
