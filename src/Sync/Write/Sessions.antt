-- ===== src/Sync/Write/Sessions.antt =====
-- The session's block against the whole of `sync_bundle_to_local`.
use sql_gatekeeper.Prelude.{
  String, ◌≡◌, ◌⊎◌, inl, inr, Option, none, some, Exception, ok, raise, external, >>=-eq-ok,
  >>=-eq-raise, ok-eq,
}
use sql_gatekeeper.Meta.{MetaDb}
use sql_gatekeeper.Meta.Inserts.{Ids, unless_error}
use sql_gatekeeper.Repositories.{Orm}
use sql_gatekeeper.Sync.Records.{SyncBundle}
use sql_gatekeeper.Sync.Write.{Summary, with_session, sync_bundle_to_local}

unless_error-raise :
    (o : Option String) {x : Exception} → unless_error o ≡ raise x → (e : String) × (x ≡ external e)
unless_error-raise none failed = absurd (cc)
unless_error-raise (some e) failed = (e, cc)

module _ (orm : Orm) (ids : Ids) where
  -- A synchronisation that returns has returned from the block.
  pub with_session-returned :
      (b : SyncBundle) (db : MetaDb) {x : Summary × MetaDb}
      → sync_bundle_to_local orm ids b db ≡ ok x
      → with_session orm ids b db ≡ ok x
  unfolding sync_bundle_to_local
  with_session-returned b db e =
      let (_, _, e₁) = >>=-eq-ok (unless_error ids.schema_error) _ e in
      let (y, block, e₂) = >>=-eq-ok (with_session orm ids b db) _ e₁ in
      let (_, _, e₃) = >>=-eq-ok (unless_error (ids.commit_error y.1)) (λ _. ok y) e₂ in
      cc (block, ok-eq e₃)

  -- An exception is the block's, or the database's at its start or its end.
  pub sync-raises-cases :
      (b : SyncBundle) (db : MetaDb) {x : Exception}
      → sync_bundle_to_local orm ids b db ≡ raise x
      → ((e : String) × (x ≡ external e)) ⊎ (with_session orm ids b db ≡ raise x)
  unfolding sync_bundle_to_local
  sync-raises-cases b db e = elim (>>=-eq-raise (unless_error ids.schema_error) _ e) [
    | inl failed ↦ inl (unless_error-raise ids.schema_error failed)
    | inr (_, _, e₁) ↦ elim (>>=-eq-raise (with_session orm ids b db) _ e₁) [
      | inl raised ↦ inr raised
      | inr (y, _, e₂) ↦ elim (>>=-eq-raise (unless_error (ids.commit_error y.1)) (λ _. ok y) e₂) [
        | inl failed ↦ inl (unless_error-raise (ids.commit_error y.1) failed)
        | inr (_, _, returned) ↦ absurd (cc)
      ]
    ]
  ]
