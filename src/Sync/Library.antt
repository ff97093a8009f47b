-- ===== src/Sync/Library.antt =====
-- What the import uses of Python's library.
use Prim.Native.String.{count}
use sql_gatekeeper.Prelude.{◌≡◌, String, List}

pub record Library : Type 0 where
  -- `hashlib.sha1(raw.encode("utf-8")).hexdigest()`
  pub sha1_hex : String → String
  pub count-sha1_hex : (raw : String) → count (sha1_hex raw) ≡ 40
  -- `str(items)` of a list of texts, and of a list of integers that print as these texts.
  pub shown_texts : List String → String
  pub shown_integers : List String → String
