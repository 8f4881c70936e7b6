-- ===== src/Platform/Bucket.antt =====
-- An R2 bucket, of which the handlers only delete objects. The `Bool` says whether the promise was
-- fulfilled.
use ngfw_sh.Prelude.{◌==◌, if◌then◌else◌, String, ◌≡◌, Bool, true, false}

pub record Bucket : Type 1 where
  pub Store : Type 0
  pub has : String → Store → Bool
  pub delete : String → Store → Store × Bool
  pub delete_done :
      (k : String) (s : Store) (j : String)
      → (delete k s).1 ≡ true
      → has j (delete k s).0 ≡ (if k == j then false else has j s)
  pub delete_failed :
      (k : String) (s : Store) (j : String)
      → (delete k s).1 ≡ false
      → has j (delete k s).0 ≡ has j s
  -- An object's key is not empty.
  pub has_key : (s : Store) → has "" s ≡ false
