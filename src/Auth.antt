-- ===== src/Auth.antt =====
-- packages/schema/src/middleware/auth.ts: the user of a request from its bearer token, by way of a
-- cache in the KV namespace SESSIONS. Times are in seconds.
pub mod Keys
pub mod Soundness
pub mod Sessions
pub mod Behaviour
mod Tests
use Prim.Native.String.{◌++◌}
use text.Mathlib.Text.{starts_with}
use ngfw_sh.Prelude.{
  if◌then◌else◌, truthy, ℕ, zero, suc, ◌+◌, String, Option, none, some, List, [], ◌∷◌,
}
use ngfw_sh.Prelude.Hex.{hex}
use ngfw_sh.Platform.Http.{error, Reply, Outcome, refused, value}
use ngfw_sh.Platform.Kv.{Kv}

-- `JWT_CACHE_TTL`.
abbrev pub jwt_cache_ttl : ℕ
jwt_cache_ttl = 300

-- `s.slice(n)` where the first `n` characters take one UTF-16 unit each.
slice_from : ℕ → String → String
slice_from zero s = s
slice_from (suc n) String.[] = String.[]
slice_from (suc n) (String.◌∷◌ c s) = slice_from n s

-- The token in the header `Authorization`.
unfoldable pub bearer : Option String → Option String
unfolding slice_from
bearer none = none
bearer (some header) = if starts_with header "Bearer " then some (slice_from 7 header) else none

-- `digest` is SHA-256 of a token's UTF-8.
unfoldable pub token_cache_key : (String → List ℕ) → String → String
token_cache_key digest token = "jwt:" ++ hex (digest token)

-- `verify now token` is Clerk's answer at a time: the token's subject, or `none` where
-- `verifyToken` rejects. `next` is the rest of the app, for a user; `W` is what it acts on.
module _ (kv : Kv) (digest : String → List ℕ) (verify : ℕ → String → Option String) {W R : Type 0}
    (next : String → W → Outcome (Reply R) × W) where
  open kv use {Store, get, put}

  pub record Session : Type 0 where
    pub sessions : Store String
    pub world : W

  abbrev pub run_next : String → Session → Outcome (Reply R) × Session
  run_next user s = let r = next user s.world in (r.0, record s { world = r.1 })

  -- The cache miss: the write to the cache is not awaited, and its failure goes unnoticed.
  unfoldable pub verified : ℕ → String → Session → Outcome (Reply R) × Session
  verified now token s = elim (verify now token) [
    | none ↦ (value (refused 401 (error "Unauthorized")), s)
    | some sub ↦ run_next sub (record s {
      sessions =
          (put (token_cache_key digest token) (sub, some (now + jwt_cache_ttl)) s.sessions).0;
    })
  ]

  -- The `catch` round the cached path sees the failures of the cache alone: Hono's compose hands an error
  -- of the handlers to `app.onError` inside `next()`, which does not throw.
  unfoldable pub authenticated : ℕ → String → Session → Outcome (Reply R) × Session
  authenticated now token s = elim (get (token_cache_key digest token) now s.sessions) [
    | none ↦ verified now token s
    | some cached ↦ elim (truthy cached) [
      | none ↦ verified now token s
      | some user ↦ run_next user s
    ]
  ]

  unfoldable pub clerk_auth : ℕ → Option String → Session → Outcome (Reply R) × Session
  clerk_auth now header s = elim (bearer header) [
    | none ↦ (value (refused 401 (error "Unauthorized")), s)
    | some token ↦ authenticated now token s
  ]

  -- The state after requests one after another, each with its time and its header.
  unfoldable pub serve_requests : List (ℕ × Option String) → Session → Session
  serve_requests [] s = s
  serve_requests ((now, header) ∷ qs) s = serve_requests qs (clerk_auth now header s).1
