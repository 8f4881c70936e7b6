-- ===== src/Auth/Behaviour.antt =====
-- The branches of the middleware.
use text.Mathlib.TextPositions.{eq_refl}
use ngfw_sh.Prelude.{
  ◌==◌, Option-cases, ℕ, ◌+◌, ◌<◌, String, ◌≡◌, ◌≢◌, ◌⊎◌, inl, inr, true, false, Option, none, some,
  List, arith,
}
use ngfw_sh.Platform.Http.{error, Reply, Outcome, refused, value}
use ngfw_sh.Platform.Kv.{Kv}
use ngfw_sh.Auth.{
  jwt_cache_ttl, bearer, token_cache_key, Session, verified, authenticated, clerk_auth,
}

module _ (kv : Kv) (digest : String → List ℕ) (verify : ℕ → String → Option String) {W R : Type 0}
    (next : String → W → Outcome (Reply R) × W) where
  open kv use {Store, entry, get, put, get_lem, put_done}

  -- A token that is not in the cache, or that the cache fails to read, is taken to Clerk: with a
  -- subject the request goes on as that user, and without one it is answered 401 and changes nothing.
  pub clerk_auth_miss :
      (now : ℕ) (header : Option String) (token : String) (s : Session kv digest verify next)
      → bearer header ≡ some token
      → (get (token_cache_key digest token) now s.sessions ≡ none)
        ⊎ (get (token_cache_key digest token) now s.sessions ≡ some none)
      → let r = clerk_auth kv digest verify next now header s in
        ((sub : String)
          → verify now token ≡ some sub
          → (r.0 ≡ (next sub s.world).0) × (r.1.world ≡ (next sub s.world).1))
        × (verify now token ≡ none → (r.0 ≡ value (refused 401 (error "Unauthorized"))) × (r.1 ≡ s))
  unfolding clerk_auth authenticated verified
  clerk_auth_miss now header token s b m = (λ sub v. ground arith, λ v. ground arith)

  -- Once Clerk has named a user, whose name is not empty, for a token that was not in the cache,
  -- and the cache has taken it, the token is good for less than five minutes more without Clerk,
  -- where the cache is read and the handlers do not throw.
  clerk_auth_cached :
      (now later : ℕ) (header : Option String) (token user : String)
      (s : Session kv digest verify next) {reply : Reply R}
      → bearer header ≡ some token
      → get (token_cache_key digest token) now s.sessions ≡ some none
      → verify now token ≡ some user
      → (user == "") ≡ false
      → (put (token_cache_key digest token) (user, some (now + jwt_cache_ttl)) s.sessions).1 ≡ true
      → later < now + jwt_cache_ttl
      → let s' = (clerk_auth kv digest verify next now header s).1 in
        get (token_cache_key digest token) later s'.sessions ≢ none
        → (next user s'.world).0 ≡ value reply
        → (clerk_auth kv digest verify next later header s').0 ≡ value reply
  unfolding clerk_auth authenticated verified
  clerk_auth_cached now later header token user s b m v full done soon read calm =
      let key = token_cache_key digest token in
      let cache = (put key (user, some (now + jwt_cache_ttl)) s.sessions).0 in
      let kept : (clerk_auth kv digest verify next now header s).1.sessions ≡ cache =
        ground arith in
      elim (Option-cases (get key later cache)) [
        | inl e ↦ absurd (read (rw kept e))
        | inr (found, e) ↦
            let held : found ≡ some user = ground (
              arith,
              get_lem key later cache e,
              put_done key (user, some (now + jwt_cache_ttl)) s.sessions key,
              eq_refl key,
            ) in
            ground (arith, kept, held, e)
      ]
