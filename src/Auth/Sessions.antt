-- ===== src/Auth/Sessions.antt =====
-- The middleware over a sequence of requests that begins with an empty cache.
use ngfw_sh.Prelude.{
  Option-cases, ℕ, ◌+◌, ◌≤◌, String, ◌≡◌, refl, ◌⊎◌, inl, inr, Option, none, some, List, [], ◌∷◌,
  arith,
}
use ngfw_sh.Platform.Http.{error, Reply, Outcome, refused, value}
use ngfw_sh.Platform.Kv.{Kv}
use ngfw_sh.Auth.{jwt_cache_ttl, bearer, token_cache_key, Session, clerk_auth, serve_requests}
use ngfw_sh.Auth.Soundness.{
  Vouched, IsDigest, IsFaithful, authenticated-Answers, authenticated-IsFaithful,
}

-- Requests come in the order of their times, none before `start` and none after `now`.
abbrev pub AreInOrder : ℕ → List (ℕ × Option String) → ℕ → Type 0
AreInOrder start [] now = start ≤ now
AreInOrder start ((t, header) ∷ qs) now = (start ≤ t) × AreInOrder t qs now

module _ (kv : Kv) (digest : String → List ℕ) (verify : ℕ → String → Option String) {W R : Type 0}
    (next : String → W → Outcome (Reply R) × W) where
  open kv use {Store, entry}

  abbrev pub IsEmpty : Store String → Type 0
  IsEmpty sessions = (k : String) → entry k sessions ≡ none

  later-IsFaithful :
      (t now : ℕ) (sessions : Store String)
      → t ≤ now
      → IsFaithful kv digest verify next t sessions
      → IsFaithful kv digest verify next now sessions
  later-IsFaithful t now sessions h f token user gone e =
      let (u, early, same, said) = f token user gone e in (u, omega arith, same, said)

  clerk_auth-IsFaithful :
      (d : IsDigest digest) (now : ℕ) (header : Option String) (s : Session kv digest verify next)
      → IsFaithful kv digest verify next now s.sessions
      → IsFaithful kv digest verify next now
          (clerk_auth kv digest verify next now header s).1.sessions
  unfolding clerk_auth
  clerk_auth-IsFaithful d now header s f = elim (Option-cases (bearer header)) [
    | inl e ↦ rw (e, clerk_auth) f
    | inr (token, e) ↦
        rw (e, clerk_auth) (authenticated-IsFaithful kv digest verify next d now token s f)
  ]

  pub serve_requests-IsFaithful :
      (d : IsDigest digest) (start : ℕ) (qs : List (ℕ × Option String)) (now : ℕ)
      (s : Session kv digest verify next)
      → AreInOrder start qs now
      → IsFaithful kv digest verify next start s.sessions
      → IsFaithful kv digest verify next now (serve_requests kv digest verify next qs s).sessions
  unfolding serve_requests
  serve_requests-IsFaithful d start [] now s o f = later-IsFaithful start now s.sessions o f
  serve_requests-IsFaithful d start ((t, header) ∷ qs) now s (p, o) f =
      serve_requests-IsFaithful d t qs now _ o
        (clerk_auth-IsFaithful d t header s (later-IsFaithful start t s.sessions p f))

  empty-IsFaithful :
      (sessions : Store String) → IsEmpty sessions → IsFaithful kv digest verify next 0 sessions
  empty-IsFaithful sessions h token user _ e = cc (h (token_cache_key digest token))

  -- Nobody gets past the middleware but as a user whom Clerk named for the request's own bearer
  -- token less than five minutes before: any other request is answered 401. This holds after any
  -- requests in order that began with an empty cache, if the digest is collision-free.
  pub clerk_auth_sound :
      (d : IsDigest digest) (qs : List (ℕ × Option String)) (now : ℕ) (header : Option String)
      (s : Session kv digest verify next)
      → IsEmpty s.sessions
      → AreInOrder 0 qs now
      → let r =
          clerk_auth kv digest verify next now header (serve_requests kv digest verify next qs s) in
        (r.0 ≡ value (refused 401 (error "Unauthorized")))
        ⊎ ((token user : String) × (w : W) × (bearer header ≡ some token)
            × Vouched verify now token user
            × (r.0 ≡ (next user w).0)
            × (r.1.world ≡ (next user w).1))
  unfolding clerk_auth
  clerk_auth_sound d qs now header s empty o = elim (Option-cases (bearer header)) [
    | inl e ↦ inl (rw (e, clerk_auth) refl)
    | inr (token, e) ↦
        elim (authenticated-Answers kv digest verify next now token
          (serve_requests kv digest verify next qs s)
          (serve_requests-IsFaithful d 0 qs now s o (empty-IsFaithful s.sessions empty))) [
            | inl a ↦ inl (rw (e, clerk_auth) a)
            | inr (user, w, v, p, q) ↦
                inr (token, user, w, e, v, rw (e, clerk_auth) p, rw (e, clerk_auth) q)
          ]
  ]

  -- A token that Clerk rejects from some time on is answered 401 from five minutes later on, after
  -- any requests in order that began with an empty cache, if the digest is collision-free.
  pub clerk_auth_revoked :
      (d : IsDigest digest) (qs : List (ℕ × Option String)) (now : ℕ) (header : Option String)
      (s : Session kv digest verify next) (token : String) (since : ℕ)
      → IsEmpty s.sessions
      → AreInOrder 0 qs now
      → bearer header ≡ some token
      → ((t : ℕ) → since ≤ t → verify t token ≡ none)
      → since + jwt_cache_ttl ≤ now
      → (clerk_auth kv digest verify next now header (serve_requests kv digest verify next qs s)).0
        ≡ value (refused 401 (error "Unauthorized"))
  clerk_auth_revoked d qs now header s token since empty o b rejects late =
      elim (clerk_auth_sound d qs now header s empty o) [
        | inl a ↦ a
        | inr (other_token, user, w, e, (t, early, fresh, said), p, q) ↦
            let same : other_token ≡ token = cc in
            let no : verify t token ≡ none = rejects t (omega arith) in cc
      ]
