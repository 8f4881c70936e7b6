-- ===== src/Auth/Soundness.antt =====
-- Whom the middleware lets in, and for how long.
use text.Mathlib.TextEquality.{eq_iff}
use ngfw_sh.Prelude.{
  ◌==◌, Bool-cases, Option-cases, truthy, truthy-eq, ℕ, ◌+◌, ◌≤◌, ◌<◌, String, ◌≡◌, refl, sym, ◌∙◌,
  ◌⊎◌, inl, inr, Option, none, some, List, arith,
}
use ngfw_sh.Prelude.Hex.{AreBytes}
use ngfw_sh.Platform.Http.{error, Reply, Outcome, refused, value}
use ngfw_sh.Platform.Kv.{Entry, visible, Kv}
use ngfw_sh.Auth.{jwt_cache_ttl, token_cache_key, Session, run_next, verified, authenticated}
use ngfw_sh.Auth.Keys.{token_cache_key_injective}

-- Clerk named the user for the token less than five minutes ago.
abbrev pub Vouched : (ℕ → String → Option String) → ℕ → String → String → Type 0
Vouched verify now token user =
    (t : ℕ) × (t ≤ now) × (now < t + jwt_cache_ttl) × (verify t token ≡ some user)

-- The digest is a list of bytes, and no two tokens in use collide.
pub record IsDigest (digest : String → List ℕ) : Type 0 where
  pub bytes : (s : String) → AreBytes (digest s)
  pub collision_free : (s t : String) → digest s ≡ digest t → s ≡ t

module _ (kv : Kv) (digest : String → List ℕ) (verify : ℕ → String → Option String) {W R : Type 0}
    (next : String → W → Outcome (Reply R) × W) where
  open kv use {Store, entry, get, put, get_lem, put_done, put_failed}

  abbrev State : Type 0
  State = Session kv digest verify next

  -- Every entry of a token says what Clerk said of it, and expires five minutes after.
  abbrev pub IsFaithful : ℕ → Store String → Type 0
  IsFaithful now sessions =
      (token user : String) (gone : Option ℕ)
      → entry (token_cache_key digest token) sessions ≡ some (user, gone)
      → (t : ℕ) × (t ≤ now) × (gone ≡ some (t + jwt_cache_ttl)) × (verify t token ≡ some user)

  put-IsFaithful :
      (d : IsDigest digest) (now : ℕ) (token sub : String) (sessions : Store String)
      → verify now token ≡ some sub
      → IsFaithful now sessions
      → IsFaithful now
          (put (token_cache_key digest token) (sub, some (now + jwt_cache_ttl)) sessions).0
  put-IsFaithful d now token sub sessions v f mate user gone e =
      let key = token_cache_key digest token in
      let new : Entry String = (sub, some (now + jwt_cache_ttl)) in
      elim (Bool-cases (put key new sessions).1) [
        | inr failed ↦ f mate user gone (sym (put_failed key new sessions _ failed) ∙ e)
        | inl done ↦ elim (Bool-cases (key == token_cache_key digest mate)) [
          | inl same ↦
              let one : token ≡ mate = d.collision_free token mate (
                token_cache_key_injective digest token mate (d.bytes token) (d.bytes mate)
                  ((eq_iff _ _).0 same)) in
              (
                now,
                omega arith,
                ground (arith, put_done key new sessions (token_cache_key digest mate) done),
                rw (← one)
                    (ground (arith, put_done key new sessions (token_cache_key digest mate) done)),
              )
          | inr differs ↦
              f mate user gone
                (ground (arith, put_done key new sessions (token_cache_key digest mate) done))
        ]
      ]

  -- What a fresh read of the cache says was said by Clerk, less than five minutes ago.
  get-Vouched :
      (now : ℕ) (token : String) (sessions : Store String) {user : String}
      → IsFaithful now sessions
      → get (token_cache_key digest token) now sessions ≡ some (some user)
      → Vouched verify now token user
  get-Vouched now token sessions {user} f e =
      go (entry (token_cache_key digest token) sessions) refl
    where
      seen : some user ≡ visible now (entry (token_cache_key digest token) sessions)
      seen = get_lem (token_cache_key digest token) now sessions e

      go :
          (x : Option (Entry String))
          → entry (token_cache_key digest token) sessions ≡ x
          → Vouched verify now token user
      go none h = ground (arith, seen)
      go (some (v, none)) h = let (t, early, same, said) = f token v none h in cc
      go (some (v, some gone)) h =
          let (t, early, same, said) = f token v (some gone) h in
          (t, early, ground (arith, seen), ground (arith, seen))

  -- What the middleware answers for a token: a refusal, or what `next` answers for a user whom
  -- Clerk named for the token less than five minutes ago.
  abbrev pub Answers : ℕ → String → Outcome (Reply R) × State → Type 0
  Answers now token r =
      (r.0 ≡ value (refused 401 (error "Unauthorized")))
      ⊎ ((user : String) × (w : W) × Vouched verify now token user
          × (r.0 ≡ (next user w).0)
          × (r.1.world ≡ (next user w).1))

  verified-Answers :
      (now : ℕ) (token : String) (s : State)
      → Answers now token (verified kv digest verify next now token s)
  unfolding verified
  verified-Answers now token s = elim (Option-cases (verify now token)) [
    | inl e ↦ inl (ground arith)
    | inr (sub, e) ↦
        inr (sub, s.world, (now, omega arith, omega arith, e), ground arith, ground arith)
  ]

  pub authenticated-Answers :
      (now : ℕ) (token : String) (s : State)
      → IsFaithful now s.sessions
      → Answers now token (authenticated kv digest verify next now token s)
  unfolding authenticated
  authenticated-Answers now token s f =
      elim (Option-cases (get (token_cache_key digest token) now s.sessions)) [
        | inl e ↦ rw (e, authenticated) (verified-Answers now token s)
        | inr (none, e) ↦ rw (e, authenticated) (verified-Answers now token s)
        | inr (some cached, e) ↦
            rw (e, authenticated)
              (through cached (get-Vouched now token s.sessions {user = cached} f e)
                (truthy-eq cached))
      ]
    where
      through :
          (cached : String)
          → Vouched verify now token cached
          → (truthy (some cached) ≡ none) ⊎ (truthy (some cached) ≡ some cached)
          → Answers now token (elim (truthy (some cached)) [
            | none ↦ verified kv digest verify next now token s
            | some user ↦ run_next kv digest verify next user s
          ])
      through cached v (inl e) = rw e (verified-Answers now token s)
      through cached v (inr e) = rw e (inr (cached, s.world, v, refl, refl))

  -- The cache after a request: as it was, or with what Clerk has just said.
  authenticated-sessions :
      (now : ℕ) (token : String) (s : State)
      → ((authenticated kv digest verify next now token s).1.sessions ≡ s.sessions)
        ⊎ ((sub : String) × (verify now token ≡ some sub)
            × ((authenticated kv digest verify next now token s).1.sessions
                ≡ (put
                    (token_cache_key digest token)
                    (sub, some (now + jwt_cache_ttl))
                    s.sessions).0))
  unfolding authenticated verified
  authenticated-sessions now token s = elim (Option-cases (verify now token)) [
    | inl e ↦ inl (ground arith)
    | inr (sub, e) ↦ grind (arith, e)
  ]

  pub authenticated-IsFaithful :
      (d : IsDigest digest) (now : ℕ) (token : String) (s : State)
      → IsFaithful now s.sessions
      → IsFaithful now (authenticated kv digest verify next now token s).1.sessions
  authenticated-IsFaithful d now token s f = elim (authenticated-sessions now token s) [
    | inl e ↦ rw e f
    | inr (sub, v, e) ↦ rw e (put-IsFaithful d now token sub s.sessions v f)
  ]
