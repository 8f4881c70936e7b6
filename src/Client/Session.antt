-- ===== src/Client/Session.antt =====
-- The token that the portal sends, at the middleware that reads it: `request` of
-- packages/portal-astro/src/lib/api/client.ts and packages/schema/src/middleware/auth.ts.
use text.Mathlib.TextLemmas.{nil-append, cons-append}
use text.Mathlib.TextPositions.{starts_with-append}
use Prim.Native.String.{◌++◌}
use ngfw_sh.Prelude.{truthy, ℕ, String, ◌≡◌, refl, ap, ◌∙◌, Option, none, some, List, arith}
use ngfw_sh.Prelude.Text.{append}
use ngfw_sh.Platform.Http.{error, Reply, Outcome, refused, value}
use ngfw_sh.Platform.Kv.{Kv}
use ngfw_sh.Auth.{bearer, Session, authenticated, clerk_auth}
use ngfw_sh.Client.Answers.{
  Settled, header, authorization, received, respond, HasStatus, caller_gets, received-respond,
  api_error,
}

append_lem : (s t : String) → s ++ t ≡ append s t
append_lem String.[] t = nil-append t
append_lem (String.◌∷◌ c s) t = cons-append c s t ∙ ap (String.◌∷◌ c) (append_lem s t)

bearer-header : (o : Option String) → bearer (header o) ≡ o
unfolding bearer
bearer-header none = refl
bearer-header (some t) = rw (starts_with-append "Bearer " t, append_lem "Bearer " t) refl

bearer-authorization : (token : Option String) → bearer (authorization token) ≡ truthy token
unfolding authorization
bearer-authorization token = bearer-header (truthy token)

module _ (kv : Kv) (digest : String → List ℕ) (verify : ℕ → String → Option String) {W A : Type 0}
    (next : String → W → Outcome (Reply A) × W) (build : String → List (ℕ × String))
    (text : ℕ → String) where
  -- `request`, of a call that the middleware lets through to `next`.
  unfoldable pub call_api :
      ℕ → Option String → Session kv digest verify next → Settled A × Session kv digest verify next
  unfolding authorization
  call_api now token s =
      let r = clerk_auth kv digest verify next now (authorization token) s in
      (received (some (respond build text r.0)), r.1)

  -- What a caller gets with the token, and the state after it.
  abbrev caller_gets_with :
      ℕ → Option String → Session kv digest verify next → Settled A × Session kv digest verify next
  caller_gets_with now none s = (api_error 401 "Unauthorized", s)
  caller_gets_with now (some t) s =
      let r = authenticated kv digest verify next now t s in (caller_gets build text r.0, r.1)

  -- The outcome of a call with a token has a fitting status.
  abbrev pub HasStatusWith : ℕ → Option String → Session kv digest verify next → Type 0
  HasStatusWith now none s = Unit
  HasStatusWith now (some t) s =
      HasStatus build text (authenticated kv digest verify next now t s).0

  abbrev outcome_with :
      ℕ
      → Option String
      → Session kv digest verify next
      → Outcome (Reply A) × Session kv digest verify next
  outcome_with now none s = (value (refused 401 (error "Unauthorized")), s)
  outcome_with now (some t) s = authenticated kv digest verify next now t s

  clerk_auth-header :
      (now : ℕ) (h o : Option String) (s : Session kv digest verify next)
      → bearer h ≡ o
      → clerk_auth kv digest verify next now h s ≡ outcome_with now o s
  unfolding clerk_auth
  clerk_auth-header now h none s e = ground arith
  clerk_auth-header now h (some t) s e = ground arith

  settles :
      (now : ℕ) (o : Option String) (s : Session kv digest verify next)
      → HasStatusWith now o s
      → Path
          (Settled A × Session kv digest verify next)
          (received (some (respond build text (outcome_with now o s).0)), (outcome_with now o s).1)
          (caller_gets_with now o s)
  unfolding received respond
  settles now none s h = refl
  settles now (some t) s h =
      let r = authenticated kv digest verify next now t s in
      ap (λ x. (x, r.1)) (received-respond build text r.0 h)

  -- If the outcome for the token has a fitting status, a call of the portal goes to the handlers with the
  -- very token that it was given and settles by their outcome: fulfilled with the result, failed with the
  -- message of a refusal in `error`, or failed with the reason phrase of the status for a refusal in
  -- `errors` and for a handler that threw. Without a token, or with an empty one, it fails with an ApiError
  -- of 401 and "Unauthorized", and nothing has changed.
  pub call_api_lem :
      (now : ℕ) (token : Option String) (s : Session kv digest verify next)
      → HasStatusWith now (truthy token) s
      → call_api now token s ≡ caller_gets_with now (truthy token) s
  unfolding call_api
  call_api_lem now token s h =
      let same =
        clerk_auth-header now (authorization token) (truthy token) s (bearer-authorization token) in
      ap (λ r. (received (some (respond build text r.0)), r.1)) same
      ∙ settles now (truthy token) s h
