-- ===== src/Platform/Http.antt =====
-- Handlers as state-passing functions that may throw, and `app.onError` of
-- packages/schema/src/index.ts.
use ngfw_sh.Prelude.{
  if◌then◌else◌, ℕ, String, Bool, true, false, ◌&&◌, Option, none, some, List, [], ◌∷◌,
}

-- What an answer that refuses says: a text in its field `error`, or codes and texts in its field `errors`.
pub data Refusal : Type 0 where
  error : String → Refusal
  errors : List (ℕ × String) → Refusal

-- A JSON body `{success: true, result}`, or one with a refusal, under its status.
pub data Reply (A : Type 0) : Type 0 where
  ok : ℕ → A → Reply A
  refused : ℕ → Refusal → Reply A

-- `api` is an `ApiException`, such as a request that fails validation.
pub data Exception : Type 0 where
  api : ℕ → String → Exception
  other : Exception

pub data Outcome (A : Type 0) : Type 0 where
  value : A → Outcome A
  thrown : Exception → Outcome A

abbrev pub M : Type 0 → Type 0 → Type 0
M S A = S → Outcome A × S

module _ {S A B : Type 0} where
  abbrev pub continue : (A → M S B) → Outcome A × S → Outcome B × S
  continue f (value a, s) = f a s
  continue f (thrown e, s) = (thrown e, s)

infixl 5 ◌>>=◌ ◌>>◌
abbrev pub ◌>>=◌ : {S A B : Type 0} → M S A → (A → M S B) → M S B
◌>>=◌ m f s = continue f (m s)

abbrev pub ◌>>◌ : {S B : Type 0} → M S (Unit {0}) → M S B → M S B
m >> k = m >>= λ _. k

module _ {S A : Type 0} where
  abbrev pub answer : ℕ → A → M S (Reply A)
  answer status a s = (value (ok status a), s)

  abbrev pub refuse : ℕ → String → M S (Reply A)
  refuse status message s = (value (refused status (error message)), s)

  -- The handlers that write their answer by hand.
  abbrev pub refuse_errors : ℕ → String → M S (Reply A)
  refuse_errors status message s = (value (refused status (errors ((status, message) ∷ []))), s)

  -- An awaited promise that may be rejected; the state stays.
  abbrev pub fetched : Option A → S → Outcome A × S
  fetched none s = (thrown other, s)
  fetched (some a) s = (value a, s)

  abbrev pub await : (S → Option A) → M S A
  await f s = fetched (f s) s

  -- `getValidatedData`: a request that its schema refuses never reaches the handler's body.
  abbrev pub validated : Bool → M S A → M S A
  validated good m s = if good then m s else (thrown (api 400 "Input Validation Error"), s)

module _ {S : Type 0} where
  abbrev pub stored : S → Option S → Outcome (Unit {0}) × S
  stored s none = (thrown other, s)
  stored s (some s') = (value tt, s')

  -- A write that may be rejected, and then changes nothing.
  abbrev pub execute : (S → Option S) → M S (Unit {0})
  execute f s = stored s (f s)

  abbrev settled : Bool → S → Outcome (Unit {0}) × S
  settled true s = (value tt, s)
  settled false s = (thrown other, s)

  -- `await Promise.all([a, b, c])`: each write is started, whatever becomes of the others.
  abbrev pub all_of : (S → S × Bool) → (S → S × Bool) → (S → S × Bool) → M S (Unit {0})
  all_of a b c s =
      let ra = a s in let rb = b ra.0 in let rc = c rb.0 in settled (ra.1 && rb.1 && rc.1) rc.0

  abbrev pub await_write : (S → S × Bool) → M S (Unit {0})
  await_write a s = let r = a s in settled r.1 r.0

-- `app.onError`, where `build` is Chanfana's `buildResponse` of an exception with a message.
unfoldable pub on_error : {A : Type 0} → (String → List (ℕ × String)) → Outcome (Reply A) → Reply A
on_error build (value r) = r
on_error build (thrown (api status message)) = refused status (errors (build message))
on_error build (thrown other) = refused 500 (errors ((7000, "Internal Server Error") ∷ []))
