-- ===== src/Client/Answers.antt =====
-- `request` of packages/portal-astro/src/lib/api/client.ts, and of packages/portal/src/api.ts: the header
-- that it sends, and what it makes of the answers of packages/schema/src.
use Prim.Native.String.{◌++◌}
use ngfw_sh.Prelude.{
  leb, eqb, if◌then◌else◌, or_else, truthy, ℕ, ◌≤◌, ◌<◌, String, ◌≡◌, refl, Bool, not, ◌&&◌, Option,
  none, some, List, arith,
}
use ngfw_sh.Platform.Http.{
  Refusal, error, errors, on_error, Reply, Outcome, ok, refused, api, other, value, thrown,
}

-- The JSON bodies of the API.
pub data Body (A : Type 0) : Type 0 where
  result : A → Body A
  refusal : Refusal → Body A

-- `none` for a body that is not JSON.
pub record Response (A : Type 0) : Type 0 where
  pub status : ℕ
  pub status_text : String
  pub body : Option (Body A)

-- How the promise of `request` settles: with the parsed body, with undefined, with an `ApiError`, or with
-- the error of `fetch` or `json`.
pub data Settled (A : Type 0) : Type 0 where
  fulfilled : Body A → Settled A
  undefined : Settled A
  api_error : ℕ → String → Settled A
  broken : Settled A

abbrev pub header : Option String → Option String
header none = none
header (some t) = some ("Bearer " ++ t)

-- The header `Authorization`.
unfoldable pub authorization : Option String → Option String
authorization token = header (truthy token)

abbrev is_ok : ℕ → Bool
is_ok status = leb 200 status && leb status 299

module _ {A : Type 0} where
  -- `body.error` and `body.message`.
  abbrev error_field : Body A → Option String
  error_field (refusal (error text)) = some text
  error_field b = none

  abbrev message_field : Body A → Option String
  message_field b = none

  -- The body of an answer that is not ok.
  abbrev failure_text : Response A → String
  failure_text res = elim res.body [
    | none ↦ res.status_text
    | some b ↦ or_else (error_field b) (or_else (message_field b) res.status_text)
  ]

  abbrev parsed : Option (Body A) → Settled A
  parsed none = broken
  parsed (some b) = fulfilled b

  -- `none` where `fetch` rejects.
  unfoldable pub received : Option (Response A) → Settled A
  received none = broken
  received (some res) =
      if not (is_ok res.status)
      then api_error res.status (failure_text res)
      else if eqb res.status 204
      then undefined
      else parsed res.body

-- `build` is Chanfana's `buildResponse`, and `text` the reason phrase of a status.
module _ {A : Type 0} (build : String → List (ℕ × String)) (text : ℕ → String) where
  abbrev response : ℕ → Body A → Response A
  response status body = record { status = status; status_text = text status; body = some body }

  abbrev sent : Reply A → Response A
  sent (ok status a) = response status (result a)
  sent (refused status r) = response status (refusal r)

  -- The answer of a handler, or of `app.onError` in packages/schema/src/index.ts.
  unfoldable pub respond : Outcome (Reply A) → Response A
  unfolding on_error
  respond o = sent (on_error build o)

  -- The statuses that go with an outcome.
  abbrev pub HasStatus : Outcome (Reply A) → Type 0
  HasStatus (value (ok status a)) = (200 ≤ status) × (status < 204)
  HasStatus (value (refused status message)) = 400 ≤ status
  HasStatus (thrown (api status message)) = 400 ≤ status
  HasStatus (thrown other) = Unit

  -- What a caller in the portal gets for an outcome.
  abbrev pub caller_gets : Outcome (Reply A) → Settled A
  caller_gets (value (ok status a)) = fulfilled (result a)
  caller_gets (value (refused status (error message))) = api_error status message
  caller_gets (value (refused status (errors es))) = api_error status (text status)
  caller_gets (thrown (api status message)) = api_error status (text status)
  caller_gets (thrown other) = api_error 500 (text 500)

  -- For an outcome with a fitting status, the portal's call is fulfilled with the envelope round the
  -- handler's result if it was accepted, fails with the refusal's own message if it was refused in a field
  -- `error`, and fails with no more than the reason phrase of the status if it was refused in a field
  -- `errors` or the handler threw.
  pub received-respond :
      (o : Outcome (Reply A)) → HasStatus o → received (some (respond o)) ≡ caller_gets o
  unfolding received respond
  received-respond (value (ok status a)) (low, high) = ground arith
  received-respond (value (refused status (error message))) h = ground arith
  received-respond (value (refused status (errors es))) h = ground arith
  received-respond (thrown (api status message)) h = ground arith
  received-respond (thrown other) h = refl
