-- ===== src/Hooks.antt =====
-- packages/portal/src/hooks/useDevices.ts: `useDeviceStatus`, which polls the status of a device every
-- five seconds by `getDeviceStatus` of packages/portal/src/api.ts. An effect polls one device and is
-- cancelled before the next one runs; a poll is in flight until its promise settles.
pub mod Tidy
pub mod Own
mod Tests
use ngfw_sh.Prelude.{
  eqb, ◌==◌, if◌then◌else◌, or_else, truthy, filter, get_elem?, without, ℕ, suc, String, Bool, true,
  false, not, Option, none, some, List, [], ◌∷◌, ◌++◌,
}

-- The number of an effect, and the device that it polls.
pub record Effect : Type 0 where
  pub number : ℕ
  pub device : String

-- The answer of the API, or the message of an `Error`.
pub data Result (S : Type 0) : Type 0 where
  status : S → Result S
  failure : Option String → Result S

-- The state of the hook with its dependency, the effect that is not cancelled, the intervals that are set
-- and the polls in flight, each with its effect.
pub record Hook (S : Type 0) : Type 0 where
  pub status : Option S
  pub loading : Bool
  pub error : Option String
  pub device_id : Option String
  pub live : Option Effect
  pub next : ℕ
  pub intervals : List Effect
  pub polls : List Effect

abbrev pub same_effect : Effect → Effect → Bool
same_effect e f = eqb e.number f.number

-- `cancelled` of an effect.
abbrev pub is_cancelled : Effect → Option Effect → Bool
is_cancelled e none = true
is_cancelled e (some f) = not (same_effect e f)

abbrev pub same_id : Option String → Option String → Bool
same_id none none = true
same_id (some a) (some b) = a == b
same_id a b = false

module _ {S : Type 0} where
  unfoldable pub poll : Effect → Hook S → Hook S
  poll e s =
      if is_cancelled e s.live
      then s
      else record s { loading = true; error = none; polls = s.polls ++ e ∷ [] }

  abbrev pub started : Effect → Hook S → Hook S
  started e s =
      poll e (record s { live = some e; next = suc s.next; intervals = s.intervals ++ e ∷ [] })

  -- The interval is set after the first poll has begun, which does not read it.
  abbrev pub effect_of : Option String → Hook S → Hook S
  effect_of none s = record s { status = none; loading = false; error = none }
  effect_of (some device) s = started (record { number = s.next; device = device }) s

  -- The effect for a dependency.
  unfoldable pub run_effect : Option String → Hook S → Hook S
  unfolding poll
  run_effect device_id s = effect_of (truthy device_id) (record s { device_id = device_id })

  abbrev pub cancel : Option Effect → Hook S → Hook S
  cancel none s = s
  cancel (some e) s = record s {
    live = none;
    intervals = filter (λ f. not (same_effect e f)) s.intervals;
  }

  -- The function that the effect returned.
  unfoldable pub cleanup : Hook S → Hook S
  cleanup s = cancel s.live s

  -- A render and the effect that React runs after it, in one step: nothing settles between the two in the
  -- model. The effect is run again if its dependency has changed. No render follows an unmount; the
  -- model allows it.
  unfoldable pub render : Option String → Hook S → Hook S
  unfolding run_effect cleanup
  render device_id s = if same_id device_id s.device_id then s else run_effect device_id (cleanup s)

  abbrev pub ticked : Option Effect → Hook S → Hook S
  ticked none s = s
  ticked (some e) s = poll e s

  abbrev pub shown : Result S → Hook S → Hook S
  shown (status v) s = record s { status = some v; loading = false }
  shown (failure e) s = record s {
    error = some (or_else e "Failed to fetch device status");
    loading = false;
  }

  abbrev pub answered : Option Effect → Result S → Hook S → Hook S
  answered none r s = s
  answered (some e) r s = if is_cancelled e s.live then s else shown r s

  -- The k-th poll in flight settles.
  unfoldable pub settle : ℕ → Result S → Hook S → Hook S
  settle k r s = answered (get_elem? s.polls k) r (record s { polls = without s.polls k })

  unfoldable pub mount : Option String → Hook S
  unfolding run_effect
  mount device_id = run_effect device_id record {
    status = none;
    loading = false;
    error = none;
    device_id = device_id;
    live = none;
    next = 0;
    intervals = [];
    polls = [];
  }

pub data Event (S : Type 0) : Type 0 where
  renders : Option String → Event S
  ticks : ℕ → Event S
  settles : ℕ → Result S → Event S
  unmounts : Event S

module _ {S : Type 0} where
  unfoldable pub step : Event S → Hook S → Hook S
  unfolding render poll settle cleanup
  step (renders device_id) s = render device_id s
  step (ticks k) s = ticked (get_elem? s.intervals k) s
  step (settles k r) s = settle k r s
  step unmounts s = cleanup s

  unfoldable pub run : List (Event S) → Hook S → Hook S
  unfolding step
  run [] s = s
  run (e ∷ es) s = run es (step e s)
