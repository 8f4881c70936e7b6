-- ===== src/Polling.antt =====
-- packages/portal-astro/src/composables/usePolling.ts: a page of the portal that fetches data again
-- and again, with the browser's timers and the requests that are under way.
pub mod Timers
mod Tests
use ngfw_sh.Prelude.{
  eqb, if◌then◌else◌, filter, any, ℕ, ◌+◌, String, Bool, true, false, not, ◌||◌, Option, none, some,
  List, [], ◌∷◌,
}

-- `immediate` and `enabled` of `PollingOptions`.
pub record PollingOptions : Type 0 where
  pub immediate : Bool
  pub enabled : Bool

-- The variables of the composable (`data` to `is_polling`) and what the browser holds for it: the
-- timers that are set, the number of the next, whether it listens for visibility, the requests under
-- way, and how many were ever made.
pub record Page (T : Type 0) : Type 0 where
  pub data_value : Option T
  pub loading : Bool
  pub error : Option String
  pub interval_id : Option ℕ
  pub is_polling : Bool
  pub timers : List ℕ
  pub next_timer : ℕ
  pub listening : Bool
  pub under_way : List ℕ
  pub fetches : ℕ

abbrev pub at_setup : {T : Type 0} → Page T
at_setup = record {
  data_value = none;
  loading = false;
  error = none;
  interval_id = none;
  is_polling = false;
  timers = [];
  next_timer = 1;
  listening = false;
  under_way = [];
  fetches = 0;
}

-- What becomes of a request: its data, or the text that `refetch` takes from its error.
pub data Settlement (T : Type 0) : Type 0 where
  fulfilled : T → Settlement T
  rejected : String → Settlement T

-- What happens to a page: its life, the browser's events, the end of a request, and calls of the
-- functions that the composable returns.
pub data Event (T : Type 0) : Type 0 where
  mounts unmounts : Event T
  becomes_visible becomes_hidden : Event T
  ticks : ℕ → Event T
  settles : ℕ → Settlement T → Event T
  calls_refetch calls_stop calls_resume : Event T

module _ (options : PollingOptions) {T : Type 0} where
  -- `refetch` up to its `await`.
  unfoldable pub refetch : Page T → Page T
  refetch p =
      if options.enabled
      then record p {
        loading = true;
        error = none;
        under_way = p.fetches ∷ p.under_way;
        fetches = p.fetches + 1;
      }
      else p

  abbrev received : Settlement T → Page T → Page T
  received (fulfilled t) p = record p { data_value = some t }
  received (rejected message) p = record p { error = some message }

  -- The rest of `refetch`, with its `finally`.
  unfoldable pub settle : ℕ → Settlement T → Page T → Page T
  settle i r p = record (received r p) {
    loading = false;
    under_way = filter (λ j. not (eqb j i)) p.under_way;
  }

  unfoldable pub stop : Page T → Page T
  stop p = elim p.interval_id [
    | none ↦ p
    | some i ↦ record p {
      timers = filter (λ j. not (eqb j i)) p.timers;
      interval_id = none;
      is_polling = false;
    }
  ]

  abbrev set_interval : Page T → Page T
  set_interval p = record p {
    timers = p.next_timer ∷ p.timers;
    interval_id = some p.next_timer;
    next_timer = p.next_timer + 1;
  }

  unfoldable pub resume : Page T → Page T
  unfolding refetch
  resume p =
      if p.is_polling || not options.enabled
      then p
      else set_interval (refetch (record p { is_polling = true }))

  -- `onMounted`.
  unfoldable pub mount : Page T → Page T
  unfolding refetch resume
  mount p =
      if options.enabled
      then record (resume (if options.immediate then refetch p else p)) { listening = true }
      else p

  -- `onUnmounted`.
  unfoldable pub unmount : Page T → Page T
  unfolding stop
  unmount p = record (stop p) { listening = false }

  -- A timer ticks while it is set, a page that listens hears of its visibility, and a request that is
  -- under way settles; otherwise the event does not come.
  unfoldable pub step : Event T → Page T → Page T
  unfolding refetch settle stop resume mount unmount
  step mounts p = mount p
  step unmounts p = unmount p
  step becomes_visible p = if p.listening then resume p else p
  step becomes_hidden p = if p.listening then stop p else p
  step (ticks i) p = if any (eqb i) p.timers then refetch p else p
  step (settles i r) p = if any (eqb i) p.under_way then settle i r p else p
  step calls_refetch p = refetch p
  step calls_stop p = stop p
  step calls_resume p = resume p

  unfoldable pub run : List (Event T) → Page T → Page T
  unfolding step
  run [] p = p
  run (e ∷ es) p = run es (step e p)
