-- ===== src/Composables/Screen.antt =====
-- The states of a composable of packages/portal-astro/src/composables, and its steps.
use ngfw_sh.Prelude.{
  ◌==◌, if◌then◌else◌, or_else, get_elem?, without, ℕ, String, Bool, true, false, ◌&&◌, Option,
  none, some, List, [], ◌∷◌, ◌++◌,
}
use ngfw_sh.Client.{LogQuery, Call}
use ngfw_sh.Composables.{
  Composable, needs_device, fetch_calls, fetch_failed, Change, on_device, change_call, logs,
  configure,
}

-- A promise in flight: of a fetch, or of a change with the text for its failure.
pub data Pending (Body : Type 0) : Type 0 where
  fetching : List (Call Body) → Pending Body
  changing : Change Body → Call Body → String → Pending Body

-- The values that the promise is fulfilled with, one for each call, or the message of its `Error`.
pub data Settlement (V : Type 0) : Type 0 where
  values : List V → Settlement V
  failure : Option String → Settlement V

-- What the caller's own promise comes to.
pub data Promise (V : Type 0) : Type 0 where
  waits : Promise V
  resolves : List V → Promise V
  rejects : Option String → Promise V

-- The refs of a composable with the caller's `deviceId` ("" where none is selected) and the query of
-- `useLogs`. `shown` has one value for each call of a fetch.
pub record Screen (Body V : Type 0) : Type 0 where
  pub device : String
  pub query : LogQuery
  pub shown : List V
  pub loading : Bool
  pub error : Option String
  pub pending : List (Pending Body)

-- What happens to a mounted component; a new query makes `useLogs` fetch again.
pub data Event (Body V : Type 0) : Type 0 where
  reload : Event Body V
  changes : Change Body → Event Body V
  settles : ℕ → Settlement V → Event Body V
  selects : String → Event Body V
  asks : LogQuery → Event Body V

module _ {A : Type 0} where
  -- `config.value = updated`: the configuration is the first of what is shown.
  abbrev pub set_first : List A → List A → List A
  set_first (v ∷ vs) (w ∷ ws) = v ∷ ws
  set_first vs ws = ws

abbrev pub idle : Composable → String → Bool
idle c device = needs_device c && device == ""

abbrev pub configures : {Body : Type 0} → Change Body → Bool
configures (configure payload) = true
configures ch = false

module _ {Body V : Type 0} (c : Composable) where
  unfoldable pub refetch : Screen Body V → Screen Body V
  refetch s = if idle c s.device then s else record s {
    loading = true;
    error = none;
    pending = s.pending ++ fetching (fetch_calls c s.device s.query) ∷ [];
  }

  abbrev pub begun :
      Change Body → Option (Call Body × String) → Screen Body V → Screen Body V × Promise V
  -- A change that the composable does not offer.
  begun ch none s = (s, rejects none)
  begun ch (some (call, text)) s =
      (record s { error = none; pending = s.pending ++ changing ch call text ∷ [] }, waits)

  unfoldable pub change : Change Body → Screen Body V → Screen Body V × Promise V
  change ch s =
      if on_device ch && s.device == ""
      then (s, rejects (some "No device ID provided"))
      else begun ch (change_call c s.device ch) s

  unfoldable pub settled : Pending Body → Settlement V → Screen Body V → Screen Body V × Promise V
  settled (fetching calls) (values vs) s = (record s { shown = vs; loading = false }, resolves [])
  settled (fetching calls) (failure e) s =
      (record s { error = some (or_else e (fetch_failed c)); loading = false }, resolves [])
  settled (changing ch call text) (values vs) s =
      (record s { shown = if configures ch then set_first vs s.shown else s.shown }, resolves vs)
  settled (changing ch call text) (failure e) s =
      (record s { error = some (or_else e text) }, rejects e)

  abbrev pub settled_at :
      ℕ → Settlement V → Option (Pending Body) → Screen Body V → Screen Body V × Promise V
  settled_at k o none s = (s, waits)
  settled_at k o (some p) s = settled p o (record s { pending = without s.pending k })

  unfoldable pub settle : ℕ → Settlement V → Screen Body V → Screen Body V × Promise V
  unfolding settled
  settle k o s = settled_at k o (get_elem? s.pending k) s

  abbrev pub watched : Composable → Screen Body V → Screen Body V
  watched logs s = refetch s
  watched d s = s

  unfoldable pub step : Event Body V → Screen Body V → Screen Body V
  unfolding refetch change settle
  step reload s = refetch s
  step (changes ch) s = (change ch s).0
  step (settles k o) s = (settle k o s).0
  step (selects device) s = record s { device = device }
  step (asks q) s = watched c (record s { query = q })

  unfoldable pub run : List (Event Body V) → Screen Body V → Screen Body V
  unfolding step
  run [] s = s
  run (e ∷ es) s = run es (step e s)

  -- `setup` with `onMounted`, or the immediate watch of `useLogs`.
  unfoldable pub mount : String → LogQuery → List V → Screen Body V
  unfolding refetch
  mount device q blank = refetch record {
    device = device;
    query = q;
    shown = blank;
    loading = true;
    error = none;
    pending = [];
  }
