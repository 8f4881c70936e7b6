-- ===== src/Selection.antt =====
-- packages/portal-astro/src/composables/useSelectedDevice.ts in one tab of a browser: the device that is
-- selected, its copy in localStorage, and the watchers of the components that use it. Vue calls a watcher
-- at its next flush, if the value is then not the one that the watcher saw last.
pub mod Reload
mod Tests
use ngfw_sh.Prelude.{
  ◌==◌, if◌then◌else◌, truthy, without, ℕ, String, Bool, true, false, Option, none, some, List, [],
  ◌∷◌, ◌++◌, map,
}

-- A `Device` as far as it is read here, and whatever else it holds.
pub record SelectedDevice {ℓ} (T : Type ℓ) : Type ℓ where
  pub id : String
  pub rest : T

-- `stored` is the item at STORAGE_KEY; `seen` has what each watcher saw last, the oldest watcher first.
pub record Selection {ℓ} (T : Type ℓ) : Type ℓ where
  pub selected_device_id : Option String
  pub selected_device : Option (SelectedDevice T)
  pub stored : Option String
  pub seen : List (Option String)

pub data DeviceIdOrDevice {ℓ} (T : Type ℓ) : Type ℓ where
  by_id : String → DeviceIdOrDevice T
  by_device : SelectedDevice T → DeviceIdOrDevice T

-- `selects` and `clears` are the caller's; a component that is mounted calls useSelectedDevice, and one
-- that is unmounted takes the k-th watcher with it.
pub data Event {ℓ} (T : Type ℓ) : Type ℓ where
  mounts flushes reloads clears : Event T
  unmounts : ℕ → Event T
  selects : DeviceIdOrDevice T → Event T

abbrev pub same_id : Option String → Option String → Bool
same_id none none = true
same_id none (some b) = false
same_id (some a) none = false
same_id (some a) (some b) = a == b

-- The watchers' calls of one flush, each of which stores the same.
abbrev pub stored_by : Option String → List (Option String) → Option String → Option String
stored_by new_value [] stored = stored
stored_by new_value (v ∷ seen) stored =
    stored_by new_value seen (if same_id v new_value then stored else truthy new_value)

module _ {ℓ} {T : Type ℓ} where
  -- The module is loaded: what is stored is read, and nothing watches yet.
  unfoldable pub load : Option String → Selection T
  load stored = record {
    selected_device_id = stored;
    selected_device = none;
    stored = stored;
    seen = [];
  }

  unfoldable pub select_device : DeviceIdOrDevice T → Selection T → Selection T
  select_device (by_id id) s = record s { selected_device_id = some id; selected_device = none }
  select_device (by_device d) s = record s {
    selected_device_id = some d.id;
    selected_device = some d;
  }

  unfoldable pub clear_device : Selection T → Selection T
  clear_device s = record s { selected_device_id = none; selected_device = none }

  unfoldable pub use_selected_device : Selection T → Selection T
  use_selected_device s = record s { seen = s.seen ++ s.selected_device_id ∷ [] }

  unfoldable pub flush : Selection T → Selection T
  flush s = record s {
    stored = stored_by s.selected_device_id s.seen s.stored;
    seen = map (λ v. s.selected_device_id) s.seen;
  }

  unfoldable pub step : Event T → Selection T → Selection T
  unfolding load select_device clear_device use_selected_device flush
  step mounts s = use_selected_device s
  step flushes s = flush s
  step reloads s = load s.stored
  step clears s = clear_device s
  step (unmounts k) s = record s { seen = without s.seen k }
  step (selects d) s = select_device d s

  unfoldable pub run : List (Event T) → Selection T → Selection T
  unfolding step
  run [] s = s
  run (e ∷ es) s = run es (step e s)
