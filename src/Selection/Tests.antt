-- ===== src/Selection/Tests.antt =====
-- packages/portal-astro/src/composables/useSelectedDevice.ts with two components that come and go.
use ngfw_sh.Prelude.{ℕ, ◌≡◌, refl, none, some, List, [], ◌∷◌}
use ngfw_sh.Selection.{
  SelectedDevice, Event, load, select_device, clear_device, use_selected_device, flush, step, run,
  by_id, by_device, mounts, flushes, reloads, clears, unmounts, selects,
}
use ngfw_sh.Selection.Reload.{IsOf, reloads-run}

abbrev router : SelectedDevice ℕ
router = record { id = "router"; rest = 7 }

abbrev history : List (Event ℕ)
history =
    mounts
    ∷ selects (by_id "old")
    ∷ mounts
    ∷ flushes
    ∷ unmounts 0
    ∷ clears
    ∷ selects (by_device router)
    ∷ []

-- A component that is unmounted in the tick of the selection takes it along: the storage stays as it was.
lost_test :
    (run
      (mounts ∷ selects (by_device router) ∷ unmounts 0 ∷ flushes ∷ reloads ∷ [])
      (load none)).selected_device_id
    ≡ none
unfolding run step load select_device use_selected_device flush
lost_test = refl

reloads-run_example :
    let s = run history (load none) in
    ((step reloads (step flushes s)).selected_device_id ≡ some "router")
    × IsOf (some router) (some "router")
unfolding run step load select_device clear_device use_selected_device flush
reloads-run_example =
    reloads-run history (tt, (tt, (tt, (tt, ((refl, (refl, tt)), (tt, (tt, tt)))))))
