-- ===== src/Polling/Tests.antt =====
-- packages/portal-astro/src/composables/usePolling.ts on short histories.
use ngfw_sh.Prelude.{String, ◌≡◌, refl, true, some, List, [], ◌∷◌}
use ngfw_sh.Polling.{
  PollingOptions, Page, at_setup, Event, refetch, settle, stop, resume, mount, unmount, step, run,
  fulfilled, rejected, mounts, becomes_visible, becomes_hidden, ticks, settles,
}
use ngfw_sh.Polling.Timers.{IsTidy, run-IsTidy, run-unmounts}

abbrev defaults : PollingOptions
defaults = record { immediate = true; enabled = true }

abbrev history : List (Event String)
history = mounts ∷ settles 1 (fulfilled "online") ∷ becomes_hidden ∷ becomes_visible ∷ []

abbrev afterwards : List (Event String)
afterwards = ticks 2 ∷ becomes_visible ∷ settles 2 (rejected "gone") ∷ []

abbrev page : Page String
page = at_setup

-- The mount makes two requests, and the return of the page a third.
fetches_test : (run defaults history page).fetches ≡ 3
unfolding run step mount resume refetch stop settle
fetches_test = refl

-- A request that was made first and answers last has the last word.
order_test :
    (run defaults
      (mounts ∷ settles 1 (fulfilled "new") ∷ settles 0 (fulfilled "old") ∷ [])
      page).data_value
    ≡ some "old"
unfolding run step mount resume refetch settle
order_test = refl

run-IsTidy_example : IsTidy (run defaults history page)
run-IsTidy_example = run-IsTidy defaults history

run-unmounts_example :
    (run defaults afterwards (unmount defaults (run defaults history page))).fetches
    ≡ (run defaults history page).fetches
run-unmounts_example = run-unmounts defaults history afterwards (tt, (tt, (tt, tt)))
