-- ===== src/Hooks/Tests.antt =====
-- `useDeviceStatus` of packages/portal/src/hooks/useDevices.ts for two devices.
use ngfw_sh.Prelude.{truthy, get_elem?, String, ◌≡◌, refl, ◌⊎◌, some, List, [], ◌∷◌, map}
use ngfw_sh.Hooks.{Effect, Hook, shown, settle, mount, Event, run, status, renders, ticks}
use ngfw_sh.Hooks.Own.{ignored, settle_own}

-- The poll of the first device is still in flight when the second is shown.
abbrev switches : List (Event String)
switches = renders (some "d2") ∷ ticks 0 ∷ []

abbrev switched : Hook String
switched = run switches (mount (some "d1"))

switched_polls : map (λ e. e.device) switched.polls ≡ "d1" ∷ "d2" ∷ "d2" ∷ []
unfolding run mount
switched_polls = refl

settle_own_example :
    (settle 0 (status "online") switched ≡ ignored 0 switched)
    ⊎ ((e : Effect) × (get_elem? switched.polls 0 ≡ some e)
        × (truthy switched.device_id ≡ some e.device)
        × (settle 0 (status "online") switched ≡ shown (status "online") (ignored 0 switched)))
settle_own_example = settle_own (some "d1") switches 0 (status "online")
