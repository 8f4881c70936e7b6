-- ===== src/Toasts/Tests.antt =====
-- packages/portal-astro/src/composables/useToast.ts on a session with three toasts.
use ngfw_sh.Prelude.{All, ◌≡◌, refl, none, some, List, [], ◌∷◌}
use ngfw_sh.Toasts.{Event, run, no_toasts, success, error, info, shows, removes}
use ngfw_sh.Toasts.Expiry.{fire_all, fire_all-run}

abbrev session : List Event
session =
    shows "toast-1" success "Rule created successfully" none
    ∷ shows "toast-2" error "Failed to save" (some 0)
    ∷ removes "toast-1"
    ∷ shows "toast-3" info "Reloading" (some 500)
    ∷ []

fire_all-run_example :
    let s = run session no_toasts in
    ((fire_all s.timers s).timers ≡ []) × All (λ t. t.duration ≡ 0) ((fire_all s.timers s).toasts)
unfolding run
fire_all-run_example = fire_all-run session (refl, (refl, (tt, (refl, tt))))

two_timers : (run session no_toasts).timers ≡ "toast-1" ∷ "toast-3" ∷ []
unfolding run
two_timers = refl
