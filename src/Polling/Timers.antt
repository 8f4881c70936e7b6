-- ===== src/Polling/Timers.antt =====
-- The timers of packages/portal-astro/src/composables/usePolling.ts.
use ngfw_sh.Prelude.{
  if◌then◌else◌, Option-cases, All, ℕ, ◌+◌, ◌≡◌, refl, ◌∙◌, inl, inr, Bool, true, false, Option,
  none, some, List, [], ◌∷◌, arith,
}
use ngfw_sh.Polling.{
  PollingOptions, Page, at_setup, Settlement, Event, refetch, settle, stop, resume, mount, unmount,
  step, run, fulfilled, rejected, mounts, unmounts, becomes_visible, becomes_hidden, ticks, settles,
  calls_refetch, calls_stop, calls_resume,
}

abbrev timer_of : Option ℕ → List ℕ
timer_of none = []
timer_of (some i) = i ∷ []

abbrev is_some : Option ℕ → Bool
is_some none = false
is_some (some i) = true

-- The timers that are set are the one that the composable knows, and it polls if there is one.
abbrev pub IsTidy : {T : Type 0} → Page T → Type 0
IsTidy p = (p.timers ≡ timer_of p.interval_id) × (p.is_polling ≡ is_some p.interval_id)

module _ (options : PollingOptions) {T : Type 0} where
  refetch-IsTidy : (p : Page T) → IsTidy p → IsTidy (refetch options p)
  unfolding refetch
  refetch-IsTidy p t = ground arith

  settle-IsTidy : (i : ℕ) (r : Settlement T) (p : Page T) → IsTidy p → IsTidy (settle options i r p)
  unfolding settle
  settle-IsTidy i (fulfilled v) p t = ground arith
  settle-IsTidy i (rejected m) p t = ground arith

  stop-IsTidy : (p : Page T) → IsTidy p → IsTidy (stop options p) × ((stop options p).timers ≡ [])
  unfolding stop
  stop-IsTidy p t = elim (Option-cases p.interval_id) [
    | inl e ↦ ground arith
    | inr (i, e) ↦ ground arith
  ]

  resume-IsTidy : (p : Page T) → IsTidy p → IsTidy (resume options p)
  unfolding resume refetch
  resume-IsTidy p t = elim (Option-cases p.interval_id) [
    | inl e ↦ ground arith
    | inr (i, e) ↦ ground arith
  ]

  step-IsTidy : (e : Event T) (p : Page T) → IsTidy p → IsTidy (step options e p)
  unfolding step mount unmount
  step-IsTidy mounts p t =
      ground (arith, resume-IsTidy (refetch options p) (refetch-IsTidy p t), resume-IsTidy p t)
  step-IsTidy unmounts p t = ground (arith, stop-IsTidy p t)
  step-IsTidy becomes_visible p t = ground (arith, resume-IsTidy p t)
  step-IsTidy becomes_hidden p t = ground (arith, stop-IsTidy p t)
  step-IsTidy (ticks i) p t = ground (arith, refetch-IsTidy p t)
  step-IsTidy (settles i r) p t = ground (arith, settle-IsTidy i r p t)
  step-IsTidy calls_refetch p t = refetch-IsTidy p t
  step-IsTidy calls_stop p t = (stop-IsTidy p t).0
  step-IsTidy calls_resume p t = resume-IsTidy p t

  run-IsTidy_from : (es : List (Event T)) (p : Page T) → IsTidy p → IsTidy (run options es p)
  unfolding run
  run-IsTidy_from [] p t = t
  run-IsTidy_from (e ∷ es) p t = run-IsTidy_from es (step options e p) (step-IsTidy e p t)

  -- Whatever happens to a page, in whatever order, it never leaves a timer behind: the timers that
  -- are set are the one that it knows, if any, and it polls exactly while it has one.
  pub run-IsTidy : (es : List (Event T)) → IsTidy (run options es at_setup)
  run-IsTidy es = run-IsTidy_from es at_setup (refl, refl)

  -- The events other than a mount and the calls that ask for data.
  abbrev pub IsQuiet : Event T → Type 0
  IsQuiet becomes_visible = Unit
  IsQuiet becomes_hidden = Unit
  IsQuiet (ticks i) = Unit
  IsQuiet (settles i r) = Unit
  IsQuiet unmounts = Unit
  IsQuiet calls_stop = Unit
  IsQuiet _ = ⊥

  abbrev IsSilent : Page T → Type 0
  IsSilent p = (p.timers ≡ []) × (p.listening ≡ false)

  step-IsSilent :
      (e : Event T) (p : Page T)
      → IsQuiet e
      → IsSilent p
      → IsSilent (step options e p) × ((step options e p).fetches ≡ p.fetches)
  unfolding step unmount stop settle
  step-IsSilent becomes_visible p q s = ground arith
  step-IsSilent becomes_hidden p q s = ground arith
  step-IsSilent (ticks i) p q s = ground arith
  step-IsSilent (settles i (fulfilled v)) p q s = ground arith
  step-IsSilent (settles i (rejected m)) p q s = ground arith
  step-IsSilent unmounts p q s = elim (Option-cases p.interval_id) [
    | inl e ↦ ground arith
    | inr (i, e) ↦ ground arith
  ]
  step-IsSilent calls_stop p q s = elim (Option-cases p.interval_id) [
    | inl e ↦ ground arith
    | inr (i, e) ↦ ground arith
  ]
  step-IsSilent mounts p q s = elim q [ ]
  step-IsSilent calls_refetch p q s = elim q [ ]
  step-IsSilent calls_resume p q s = elim q [ ]

  run-fetches :
      (es : List (Event T)) (p : Page T)
      → All IsQuiet es
      → IsSilent p
      → (run options es p).fetches ≡ p.fetches
  unfolding run
  run-fetches [] p q s = refl
  run-fetches (e ∷ es) p (q, qs) s =
      let next = step-IsSilent e p q s in run-fetches es (step options e p) qs next.0 ∙ next.1

  unmount_lem :
      (p : Page T)
      → IsTidy p
      → IsSilent (unmount options p) × ((unmount options p).fetches ≡ p.fetches)
  unfolding unmount stop
  unmount_lem p t = elim (Option-cases p.interval_id) [
    | inl e ↦ ground arith
    | inr (i, e) ↦ ground arith
  ]

  -- Once a page is unmounted, whatever happened to it before, it makes no request again unless it is
  -- mounted or its caller refetches or resumes: no timer, no change of visibility and no request that
  -- settles late makes it.
  pub run-unmounts :
      (before after : List (Event T))
      → All IsQuiet after
      → (run options after (unmount options (run options before at_setup))).fetches
        ≡ (run options before at_setup).fetches
  run-unmounts before after q =
      let p = run options before at_setup in
      let quiet = unmount_lem p (run-IsTidy before) in
      run-fetches after (unmount options p) q quiet.0 ∙ quiet.1

  -- A page that is not polling makes two requests when it is mounted, if it is enabled and
  -- `immediate`, and one if it is not `immediate`.
  mount_fetches :
      (p : Page T)
      → options.enabled ≡ true
      → p.is_polling ≡ false
      → (mount options p).fetches ≡ (if options.immediate then p.fetches + 2 else p.fetches + 1)
  unfolding mount resume refetch
  mount_fetches p e n = ground arith
