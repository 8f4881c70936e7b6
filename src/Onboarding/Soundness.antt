-- ===== src/Onboarding/Soundness.antt =====
-- The steps of packages/portal-astro/src/components/onboarding, whatever the user clicks.
use ngfw_sh.Prelude.{
  Bool-cases, ℕ, String, ◌≡◌, refl, inl, inr, true, false, Option, none, some, List, [], ◌∷◌, arith,
}
use ngfw_sh.Fleet.{RegisterBody}
use ngfw_sh.Onboarding.{RouterOption, OnboardingConfig}
use ngfw_sh.Onboarding.Form.{validate_form, handle_submit}
use ngfw_sh.Onboarding.Flow.{
  WizardStep, OrderResponse, Flow, go_to_step, go_next, go_back, is_some, handle_router_select,
  handle_config_submit, asked, handle_order_submit, RegistrationEnd, settle, Event, submitted_form,
  step, run, start, welcome, router, configuring, summary, submitting, complete, registered, failed,
  continues, backs, edits_router, edits_config, places, elapses, chooses, submits, settles,
}

abbrev pub Every : {A : Type 0} → (A → Type 0) → Option A → Type 0
Every P none = Unit
Every P (some a) = P a

-- Emitted by the form, which leaves out the second password.
abbrev pub IsAccepted : OnboardingConfig → Type 0
IsAccepted c =
    (second : Option String) × (handle_submit (record c { admin_password_confirm = second })
      ≡ some c)

-- No order is being placed.
abbrev pub IsIdle : Flow → Type 0
IsIdle s = (s.registering ≡ none) × (s.ordering ≡ false)

-- The page shows the device that was registered.
abbrev pub IsOrdered : Option String → Option OrderResponse → Type 0
IsOrdered (some id) (some o) = (o.device_id ≡ id) × (o.order_id ≡ id)
IsOrdered (some id) none = ⊥
IsOrdered none o = ⊥

-- What each step needs.
abbrev pub IsReady : WizardStep → Flow → Type 0
IsReady welcome s = IsIdle s
IsReady router s = IsIdle s
IsReady configuring s = IsIdle s × (is_some s.selected_router ≡ true)
IsReady summary s =
    (s.registering ≡ none) × (is_some s.selected_router ≡ true) × (is_some s.config ≡ true)
IsReady submitting s =
    (s.registering ≡ asked s.selected_router s.config)
    × (s.ordering ≡ false)
    × (is_some s.selected_router ≡ true)
    × (is_some s.config ≡ true)
IsReady complete s = IsIdle s × IsOrdered s.order_id s.order_response

-- The wizard and the flow agree, a router is in stock, and a configuration is one that the form accepted.
pub record IsSound (s : Flow) : Type 0 where
  pub routers : s.wizard_router ≡ s.selected_router
  pub configs : s.wizard_config ≡ s.config
  pub stocked : Every (λ r. r.in_stock ≡ true) s.selected_router
  pub accepted : Every IsAccepted s.config
  pub ready : IsReady s.current_step s

-- The form emits its values without the second password.
emitted :
    (c d : OnboardingConfig)
    → handle_submit c ≡ some d
    → handle_submit (record d { admin_password_confirm = c.admin_password_confirm }) ≡ some d
unfolding handle_submit
emitted c d e = elim (Bool-cases (validate_form c)) [
  | inl good ↦
      let p : d ≡ record c { admin_password_confirm = none } = ground arith in rw p (rw good refl)
  | inr bad ↦ ground arith
]

handle_submit-IsAccepted :
    (c : OnboardingConfig) (o : Option OnboardingConfig) → handle_submit c ≡ o → Every IsAccepted o
handle_submit-IsAccepted c none e = tt
handle_submit-IsAccepted c (some d) e = (c.admin_password_confirm, emitted c d e)

submitted_form-IsSound :
    (o : Option OnboardingConfig) (s : Flow)
    → Every IsAccepted o
    → IsSound (record s { current_step = configuring })
    → IsSound (submitted_form o (record s { current_step = configuring }))
unfolding handle_config_submit go_next go_to_step
submitted_form-IsSound none s a h = h
submitted_form-IsSound (some c) s a h = record {
  routers = h.routers;
  configs = refl;
  stocked = h.stocked;
  accepted = a;
  ready = (h.ready.0.0, h.ready.1, refl);
}

module _ (iso : ℕ → String) where
  continues-IsSound :
      (w : WizardStep) (s : Flow)
      → let t = record s { current_step = w } in IsSound t → IsSound (step iso continues t)
  unfolding step go_next go_to_step
  continues-IsSound welcome s h = ground arith
  continues-IsSound router s h = ground arith
  continues-IsSound configuring s h = ground arith
  continues-IsSound summary s h = h
  continues-IsSound submitting s h = h
  continues-IsSound complete s h = h

  backs-IsSound :
      (w : WizardStep) (s : Flow)
      → let t = record s { current_step = w } in IsSound t → IsSound (step iso backs t)
  unfolding step go_back go_to_step
  backs-IsSound welcome s h = h
  backs-IsSound router s h = ground arith
  backs-IsSound configuring s h = ground arith
  backs-IsSound summary s h = ground arith
  backs-IsSound submitting s h = h
  backs-IsSound complete s h = h

  edits_router-IsSound :
      (w : WizardStep) (s : Flow)
      → let t = record s { current_step = w } in IsSound t → IsSound (step iso edits_router t)
  unfolding step go_to_step
  edits_router-IsSound summary s h = ground arith
  edits_router-IsSound welcome s h = h
  edits_router-IsSound router s h = h
  edits_router-IsSound configuring s h = h
  edits_router-IsSound submitting s h = h
  edits_router-IsSound complete s h = h

  edits_config-IsSound :
      (w : WizardStep) (s : Flow)
      → let t = record s { current_step = w } in IsSound t → IsSound (step iso edits_config t)
  unfolding step go_to_step
  edits_config-IsSound summary s h = ground arith
  edits_config-IsSound welcome s h = h
  edits_config-IsSound router s h = h
  edits_config-IsSound configuring s h = h
  edits_config-IsSound submitting s h = h
  edits_config-IsSound complete s h = h

  places-IsSound :
      (w : WizardStep) (s : Flow)
      → let t = record s { current_step = w } in IsSound t → IsSound (step iso places t)
  unfolding step
  places-IsSound summary s h = ground arith
  places-IsSound welcome s h = h
  places-IsSound router s h = h
  places-IsSound configuring s h = h
  places-IsSound submitting s h = h
  places-IsSound complete s h = h

  elapses-IsSound :
      (w : WizardStep) (s : Flow)
      → let t = record s { current_step = w } in IsSound t → IsSound (step iso elapses t)
  unfolding step handle_order_submit go_to_step
  elapses-IsSound summary s h = ground arith
  elapses-IsSound welcome s h = ground arith
  elapses-IsSound router s h = ground arith
  elapses-IsSound configuring s h = ground arith
  elapses-IsSound submitting s h = ground arith
  elapses-IsSound complete s h = ground arith

  chooses-IsSound :
      (r : RouterOption) (w : WizardStep) (s : Flow)
      → let t = record s { current_step = w } in IsSound t → IsSound (step iso (chooses r) t)
  unfolding step handle_router_select go_next go_to_step
  chooses-IsSound r router s h = ground arith
  chooses-IsSound r summary s h = h
  chooses-IsSound r welcome s h = h
  chooses-IsSound r configuring s h = h
  chooses-IsSound r submitting s h = h
  chooses-IsSound r complete s h = h

  submits-IsSound :
      (c : OnboardingConfig) (w : WizardStep) (s : Flow)
      → let t = record s { current_step = w } in IsSound t → IsSound (step iso (submits c) t)
  unfolding step handle_config_submit go_next go_to_step
  submits-IsSound c configuring s h =
      submitted_form-IsSound (handle_submit c) s (handle_submit-IsAccepted c (handle_submit c) refl)
        h
  submits-IsSound c summary s h = h
  submits-IsSound c welcome s h = h
  submits-IsSound c router s h = h
  submits-IsSound c submitting s h = h
  submits-IsSound c complete s h = h

  settles-IsSound :
      (now : ℕ) (e : RegistrationEnd) (w : WizardStep) (s : Flow)
      → let t = record s { current_step = w } in IsSound t → IsSound (step iso (settles now e) t)
  unfolding step settle go_to_step
  settles-IsSound now (registered id) submitting s h = ground arith
  settles-IsSound now (failed e) submitting s h = ground arith
  settles-IsSound now e summary s h = ground arith
  settles-IsSound now e welcome s h = ground arith
  settles-IsSound now e configuring s h = ground arith
  settles-IsSound now e router s h = ground arith
  settles-IsSound now e complete s h = ground arith

  step-IsSound : (e : Event) (s : Flow) → IsSound s → IsSound (step iso e s)
  step-IsSound continues s h = continues-IsSound s.current_step s h
  step-IsSound backs s h = backs-IsSound s.current_step s h
  step-IsSound edits_router s h = edits_router-IsSound s.current_step s h
  step-IsSound edits_config s h = edits_config-IsSound s.current_step s h
  step-IsSound places s h = places-IsSound s.current_step s h
  step-IsSound elapses s h = elapses-IsSound s.current_step s h
  step-IsSound (chooses r) s h = chooses-IsSound r s.current_step s h
  step-IsSound (submits c) s h = submits-IsSound c s.current_step s h
  step-IsSound (settles now e) s h = settles-IsSound now e s.current_step s h

  run_from-IsSound : (es : List Event) (s : Flow) → IsSound s → IsSound (run iso es s)
  unfolding run
  run_from-IsSound [] s h = h
  run_from-IsSound (e ∷ es) s h = run_from-IsSound es (step iso e s) (step-IsSound e s h)

  pub run-IsSound : (es : List Event) → IsSound (run iso es start)
  run-IsSound es =
      run_from-IsSound es start (record {
        routers = refl;
        configs = refl;
        stocked = tt;
        accepted = tt;
        ready = (refl, refl);
      })

  abbrev pub tries_again : Flow → Flow
  tries_again s = step iso elapses (step iso places s)

  settled_sound :
      (now : ℕ) (w : WizardStep) (s : Flow) (body : RegisterBody)
      → let t = record s { current_step = w } in
        IsSound t
        → t.registering ≡ some body
        → ((id : String) → (step iso (settles now (registered id)) t).current_step ≡ complete)
          × ((e : Option String)
              → let u = step iso (settles now (failed e)) t in
                (u.current_step ≡ summary)
                × (is_some u.submit_error ≡ true)
                × ((tries_again u).registering ≡ some body))
  unfolding step settle go_to_step handle_order_submit
  settled_sound now submitting s body h r =
      ((λ id. ground arith), (λ e. (ground arith, ground arith, ground arith)))
  settled_sound now welcome s body h r = ground arith
  settled_sound now router s body h r = ground arith
  settled_sound now configuring s body h r = ground arith
  settled_sound now summary s body h r = ground arith
  settled_sound now complete s body h r = ground arith

  -- Whatever the user did before: a registration in flight that succeeds ends at the last page, and one
  -- that fails brings back the review with an error, where Place Order asks for the same registration.
  pub settle-run :
      (es : List Event) (now : ℕ) (body : RegisterBody)
      → (run iso es start).registering ≡ some body
      → let s = run iso es start in
        ((id : String) → (step iso (settles now (registered id)) s).current_step ≡ complete)
        × ((e : Option String)
            → let u = step iso (settles now (failed e)) s in
              (u.current_step ≡ summary)
              × (is_some u.submit_error ≡ true)
              × ((tries_again u).registering ≡ some body))
  settle-run es now body r =
      let s = run iso es start in settled_sound now s.current_step s body (run-IsSound es) r
