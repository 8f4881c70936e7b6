-- ===== src/Onboarding/Flow.antt =====
-- packages/portal-astro/src/components/onboarding/OnboardingFlow.vue with the components that it shows:
-- OnboardingWizard.vue, RouterSelector.vue, ConfigForm.vue and OrderSummary.vue. What a click does is an
-- event, which does nothing where the button is not shown or is disabled.
use Prim.Native.String.{◌++◌}
use ngfw_sh.Prelude.{
  eqb, if◌then◌else◌, or_else, truthy, get_elem?, ℕ, zero, suc, ◌+◌, ◌*◌, String, Bool, true, false,
  not, ◌&&◌, Option, none, some, List, [], ◌∷◌,
}
use ngfw_sh.Fleet.{RegisterBody}
use ngfw_sh.Onboarding.{RouterOption, OnboardingConfig}
use ngfw_sh.Onboarding.Form.{handle_submit}

pub data WizardStep : Type 0 where
  welcome router configuring summary submitting complete : WizardStep

pub record OrderResponse : Type 0 where
  pub order_id : String
  pub device_id : String
  pub estimated_delivery : String
  pub tracking_url : Option String
  pub setup_instructions : String
  pub status : String
  pub created_at : String

-- The refs of the wizard (the first four), of the flow, of the summary (`ordering`, with its timer of a
-- second) and of `useRegisterDevice`, with the request in flight.
pub record Flow : Type 0 where
  pub current_step : WizardStep
  pub wizard_router : Option RouterOption
  pub wizard_config : Option OnboardingConfig
  pub order_id : Option String
  pub selected_router : Option RouterOption
  pub config : Option OnboardingConfig
  pub order_response : Option OrderResponse
  pub submit_error : Option String
  pub ordering : Bool
  pub registering : Option RegisterBody
  pub register_error : Option String

abbrev rank : WizardStep → ℕ
rank welcome = 0
rank router = 1
rank configuring = 2
rank summary = 3
rank complete = 4
rank submitting = 5

abbrev pub is_at : WizardStep → WizardStep → Bool
is_at a b = eqb (rank a) (rank b)

abbrev steps : List WizardStep
steps = welcome ∷ router ∷ configuring ∷ summary ∷ complete ∷ []

abbrev find_index : WizardStep → List WizardStep → Option ℕ
find_index a [] = none
find_index a (b ∷ bs) =
    if is_at b a then some 0 else elim (find_index a bs) [ none ↦ none | some i ↦ some (suc i) ]

-- A step's components are made anew when it is shown, so that no order is being placed.
unfoldable pub go_to_step : WizardStep → Flow → Flow
go_to_step a s = record s { current_step = a; ordering = false }

abbrev pub gone_to : Option WizardStep → Flow → Flow
gone_to none s = s
gone_to (some a) s = go_to_step a s

-- The index of a step that is not in the list is -1.
abbrev next_step : Option ℕ → Option WizardStep
next_step none = some welcome
next_step (some i) = get_elem? steps (suc i)

abbrev previous_step : Option ℕ → Option WizardStep
previous_step none = none
previous_step (some zero) = none
previous_step (some (suc i)) = get_elem? steps i

unfoldable pub go_next : Flow → Flow
unfolding go_to_step
go_next s = gone_to (next_step (find_index s.current_step steps)) s

unfoldable pub go_back : Flow → Flow
unfolding go_to_step
go_back s = gone_to (previous_step (find_index s.current_step steps)) s

module _ {A : Type 0} where
  abbrev pub is_some : Option A → Bool
  is_some none = false
  is_some (some a) = true

abbrev can_go_back : Flow → Bool
can_go_back s =
    not (is_at s.current_step welcome)
    && not (is_at s.current_step submitting)
    && not (is_at s.current_step complete)

abbrev can_go_next : WizardStep → Flow → Bool
can_go_next welcome s = true
can_go_next router s = is_some s.wizard_router
can_go_next configuring s = is_some s.wizard_config
can_go_next summary s = true
can_go_next submitting s = false
can_go_next complete s = false

unfoldable pub handle_router_select : RouterOption → Flow → Flow
unfolding go_next
handle_router_select r s = go_next (record s { selected_router = some r; wizard_router = some r })

unfoldable pub handle_config_submit : OnboardingConfig → Flow → Flow
unfolding go_next
handle_config_submit c s = go_next (record s { config = some c; wizard_config = some c })

-- What is registered for a router and a configuration.
abbrev pub registration : RouterOption → OnboardingConfig → RegisterBody
registration r c = record { name = c.device_name; model = some (r.manufacturer ++ " " ++ r.name) }

abbrev pub asked : Option RouterOption → Option OnboardingConfig → Option RegisterBody
asked none c = none
asked (some r) none = none
asked (some r) (some c) = some (registration r c)

abbrev submitted : Option RegisterBody → Flow → Flow
submitted none s = record s { submit_error = some "Missing router or configuration" }
submitted (some body) s = record (go_to_step submitting s) {
  submit_error = none;
  registering = some body;
  register_error = none;
}

unfoldable pub handle_order_submit : Flow → Flow
unfolding go_to_step
handle_order_submit s = submitted (asked s.selected_router s.config) s

-- How the registration ends: with the identifier of the device, or with the message of an `Error`.
pub data RegistrationEnd : Type 0 where
  registered : String → RegistrationEnd
  failed : Option String → RegistrationEnd

-- `iso` is `toISOString` of a time in milliseconds.
abbrev order : (ℕ → String) → ℕ → String → OrderResponse
order iso now id = record {
  order_id = id;
  device_id = id;
  estimated_delivery = iso (now + 7 * 24 * 60 * 60 * 1000);
  tracking_url = none;
  setup_instructions = "https://docs.ngfw.sh/setup/quick-start";
  status = "provisioning";
  created_at = iso now;
}

unfoldable pub settle : (ℕ → String) → ℕ → RegistrationEnd → Flow → Flow
unfolding go_to_step
settle iso now (registered id) s =
    go_to_step complete (record s {
      registering = none;
      order_response = some (order iso now id);
      order_id = some id;
    })
settle iso now (failed e) s =
    let message = or_else e "Failed to register device" in
    go_to_step summary (record s {
      registering = none;
      register_error = some message;
      submit_error = some (or_else (truthy (some message)) "Failed to register device");
    })

-- The clicks on Continue and Back, on a router, on the form's button with the form's values, on the two
-- Edit buttons and on Place Order; the end of the summary's second; and the end of the registration.
pub data Event : Type 0 where
  continues backs edits_router edits_config places elapses : Event
  chooses : RouterOption → Event
  submits : OnboardingConfig → Event
  settles : ℕ → RegistrationEnd → Event

-- `v-if="selectedRouter && config"` on the step's summary.
abbrev shows_summary : Flow → Bool
shows_summary s = is_at s.current_step summary && is_some s.selected_router && is_some s.config

abbrev pub submitted_form : Option OnboardingConfig → Flow → Flow
submitted_form none s = s
submitted_form (some c) s = handle_config_submit c s

module _ (iso : ℕ → String) where
  unfoldable pub step : Event → Flow → Flow
  unfolding go_to_step go_next go_back handle_router_select handle_config_submit handle_order_submit
      settle
  step continues s =
      if not (is_at s.current_step summary) && can_go_next s.current_step s then go_next s else s
  step backs s = if can_go_back s then go_back s else s
  step edits_router s = if shows_summary s then go_to_step router s else s
  step edits_config s = if shows_summary s then go_to_step configuring s else s
  step places s = if shows_summary s && not s.ordering then record s { ordering = true } else s
  step elapses s = if s.ordering then handle_order_submit (record s { ordering = false }) else s
  step (chooses r) s =
      if is_at s.current_step router && r.in_stock then handle_router_select r s else s
  step (submits c) s =
      if is_at s.current_step configuring then submitted_form (handle_submit c) s else s
  step (settles now e) s = if is_some s.registering then settle iso now e s else s

  unfoldable pub run : List Event → Flow → Flow
  unfolding step
  run [] s = s
  run (e ∷ es) s = run es (step e s)

abbrev pub start : Flow
start = record {
  current_step = welcome;
  wizard_router = none;
  wizard_config = none;
  order_id = none;
  selected_router = none;
  config = none;
  order_response = none;
  submit_error = none;
  ordering = false;
  registering = none;
  register_error = none;
}
