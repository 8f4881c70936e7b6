-- ===== src/DevicesPage/Flow.antt =====
-- The controls of `DevicesPage` of packages/portal/src/App.tsx, and what happens on the page.
use ngfw_sh.Prelude.{
  if◌then◌else◌, ◌==◌, any, ℕ, String, Bool, true, false, not, ◌&&◌, Option, none, some, List, [],
  ◌∷◌,
}
use ngfw_sh.Prelude.Text.{trim}
use ngfw_sh.DevicesPage.{
  DevicesBody, RegistrationBody, bare_list, items, Result, Page, refetch, settle_listing,
  handle_register, settle_registration, handle_done, handle_delete, settle_deletion,
  copy_to_clipboard, settle_copy, fire,
}

abbrev pub is_none : {A : Type 0} → Option A → Bool
is_none none = true
is_none (some a) = false

abbrev is_at : Option String → String → Bool
is_at none id = false
is_at (some d) id = d == id

-- What the page shows: the list, its form, a device, and the question whether to delete one.
abbrev pub shows_list : Page → Bool
shows_list p = is_none p.registration_result

abbrev pub shows_form : Page → Bool
shows_form p = shows_list p && p.show_form

abbrev pub shows_device : String → Page → Bool
shows_device id p = shows_list p && any (λ d. d.id == id) (items p.devices)

abbrev pub asks : String → Page → Bool
asks id p = shows_device id p && is_at p.delete_confirm_id id

-- The clicks, what is typed into the form, and the settlements. `deletes`, `declines` and `confirms` are
-- the buttons Delete, No and Yes of a device, `finishes` is Done.
pub data Event : Type 0 where
  refreshes opens cancels registers finishes fires : Event
  names models deletes declines confirms copies_text : String → Event
  lists : Result DevicesBody → Event
  ends_registration : ℕ → Result RegistrationBody → Event
  ends_deletion : ℕ → Result (Unit {0}) → Event
  ends_copy : ℕ → Bool → Event

-- That the page shows an enabled control for an event; a settlement needs none.
abbrev pub is_enabled : Event → Page → Bool
is_enabled refreshes p = shows_list p && not p.loading
is_enabled opens p = shows_list p
is_enabled cancels p = shows_form p
is_enabled registers p = shows_form p && not p.registering && not (trim p.form_name == "")
is_enabled finishes p = not (shows_list p)
is_enabled fires p = true
is_enabled (names s) p = shows_form p
is_enabled (models s) p = shows_form p
is_enabled (deletes id) p = shows_device id p && not (asks id p)
is_enabled (declines id) p = asks id p && not p.deleting
is_enabled (confirms id) p = asks id p && not p.deleting
is_enabled (copies_text field) p = not (shows_list p)
is_enabled (lists o) p = true
is_enabled (ends_registration k o) p = true
is_enabled (ends_deletion k o) p = true
is_enabled (ends_copy k written) p = true

unfoldable pub handle : Event → Page → Page
unfolding refetch handle_register handle_done handle_delete copy_to_clipboard settle_listing
    settle_registration settle_deletion settle_copy fire
handle refreshes p = refetch p
handle opens p = record p { show_form = true }
handle cancels p = record p { show_form = false; form_name = ""; form_model = "" }
handle registers p = handle_register p
handle finishes p = handle_done p
handle fires p = fire p
handle (names s) p = record p { form_name = s }
handle (models s) p = record p { form_model = s }
handle (deletes id) p = record p { delete_confirm_id = some id }
handle (declines id) p = record p { delete_confirm_id = none }
handle (confirms id) p = handle_delete id p
handle (copies_text field) p = copy_to_clipboard field p
handle (lists o) p = settle_listing o p
handle (ends_registration k o) p = settle_registration k o p
handle (ends_deletion k o) p = settle_deletion k o p
handle (ends_copy k written) p = settle_copy k written p

unfoldable pub step : Event → Page → Page
unfolding handle
step e p = if is_enabled e p then handle e p else p

unfoldable pub run : List Event → Page → Page
unfolding step
run [] p = p
run (e ∷ es) p = run es (step e p)

-- The page with the request of its first list.
abbrev pub mount : Page
mount = record {
  devices = bare_list [];
  loading = true;
  error = none;
  registering = false;
  register_error = none;
  show_form = false;
  form_name = "";
  form_model = "";
  registration_result = none;
  copied_field = none;
  delete_confirm_id = none;
  deleting = false;
  delete_error = none;
  listings = 1;
  registrations = [];
  deletions = [];
  copies = [];
  timers = 0;
}
