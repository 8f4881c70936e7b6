-- ===== src/DevicesPage.antt =====
-- `DevicesPage` of packages/portal/src/App.tsx with its hooks `useDevices` and `useRegisterDevice`: the
-- page lists the user's devices, registers one and deletes one. A click counts only where the page shows
-- the button and has it enabled. A request is in flight until its promise settles; what the hooks and the
-- page do then is one step. Leaving the page discards its state.
pub mod Flow
pub mod Faithful
pub mod Keys
pub mod Age
mod Tests
use ngfw_sh.Prelude.{
  if◌then◌else◌, ◌==◌, or_else, truthy, get_elem?, without, any, ℕ, zero, suc, String, Bool, true,
  false, not, ◌&&◌, Option, none, some, List, [], ◌∷◌, ◌++◌,
}
use ngfw_sh.Prelude.Text.{trim}
use ngfw_sh.Fleet.{Device, RegisterBody, Registered}

-- The JSON bodies that `request` of packages/portal/src/api.ts returns as they are: a list or a registration
-- as the portal's types have it, and one in the field `result` of an object, as
-- packages/schema/src/endpoints/fleet answers it.
pub data DevicesBody : Type 0 where
  bare_list : List Device → DevicesBody
  enveloped_list : List Device → DevicesBody

pub data RegistrationBody : Type 0 where
  bare : Registered → RegistrationBody
  enveloped : Registered → RegistrationBody

-- The devices that the page shows: an object has no length.
abbrev pub items : DevicesBody → List Device
items (bare_list ds) = ds
items (enveloped_list ds) = []

-- What the page shows of a registration, where `none` is undefined.
pub record RegistrationResult : Type 0 where
  pub device_id : Option String
  pub api_key : Option String
  pub websocket_url : Option String

-- The answer to a request, or the message of an `Error`.
pub data Result (A : Type 0) : Type 0 where
  resolved : A → Result A
  rejected : Option String → Result A

-- The state of the page and its hooks, the requests in flight, the texts on the way to the clipboard, by
-- their fields, and the number of timers that are set.
pub record Page : Type 0 where
  pub devices : DevicesBody
  pub loading : Bool
  pub error : Option String
  pub registering : Bool
  pub register_error : Option String
  pub show_form : Bool
  pub form_name : String
  pub form_model : String
  pub registration_result : Option RegistrationResult
  pub copied_field : Option String
  pub delete_confirm_id : Option String
  pub deleting : Bool
  pub delete_error : Option String
  pub listings : ℕ
  pub registrations : List RegisterBody
  pub deletions : List String
  pub copies : List String
  pub timers : ℕ

-- `fetchDevices` up to its `await`.
unfoldable pub refetch : Page → Page
refetch p = record p { loading = true; error = none; listings = suc p.listings }

abbrev pub listed : ℕ → Result DevicesBody → Page → Page
listed zero o p = p
listed (suc n) (resolved ds) p = record p { devices = ds; loading = false; listings = n }
listed (suc n) (rejected e) p = record p {
  error = some (or_else e "Failed to fetch devices");
  loading = false;
  listings = n;
}

-- One of the lists asked for settles.
unfoldable pub settle_listing : Result DevicesBody → Page → Page
settle_listing o p = listed p.listings o p

-- What `handleRegister` sends.
abbrev pub registration : Page → RegisterBody
registration p = record { name = trim p.form_name; model = truthy (some (trim p.form_model)) }

-- `handleRegister` and `register` up to their `await`.
unfoldable pub handle_register : Page → Page
handle_register p = if trim p.form_name == "" then p else record p {
  registering = true;
  register_error = none;
  registrations = p.registrations ++ registration p ∷ [];
}

-- The fields of the body itself.
abbrev pub result_of : RegistrationBody → RegistrationResult
result_of (bare r) = record {
  device_id = some r.device.id;
  api_key = some r.api_key;
  websocket_url = some r.websocket_url;
}
result_of (enveloped r) = record { device_id = none; api_key = none; websocket_url = none }

abbrev pub registered : Option RegisterBody → Result RegistrationBody → Page → Page
registered none o p = p
registered (some b) (resolved r) p = record p {
  registering = false;
  registration_result = some (result_of r);
}
registered (some b) (rejected e) p = record p {
  register_error = some (or_else e "Failed to register device");
  registering = false;
}

-- The k-th registration in flight settles.
unfoldable pub settle_registration : ℕ → Result RegistrationBody → Page → Page
settle_registration k o p =
    registered (get_elem? p.registrations k) o
      (record p { registrations = without p.registrations k })

unfoldable pub handle_done : Page → Page
unfolding refetch
handle_done p =
    refetch
      (record p { registration_result = none; show_form = false; form_name = ""; form_model = "" })

-- `handleDelete` up to its `await`.
unfoldable pub handle_delete : String → Page → Page
handle_delete id p = record p {
  deleting = true;
  delete_error = none;
  deletions = p.deletions ++ id ∷ [];
}

abbrev pub deleted : Option String → Result (Unit {0}) → Page → Page
deleted none o p = p
deleted (some id) (resolved u) p = record (refetch (record p { delete_confirm_id = none })) {
  deleting = false;
}
deleted (some id) (rejected e) p = record p {
  delete_error = some (or_else e "Failed to delete device");
  deleting = false;
}

unfoldable pub settle_deletion : ℕ → Result (Unit {0}) → Page → Page
unfolding refetch
settle_deletion k o p =
    deleted (get_elem? p.deletions k) o (record p { deletions = without p.deletions k })

-- `copyToClipboard`; where the clipboard refuses, nothing follows.
unfoldable pub copy_to_clipboard : String → Page → Page
copy_to_clipboard field p = record p { copies = p.copies ++ field ∷ [] }

abbrev pub copied : Option String → Bool → Page → Page
copied none written p = p
copied (some field) false p = p
copied (some field) true p = record p { copied_field = some field; timers = suc p.timers }

unfoldable pub settle_copy : ℕ → Bool → Page → Page
settle_copy k written p =
    copied (get_elem? p.copies k) written (record p { copies = without p.copies k })

abbrev pub timed_out : ℕ → Page → Page
timed_out zero p = p
timed_out (suc n) p = record p { copied_field = none; timers = n }

-- The two seconds of a timer are over.
unfoldable pub fire : Page → Page
fire p = timed_out p.timers p
