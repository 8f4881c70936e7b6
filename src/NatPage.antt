-- ===== src/NatPage.antt =====
-- packages/portal-astro/src/components/security/NATRulesApp.vue: the page for the NAT rules of the selected
-- device, over `useNAT` of Composables. A handler stops at an `await` and goes on when its call settles.
pub mod Blank
pub mod Form
pub mod Saves
pub mod Ends
mod Tests
use ngfw_sh.Prelude.{
  if◌then◌else◌, or_else, get_elem?, without, ℕ, String, Bool, true, false, not, Option, none, some,
  List, [], ◌∷◌, ◌++◌,
}
use ngfw_sh.Client.{LogQuery}
use ngfw_sh.Composables.{Change, create, update, remove, nat}
use ngfw_sh.Composables.Screen
use ngfw_sh.Composables.Screen.{Settlement, Promise, Screen, waits, resolves, rejects}
use ngfw_sh.Toasts.{ToastType, success, error}
use ngfw_sh.Prelude.Errors.{is_nil}
use ngfw_sh.NatPage.Form.{
  PortalNatRule, NatForm, NatBody, update_of, only_enabled, validate_form, port_forward, tcp,
  creates, renews,
}

-- What a handler does when the call that it awaits settles.
pub data Task : Type 0 where
  loading saving_new saving_old removing : Task
  toggling : Bool → Task

-- The refs of the page with those of `useNAT`, a task for each call in flight, and the notifications that
-- it has made.
pub record Page (V : Type 0) : Type 0 where
  pub rules : Screen NatBody V
  pub tasks : List Task
  pub show_modal : Bool
  pub editing_rule : Option PortalNatRule
  pub form : NatForm
  pub form_errors : List (String × String)
  pub notes : List (ToastType × String)

abbrev pub empty_form : String → NatForm
empty_form device = record {
  device_id = device;
  name = "";
  type = port_forward;
  external_ip = "";
  external_port = 0;
  internal_ip = "";
  internal_port = 0;
  protocol = tcp;
  enabled = true;
  description = "";
}

abbrev pub form_of : PortalNatRule → NatForm
form_of r = record {
  device_id = r.device_id;
  name = r.name;
  type = r.type;
  external_ip = r.external_ip;
  external_port = r.external_port;
  internal_ip = r.internal_ip;
  internal_port = r.internal_port;
  protocol = r.protocol;
  enabled = r.enabled;
  description = or_else r.description "";
}

abbrev pub succeeded : Task → String
succeeded loading = ""
succeeded saving_new = "NAT rule created successfully"
succeeded saving_old = "NAT rule updated successfully"
succeeded removing = "NAT rule deleted successfully"
succeeded (toggling true) = "NAT rule enabled"
succeeded (toggling false) = "NAT rule disabled"

abbrev pub failed : Task → String
failed loading = ""
failed saving_new = "Failed to save NAT rule"
failed saving_old = "Failed to save NAT rule"
failed removing = "Failed to delete NAT rule"
failed (toggling b) = "Failed to toggle NAT rule"

module _ {V : Type 0} where
  unfoldable pub reset_form : Page V → Page V
  reset_form p = record p { form = empty_form p.rules.device; form_errors = [] }

  unfoldable pub handle_add : Page V → Page V
  unfolding reset_form
  handle_add p = record (reset_form (record p { editing_rule = none })) { show_modal = true }

  unfoldable pub handle_edit : PortalNatRule → Page V → Page V
  handle_edit r p = record p { editing_rule = some r; form = form_of r; show_modal = true }

  unfoldable pub handle_cancel : Page V → Page V
  unfolding reset_form
  handle_cancel p = reset_form (record p { show_modal = false })

  abbrev pub notify : ToastType → String → Page V → Page V
  notify type message p = record p { notes = p.notes ++ (type, message) ∷ [] }

  -- A `refetch` that makes a call has a task.
  unfoldable pub refetch : Page V → Page V
  refetch p =
      if Screen.idle nat p.rules.device
      then p
      else record p { rules = Screen.refetch nat p.rules; tasks = p.tasks ++ loading ∷ [] }

  abbrev pub after_save : Task → Page V → Page V
  after_save loading p = p
  after_save saving_new p = reset_form (record p { show_modal = false })
  after_save saving_old p = reset_form (record p { show_modal = false })
  after_save removing p = p
  after_save (toggling b) p = p

  -- What follows the `await`, and the `catch`.
  unfoldable pub go_on : Task → Promise V → Page V → Page V
  unfolding reset_form refetch
  go_on t waits p = p
  go_on loading o p = p
  go_on t (resolves vs) p = refetch (after_save t (notify success (succeeded t) p))
  go_on t (rejects e) p = notify error (or_else e (failed t)) p

  abbrev pub called : Task → Screen NatBody V × Promise V → Page V → Page V
  called t (s, waits) p = record p { rules = s; tasks = p.tasks ++ t ∷ [] }
  called t (s, resolves vs) p = go_on t (resolves vs) (record p { rules = s })
  called t (s, rejects e) p = go_on t (rejects e) (record p { rules = s })

  unfoldable pub call : Task → Change NatBody → Page V → Page V
  unfolding go_on
  call t ch p = called t (Screen.change nat ch p.rules) p

  abbrev pub saved : Option PortalNatRule → Page V → Page V
  saved none p = call saving_new (create (creates p.form)) p
  saved (some r) p = call saving_old (update r.id (renews (update_of p.form))) p

  unfoldable pub handle_save : Page V → Page V
  unfolding call validate_form
  handle_save p =
      let p' = record p { form_errors = validate_form p.form } in
      if is_nil p'.form_errors then saved p'.editing_rule p' else p'

  -- With the answer of `confirm`.
  unfoldable pub handle_delete : String → Bool → Page V → Page V
  unfolding call
  handle_delete id confirmed p = if confirmed then call removing (remove id) p else p

  unfoldable pub handle_toggle : PortalNatRule → Page V → Page V
  unfolding call
  handle_toggle r p =
      call (toggling (not r.enabled)) (update r.id (renews (only_enabled (not r.enabled)))) p

  abbrev pub settled_at : Option Task → Screen NatBody V × Promise V → Page V → Page V
  settled_at none (s, o) p = p
  settled_at (some t) (s, o) p = go_on t o (record p { rules = s })

  unfoldable pub settle : ℕ → Settlement V → Page V → Page V
  unfolding go_on
  settle k o p =
      settled_at (get_elem? p.tasks k) (Screen.settle nat k o p.rules)
        (record p { tasks = without p.tasks k })

-- What happens to the page. `types` is what the inputs make of the form, `polls` a tick of usePolling or a
-- click on Refresh or Retry, and `settles` the end of the k-th call in flight.
pub data Event (V : Type 0) : Type 0 where
  adds saves cancels polls : Event V
  edits toggles : PortalNatRule → Event V
  types : NatForm → Event V
  deletes : String → Bool → Event V
  selects : String → Event V
  settles : ℕ → Settlement V → Event V

module _ {V : Type 0} where
  unfoldable pub step : Event V → Page V → Page V
  unfolding handle_add handle_edit handle_save handle_delete handle_toggle handle_cancel refetch
      settle
  step adds p = handle_add p
  step saves p = handle_save p
  step cancels p = handle_cancel p
  step polls p = refetch p
  step (edits r) p = handle_edit r p
  step (toggles r) p = handle_toggle r p
  step (types f) p = record p { form = f }
  step (deletes id confirmed) p = handle_delete id confirmed p
  step (selects device) p = record p { rules = record (p.rules) { device = device } }
  step (settles k o) p = settle k o p

  unfoldable pub run : List (Event V) → Page V → Page V
  unfolding step
  run [] p = p
  run (e ∷ es) p = run es (step e p)

  -- The page with its first fetch, if a device is selected.
  unfoldable pub mount : String → LogQuery → List V → Page V
  mount device q blank = record {
    rules = Screen.mount nat device q blank;
    tasks = if Screen.idle nat device then [] else loading ∷ [];
    show_modal = false;
    editing_rule = none;
    form = empty_form device;
    form_errors = [];
    notes = [];
  }
