-- ===== src/NatPage/Tests.antt =====
-- packages/portal-astro/src/components/security/NATRulesApp.vue with texts for the rules that are shown.
use ngfw_sh.Prelude.{String, ◌≡◌, refl, true, none, List, [], ◌∷◌}
use ngfw_sh.Client.{LogQuery}
use ngfw_sh.Composables.Screen
use ngfw_sh.Composables.Screen.{values}
use ngfw_sh.NatPage.Form.{NatForm, validate_form, port_forward, tcp}
use ngfw_sh.NatPage.{Event, saving_new, settle, run, mount, adds, saves, types, settles}
use ngfw_sh.NatPage.Saves.{AreAsked, run-AreAsked}

abbrev no_query : LogQuery
no_query = record {
  device_id = none;
  level = none;
  category = none;
  start_time = none;
  end_time = none;
  limit = none;
  offset = none;
}

abbrev ssh : NatForm
ssh = record {
  device_id = "d1";
  name = "ssh";
  type = port_forward;
  external_ip = "203.0.113.1";
  external_port = 22;
  internal_ip = "10.0.0.2";
  internal_port = 22;
  protocol = tcp;
  enabled = true;
  description = "";
}

abbrev adds_one : List (Event String)
adds_one = settles 0 (values ("" ∷ [])) ∷ adds ∷ types ssh ∷ saves ∷ []

run-AreAsked_example : AreAsked (run adds_one (mount "d1" no_query ("" ∷ [])))
run-AreAsked_example = run-AreAsked "d1" no_query ("" ∷ []) adds_one

-- A second click on Save, before the first one has been answered, makes a second creation.
twice_test :
    (run (saves ∷ []) (run adds_one (mount "d1" no_query ("" ∷ [])))).tasks
    ≡ saving_new ∷ saving_new ∷ []
unfolding run mount validate_form Screen.change Screen.settle Screen.mount
twice_test = refl

invalid_test :
    validate_form (record ssh { name = " \t"; internal_port = 65536 })
    ≡ ("name", "Name is required") ∷ ("internal_port", "Valid port (1-65535) is required") ∷ []
unfolding validate_form
invalid_test = refl
