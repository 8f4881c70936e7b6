-- ===== src/Onboarding/Tests.antt =====
-- packages/portal-astro/src/components/onboarding for a user who orders a router.
use ngfw_sh.Prelude.{ℕ, String, ◌≡◌, refl, ◌↔◌, true, false, Option, none, some, List, [], ◌∷◌}
use ngfw_sh.Fleet.{RegisterBody}
use ngfw_sh.Onboarding.{OnboardingConfig, dhcp, standard}
use ngfw_sh.Onboarding.Form.{validate_form, handle_submit}
use ngfw_sh.Onboarding.Flow.{
  is_some, Event, step, run, start, summary, complete, registered, failed, continues, backs, places,
  elapses, chooses, submits, settles,
}
use ngfw_sh.Onboarding.Soundness.{tries_again, settle-run}
use ngfw_sh.Onboarding.Complete.{IsComplete, validate_form_iff}
use ngfw_sh.Onboarding.Routers.{flint_2}

abbrev home : OnboardingConfig
home = record {
  device_name = "Home";
  shipping_address = record {
    full_name = "Ann";
    address_line1 = "1 Road";
    address_line2 = some "";
    city = "Reno";
    state = "NV";
    zip_code = "89501-0001";
    country = "US";
    phone_number = "(775) 555-0100";
  };
  wifi_config = record { ssid = "ann"; password = "longenough"; hide_ssid = false };
  wan_type = dhcp;
  wan_config = none;
  admin_password = "adminadmin";
  admin_password_confirm = some "adminadmin";
  security_preset = standard;
  enable_ips = true;
  enable_dns_filter = true;
  enable_auto_updates = true;
}

abbrev iso : ℕ → String
iso now = "1970-01-01T00:00:00.000Z"

abbrev orders : List Event
orders = continues ∷ chooses flint_2 ∷ backs ∷ continues ∷ submits home ∷ places ∷ elapses ∷ []

abbrev body : RegisterBody
body = record { name = "Home"; model = some "GL.iNet Flint 2 (GL-MT6000)" }

settle-run_example :
    let s = run iso orders start in
    ((id : String) → (step iso (settles 5 (registered id)) s).current_step ≡ complete)
    × ((e : Option String)
        → let u = step iso (settles 5 (failed e)) s in
          (u.current_step ≡ summary)
          × (is_some u.submit_error ≡ true)
          × ((tries_again iso u).registering ≡ some body))
settle-run_example = settle-run iso orders 5 body (unfold run handle_submit in refl)

validate_form_iff_example : (validate_form home ≡ true) ↔ IsComplete home
validate_form_iff_example = validate_form_iff home

home_test : validate_form home ≡ true
unfolding validate_form
home_test = refl

unconfirmed_test :
    validate_form (record home { wan_type = dhcp; admin_password_confirm = some "other" }) ≡ false
unfolding validate_form
unconfirmed_test = refl
