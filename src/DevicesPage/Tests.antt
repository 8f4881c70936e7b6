-- ===== src/DevicesPage/Tests.antt =====
-- Sessions of the devices page.
use ngfw_sh.Prelude.{◌++◌, ◌≡◌, refl, none, some, List, [], ◌∷◌}
use ngfw_sh.Prelude.Text.{trim}
use ngfw_sh.Fleet.{Device, Registered}
use ngfw_sh.DevicesPage.{
  bare_list, bare, enveloped, RegistrationResult, handle_register, settle_registration, resolved,
}
use ngfw_sh.DevicesPage.Flow.{
  Event, run, step, handle, mount, refreshes, opens, registers, names, deletes, confirms, lists,
  ends_registration, ends_deletion,
}
use ngfw_sh.DevicesPage.Faithful.{IsFaithful, run-IsFaithful}
use ngfw_sh.DevicesPage.Keys.{IsOf, settle_registration-run}
use ngfw_sh.DevicesPage.Age.{m_ago, just_now, format_last_seen}

abbrev router : Device
router = record {
  id = "d1";
  name = "Edge";
  model = none;
  serial = none;
  owner_id = "u1";
  firmware_version = none;
  status = "provisioning";
  created_at = 1700000000;
  last_seen = none;
}

abbrev answer : Registered
answer = record {
  device = router;
  api_key = "ngfw_1";
  websocket_url = "wss://api.ngfw.sh/agent/ws";
}

abbrev clicks : List Event
clicks = opens ∷ names "  Edge " ∷ registers ∷ []

-- Clicks behind the screen of the key count for nothing.
abbrev later : List Event
later = registers ∷ lists (resolved (bare_list (router ∷ []))) ∷ deletes "d1" ∷ []

run-IsFaithful_example : IsFaithful (run clicks mount)
run-IsFaithful_example = run-IsFaithful clicks

settle_registration-run_example :
    let p = run later (step (ends_registration 0 (resolved (bare answer))) (run clicks mount)) in
    (x : RegistrationResult) × (p.registration_result ≡ some x) × IsOf (bare answer) x
settle_registration-run_example =
    settle_registration-run clicks later 0 (record { name = "Edge"; model = none }) (bare answer)
      (unfold run step handle handle_register trim in refl) (refl, (refl, (refl, tt)))

-- The API's own answer shows no key.
enveloped_test :
    (run
      (clicks ++ ends_registration 0 (resolved (enveloped answer)) ∷ [])
      mount).registration_result
    ≡ some (record { device_id = none; api_key = none; websocket_url = none })
unfolding run step handle handle_register settle_registration trim
enveloped_test = refl

minutes_test : format_last_seen 1700000150999 (some 1700000000) ≡ m_ago 2
unfolding format_last_seen
minutes_test = refl

future_test : format_last_seen 1700000000000 (some 1700000001) ≡ just_now
unfolding format_last_seen
future_test = refl

-- A question put while another device is deleted is closed with it.
closed_test :
    let es =
      lists (resolved (bare_list (router ∷ record router { id = "d2" } ∷ [])))
      ∷ deletes "d1"
      ∷ confirms "d1"
      ∷ deletes "d2"
      ∷ ends_deletion 0 (resolved tt)
      ∷ [] in
    (run es mount).delete_confirm_id ≡ none
unfolding run
closed_test = refl

-- The first list, which settles after the one that followed a deletion, brings the device back.
stale_test :
    let es =
      lists (resolved (bare_list (router ∷ [])))
      ∷ refreshes
      ∷ deletes "d1"
      ∷ confirms "d1"
      ∷ ends_deletion 0 (resolved tt)
      ∷ lists (resolved (bare_list []))
      ∷ lists (resolved (bare_list (router ∷ [])))
      ∷ [] in
    (run es mount).devices ≡ bare_list (router ∷ [])
unfolding run
stale_test = refl
