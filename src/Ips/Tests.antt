-- ===== src/Ips/Tests.antt =====
-- packages/schema/src/endpoints/ips over tables and a namespace in memory.
use ngfw_sh.Prelude.{
  ◌↔◌, or_else, length, filter, ℕ, ◌≤◌, String, ◌≡◌, refl, true, none, some, List, [], ◌∷◌, map,
  Perm, arith,
}
use ngfw_sh.Platform.Database.{limited, offset_by, Descending, up_to}
use ngfw_sh.Platform.Kv.{Entry}
use ngfw_sh.Platform.Memory.{memory_database, memory_kv}
use ngfw_sh.Ips.{
  IpsRuleRow, CreateFields, IpsAlert, AlertQuery, wanted_alert, by_time, alert_list, low,
}
use ngfw_sh.Ips.Alerts.{IsWanted, alert_list_lem}
use ngfw_sh.Ips.Settings.{
  default_config, IpsConfig, UpdateFields, update_fields, valid_config, spread, Json,
  parsed_or_else, config_update, detect, prevent,
}
use ngfw_sh.Ips.Settings.Config.{AreValid, config_update-AreValid}
use ngfw_sh.Ips.Categories.{
  ips_categories, Settings, setting, set_mode, shown, category_list, category_update,
}
use ngfw_sh.Ips.Categories.Modes.{with_mode, category_list-category_update}

abbrev fields : CreateFields
fields = record {
  name = "ping";
  description = some "";
  enabled = true;
  rule = "drop icmp";
  category = none;
  priority = none;
}

abbrev old_rule : IpsRuleRow
old_rule = record {
  id = 4;
  owner_id = "bob";
  name = "telnet";
  description = none;
  enabled = 0;
  rule = "drop tcp";
  category = some "dos";
  priority = 9;
  created_at = 1;
  updated_at = 1;
}

abbrev rules : List IpsRuleRow
rules = old_rule ∷ []

abbrev five : ℕ
five = 5

abbrev scan : ℕ → IpsAlert
scan n = record {
  id = n;
  owner_id = "ann";
  timestamp = n;
  signature_id = 1;
  signature_name = "scan";
  category = "reconnaissance";
  severity = low;
  protocol = "tcp";
  src_ip = "10.0.0.9";
  src_port = none;
  dst_ip = "10.0.0.1";
  dst_port = some 22;
  action = "alert";
  payload = none;
}

abbrev alerts : List IpsAlert
alerts = scan 3 ∷ scan 8 ∷ []

abbrev newest : AlertQuery
newest = record {
  category = none;
  severity = some low;
  src_ip = none;
  dst_ip = none;
  limit = some (up_to 1);
  offset = none;
}

alert_list_lem_example :
    ((all : List IpsAlert) × Perm all (filter (wanted_alert "ann" newest) alerts)
      × Descending by_time all
      × (scan 8 ∷ [] ≡ limited (up_to 1) (offset_by (up_to 0) all)))
    × (2 ≡ length (filter (wanted_alert "ann" newest) alerts))
    × ((n : ℕ) → or_else newest.limit (up_to 50) ≡ up_to n → length (scan 8 ∷ []) ≤ 500)
    × ((a : IpsAlert) → (wanted_alert "ann" newest a ≡ true) ↔ IsWanted "ann" newest a)
unfolding alert_list
alert_list_lem_example = alert_list_lem memory_database "ann" newest alerts refl

abbrev changes : UpdateFields
changes = record {
  enabled = some true;
  mode = some prevent;
  home_networks = none;
  external_networks = none;
  excluded_networks = none;
  max_pending_packets = some 65535;
  update_interval = none;
}

abbrev changed : IpsConfig
changed = record default_config {
  enabled = true;
  mode = prevent;
  max_pending_packets = some 65535;
  last_update = some 9;
}

abbrev config_json : Json IpsConfig
config_json = record { parse = λ text. some changed; stringify = λ c. "{}" }

abbrev at_start : List (String × Entry String)
at_start = []

nothing_stored : AreValid memory_kv config_json at_start
nothing_stored user text expiry c e p = ground arith

config_update-AreValid_example :
    AreValid memory_kv config_json
      (config_update memory_kv config_json "ann" changes 9000 at_start).1
    × (valid_config changed ≡ true)
unfolding config_update update_fields spread parsed_or_else
config_update-AreValid_example =
    config_update-AreValid memory_kv config_json "ann" changes 9000 at_start (refl, refl)
      nothing_stored refl

abbrev settings_json : Json Settings
settings_json = record {
  parse = λ text. some (("dos", record { mode = some detect; rule_count = none }) ∷ []);
  stringify = λ l. "{}";
}

category_list-category_update_example :
    map (with_mode "dos" detect) ips_categories ≡ map (with_mode "dos" detect) ips_categories
unfolding ips_categories category_list category_update set_mode setting shown parsed_or_else
category_list-category_update_example =
    category_list-category_update memory_kv settings_json "ann" "dos" detect 9000 12000 at_start
      refl (refl, refl) refl refl refl
