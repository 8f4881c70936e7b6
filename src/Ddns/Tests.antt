-- ===== src/Ddns/Tests.antt =====
-- packages/schema/src/endpoints/ddns over tables in memory.
use ngfw_sh.Prelude.{◌≡◌, refl, true, none, some, [], ◌∷◌}
use ngfw_sh.Platform.Memory.{memory_database, memory_kv}
use ngfw_sh.Fleet.{DeviceInternal}
use ngfw_sh.Ddns.{
  DdnsConfig, DdnsConfigUpdateInput, apply_updates, new_config, Ddns, write_config, config_update,
  force_update, duckdns, noip,
}
use ngfw_sh.Ddns.Update.{Updates, config_update-Updates}
use ngfw_sh.Ddns.Force.{Explains, force_update-Explains}
use ngfw_sh.Ddns.Race.{write_config_twice}

abbrev router : DeviceInternal
router = record {
  id = "d1";
  name = "home";
  model = none;
  serial = none;
  owner_id = "ann";
  firmware_version = none;
  status = "online";
  api_key = "ngfw_aa";
  created_at = 5;
  last_seen = none;
}

abbrev duck : DdnsConfig
duck = record {
  id = "c1";
  device_id = "d1";
  enabled = true;
  provider = duckdns;
  hostname = "home.duckdns.org";
  username = none;
  password = some "secret";
  last_update = none;
  current_ip = none;
  created_at = 7;
  updated_at = 7;
}

abbrev changes : DdnsConfigUpdateInput
changes = record {
  enabled = none;
  provider = some noip;
  hostname = none;
  username = some (some "ann");
  password = none;
}

abbrev configured : Ddns memory_database memory_kv
configured = record { devices = router ∷ []; ddns_configs = duck ∷ []; configs = [] }

abbrev unconfigured : Ddns memory_database memory_kv
unconfigured = record { devices = router ∷ []; ddns_configs = []; configs = [] }

config_update-Updates_example :
    Updates memory_database memory_kv "ann" "d1" changes 9 "c2" configured
      (config_update memory_database memory_kv "ann" "d1" changes 9000 "c2" configured).1
unfolding config_update write_config apply_updates
config_update-Updates_example =
    config_update-Updates memory_database memory_kv "ann" "d1" changes 9000 "c2" configured refl

force_update-Explains_example :
    Explains memory_database memory_kv "ann" "d1" 9000 configured
      (force_update memory_database memory_kv "ann" "d1" 9000 configured).0
force_update-Explains_example =
    force_update-Explains memory_database memory_kv "ann" "d1" 9000 configured

write_config_twice_example :
    (write_config memory_database memory_kv changes "d1" 10 "c3" []
      (write_config memory_database memory_kv changes "d1" 9 "c2" [] unconfigured).1).1.ddns_configs
    ≡ new_config changes "d1" 10 "c3" ∷ new_config changes "d1" 9 "c2" ∷ []
unfolding write_config new_config
write_config_twice_example =
    write_config_twice memory_database memory_kv changes changes "d1" 9 10 "c2" "c3" [] []
      unconfigured refl refl refl refl refl
