-- ===== src/Qos/Tests.antt =====
-- packages/schema/src/endpoints/qos over a table in memory.
use ngfw_sh.Prelude.{true, none, some, [], ◌∷◌}
use ngfw_sh.Platform.Memory.{memory_database}
use ngfw_sh.Qos.{QosRow, UpdateFields, config_update, fq_codel, cake}
use ngfw_sh.Qos.Laws.{Explains, config_update-Explains}

abbrev row : QosRow
row = record {
  id = 1;
  enabled = 0;
  algorithm = fq_codel;
  wan_upload_kbps = 1000;
  wan_download_kbps = 9000;
  updated_at = 4;
}

abbrev on : UpdateFields
on = record {
  enabled = some true;
  algorithm = some cake;
  wan_upload_kbps = none;
  wan_download_kbps = none;
}

config_update-Explains_example :
    Explains memory_database on 6000 (row ∷ []) (config_update memory_database on 6000 (row ∷ [])).0
config_update-Explains_example = config_update-Explains memory_database on 6000 (row ∷ [])
