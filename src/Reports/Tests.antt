-- ===== src/Reports/Tests.antt =====
-- packages/schema/src/endpoints/reports over tables and a bucket in memory.
use ngfw_sh.Prelude.{String, ◌≡◌, refl, ◌≢◌, true, Option, none, some, [], ◌∷◌, Mem, arith}
use ngfw_sh.Platform.Memory.{memory_database, memory_bucket}
use ngfw_sh.Fleet.{DeviceInternal}
use ngfw_sh.Reports.{
  Report, GenerateBody, owned_report, download_url, ReportQuery, Reports, report_read,
  report_delete, traffic, dns, pdf, csv, completed,
}
use ngfw_sh.Reports.Files.{NoOrphans, report_delete-NoOrphans}
use ngfw_sh.Reports.Answers.{report_read_lem}

abbrev router : DeviceInternal
router = record {
  id = "d1";
  name = "home";
  model = none;
  serial = none;
  owner_id = "ann";
  firmware_version = none;
  status = "online";
  api_key = "ngfw_aa";
  created_at = 5;
  last_seen = none;
}

abbrev finished : Report
finished = record {
  id = "r1";
  device_id = "d1";
  owner_id = "ann";
  type = traffic;
  format = pdf;
  status = completed;
  title = "May";
  date_start = 1;
  date_end = 2;
  r2_key = some "ann/r1.pdf";
  file_size = some 10;
  created_at = 3;
  completed_at = some 4;
  error_message = none;
}

abbrev store : Reports memory_database memory_bucket
store = record { devices = router ∷ []; reports = finished ∷ []; files = "ann/r1.pdf" ∷ [] }

abbrev query : ReportQuery
query = record { device_id = none; type = some "vpn"; status = none; limit = 20; offset = 0 }

abbrev body : GenerateBody
body = record {
  device_id = "d1";
  type = dns;
  format = csv;
  title = "June";
  date_start = 5;
  date_end = 6;
}

report_read_lem_example :
    Mem finished (finished ∷ [])
    × (owned_report "r1" "ann" finished ≡ true)
    × (completed ≡ completed)
    × ◌≢◌ {A = Option String} (some "ann/r1.pdf") none
unfolding report_read download_url
report_read_lem_example = report_read_lem memory_database memory_bucket "ann" "r1" store refl refl

no_orphans : NoOrphans memory_database memory_bucket store
no_orphans k h = ground arith

report_delete-NoOrphans_example :
    NoOrphans memory_database memory_bucket
      (report_delete memory_database memory_bucket "ann" "r1" store).1
report_delete-NoOrphans_example =
    report_delete-NoOrphans memory_database memory_bucket "ann" "r1" store (refl, tt) no_orphans
