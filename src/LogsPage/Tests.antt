-- ===== src/LogsPage/Tests.antt =====
-- An export of logs, with a time as `toLocaleString("en-US")` writes it.
use mathlib.Core.Option
use ngfw_sh.Prelude.{◌≡◌, refl, ℕ, String, none, some, [], ◌∷◌}
use ngfw_sh.Prelude.Text.{lacks}
use ngfw_sh.LogsPage.{
  LogEntry, quoted, doubled, format_timestamp, handle_export, filtered_logs, includes,
}
use ngfw_sh.LogsPage.Csv.{starting, read}
use ngfw_sh.LogsPage.Export.{pieces}
use ngfw_sh.LogsPage.File.{fields, records, handle_export-read}

abbrev at_night : ℕ → String
at_night n = "Nov 14, 2023, 10:13:20 PM"

abbrev blocked : LogEntry
blocked = record {
  id = "l1";
  device_id = "d1";
  timestamp = 1700000000;
  level = "warning";
  category = "firewall";
  message = "rule \"drop\", port 22";
  source_ip = some "10.0.0.2";
  destination_ip = none;
  protocol = some "tcp";
  action = none;
}

handle_export-read_example :
    Option.map (λ t. read t starting) (handle_export at_night (blocked ∷ []))
    ≡ records at_night (blocked ∷ [])
handle_export-read_example =
    unfold lacks in
    handle_export-read at_night (blocked ∷ []) (λ n. refl) (λ n. refl)
      (
        (
          (refl, refl, refl),
          (refl, refl, refl),
          (refl, refl, refl),
          (refl, refl, refl),
          (refl, refl, refl),
          (refl, refl, refl),
        ),
        tt,
      )

-- The time takes three columns, so that the record has two more fields than the header.
fields_test :
    fields at_night blocked
    ≡ "Nov 14" ∷ " 2023" ∷ " 10:13:20 PM" ∷ "warning" ∷ "firewall" ∷ "rule \"drop\", port 22"
      ∷ "10.0.0.2" ∷ "" ∷ "tcp" ∷ "" ∷ []
unfolding pieces format_timestamp
fields_test = refl

quoted_test : quoted "a \"b\"" ≡ "\"a \"\"b\"\"\""
unfolding quoted doubled
quoted_test = refl

search_test :
    filtered_logs
      (λ s. s)
      (record { level = "all"; category = ""; search = "port 2"; device_id = "" })
      (blocked ∷ record blocked { message = "up" } ∷ [])
    ≡ blocked ∷ []
unfolding filtered_logs includes
search_test = refl
