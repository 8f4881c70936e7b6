-- ===== src/LogsPage/File.antt =====
-- The file that packages/portal-astro/src/components/monitoring/LogsApp.vue exports, read again.
use mathlib.Core.Option
use ngfw_sh.Prelude.{
  or_else, ap, ◌≡◌, refl, true, ℕ, All, map, Option, none, some, String, List, [], ◌∷◌, ◌++◌, ◌*◌,
}
use ngfw_sh.Prelude.Text.{lacks}
use ngfw_sh.Prelude.Pairs.{Pairwise}
use ngfw_sh.LogsPage.{LogEntry, join, header, format_timestamp, csv_cells, handle_export}
use ngfw_sh.LogsPage.Csv.{starting, read}
use ngfw_sh.LogsPage.Written.{Stands, bare-Stands, quoted-Stands}
use ngfw_sh.LogsPage.Export.{pieces, Line, cells-Line, pieces-Line, lines_read}

-- No comma, no quote and no end of a line.
abbrev pub IsPlain : String → Type 0
IsPlain s = (lacks b',' s ≡ true) × (lacks b'"' s ≡ true) × (lacks b'\n' s ≡ true)

-- Everything that is written without quotes is plain but the time; the message may be any text.
abbrev pub IsPlainLog : LogEntry → Type 0
IsPlainLog log =
    IsPlain log.level
    × IsPlain log.category
    × IsPlain (or_else log.source_ip "")
    × IsPlain (or_else log.destination_ip "")
    × IsPlain (or_else log.protocol "")
    × IsPlain (or_else log.action "")

module _ (locale : ℕ → String) where
  -- The fields that a reader finds in a log's line.
  abbrev pub fields : LogEntry → List String
  fields log =
      let (p, ps) = pieces (format_timestamp locale log.timestamp) in
      p ∷ ps
      ++ log.level
        ∷ log.category
        ∷ log.message
        ∷ or_else log.source_ip ""
        ∷ or_else log.destination_ip ""
        ∷ or_else log.protocol ""
        ∷ or_else log.action ""
        ∷ []

  -- What is read of the file, if there is one.
  abbrev pub records : List LogEntry → Option (List (List String))
  records [] = none
  records (log ∷ logs) = some (header ∷ map fields (log ∷ logs))

  stands : (s : String) → IsPlain s → Stands s s
  stands s (h, q, k) = bare-Stands s h q k

  log-Line :
      (log : LogEntry)
      → lacks b'"' (format_timestamp locale log.timestamp) ≡ true
      → lacks b'\n' (format_timestamp locale log.timestamp) ≡ true
      → IsPlainLog log
      → Line (join "," (csv_cells locale log)) (fields log)
  unfolding csv_cells
  log-Line log q k (l, c, s, d, p, a) =
      pieces-Line (format_timestamp locale log.timestamp) log.level _ _ q k (
        cells-Line log.level log.level _ _ (stands log.level l) (
          stands log.category c,
          (quoted-Stands log.message, (stands _ s, (stands _ d, (stands _ p, (stands _ a, tt))))),
        ))

  plain-Stands : (ws : List String) → All IsPlain ws → Pairwise Stands ws ws
  plain-Stands [] h = tt
  plain-Stands (w ∷ ws) (h, hs) = (stands w h, plain-Stands ws hs)

  abbrev titles : List String
  titles =
      "Level" ∷ "Category" ∷ "Message" ∷ "Source IP" ∷ "Destination IP" ∷ "Protocol" ∷ "Action" ∷ []

  header-Line : Line (join "," header) header
  unfolding lacks
  header-Line =
      cells-Line "Timestamp" "Timestamp" titles titles (stands "Timestamp" (refl, refl, refl)) (
        plain-Stands titles (
          (refl, refl, refl),
          (
            (refl, refl, refl),
            (
              (refl, refl, refl),
              (
                (refl, refl, refl),
                ((refl, refl, refl), ((refl, refl, refl), ((refl, refl, refl), tt))),
              ),
            ),
          ),
        ))

  module _ (quotes : (n : ℕ) → lacks b'"' (locale n) ≡ true)
      (ends : (n : ℕ) → lacks b'\n' (locale n) ≡ true) where
    logs-Lines :
        (logs : List LogEntry)
        → All IsPlainLog logs
        → Pairwise Line (map (join ",") (map (csv_cells locale) logs)) (map fields logs)
    unfolding format_timestamp
    logs-Lines [] h = tt
    logs-Lines (log ∷ logs) (h, hs) = (
      log-Line log (quotes (log.timestamp * 1000)) (ends (log.timestamp * 1000)) h,
      logs-Lines logs hs,
    )

  -- If the texts of times have no quotes and no ends of lines, and the fields that are written without
  -- quotes have no commas, quotes or ends of lines, a reader of the exported file finds the header and a
  -- record for each log with every field as it was, whatever the message; only the time is cut at each of
  -- its commas. No file is exported of no logs.
  pub handle_export-read :
      (logs : List LogEntry)
      → ((n : ℕ) → lacks b'"' (locale n) ≡ true)
      → ((n : ℕ) → lacks b'\n' (locale n) ≡ true)
      → All IsPlainLog logs
      → Option.map (λ t. read t starting) (handle_export locale logs) ≡ records logs
  unfolding handle_export
  handle_export-read [] quotes ends h = refl
  handle_export-read (log ∷ logs) quotes ends h = ap some (
      lines_read (join "," header) (map (join ",") (map (csv_cells locale) (log ∷ logs))) header
        (map fields (log ∷ logs)) header-Line (logs-Lines quotes ends (log ∷ logs) h))
