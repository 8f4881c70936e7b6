-- ===== src/LogsPage.antt =====
-- packages/portal-astro/src/components/monitoring/LogsApp.vue: the filters, the logs that are shown and
-- the file that is exported. What `toLowerCase` and `toLocaleString` return are parameters.
pub mod Csv
pub mod Written
pub mod Export
pub mod File
mod Tests
use Prim.Native.Char.{Char, code}
use ngfw_sh.Prelude.{
  ◌*◌, eqb, ◌==◌, if◌then◌else◌, or_else, truthy, filter, length, map, ℕ, String, Bool, true, false,
  ◌||◌, Option, none, some, List, [], ◌∷◌,
}
use ngfw_sh.Prelude.Text.{append}
use ngfw_sh.Client.{LogQuery}

pub record LogEntry : Type 0 where
  pub id : String
  pub device_id : String
  pub timestamp : ℕ
  pub level : String
  pub category : String
  pub message : String
  pub source_ip : Option String
  pub destination_ip : Option String
  pub protocol : Option String
  pub action : Option String

pub record Filters : Type 0 where
  pub level : String
  pub category : String
  pub search : String
  pub device_id : String

-- The query that `applyFilters` sets.
unfoldable pub apply_filters : Filters → LogQuery
apply_filters f = record {
  device_id = truthy (some f.device_id);
  level = if f.level == "all" then none else some f.level;
  category = truthy (some f.category);
  start_time = none;
  end_time = none;
  limit = some 100;
  offset = none;
}

abbrev starts_with : String → String → Bool
starts_with t String.[] = true
starts_with String.[] (String.◌∷◌ c s) = false
starts_with (String.◌∷◌ d t) (String.◌∷◌ c s) =
    let rest = starts_with t s in if eqb (code d) (code c) then rest else false

-- `t.includes(s)`.
unfoldable pub includes : String → String → Bool
includes String.[] s = starts_with "" s
includes (String.◌∷◌ d t) s = starts_with (String.◌∷◌ d t) s || includes t s

module _ (to_lower : String → String) where
  abbrev has : String → Option String → Bool
  has search none = false
  has search (some t) = includes (to_lower t) search

  abbrev matches : String → LogEntry → Bool
  matches search log =
      includes (to_lower log.message) search
      || has search log.source_ip
      || has search log.destination_ip

  unfoldable pub filtered_logs : Filters → List LogEntry → List LogEntry
  unfolding includes
  filtered_logs f logs = if f.search == "" then logs else filter (matches (to_lower f.search)) logs

pub record Stats : Type 0 where
  pub total : ℕ
  pub critical : ℕ
  pub error : ℕ
  pub warning : ℕ
  pub info : ℕ

abbrev count : String → List LogEntry → ℕ
count level logs = length (filter (λ l. l.level == level) logs)

unfoldable pub stats : List LogEntry → Stats
stats logs = record {
  total = length logs;
  critical = count "critical" logs;
  error = count "error" logs;
  warning = count "warning" logs;
  info = count "info" logs;
}

-- `replace(/"/g, '""')`.
unfoldable pub doubled : String → String
doubled String.[] = ""
doubled (String.◌∷◌ c s) =
    let rest = doubled s in
    if eqb (code c) b'"' then String.◌∷◌ c (String.◌∷◌ c rest) else String.◌∷◌ c rest

unfoldable pub quoted : String → String
unfolding doubled
quoted s = append "\"" (append (doubled s) "\"")

unfoldable pub join : String → List String → String
join sep [] = ""
join sep (t ∷ []) = t
join sep (t ∷ u ∷ ts) = append t (append sep (join sep (u ∷ ts)))

abbrev pub header : List String
header =
    "Timestamp" ∷ "Level" ∷ "Category" ∷ "Message" ∷ "Source IP" ∷ "Destination IP" ∷ "Protocol"
    ∷ "Action" ∷ []

module _ (locale : ℕ → String) where
  -- `formatTimestamp`, where `locale` is `toLocaleString` of a time in milliseconds.
  unfoldable pub format_timestamp : ℕ → String
  format_timestamp timestamp = locale (timestamp * 1000)

  unfoldable pub csv_cells : LogEntry → List String
  unfolding quoted format_timestamp
  csv_cells log =
      format_timestamp log.timestamp
      ∷ log.level
      ∷ log.category
      ∷ quoted log.message
      ∷ or_else log.source_ip ""
      ∷ or_else log.destination_ip ""
      ∷ or_else log.protocol ""
      ∷ or_else log.action ""
      ∷ []

  -- The content of the file; none is made of no logs.
  unfoldable pub handle_export : List LogEntry → Option String
  unfolding csv_cells join
  handle_export [] = none
  handle_export (log ∷ logs) =
      some (join "\n" (map (join ",") (header ∷ map csv_cells (log ∷ logs))))
