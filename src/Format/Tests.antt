-- ===== src/Format/Tests.antt =====
-- packages/portal-astro/src/lib/utils/format.ts on the examples of its comment; the code answers the first
-- of formatUptime, 86400, otherwise than the comment says.
use ngfw_sh.Prelude.{ltb, eqb, if◌then◌else◌, All, ℕ, ◌*◌, String, ◌≡◌, refl, some, [], arith}
use ngfw_sh.Format.Sizes.{
  Size, scaled_from, whole, format_file_size, IsScaled, scaled_from_terminates,
  format_file_size-thresholds,
}
use ngfw_sh.Format.{uptime_parts, joined, format_uptime}
use ngfw_sh.Format.Uptime.{total, IsPart, uptime_parts_lem}

-- The texts of a few numbers.
abbrev show : ℕ → String
show n = if eqb n 1 then "1" else if eqb n 10 then "10" else if eqb n 52 then "52" else "0"

-- An hour, a minute and a second.
hour_test : format_uptime show 3661 ≡ "1h 1m 1s"
unfolding format_uptime uptime_parts joined
hour_test = refl

-- A day, ten hours and 52 minutes; the seconds are left out.
long_test : format_uptime show 125_523 ≡ "1d 10h 52m"
unfolding format_uptime uptime_parts joined
long_test = refl

-- The comment has "1d 0h 0m" here, and the code leaves out what is zero.
day_test : format_uptime show 86400 ≡ "1d"
unfolding format_uptime uptime_parts joined
day_test = refl

none_test : format_uptime show 0 ≡ "0s"
unfolding format_uptime uptime_parts joined
none_test = refl

abbrev uptime : ℕ
uptime = 125_523

uptime_parts_lem_example :
    All IsPart (uptime_parts uptime)
    × (total (uptime_parts uptime) ≡ 125_520)
    × (uptime_parts uptime ≡ [] → uptime ≡ 0)
unfolding uptime_parts
uptime_parts_lem_example = uptime_parts_lem uptime

-- Two and a half mebibytes.
abbrev bytes : ℕ
bytes = 2_621_440

scaled_from_terminates_example :
    (t : Size) × (scaled_from 4 4 (whole bytes) ≡ some t) × IsScaled 4 bytes t
scaled_from_terminates_example = scaled_from_terminates 4 bytes (omega arith)

abbrev to_fixed : ℕ → ℕ → String
to_fixed a b = if ltb (2 * a) (5 * b) then "less" else "2.50"

format_file_size-thresholds_example : format_file_size to_fixed 5 (some bytes) ≡ some "2.50 MB"
format_file_size-thresholds_example = format_file_size-thresholds to_fixed 5 bytes (omega arith)
