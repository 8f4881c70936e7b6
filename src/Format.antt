-- ===== src/Format.antt =====
-- packages/portal-astro/src/lib/utils/format.ts: the text of an uptime in whole seconds.
pub mod Uptime
pub mod Sizes
mod Tests
use Prim.Native.String.{◌++◌ as append}
use ngfw_sh.Prelude.{
  ltb, eqb, if◌then◌else◌, or_else, truthy, ℕ, ◌/◌, ◌%◌, String, Bool, ◌&&◌, some, List, [], ◌∷◌,
}

-- The letters of the parts.
pub data TimeUnit : Type 0 where
  days hours minutes seconds : TimeUnit

abbrev letter : TimeUnit → String
letter days = "d"
letter hours = "h"
letter minutes = "m"
letter seconds = "s"

-- `if (n > 0) parts.push(...)`.
abbrev pub push_if : Bool → ℕ → TimeUnit → List (ℕ × TimeUnit) → List (ℕ × TimeUnit)
push_if wanted n u rest = if wanted then (n, u) ∷ rest else rest

-- `parts`, in order.
unfoldable pub uptime_parts : ℕ → List (ℕ × TimeUnit)
uptime_parts s = push_if (ltb 0 (s / 86400)) (s / 86400) days (
    push_if (ltb 0 (s % 86400 / 3600)) (s % 86400 / 3600) hours (
      push_if (ltb 0 (s % 3600 / 60)) (s % 3600 / 60) minutes
        (push_if (ltb 0 (s % 60) && eqb (s / 86400) 0) (s % 60) seconds [])))

-- `show` is JavaScript's text of a number.
module _ (show : ℕ → String) where
  abbrev part : ℕ × TimeUnit → String
  part (n, u) = append (show n) (letter u)

  -- `parts.join(" ")`.
  unfoldable pub joined : List (ℕ × TimeUnit) → String
  joined [] = ""
  joined (p ∷ []) = part p
  joined (p ∷ q ∷ ps) = append (part p) (append " " (joined (q ∷ ps)))

  unfoldable pub format_uptime : ℕ → String
  unfolding uptime_parts joined
  format_uptime s = or_else (truthy (some (joined (uptime_parts s)))) "0s"
