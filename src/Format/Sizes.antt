-- ===== src/Format/Sizes.antt =====
-- `formatFileSize` of packages/portal-astro/src/components/monitoring/ReportList.vue and `formatBytes` of
-- components/network/WanStatus.vue: sizes in the largest unit that they reach. A number of bytes over a
-- power of 1024 is exact in the source's numbers, so a size is kept as such a fraction.
use ngfw_sh.Prelude.{
  ltb, leb, if◌then◌else◌, Bool-cases, length, ℕ, zero, suc, ◌+◌, ◌-◌, ◌*◌, ◌≤◌, ◌<◌, String, ◌≡◌,
  refl, ap, ◌⊎◌, inl, inr, Bool, ◌&&◌, Option, none, some, List, [], ◌∷◌, arith,
}
use ngfw_sh.Prelude.Text.{append}

pub record Size : Type 0 where
  pub bytes : ℕ
  pub per_unit : ℕ
  pub unit_index : ℕ

-- `size >= 1024 && unitIndex < units.length - 1`.
abbrev pub goes_on : ℕ → Size → Bool
goes_on units s = leb (1024 * s.per_unit) s.bytes && ltb s.unit_index (units - 1)

abbrev next_unit : Size → Size
next_unit s = record s { per_unit = 1024 * s.per_unit; unit_index = suc s.unit_index }

-- The loop, or `none` where it has not ended after as many rounds as there is fuel.
unfoldable pub scaled_from : ℕ → ℕ → Size → Option Size
scaled_from zero units s = none
scaled_from (suc fuel) units s =
    let rest = scaled_from fuel units (next_unit s) in if goes_on units s then rest else some s

abbrev pub whole : ℕ → Size
whole bytes = record { bytes = bytes; per_unit = 1; unit_index = 0 }

abbrev pub file_units : List String
file_units = "B" ∷ "KB" ∷ "MB" ∷ "GB" ∷ []

abbrev pub wan_units : List String
wan_units = "B" ∷ "KB" ∷ "MB" ∷ "GB" ∷ "TB" ∷ []

-- `to_fixed` is `toFixed(2)` of a fraction.
module _ (to_fixed : ℕ → ℕ → String) where
  abbrev unit_text : List String → ℕ → String
  unit_text [] i = "undefined"
  unit_text (u ∷ us) zero = u
  unit_text (u ∷ us) (suc i) = unit_text us i

  abbrev size_text : List String → Option Size → Option String
  size_text units none = none
  size_text units (some s) =
      some (append (to_fixed s.bytes s.per_unit) (append " " (unit_text units s.unit_index)))

  -- `none` where the loop has not ended.
  unfoldable pub format_file_size : ℕ → Option ℕ → Option String
  unfolding scaled_from
  format_file_size fuel none = some "—"
  format_file_size fuel (some bytes) =
      size_text file_units (scaled_from fuel (length file_units) (whole bytes))

  unfoldable pub wan_format_bytes : ℕ → ℕ → Option String
  unfolding scaled_from
  wan_format_bytes fuel bytes =
      size_text wan_units (scaled_from fuel (length wan_units) (whole bytes))

abbrev pub power : ℕ → ℕ
power zero = 1
power (suc i) = 1024 * power i

-- A size in its unit: less than 1024 of it unless it is the last, and at least one unless it is the first.
pub record IsScaled (units bytes : ℕ) (s : Size) : Type 0 where
  pub same_bytes : s.bytes ≡ bytes
  pub in_power : s.per_unit ≡ power s.unit_index
  pub in_units : s.unit_index < units
  pub below_next : (suc s.unit_index ≡ units) ⊎ (s.bytes < 1024 * s.per_unit)
  pub reached : (s.unit_index ≡ 0) ⊎ (s.per_unit ≤ s.bytes)

scaled_from-ends :
    (fuel units bytes : ℕ) (s : Size)
    → s.bytes ≡ bytes
    → s.per_unit ≡ power s.unit_index
    → s.unit_index < units
    → (s.unit_index ≡ 0) ⊎ (s.per_unit ≤ s.bytes)
    → units ≤ s.unit_index + fuel
    → (t : Size) × (scaled_from fuel units s ≡ some t) × IsScaled units bytes t
unfolding scaled_from
scaled_from-ends zero units bytes s b p i r f = absurd (omega arith)
scaled_from-ends (suc fuel) units bytes s b p i r f = elim (Bool-cases (goes_on units s)) [
  | inl e ↦
      let (t, same, fine) =
        scaled_from-ends fuel units bytes (next_unit s) b (ap (λ n. 1024 * n) p) (ground arith)
          (inr (ground arith)) (omega arith) in
      (t, rw e same, fine)
  | inr e ↦ (
    s,
    rw e refl,
    record { same_bytes = b; in_power = p; in_units = i; below_next = ground arith; reached = r },
  )
]

-- With as many rounds of fuel as there are units, of which there is at least one, the loop ends, for
-- every number of bytes: at the last unit or at one of which there are less than 1024, and at the first
-- or at one of which there is at least one.
pub scaled_from_terminates :
    (units bytes : ℕ)
    → 0 < units
    → (t : Size) × (scaled_from units units (whole bytes) ≡ some t) × IsScaled units bytes t
scaled_from_terminates units bytes h =
    scaled_from-ends units units bytes (whole bytes) refl refl h (inl refl) (omega arith)

-- The text by thresholds.
abbrev pub text_of : (ℕ → ℕ → String) → ℕ → String
text_of to_fixed bytes =
    if ltb bytes 0x400
    then append (to_fixed bytes 1) " B"
    else if ltb bytes 0x100000
    then append (to_fixed bytes 0x400) " KB"
    else if ltb bytes 0x40000000
    then append (to_fixed bytes 0x100000) " MB"
    else append (to_fixed bytes 0x40000000) " GB"

-- With enough fuel, the loop for the size of a file gives what the thresholds 1024, 1024² and 1024³ give.
pub format_file_size-thresholds :
    (to_fixed : ℕ → ℕ → String) (fuel bytes : ℕ)
    → 4 ≤ fuel
    → format_file_size to_fixed fuel (some bytes) ≡ some (text_of to_fixed bytes)
unfolding format_file_size
format_file_size-thresholds to_fixed (suc (suc (suc (suc fuel)))) bytes h = ground arith
format_file_size-thresholds to_fixed zero bytes h = absurd (omega arith)
format_file_size-thresholds to_fixed (suc zero) bytes h = absurd (omega arith)
format_file_size-thresholds to_fixed (suc (suc zero)) bytes h = absurd (omega arith)
format_file_size-thresholds to_fixed (suc (suc (suc zero))) bytes h = absurd (omega arith)
