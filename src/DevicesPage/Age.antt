-- ===== src/DevicesPage/Age.antt =====
-- `formatLastSeen` of packages/portal/src/App.tsx. A time is in milliseconds, a timestamp in seconds.
use ngfw_sh.Prelude.{
  ltb, eqb, if◌then◌else◌, Bool-cases, ◌≡◌, inl, inr, ◌+◌, ◌-◌, ◌*◌, ◌/◌, ◌≤◌, ◌<◌, ℕ, Option, none,
  some, false, arith,
}

-- The texts "Never" and "Just now", and those with a number of minutes, hours or days.
pub data Age : Type 0 where
  never just_now : Age
  m_ago h_ago d_ago : ℕ → Age

-- Where the difference is negative, it is less than a minute: ℕ's difference, which stops at 0, takes
-- the same branch.
abbrev age_of : ℕ → Age
age_of diff =
    if ltb diff 60000
    then just_now
    else if ltb diff 3600000
    then m_ago (diff / 60000)
    else if ltb diff 86400000
    then h_ago (diff / 3600000)
    else d_ago (diff / 86400000)

-- `now` is what `Date.now()` returns. A timestamp of 0 is falsy.
unfoldable pub format_last_seen : ℕ → Option ℕ → Age
format_last_seen now none = never
format_last_seen now (some timestamp) =
    if eqb timestamp 0 then never else age_of (now - timestamp * 1000)

-- What a text says of the milliseconds gone by.
abbrev pub Says : ℕ → Age → Type 0
Says diff never = ⊥
Says diff just_now = diff < 60000
Says diff (m_ago n) = (0 < n) × (n < 60) × (n * 60000 ≤ diff) × (diff < (n + 1) * 60000)
Says diff (h_ago n) = (0 < n) × (n < 24) × (n * 3600000 ≤ diff) × (diff < (n + 1) * 3600000)
Says diff (d_ago n) = (0 < n) × (n * 86400000 ≤ diff) × (diff < (n + 1) * 86400000)

Says-age_of : (diff : ℕ) → Says diff (age_of diff)
Says-age_of diff = elim (Bool-cases (ltb diff 60000)) [
  | inl a ↦ rw a (ground arith)
  | inr a ↦ elim (Bool-cases (ltb diff 3600000)) [
    | inl b ↦ rw (a, b) (ground arith, ground arith, omega arith, omega arith)
    | inr b ↦ elim (Bool-cases (ltb diff 86400000)) [
      | inl c ↦ rw (a, b, c) (ground arith, ground arith, omega arith, omega arith)
      | inr c ↦ rw (a, b, c) (ground arith, omega arith, omega arith)
    ]
  ]
]

-- A device that was seen is shown the minutes, hours or days since then rounded down, in the unit that
-- fits, or "Just now" below a minute.
format_last_seen_lem :
    (now timestamp : ℕ)
    → 0 < timestamp
    → Says (now - timestamp * 1000) (format_last_seen now (some timestamp))
unfolding format_last_seen
format_last_seen_lem now timestamp h =
    let e : eqb timestamp 0 ≡ false = ground arith in rw e (Says-age_of (now - timestamp * 1000))
