-- ===== src/Format/Uptime.antt =====
-- What the parts of an uptime stand for.
use ngfw_sh.Prelude.{
  ltb, eqb, if◌then◌else◌, Bool-cases, All, ℕ, ◌+◌, ◌-◌, ◌*◌, ◌/◌, ◌%◌, ◌<◌, ◌≡◌, refl, ap, ◌∙◌,
  inl, inr, Bool, true, false, ◌&&◌, List, [], ◌∷◌, arith,
}
use ngfw_sh.Format.{TimeUnit, push_if, uptime_parts, days, hours, minutes, seconds}

abbrev weight : TimeUnit → ℕ
weight days = 86400
weight hours = 3600
weight minutes = 60
weight seconds = 1

-- The seconds that parts stand for.
abbrev pub total : List (ℕ × TimeUnit) → ℕ
total [] = 0
total ((n, u) ∷ ps) = n * weight u + total ps

-- A part is not zero, and below a part of the next unit.
abbrev pub IsPart : ℕ × TimeUnit → Type 0
IsPart (n, days) = 0 < n
IsPart (n, hours) = (0 < n) × (n < 24)
IsPart (n, minutes) = (0 < n) × (n < 60)
IsPart (n, seconds) = (0 < n) × (n < 60)

total-push_if :
    (wanted : Bool) (n : ℕ) (u : TimeUnit) (rest : List (ℕ × TimeUnit))
    → total (push_if wanted n u rest) ≡ (if wanted then n * weight u else 0) + total rest
total-push_if true n u rest = refl
total-push_if false n u rest = omega arith

push_if-IsPart :
    (wanted : Bool) (n : ℕ) (u : TimeUnit) (rest : List (ℕ × TimeUnit))
    → (wanted ≡ true → IsPart (n, u))
    → All IsPart rest
    → All IsPart (push_if wanted n u rest)
push_if-IsPart true n u rest h a = (h refl, a)
push_if-IsPart false n u rest h a = a

-- Below a day the seconds count, and from there they do not.
kept_seconds : ℕ → ℕ → ℕ
kept_seconds d x = if eqb d 0 then x else 0

module _ (d h m x : ℕ) where
  abbrev last : List (ℕ × TimeUnit)
  last = push_if (ltb 0 x && eqb d 0) x seconds []

  abbrev later : List (ℕ × TimeUnit)
  later = push_if (ltb 0 m) m minutes last

  abbrev after_days : List (ℕ × TimeUnit)
  after_days = push_if (ltb 0 h) h hours later

  ranges : h < 24 → m < 60 → x < 60 → All IsPart (push_if (ltb 0 d) d days after_days)
  ranges p q r =
      push_if-IsPart (ltb 0 d) d days after_days (λ w. ground arith)
        (push_if-IsPart (ltb 0 h) h hours later (λ w. (ground arith, p))
          (push_if-IsPart (ltb 0 m) m minutes last (λ w. (ground arith, q))
            (push_if-IsPart (ltb 0 x && eqb d 0) x seconds [] (λ w. (ground arith, r)) tt)))

  counted :
      total (push_if (ltb 0 d) d days after_days)
      ≡ d * 86400 + (h * 3600 + (m * 60 + kept_seconds d x))
  unfolding kept_seconds
  counted = ground (
    arith,
    total-push_if (ltb 0 d) d days after_days,
    total-push_if (ltb 0 h) h hours later,
    total-push_if (ltb 0 m) m minutes last,
    total-push_if (ltb 0 x && eqb d 0) x seconds [],
  )

-- The parts of an uptime are in their ranges and none of them is zero: parts that are zero are left out,
-- which the example 86400 of the function's comment, "1d 0h 0m", does not do. They add up to the uptime;
-- from a day on, to the uptime less the seconds of its last minute. There is no part only if the uptime
-- is zero.
pub uptime_parts_lem :
    (s : ℕ)
    → All IsPart (uptime_parts s)
      × (total (uptime_parts s) ≡ (if ltb s 86400 then s else s - s % 60))
      × (uptime_parts s ≡ [] → s ≡ 0)
unfolding uptime_parts kept_seconds
uptime_parts_lem s =
    let d = s / 86400 in
    let h = s % 86400 / 3600 in
    let m = s % 3600 / 60 in
    let sum : total (uptime_parts s) ≡ (if ltb s 86400 then s else s - s % 60) =
      elim (Bool-cases (ltb s 86400)) [
        | inl short ↦ rw short (counted d h m (s % 60) ∙ ground arith)
        | inr long ↦ rw long (counted d h m (s % 60) ∙ ground arith)
      ] in
    (
      ranges d h m (s % 60) (omega arith) (omega arith) (omega arith),
      sum,
      λ empty. ground (arith, sum, ap total empty),
    )
