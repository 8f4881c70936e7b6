-- ===== src/Prelude/Text.antt =====
-- Lengths and pieces of texts as the source's language counts them.
use Prim.Native.Char.{Char, code}
use Prim.Native.String.{String, [], ◌∷◌}
use mathlib.Core.HLevel.{hedberg}
use text.Mathlib.TextEquality.{eq_iff}
use ngfw_sh.Prelude.{
  ◌≡◌, refl, ap, leb, ltb, eqb, ◌==◌, if◌then◌else◌, Bool-cases, ℕ, ◌+◌, inl, inr, Bool, true, not,
  ◌&&◌, ◌||◌, arith,
}

-- A character outside the basic plane takes two UTF-16 code units.
abbrev units : Char → ℕ
units c = if ltb (code c) 0x10000 then 1 else 2

-- `s.length`.
unfoldable pub length : String → ℕ
length [] = 0
length (c ∷ s) = units c + length s

-- The native concatenation computes at literals only; this one at any text before a variable.
abbrev pub append : String → String → String
append [] t = t
append (c ∷ s) t = c ∷ append s t

pub append_nil : (s : String) → append s "" ≡ s
append_nil [] = refl
append_nil (c ∷ s) = ap (◌∷◌ c) (append_nil s)

String-discrete : Discrete String
String-discrete s t = elim (Bool-cases (s == t)) [
  | inl e ↦ yes ((eq_iff s t).0 e)
  | inr e ↦ no (λ same. ground (arith, eq_iff s t, same))
]

pub String-set : IsSet String
String-set = hedberg String-discrete

-- That a text has no character of a code.
unfoldable pub lacks : ℕ → String → Bool
lacks n [] = true
lacks n (c ∷ s) = not (eqb (code c) n) && lacks n s

-- White space and line terminators.
abbrev pub is_space : ℕ → Bool
is_space n =
    leb 9 n && leb n 13
    || eqb n 0x20
    || eqb n 0xA0
    || eqb n 0x1680
    || leb 0x2000 n && leb n 0x200A
    || eqb n 0x2028
    || eqb n 0x2029
    || eqb n 0x202F
    || eqb n 0x205F
    || eqb n 0x3000
    || eqb n 0xFEFF

abbrev ended : Char → Bool → String → String
ended c last s = if last then "" else c ∷ s

abbrev trim_end : String → String
trim_end [] = ""
trim_end (c ∷ s) = let rest = trim_end s in ended c (is_space (code c) && rest == "") rest

abbrev trim_start : String → String
trim_start [] = ""
trim_start (c ∷ s) = let rest = trim_start s in if is_space (code c) then rest else c ∷ s

-- `s.trim()`.
unfoldable pub trim : String → String
trim s = trim_end (trim_start s)
