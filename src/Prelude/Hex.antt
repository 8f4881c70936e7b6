-- ===== src/Prelude/Hex.antt =====
-- `b.toString(16).padStart(2, "0")` on bytes, joined: how the source turns bytes into text, in
-- packages/schema/src/middleware/auth.ts and packages/schema/src/endpoints/fleet/deviceRegister.ts.
use Prim.Native.Char.{Char, code}
use Prim.Native.String.{String, ◌++◌}
use text.Mathlib.TextLemmas.{cons-append, nil-append}
use ngfw_sh.Prelude.{
  ltb, eqb, if◌then◌else◌, Bool-cases, All, ℕ, zero, suc, ◌+◌, ◌*◌, ◌/◌, ◌%◌, ◌<◌, ◌≡◌, refl, sym,
  ap, ◌∙◌, inl, inr, List, [], ◌∷◌, arith,
}

-- The character at an index of a text.
unfoldable pub digit : ℕ → String → Char
digit n String.[] = "0"
digit zero (String.◌∷◌ c s) = c
digit (suc n) (String.◌∷◌ c s) = digit n s

abbrev digits : String
digits = "0123456789abcdef"

abbrev one : Char → String
one c = String.◌∷◌ c String.[]

abbrev two : Char → Char → String
two c d = String.◌∷◌ c (one d)

-- `toString(16)` of a byte has one digit below 16 and two from there; `padStart` adds a zero.
unfoldable pub hex_byte : ℕ → String
unfolding digit
hex_byte b =
    if ltb b 16
    then "0" ++ one (digit b digits)
    else two (digit (b / 16) digits) (digit (b % 16) digits)

unfoldable pub hex : List ℕ → String
hex [] = ""
hex (b ∷ bs) = hex_byte b ++ hex bs

-- The index of a character in a text.
unfoldable pub value : Char → String → ℕ
value c String.[] = 0
value c (String.◌∷◌ d s) = if eqb (code c) (code d) then 0 else suc (value c s)

-- The bytes of a hexadecimal text.
pub unhex : String → List ℕ
unhex String.[] = []
unhex (String.◌∷◌ c String.[]) = []
unhex (String.◌∷◌ c (String.◌∷◌ d s)) = (value c digits * 16 + value d digits) ∷ unhex s

abbrev pub AreBytes : List ℕ → Type 0
AreBytes = All (λ b. b < 256)

-- What holds of each number below another.
abbrev pub Upto : (ℕ → Type 0) → ℕ → Type 0
Upto P zero = Unit
Upto P (suc k) = P k × Upto P k

pub upto : (P : ℕ → Type 0) (k n : ℕ) → Upto P k → n < k → P n
upto P zero n r below = absurd (omega arith)
upto P (suc k) n (e, r) below = elim (Bool-cases (eqb n k)) [
  | inl last ↦ let same : n ≡ k = ground arith in rw same e
  | inr earlier ↦ upto P k n r (ground arith)
]

-- The index of a digit is found again.
abbrev pub IsRead : String → ℕ → Type 0
IsRead alphabet n = value (digit n alphabet) alphabet ≡ n

digits-IsRead : Upto (IsRead digits) 16
unfolding value digit
digits-IsRead = (
  refl,
  (
    refl,
    (
      refl,
      (
        refl,
        (
          refl,
          (
            refl,
            (refl, (refl, (refl, (refl, (refl, (refl, (refl, (refl, (refl, (refl, tt)))))))))),
          ),
        ),
      ),
    ),
  ),
)

value-digit : (n : ℕ) → n < 16 → value (digit n digits) digits ≡ n
value-digit n below = upto (IsRead digits) 16 n digits-IsRead below

hex_byte_lem : (b : ℕ) → b < 256 → hex_byte b ≡ two (digit (b / 16) digits) (digit (b % 16) digits)
unfolding hex_byte
hex_byte_lem b h = elim (Bool-cases (ltb b 16)) [
  | inl small ↦
      let high : b / 16 ≡ 0 = ground arith in
      let low : b % 16 ≡ b = ground arith in rw (small, high, low, cons-append, nil-append)
  | inr big ↦ rw big
]

-- Bytes are read back from their hexadecimal text.
pub unhex-hex : (bs : List ℕ) → AreBytes bs → unhex (hex bs) ≡ bs
unfolding unhex hex
unhex-hex [] h = refl
unhex-hex (b ∷ bs) (p, h) =
    rw
      (
        hex_byte_lem b p,
        cons-append,
        cons-append,
        nil-append,
        unhex-hex bs h,
        value-digit (b / 16) (omega arith),
        value-digit (b % 16) (omega arith),
      )
      (ap (λ n. n ∷ bs) (omega arith))

-- Two lists of bytes with one text are one.
pub hex_injective : (xs ys : List ℕ) → AreBytes xs → AreBytes ys → hex xs ≡ hex ys → xs ≡ ys
hex_injective xs ys p q e = sym (unhex-hex xs p) ∙ ap unhex e ∙ unhex-hex ys q
