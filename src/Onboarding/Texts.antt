-- ===== src/Onboarding/Texts.antt =====
-- The regular expressions of packages/portal-astro/src/components/onboarding/ConfigForm.vue.
use text.Mathlib.TextEquality.{Char-path}
use Prim.Native.Char.{Char, code}
use Prim.Native.String.{String, [], ◌∷◌}
use ngfw_sh.Prelude.{
  leb, eqb, if◌then◌else◌, ℕ, zero, suc, ◌≤◌, ◌≡◌, refl, ap, ◌∙◌, inl, inr, ◌⊎◌, ◌↔◌, Bool, true,
  false, ◌&&◌, arith,
}
use ngfw_sh.Prelude.Text.{length, append, append_nil}

abbrev pub is_digit : Char → Bool
is_digit c = leb 0x30 (code c) && leb (code c) 0x39

abbrev pub all_digits : String → Bool
all_digits [] = true
all_digits (c ∷ s) = is_digit c && all_digits s

-- `n` digits, and then what `rest` matches.
abbrev pub digits_then : ℕ → (String → Bool) → String → Bool
digits_then zero rest s = rest s
digits_then (suc n) rest [] = false
digits_then (suc n) rest (c ∷ s) = is_digit c && digits_then n rest s

abbrev pub at_end : String → Bool
at_end [] = true
at_end (c ∷ s) = false

abbrev pub plus_four : String → Bool
plus_four [] = true
plus_four (c ∷ s) = eqb (code c) 0x2D && digits_then 4 at_end s

-- `/^\d{5}(-\d{4})?$/`.
unfoldable pub is_zip_code : String → Bool
is_zip_code s = digits_then 5 plus_four s

-- `replace(/\D/g, "")`.
abbrev pub digits_of : String → String
digits_of [] = ""
digits_of (c ∷ s) = if is_digit c then c ∷ digits_of s else digits_of s

-- `/^\d{10,}$/` on the digits.
unfoldable pub is_phone_number : String → Bool
unfolding length
is_phone_number s = let t = digits_of s in all_digits t && leb 10 (length t)

-- How many digits a text has, whatever stands between them.
unfoldable pub count_digits : String → ℕ
count_digits [] = 0
count_digits (c ∷ s) = if is_digit c then suc (count_digits s) else count_digits s

abbrev Digits : ℕ → String → Type 0
Digits n s = (all_digits s ≡ true) × (length s ≡ n)

-- Five digits, or five digits, a dash and four digits.
abbrev pub IsZipCode : String → Type 0
IsZipCode s =
    Digits 5 s ⊎ ((a b : String) × Digits 5 a × Digits 4 b × (s ≡ append a (append "-" b)))

digits_of_lem :
    (s : String) → (all_digits (digits_of s) ≡ true) × (length (digits_of s) ≡ count_digits s)
unfolding length count_digits
digits_of_lem [] = (refl, refl)
digits_of_lem (c ∷ s) = ground (arith, digits_of_lem s)

pub is_phone_number_iff : (s : String) → (is_phone_number s ≡ true) ↔ (10 ≤ count_digits s)
unfolding is_phone_number
is_phone_number_iff s = let (d, n) = digits_of_lem s in ((λ h. ground arith), (λ h. ground arith))

digits_then-split :
    (n : ℕ) (rest : String → Bool) (s : String)
    → digits_then n rest s ≡ true
    → (a b : String) × Digits n a × (s ≡ append a b) × (rest b ≡ true)
unfolding length
digits_then-split zero rest s h = ("", s, (refl, refl), refl, h)
digits_then-split (suc n) rest [] h = cc
digits_then-split (suc n) rest (c ∷ s) h =
    let (d, k) : (is_digit c ≡ true) × (digits_then n rest s ≡ true) = ground arith in
    let (a, b, (all, len), e, r) = digits_then-split n rest s k in
    (c ∷ a, b, (ground arith, ground arith), ap (◌∷◌ c) e, r)

digits_then-append :
    (n : ℕ) (rest : String → Bool) (a b : String)
    → Digits n a
    → rest b ≡ true
    → digits_then n rest (append a b) ≡ true
unfolding length
digits_then-append zero rest [] b d r = r
digits_then-append zero rest (c ∷ a) b d r = ground arith
digits_then-append (suc n) rest [] b d r = ground arith
digits_then-append (suc n) rest (c ∷ a) b d r = ground (arith, digits_then-append n rest a b)

at_end_lem : (b : String) → at_end b ≡ true → b ≡ ""
at_end_lem [] h = refl
at_end_lem (c ∷ b) h = cc

dash : (c : Char) → eqb (code c) 0x2D ≡ true → ◌≡◌ {A = String} (c ∷ "") "-"
dash c h = let e : code c ≡ 0x2D = ground arith in ap (λ (x : Char). x ∷ "") (Char-path c "-" e)

plus_four_lem :
    (b : String) → plus_four b ≡ true → (b ≡ "") ⊎ ((d : String) × Digits 4 d × (b ≡ append "-" d))
plus_four_lem [] h = inl refl
plus_four_lem (c ∷ b) h =
    let (e, k) : (eqb (code c) 0x2D ≡ true) × (digits_then 4 at_end b ≡ true) = ground arith in
    let (d, r, four, e', last) = digits_then-split 4 at_end b k in
    let b_eq : b ≡ d = e' ∙ ap (append d) (at_end_lem r last) ∙ append_nil d in
    inr (d, four, ap (λ (x : String). append x b) (dash c e) ∙ ap (append "-") b_eq)

pub is_zip_code_iff : (s : String) → (is_zip_code s ≡ true) ↔ IsZipCode s
unfolding is_zip_code
is_zip_code_iff s = (
  (λ h.
      let (a, b, five, e, rest) = digits_then-split 5 plus_four s h in
      elim (plus_four_lem b rest) [
        | inl none_left ↦ inl (let whole : s ≡ a = e ∙ rw none_left (append_nil a) in rw whole five)
        | inr (d, four, e') ↦ inr (a, d, five, four, e ∙ ap (append a) e')
      ]),
  (λ h. elim h [
    | inl five ↦ rw (← append_nil s) (digits_then-append 5 plus_four s "" five refl)
    | inr (a, b, five, four, e) ↦ rw e (
        digits_then-append 5 plus_four a (append "-" b) five
          (rw (← append_nil b) (digits_then-append 4 at_end b "" four refl)))
  ]),
)
