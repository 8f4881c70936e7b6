-- ===== src/Client/Uri/Inverse.antt =====
-- What the server can read of an encoded identifier: where it ends, and which one it is.
use text.Mathlib.TextEquality.{Char-path}
use Prim.Native.Char.{Char, char, code, IsLt}
use Prim.Native.Nat.{compare, Ordering}
use ngfw_sh.Prelude.{
  eqb, if◌then◌else◌, Bool-cases, ℕ, ◌+◌, ◌*◌, ◌/◌, ◌%◌, ◌<◌, String, ◌≡◌, refl, sym, ap, ◌∙◌, ◌≢◌,
  ◌⊎◌, inl, inr, Bool, true, false, ◌||◌, List, [], ◌∷◌, ◌++◌, arith,
}
use ngfw_sh.Prelude.Text.{lacks}
use ngfw_sh.Prelude.Hex.{digit, value, AreBytes, Upto, upto, IsRead}
use ngfw_sh.Client.Uri.{is_unreserved, utf8, upper_digits, percent, encode_uri_component}

-- A character's number is below 0x110000.
abbrev InRange : Ordering → Ordering → Type 0
InRange Ordering.lt o = IsLt o
InRange Ordering.eq o = ⊥
InRange Ordering.gt o = ⊥

abbrev LowOrInRange : Ordering → Ordering → Ordering → Type 0
LowOrInRange Ordering.lt o p = Unit
LowOrInRange Ordering.eq o p = InRange o p
LowOrInRange Ordering.gt o p = InRange o p

low : (o p q : Ordering) → LowOrInRange o p q → (o ≡ Ordering.lt) ⊎ (q ≡ Ordering.lt)
low Ordering.lt p q h = inl refl
low Ordering.eq Ordering.lt Ordering.lt h = inr refl
low Ordering.gt Ordering.lt Ordering.lt h = inr refl
low Ordering.eq Ordering.lt Ordering.eq h = elim h [ ]
low Ordering.eq Ordering.lt Ordering.gt h = elim h [ ]
low Ordering.gt Ordering.lt Ordering.eq h = elim h [ ]
low Ordering.gt Ordering.lt Ordering.gt h = elim h [ ]
low Ordering.eq Ordering.eq q h = elim h [ ]
low Ordering.eq Ordering.gt q h = elim h [ ]
low Ordering.gt Ordering.eq q h = elim h [ ]
low Ordering.gt Ordering.gt q h = elim h [ ]

code_lt : (c : Char) → code c < 0x110000
code_lt (char n p) = elim (low (compare n 55296) (compare 57343 n) (compare n 1114112) p) [
  | inl e ↦ ground arith
  | inr e ↦ ground arith
]

-- The bytes of a text with `%XY` escapes.
unpercent : String → List ℕ
unpercent String.[] = []
unpercent (String.◌∷◌ c String.[]) = code c ∷ []
unpercent (String.◌∷◌ c (String.◌∷◌ d String.[])) = code c ∷ unpercent (String.◌∷◌ d String.[])
unpercent (String.◌∷◌ c (String.◌∷◌ d (String.◌∷◌ e s))) =
    let plain = unpercent (String.◌∷◌ d (String.◌∷◌ e s)) in
    let escaped = unpercent s in
    if eqb (code c) b'%'
    then (value d upper_digits * 16 + value e upper_digits) ∷ escaped
    else code c ∷ plain

unpercent-plain :
    (c : Char) (s : String)
    → eqb (code c) b'%' ≡ false
    → unpercent (String.◌∷◌ c s) ≡ code c ∷ unpercent s
unfolding unpercent
unpercent-plain c String.[] h = refl
unpercent-plain c (String.◌∷◌ d String.[]) h = refl
unpercent-plain c (String.◌∷◌ d (String.◌∷◌ e s)) h = rw h refl

upper_digits-IsRead : Upto (IsRead upper_digits) 16
unfolding value digit
upper_digits-IsRead = (
  refl,
  (
    refl,
    (
      refl,
      (
        refl,
        (
          refl,
          (
            refl,
            (refl, (refl, (refl, (refl, (refl, (refl, (refl, (refl, (refl, (refl, tt)))))))))),
          ),
        ),
      ),
    ),
  ),
)

unpercent-percent :
    (bs : List ℕ) (s : String) → AreBytes bs → unpercent (percent bs s) ≡ bs ++ unpercent s
unfolding unpercent percent
unpercent-percent [] s h = refl
unpercent-percent (b ∷ bs) s (p, h) =
    let top = upto (IsRead upper_digits) 16 (b / 16) upper_digits-IsRead (omega arith) in
    let bottom = upto (IsRead upper_digits) 16 (b % 16) upper_digits-IsRead (omega arith) in
    rw (top, bottom, unpercent-percent bs s h) (ap (λ n. n ∷ bs ++ unpercent s) (omega arith))

utf8-AreBytes : (n : ℕ) → n < 0x110000 → AreBytes (utf8 n [])
unfolding utf8
utf8-AreBytes n h = ground arith

utf8-append : (n : ℕ) (bs : List ℕ) → utf8 n [] ++ bs ≡ utf8 n bs
unfolding utf8
utf8-append n bs = ground arith

utf8_injective : (m n : ℕ) (bs cs : List ℕ) → utf8 m bs ≡ utf8 n cs → (m ≡ n) × (bs ≡ cs)
unfolding utf8
utf8_injective m n bs cs e = ground arith

-- The bytes of a text.
all_bytes : String → List ℕ
all_bytes String.[] = []
all_bytes (String.◌∷◌ c s) = utf8 (code c) (all_bytes s)

utf8_ne_nil : (n : ℕ) (bs : List ℕ) → utf8 n bs ≢ []
unfolding utf8
utf8_ne_nil n bs e = ground arith

unpercent-encode : (s : String) → unpercent (encode_uri_component s) ≡ all_bytes s
unfolding unpercent encode_uri_component all_bytes
unpercent-encode String.[] = refl
unpercent-encode (String.◌∷◌ c s) = elim (Bool-cases (is_unreserved (code c))) [
  | inl plain ↦
      let ascii : utf8 (code c) (all_bytes s) ≡ code c ∷ all_bytes s =
        ascii_lem (code c) (all_bytes s) plain in
      rw
        (
          plain,
          unpercent-plain c (encode_uri_component s) (ground arith),
          unpercent-encode s,
          ascii,
        )
        refl
  | inr other ↦
      rw
        (
          other,
          unpercent-percent (utf8 (code c) []) (encode_uri_component s)
              (utf8-AreBytes (code c) (code_lt c)),
          unpercent-encode s,
        )
        (utf8-append (code c) (all_bytes s))
]
  where
    ascii_lem : (n : ℕ) (bs : List ℕ) → is_unreserved n ≡ true → utf8 n bs ≡ n ∷ bs
    ascii_lem n bs h = ground arith

all_bytes_injective : (s t : String) → all_bytes s ≡ all_bytes t → s ≡ t
unfolding all_bytes
all_bytes_injective String.[] String.[] e = refl
all_bytes_injective String.[] (String.◌∷◌ d t) e =
    absurd (utf8_ne_nil (code d) (all_bytes t) (sym e))
all_bytes_injective (String.◌∷◌ c s) String.[] e = absurd (utf8_ne_nil (code c) (all_bytes s) e)
all_bytes_injective (String.◌∷◌ c s) (String.◌∷◌ d t) e =
    let both = utf8_injective (code c) (code d) (all_bytes s) (all_bytes t) e in
    let same = Char-path c d both.0 in let rest = all_bytes_injective s t both.1 in cc

-- Two identifiers are never written alike.
pub encode_uri_component_injective :
    (s t : String) → encode_uri_component s ≡ encode_uri_component t → s ≡ t
encode_uri_component_injective s t e =
    all_bytes_injective s t (sym (unpercent-encode s) ∙ ap unpercent e ∙ unpercent-encode t)

-- What has a meaning in a URL.
abbrev pub is_delimiter : ℕ → Bool
is_delimiter n = eqb n b'/' || eqb n b'?' || eqb n b'#' || eqb n b'&' || eqb n b'='

abbrev IsPlain : ℕ → Type 0
IsPlain k = is_unreserved (code (digit k upper_digits)) ≡ true

upper_digits-IsPlain : Upto IsPlain 16
unfolding digit
upper_digits-IsPlain = (
  refl,
  (
    refl,
    (
      refl,
      (
        refl,
        (
          refl,
          (
            refl,
            (refl, (refl, (refl, (refl, (refl, (refl, (refl, (refl, (refl, (refl, tt)))))))))),
          ),
        ),
      ),
    ),
  ),
)

upper-lacks :
    (k n : ℕ) → is_delimiter n ≡ true → k < 16 → eqb (code (digit k upper_digits)) n ≡ false
upper-lacks k n h below = ground (arith, upto IsPlain 16 k upper_digits-IsPlain below)

percent-lacks :
    (n : ℕ) (bs : List ℕ) (s : String)
    → is_delimiter n ≡ true
    → AreBytes bs
    → lacks n s ≡ true
    → lacks n (percent bs s) ≡ true
unfolding lacks percent
percent-lacks n [] s h a l = l
percent-lacks n (b ∷ bs) s h (p, a) l = ground (
  arith,
  upper-lacks (b / 16) n h (omega arith),
  upper-lacks (b % 16) n h (omega arith),
  percent-lacks n bs s h a l,
)

-- An encoded identifier has none of the characters that end a segment, a path or a parameter.
pub encode_uri_component-lacks :
    (n : ℕ) (s : String) → is_delimiter n ≡ true → lacks n (encode_uri_component s) ≡ true
unfolding lacks encode_uri_component
encode_uri_component-lacks n String.[] h = refl
encode_uri_component-lacks n (String.◌∷◌ c s) h = elim (Bool-cases (is_unreserved (code c))) [
  | inl plain ↦ rw plain (ground (arith, encode_uri_component-lacks n s h))
  | inr other ↦ rw other (
      percent-lacks n (utf8 (code c) []) (encode_uri_component s) h
        (utf8-AreBytes (code c) (code_lt c)) (encode_uri_component-lacks n s h))
]
