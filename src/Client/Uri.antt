-- ===== src/Client/Uri.antt =====
-- `encodeURIComponent`, with which packages/portal-astro/src/lib/api/client.ts puts an identifier into
-- a path: letters, digits and some marks stay, and every other character becomes its UTF-8 bytes.
pub mod Inverse
use Prim.Native.Char.{code}
use ngfw_sh.Prelude.{
  ltb, leb, eqb, if◌then◌else◌, ℕ, ◌+◌, ◌/◌, ◌%◌, String, Bool, ◌&&◌, ◌||◌, List, [], ◌∷◌,
}
use ngfw_sh.Prelude.Hex.{digit}

-- Letters, digits and `- _ . ! ~ * ' ( )`.
abbrev pub is_unreserved : ℕ → Bool
is_unreserved n =
    leb 48 n && leb n 57
    || leb 65 n && leb n 90
    || leb 97 n && leb n 122
    || leb 39 n && leb n 42
    || leb 45 n && leb n 46
    || eqb n 33
    || eqb n 95
    || eqb n 126

-- The UTF-8 bytes of a code point, before others.
unfoldable pub utf8 : ℕ → List ℕ → List ℕ
utf8 n bs =
    if ltb n 0x80
    then n ∷ bs
    else if ltb n 0x800
    then (192 + n / 64) ∷ (128 + n % 64) ∷ bs
    else if ltb n 0x10000
    then (224 + n / 4096) ∷ (128 + n / 64 % 64) ∷ (128 + n % 64) ∷ bs
    else (240 + n / 262144) ∷ (128 + n / 4096 % 64) ∷ (128 + n / 64 % 64) ∷ (128 + n % 64) ∷ bs

abbrev pub upper_digits : String
upper_digits = "0123456789ABCDEF"

-- `%XY` for each byte.
unfoldable pub percent : List ℕ → String → String
unfolding digit
percent [] s = s
percent (b ∷ bs) s = String.◌∷◌ "%" (
    String.◌∷◌ (digit (b / 16) upper_digits)
      (String.◌∷◌ (digit (b % 16) upper_digits) (percent bs s)))

unfoldable pub encode_uri_component : String → String
unfolding utf8 percent
encode_uri_component String.[] = ""
encode_uri_component (String.◌∷◌ c s) =
    let rest = encode_uri_component s in
    if is_unreserved (code c) then String.◌∷◌ c rest else percent (utf8 (code c) []) rest
