-- ===== src/Routes/Segments.antt =====
-- The segments of a path, up to its query.
use Prim.Native.Char.{code}
use ngfw_sh.Prelude.{
  eqb, if◌then◌else◌, Bool-cases, String, ◌≡◌, refl, inl, inr, true, false, ◌&&◌, List, [], ◌∷◌,
  arith,
}
use ngfw_sh.Prelude.Text.{append, lacks}

abbrev pub join : String → List String → List String
join s [] = s ∷ []
join s (p ∷ ps) = append s p ∷ ps

-- Between `/`s, the text before the first among them.
unfoldable pub split : String → List String
split String.[] = "" ∷ []
split (String.◌∷◌ c s) =
    let rest = split s in
    if eqb (code c) b'?'
    then "" ∷ []
    else if eqb (code c) b'/'
    then "" ∷ rest
    else join (String.◌∷◌ c "") rest

split_nonempty : (s : String) → (p : String) × (ps : List String) × (split s ≡ p ∷ ps)
unfolding split
split_nonempty String.[] = ("", [], refl)
split_nonempty (String.◌∷◌ c s) = elim (Bool-cases (eqb (code c) b'?')) [
  | inl q ↦ ("", [], rw q refl)
  | inr q ↦ elim (Bool-cases (eqb (code c) b'/')) [
    | inl e ↦ ("", split s, rw (q, e) refl)
    | inr e ↦ let (p, ps, same) = split_nonempty s in (String.◌∷◌ c p, ps, rw (q, e, same) refl)
  ]
]

pub split-append :
    (s t : String) → lacks b'/' s && lacks b'?' s ≡ true → split (append s t) ≡ join s (split t)
unfolding split lacks
split-append String.[] t h = let (p, ps, same) = split_nonempty t in rw same refl
split-append (String.◌∷◌ c s) t h =
    let (p, ps, same) = split_nonempty t in
    let slash : eqb (code c) b'/' ≡ false = ground arith in
    let mark : eqb (code c) b'?' ≡ false = ground arith in
    rw (slash, mark, split-append s t (ground arith), same) refl

pub split_lem : (s : String) → lacks b'/' s && lacks b'?' s ≡ true → split s ≡ s ∷ []
unfolding split lacks
split_lem String.[] h = refl
split_lem (String.◌∷◌ c s) h =
    let slash : eqb (code c) b'/' ≡ false = ground arith in
    let mark : eqb (code c) b'?' ≡ false = ground arith in
    rw (slash, mark, split_lem s (ground arith)) refl
