-- ===== src/LogsPage/Written.antt =====
-- How the reader takes texts without marks, and texts in quotes.
use Prim.Native.Char.{Char, code}
use ngfw_sh.Prelude.{
  eqb, Bool-cases, ap, inl, inr, ◌≡◌, refl, ◌∙◌, ℕ, true, false, not, both, String, List, [], ◌∷◌,
  arith,
}
use ngfw_sh.Prelude.Text.{append, lacks}
use ngfw_sh.LogsPage.{doubled, quoted}
use ngfw_sh.LogsPage.Csv.{Mode, starting, bare, inside, after, read, outside, push_char}

abbrev pub push : String → List (List String) → List (List String)
push String.[] rs = rs
push (String.◌∷◌ c s) rs = push_char c (push s rs)

pub push-eq :
    (s f : String) (fs : List String) (rs : List (List String))
    → push s ((f ∷ fs) ∷ rs) ≡ (append s f ∷ fs) ∷ rs
push-eq String.[] f fs rs = refl
push-eq (String.◌∷◌ c s) f fs rs = ap (push_char c) (push-eq s f fs rs)

pub append_assoc : (s t u : String) → append (append s t) u ≡ append s (append t u)
append_assoc String.[] t u = refl
append_assoc (String.◌∷◌ c s) t u = ap (String.◌∷◌ c) (append_assoc s t u)

-- At a text the reader does not tell the three ways to end a field apart.
abbrev pub Ends : String → Type 0
Ends t = (read t starting ≡ read t bare) × (read t after ≡ read t bare)

-- A written text stands for a field's value.
abbrev pub Stands : String → String → Type 0
Stands w v = (t : String) → Ends t → read (append w t) starting ≡ push v (read t bare)

pub outside-eq :
    (c : Char) (rest : Mode → List (List String))
    → eqb (code c) b',' ≡ false
    → eqb (code c) b'\n' ≡ false
    → outside c rest ≡ push_char c (rest bare)
outside-eq c rest e f = rw (e, f) refl

pub lacks-cons :
    (n : ℕ) (c : Char) (s : String)
    → lacks n (String.◌∷◌ c s) ≡ true
    → (eqb (code c) n ≡ false) × (lacks n s ≡ true)
unfolding lacks
lacks-cons n c s h = let (a, b) = both (not (eqb (code c) n)) (lacks n s) h in (ground arith, b)

read_bare :
    (s t : String)
    → lacks b',' s ≡ true
    → lacks b'\n' s ≡ true
    → read (append s t) bare ≡ push s (read t bare)
unfolding read
read_bare String.[] t h k = refl
read_bare (String.◌∷◌ c s) t h k =
    let (e, h') = lacks-cons b',' c s h in
    let (f, k') = lacks-cons b'\n' c s k in
    outside-eq c (read (append s t)) e f ∙ ap (push_char c) (read_bare s t h' k')

pub bare-Stands :
    (s : String) → lacks b',' s ≡ true → lacks b'"' s ≡ true → lacks b'\n' s ≡ true → Stands s s
unfolding read
bare-Stands String.[] h q k t e = e.0
bare-Stands (String.◌∷◌ c s) h q k t e =
    let (a, h') = lacks-cons b',' c s h in
    let (b, k') = lacks-cons b'\n' c s k in
    let (d, q') = lacks-cons b'"' c s q in
    rw d (outside-eq c (read (append s t)) a b ∙ ap (push_char c) (read_bare s t h' k'))

read_inside :
    (s t : String)
    → Ends t
    → read (append (doubled s) (append "\"" t)) inside ≡ push s (read t bare)
unfolding read doubled
read_inside String.[] t e = e.1
read_inside (String.◌∷◌ c s) t e = elim (Bool-cases (eqb (code c) b'"')) [
  | inl q ↦ rw (q, q) (ap (push_char c) (read_inside s t e))
  | inr q ↦ rw (q, q) (ap (push_char c) (read_inside s t e))
]

pub quoted-Stands : (s : String) → Stands (quoted s) s
unfolding read quoted
quoted-Stands s t e = ap (λ u. read u inside) (append_assoc (doubled s) "\"" t) ∙ read_inside s t e

-- A record's end: what follows does not belong to it.
abbrev pub Closes : String → List (List String) → Type 0
Closes t rs = (read t bare ≡ ("" ∷ []) ∷ rs) × Ends t

pub Ends-comma : (t : String) → Ends (append "," t)
unfolding read
Ends-comma t = (refl, refl)
