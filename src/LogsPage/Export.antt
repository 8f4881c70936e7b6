-- ===== src/LogsPage/Export.antt =====
-- What a reader of comma-separated values makes of the file that is exported.
use Prim.Native.Char.{Char, code}
use ngfw_sh.Prelude.{
  eqb, if◌then◌else◌, Bool-cases, ap, inl, inr, ◌≡◌, refl, sym, ◌∙◌, true, String, List, [], ◌∷◌,
  ◌++◌,
}
use ngfw_sh.Prelude.Text.{append, lacks, append_nil}
use ngfw_sh.Prelude.Pairs.{Pairwise}
use ngfw_sh.LogsPage.{join}
use ngfw_sh.LogsPage.Csv.{starting, bare, read, outside, push_char, new_field}
use ngfw_sh.LogsPage.Written.{
  push, push-eq, append_assoc, Ends, Stands, lacks-cons, Closes, Ends-comma,
}

-- The first piece of a text between its commas, and the others.
abbrev with_piece : Char → String × List String → String × List String
with_piece c (p, ps) = if eqb (code c) b',' then ("", p ∷ ps) else (String.◌∷◌ c p, ps)

unfoldable pub pieces : String → String × List String
pieces String.[] = ("", [])
pieces (String.◌∷◌ c s) = with_piece c (pieces s)

-- A piece and more, each but the last with a comma behind it.
abbrev push_all : String → List String → List (List String) → List (List String)
push_all v [] rs = push v rs
push_all v (u ∷ us) rs = push v (new_field (push_all u us rs))

push_all-eq :
    (v : String) (vs fs : List String) (rs : List (List String))
    → push_all v vs (("" ∷ fs) ∷ rs) ≡ (v ∷ vs ++ fs) ∷ rs
push_all-eq v [] fs rs = push-eq v "" fs rs ∙ ap (λ u. (u ∷ fs) ∷ rs) (append_nil v)
push_all-eq v (u ∷ us) fs rs =
    ap (λ q. push v (new_field q)) (push_all-eq u us fs rs)
    ∙ push-eq v "" (u ∷ us ++ fs) rs
    ∙ ap (λ w. (w ∷ u ∷ us ++ fs) ∷ rs) (append_nil v)

push_all-cons :
    (c : Char) (p : String) (ps : List String) (rs : List (List String))
    → push_all (String.◌∷◌ c p) ps rs ≡ push_char c (push_all p ps rs)
push_all-cons c p [] rs = refl
push_all-cons c p (u ∷ us) rs = refl

-- A text with commas, but without quotes and ends of lines, stands for its pieces, in both modes.
read-pieces :
    (s t : String)
    → lacks b'"' s ≡ true
    → lacks b'\n' s ≡ true
    → Ends t
    → (read (append s t) starting ≡ push_all (pieces s).0 (pieces s).1 (read t bare))
      × (read (append s t) bare ≡ push_all (pieces s).0 (pieces s).1 (read t bare))
unfolding read pieces
read-pieces String.[] t q k e = (e.0, refl)
read-pieces (String.◌∷◌ c s) t q k e =
    let (a, q') = lacks-cons b'"' c s q in
    let (b, k') = lacks-cons b'\n' c s k in
    let (at_start, in_bare) = read-pieces s t q' k' e in
    let same : outside c (read (append s t))
        ≡ push_all (with_piece c (pieces s)).0 (with_piece c (pieces s)).1 (read t bare) =
      elim (Bool-cases (eqb (code c) b',')) [
        | inl m ↦ rw m (ap new_field at_start)
        | inr m ↦
            rw (m, b)
              (ap (push_char c) in_bare
                ∙ sym (push_all-cons c (pieces s).0 (pieces s).1 (read t bare)))
      ] in
    (rw a same, same)

-- A line stands for a record.
abbrev pub Line : String → List String → Type 0
Line w fs =
    (t : String) (rs : List (List String)) → Closes t rs → read (append w t) starting ≡ fs ∷ rs

comma_first :
    (w u t : String) → append (append w (append "," u)) t ≡ append w (append "," (append u t))
comma_first w u t = append_assoc w (append "," u) t

pub cells-Line :
    (w v : String) (ws vs : List String)
    → Stands w v
    → Pairwise Stands ws vs
    → Line (join "," (w ∷ ws)) (v ∷ vs)
unfolding read join
cells-Line w v [] [] h hs t rs (c, e) = h t e ∙ ap (push v) c ∙ push_all-eq v [] [] rs
cells-Line w v [] (u ∷ vs) h hs t rs c = absurd hs
cells-Line w v (x ∷ ws) [] h hs t rs c = absurd hs
cells-Line w v (x ∷ ws) (u ∷ vs) h (i, is) t rs c =
    let rest = join "," (x ∷ ws) in
    ap (λ s. read s starting) (comma_first w rest t)
    ∙ h (append "," (append rest t)) (Ends-comma (append rest t))
    ∙ ap (λ q. push v (new_field q)) (cells-Line x u ws vs i is t rs c)
    ∙ push_all-eq v [] (u ∷ vs) rs

pub pieces-Line :
    (s w : String) (ws vs : List String)
    → lacks b'"' s ≡ true
    → lacks b'\n' s ≡ true
    → Line (join "," (w ∷ ws)) vs
    → Line (join "," (s ∷ w ∷ ws)) ((pieces s).0 ∷ (pieces s).1 ++ vs)
unfolding read join
pieces-Line s w ws vs q k l t rs c =
    let rest = join "," (w ∷ ws) in
    ap (λ u. read u starting) (comma_first s rest t)
    ∙ (read-pieces s (append "," (append rest t)) q k (Ends-comma (append rest t))).0
    ∙ ap (λ u. push_all (pieces s).0 (pieces s).1 (new_field u)) (l t rs c)
    ∙ push_all-eq (pieces s).0 (pieces s).1 vs rs

pub lines_read :
    (l : String) (ls : List String) (fs : List String) (rs : List (List String))
    → Line l fs
    → Pairwise Line ls rs
    → read (join "\n" (l ∷ ls)) starting ≡ fs ∷ rs
unfolding read join
lines_read l [] fs [] h hs =
    ap (λ s. read s starting) (sym (append_nil l)) ∙ h "" [] (refl, (refl, refl))
lines_read l [] fs (r ∷ rs) h hs = absurd hs
lines_read l (m ∷ ls) fs [] h hs = absurd hs
lines_read l (m ∷ ls) fs (r ∷ rs) h (i, is) =
    h (append "\n" (join "\n" (m ∷ ls))) (r ∷ rs)
      (ap (λ q. ("" ∷ []) ∷ q) (lines_read m ls r rs i is), (refl, refl))
