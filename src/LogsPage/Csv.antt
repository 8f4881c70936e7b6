-- ===== src/LogsPage/Csv.antt =====
-- A reader of comma-separated values with quotes.
use Prim.Native.Char.{Char, code}
use ngfw_sh.Prelude.{eqb, if◌then◌else◌, String, List, [], ◌∷◌}

-- At the start of a field, within one without quotes, within quotes, and after a quote within quotes.
pub data Mode : Type 0 where
  starting bare inside after : Mode

abbrev pub push_char : Char → List (List String) → List (List String)
push_char c [] = []
push_char c ([] ∷ rs) = [] ∷ rs
push_char c ((f ∷ fs) ∷ rs) = (String.◌∷◌ c f ∷ fs) ∷ rs

abbrev pub new_field : List (List String) → List (List String)
new_field [] = []
new_field (fs ∷ rs) = ("" ∷ fs) ∷ rs

-- A character outside quotes.
abbrev pub outside : Char → (Mode → List (List String)) → List (List String)
outside c rest =
    if eqb (code c) b','
    then new_field (rest starting)
    else if eqb (code c) b'\n'
    then ("" ∷ []) ∷ rest starting
    else push_char c (rest bare)

abbrev pub read_char : Char → (Mode → List (List String)) → Mode → List (List String)
read_char c rest starting = if eqb (code c) b'"' then rest inside else outside c rest
read_char c rest bare = outside c rest
read_char c rest inside = if eqb (code c) b'"' then rest after else push_char c (rest inside)
read_char c rest after = if eqb (code c) b'"' then push_char c (rest inside) else outside c rest

-- The records of a text, each a list of fields; the first field of the first one is what is left of the
-- field that the reader is in.
unfoldable pub read : String → Mode → List (List String)
read String.[] mode = ("" ∷ []) ∷ []
read (String.◌∷◌ c s) mode = read_char c (read s) mode
