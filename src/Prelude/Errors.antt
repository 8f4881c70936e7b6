-- ===== src/Prelude/Errors.antt =====
-- The errors of a form, by the names of its fields.
use ngfw_sh.Prelude.{String, ◌≡◌, refl, ◌↔◌, Bool, true, false, not, ◌&&◌, List, [], ◌∷◌, ◌++◌}

-- What is entered where a test fails.
abbrev pub error_if : Bool → String → String → List (String × String)
error_if true field message = (field, message) ∷ []
error_if false field message = []

-- `Object.keys(errors).length === 0`.
abbrev pub is_nil : List (String × String) → Bool
is_nil [] = true
is_nil (e ∷ es) = false

pub is_nil-append : (es fs : List (String × String)) → is_nil (es ++ fs) ≡ is_nil es && is_nil fs
is_nil-append [] fs = refl
is_nil-append (e ∷ es) fs = refl

pub is_nil-error_if :
    (b : Bool) (field message : String) → is_nil (error_if b field message) ≡ not b
is_nil-error_if true field message = refl
is_nil-error_if false field message = refl

pub not-false : (b : Bool) → (not b ≡ true) ↔ (b ≡ false)
not-false true = ((λ h. cc), (λ h. cc))
not-false false = ((λ h. refl), (λ h. refl))
