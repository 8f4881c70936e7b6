-- ===== src/NatPage/Blank.antt =====
-- `trim` of JavaScript, as far as what is left is tested for being empty.
use Prim.Native.Char.{code}
use Prim.Native.String.{String, [], ◌∷◌}
use ngfw_sh.Prelude.{Bool, true, ◌&&◌}
use ngfw_sh.Prelude.Text.{is_space}

-- `!s.trim()`.
unfoldable pub is_blank : String → Bool
is_blank [] = true
is_blank (c ∷ s) = is_space (code c) && is_blank s
