-- ===== src/Base/Paths.antt =====
-- The parts of a POSIX path.
use Prim.Native.Char.{Char, code}
use Prim.Native.String.{String}
use mathlib.Core.Bool.{Bool, false}
use mathlib.Core.List.{List, [], ◌∷◌}
use opl_flow.Base.Bools.{eqb, if◌then◌else◌}

abbrev push_part : Char → List String → List String
push_part c [] = String.◌∷◌ c String.[] ∷ []
push_part c (part ∷ parts) = String.◌∷◌ c part ∷ parts

-- the text between the slashes
unfoldable pub path_parts : String → List String
path_parts String.[] = "" ∷ []
path_parts (String.◌∷◌ c s) =
    let rest = path_parts s in if eqb (code c) b'/' then "" ∷ rest else push_part c rest

unfoldable pub starts_with_slash : String → Bool
starts_with_slash String.[] = false
starts_with_slash (String.◌∷◌ c s) = eqb (code c) b'/'
