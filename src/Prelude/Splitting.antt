-- ===== src/Prelude/Splitting.antt =====
-- `s.split(separator)` for a separator of one character.
use Prim.Native.Char.{Char}
use zonegate_backend.Prelude.{List, String, ◌∷◌, [], if◌then◌else◌}
use zonegate_backend.Prelude.Text.{same}

-- A character in front of the first part.
unfoldable pub onto_first : Char → List String → List String
onto_first c [] = String.◌∷◌ c String.[] ∷ []
onto_first c (part ∷ parts) = String.◌∷◌ c part ∷ parts

unfoldable pub split : Char → String → List String
unfolding onto_first
split separator String.[] = "" ∷ []
split separator (String.◌∷◌ c s) =
    let rest = split separator s in if same c separator then "" ∷ rest else onto_first c rest
