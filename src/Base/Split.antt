-- ===== src/Base/Split.antt =====
-- `strings.Split` by a separator of one byte.
use Prim.Native.Char.{Char, code}
use cipolin.Base.{ℕ, List, [], ◌∷◌, Bool, true, false, ◌==◌}
use cipolin.Base.Texts.{String}

abbrev pub cut : Bool → Char → List String → List String
cut sep c [] = []
cut true c (part ∷ parts) = String.[] ∷ part ∷ parts
cut false c (part ∷ parts) = String.◌∷◌ c part ∷ parts

-- The parts between the separators: always at least one.
unfoldable pub split : ℕ → String → List String
split sep String.[] = String.[] ∷ []
split sep (String.◌∷◌ c s) = cut (code c == sep) c (split sep s)
