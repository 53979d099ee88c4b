-- ===== src/Policy/Texts.antt =====
-- The functions of the Go library on texts that the plugin engine uses.
use Prim.Native.Char.{code}
use cipolin.Base.{ℕ, Bool, false, ◌&&◌, ◌||◌, if◌then◌else◌, ◌==◌, leb}
use cipolin.Base.Texts.{String, str_eq}

-- `unicode.IsSpace`.
abbrev pub is_space : ℕ → Bool
is_space c =
    leb 9 c && leb c 13
    || (c == 32
        || (c == 133
            || (c == 160
                || (c == 5760
                    || (leb 8192 c && leb c 8202
                        || (c == 8232
                            || (c == 8233 || (c == 8239 || (c == 8287 || c == 12288)))))))))

unfoldable pub trim_left : String → String
trim_left String.[] = String.[]
trim_left (String.◌∷◌ c s) =
    let rest = trim_left s in if is_space (code c) then rest else String.◌∷◌ c s

unfoldable pub trim_right : String → String
trim_right String.[] = String.[]
trim_right (String.◌∷◌ c s) =
    let rest = trim_right s in
    if is_space (code c) && str_eq rest "" then String.[] else String.◌∷◌ c rest

-- `strings.TrimSpace`.
unfoldable pub trim_space : String → String
unfolding trim_left trim_right
trim_space s = trim_right (trim_left s)

-- `strings.ContainsAny(s, " \t")`.
unfoldable pub has_blank : String → Bool
has_blank String.[] = false
has_blank (String.◌∷◌ c s) = code c == 32 || code c == 9 || has_blank s
