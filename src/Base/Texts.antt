-- ===== src/Base/Texts.antt =====
-- Go maps and sets with string keys, as association lists and lists of keys, and the strings
-- functions of the Go library that the program calls.
use mathlib.Core.Path.{◌≡◌, refl}
use mathlib.Core.Bool.{Bool, false, ◌||◌}
use mathlib.Core.List.{List, [], ◌∷◌, ◌++◌}
use mathlib.Core.Option.{Option, none, some}
use native.Mathlib.Omega.{arith}
use cipolin.Base.Tests.{if◌then◌else◌, ltb}
use Prim.Native.Nat.{ℕ, ◌+◌}
use Prim.Native.Char.{code}
pub use Prim.Native.String.{String, len}
pub use text.Mathlib.Text.{◌==◌ as str_eq}
pub use text.Mathlib.TextEquality.{eq_iff}
pub use text.Mathlib.TextPositions.{eq_refl}

-- `len(s)` of a Go string: the bytes of the code points in UTF-8.
abbrev char_len : ℕ → ℕ
char_len c = if ltb c 128 then 1 else if ltb c 2048 then 2 else if ltb c 65536 then 3 else 4

unfoldable pub byte_len : String → ℕ
byte_len String.[] = 0
byte_len (String.◌∷◌ c s) = char_len (code c) + byte_len s

-- `m[k]` of a `map[string]bool` whose entries are all true.
unfoldable pub has : String → List String → Bool
has k [] = false
has k (x ∷ xs) = str_eq x k || has k xs

pub has-append : (k : String) (xs ys : List String) → has k (xs ++ ys) ≡ (has k xs || has k ys)
unfolding has
has-append k [] ys = refl
has-append k (x ∷ xs) ys = ground (arith, has-append k xs ys)

module _ {ℓ} {V : Type ℓ} where
  -- `m[key]` with its `ok`.
  unfoldable pub lookup : String → List (String × V) → Option V
  lookup key [] = none
  lookup key ((name, value) ∷ entries) = if str_eq name key then some value else lookup key entries

  -- `m[key] = value`.
  unfoldable pub insert : String → V → List (String × V) → List (String × V)
  insert key value [] = (key, value) ∷ []
  insert key value ((name, old) ∷ entries) =
      if str_eq name key then (key, value) ∷ entries else (name, old) ∷ insert key value entries

  pub lookup-insert :
      (key asked : String) (value : V) (entries : List (String × V))
      → lookup asked (insert key value entries)
        ≡ (if str_eq key asked then some value else lookup asked entries)
  unfolding lookup insert
  lookup-insert key asked value [] = refl
  lookup-insert key asked value ((name, old) ∷ entries) =
      let rest = lookup-insert key asked value entries in
      ground (arith, rest, eq_iff name asked, eq_iff name key, eq_iff key asked)

  -- `delete(m, key)`.
  unfoldable pub remove : String → List (String × V) → List (String × V)
  remove key [] = []
  remove key ((name, old) ∷ entries) =
      let rest = remove key entries in if str_eq name key then rest else (name, old) ∷ rest

  pub lookup-remove :
      (key asked : String) (entries : List (String × V))
      → lookup asked (remove key entries)
        ≡ (if str_eq key asked then none else lookup asked entries)
  unfolding lookup remove
  lookup-remove key asked [] = ground arith
  lookup-remove key asked ((name, old) ∷ entries) =
      let rest = lookup-remove key asked entries in
      ground (arith, rest, eq_iff name asked, eq_iff name key, eq_iff key asked)
