-- ===== src/Base/Sorting.antt =====
-- `sort.Strings` and `sort.Ints`. Their result is determined by the order, which is total, so the
-- algorithm is insertion sort here.
use Prim.Native.Nat.{Ordering}
use Prim.Native.String.{compare as compare_text}
use cipolin.Base.{ℕ, List, [], ◌∷◌, Bool, true, false, if◌then◌else◌, leb}
use cipolin.Base.Texts.{String}

-- The order of Go strings, by bytes.
abbrev pub leb_text : String → String → Bool
leb_text a b = elim (compare_text a b) [ Ordering.gt ↦ false | _ ↦ true ]

module _ {A : Type 0} (le : A → A → Bool) where
  unfoldable pub insert_sorted : A → List A → List A
  insert_sorted a [] = a ∷ []
  insert_sorted a (x ∷ xs) = if le a x then a ∷ x ∷ xs else x ∷ insert_sorted a xs

  unfoldable pub sort : List A → List A
  unfolding insert_sorted
  sort [] = []
  sort (x ∷ xs) = insert_sorted x (sort xs)

abbrev pub sort_strings : List String → List String
sort_strings = sort leb_text

abbrev pub sort_ints : List ℕ → List ℕ
sort_ints = sort leb
