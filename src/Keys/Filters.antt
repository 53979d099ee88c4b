-- ===== src/Keys/Filters.antt =====
-- Which data a request needs: the bits of `GetRequiredFilters`.
use Prim.Native.Nat.{bit_or}
use cipolin.Base.{
  ℕ, ◌<◌, ◌/◌, ◌%◌, ◌^◌, ◌≡◌, refl, Bool, true, false, ◌&&◌, ◌||◌, not, List, [], ◌∷◌, none, some,
  Option-cases, inl, inr, arith, ltb, ◌==◌, if◌then◌else◌,
}
use cipolin.Base.Texts.{String, lookup}
use cipolin.Base.Tables.{holds_until, holds-below, same, same-eq}
use cipolin.Keys.{FilterType, metric_filters, filter_all, require, get_required_filters}

-- The filter at position `k` is in the set.
abbrev pub has_bit : FilterType → ℕ → Bool
has_bit f k = (f / 2 ^ k) % 2 == 1

-- Adding `f` to a set of filters adds its bits and no others.
abbrev adds : FilterType → FilterType → ℕ → Bool
adds f a k = same (has_bit (bit_or a f) k) (has_bit a k || has_bit f k)

abbrev adds_to : FilterType → FilterType → Bool
adds_to f a = (ltb (bit_or a f) 128 && not (bit_or a f == 0)) && holds_until (adds f a) 7

abbrev adds_to_all : FilterType → Bool
adds_to_all f = holds_until (adds_to f) 128

all_entries : (FilterType → Bool) → List (String × FilterType) → Bool
all_entries p [] = true
all_entries p ((m, f) ∷ rest) = p f && all_entries p rest

all_entries_sound :
    (p : FilterType → Bool) (m : String) (f : FilterType) (l : List (String × FilterType))
    → all_entries p l ≡ true
    → lookup m l ≡ some f
    → p f ≡ true
unfolding all_entries lookup
all_entries_sound p m f [] h e = cc
all_entries_sound p m f ((j, g) ∷ l) h e = ground (arith, all_entries_sound p m f l)

table : all_entries adds_to_all metric_filters ≡ true
unfolding all_entries holds_until
table = refl

-- What the table says of a metric's filters: the union stays below 128, is not empty, and has the
-- bits of both.
abbrev Union : FilterType → FilterType → Type 0
Union f a =
    (bit_or a f < 128)
    × ((bit_or a f == 0) ≡ false)
    × ((k : ℕ) → k < 7 → has_bit (bit_or a f) k ≡ (has_bit a k || has_bit f k))

union_of : (m : String) (f a : FilterType) → lookup m metric_filters ≡ some f → a < 128 → Union f a
union_of m f a e lt =
    let row = holds-below (adds_to f) 128 a lt (all_entries_sound adds_to_all m f _ table e) in
    (
      ground (arith, split_row f a row),
      (split_row f a row).1,
      λ k le.
          same-eq (has_bit (bit_or a f) k) (has_bit a k || has_bit f k)
            (holds-below (adds f a) 7 k le (split_row f a row).2),
    )
  where
    and_parts : (a b : Bool) → (a && b) ≡ true → (a ≡ true) × (b ≡ true)
    and_parts a b h = ground arith

    split_row :
        (f a : FilterType)
        → adds_to f a ≡ true
        → (ltb (bit_or a f) 128 ≡ true)
          × ((bit_or a f == 0) ≡ false)
          × (holds_until (adds f a) 7 ≡ true)
    split_row f a h =
        let (l, r) = and_parts _ _ h in let (l1, l2) = and_parts _ _ l in (l1, ground arith, r)

-- A metric of the list needs the filter at position `k`.
unfoldable pub wants : ℕ → List String → Bool
wants k [] = false
wants k (m ∷ ms) =
    elim (lookup m metric_filters) [ none ↦ false | some f ↦ has_bit f k ] || wants k ms

-- A metric of the list has filters at all.
unfoldable pub any_known : List String → Bool
any_known [] = false
any_known (m ∷ ms) = elim (lookup m metric_filters) [ none ↦ false | some f ↦ true ] || any_known ms

require-bits :
    (k : ℕ) (r : FilterType) (ms : List String)
    → k < 7
    → r < 128
    → (has_bit (require r ms) k ≡ (has_bit r k || wants k ms))
      × ((require r ms == 0) ≡ ((r == 0) && not (any_known ms)))
unfolding require wants any_known
require-bits k r [] lt le = (ground arith, ground arith)
require-bits k r (m ∷ ms) lt le = elim (Option-cases (lookup m metric_filters)) [
  | inl e ↦ rw (e, require) (require-bits k r ms lt le)
  | inr (f, e) ↦
      let (below, ne, bits) = union_of m f r e le in
      let (ih, ih0) = require-bits k (bit_or r f) ms lt below in
      rw (e, require) (ground (arith, bits k lt), ground arith)
]

require-lt : (r : FilterType) (ms : List String) → r < 128 → require r ms < 128
unfolding require
require-lt r [] lt = lt
require-lt r (m ∷ ms) lt = elim (Option-cases (lookup m metric_filters)) [
  | inl e ↦ rw (e, require) (require-lt r ms lt)
  | inr (f, e) ↦
      let (below, ne, bits) = union_of m f r e lt in
      rw (e, require) (require-lt (bit_or r f) ms below)
]

pub get_required_filters-lt : (ms : List String) → get_required_filters ms < 128
unfolding get_required_filters
get_required_filters-lt [] = omega arith
get_required_filters-lt (m ∷ ms) = ground (arith, require-lt 0 (m ∷ ms))

filter_all-bits : (k : ℕ) → k < 7 → has_bit filter_all k ≡ true
unfolding holds_until
filter_all-bits k lt = holds-below (has_bit filter_all) 7 k lt refl

-- The filters of a list of metrics have, at each of the seven positions, the bit that one of its
-- known metrics needs, and every bit if it has no known metric.
pub get_required_filters-bits :
    (ms : List String) (k : ℕ)
    → k < 7
    → has_bit (get_required_filters ms) k ≡ (if any_known ms then wants k ms else true)
unfolding get_required_filters any_known
get_required_filters-bits [] k lt = filter_all-bits k lt
get_required_filters-bits (m ∷ ms) k lt =
    let (bits, empty) = require-bits k 0 (m ∷ ms) lt (omega arith) in
    ground (arith, bits, empty, filter_all-bits k lt)
