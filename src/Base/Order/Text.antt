-- ===== src/Base/Order/Text.antt =====
-- The order of texts, by their first characters.
use Prim.Native.Char.{Char, code}
use Prim.Native.Nat.{Ordering, compare as compare_ℕ}
use Prim.Native.String.compare
use Prim.Native.String.{then as first_of, compare as compare_text}
use mathlib.Core.List.{Perm}
use text.Mathlib.TextEquality.{codes_equal, IsScalar-prop}
use cipolin.Base.{
  ℕ, ◌<◌, List, Bool, true, false, if◌then◌else◌, ltb, ◌==◌, ◌≡◌, refl, sym, ap, ◌∙◌, Bool-cases,
  inl, inr, ◌⊎◌, arith, false≢true,
}
use cipolin.Base.Texts.{String}
use cipolin.Base.Sorting.{leb_text, sort_strings}
use cipolin.Base.Order.{IsOrder, sort-perm}

pub String-IsSet : IsSet String
String-IsSet = hlevel (IsScalar-prop)

abbrev is_le : Ordering → Bool
is_le o = elim o [ Ordering.gt ↦ false | _ ↦ true ]

-- The order of texts by their first characters.
leb_text-cons :
    (c d : Char) (s t : String)
    → leb_text (String.◌∷◌ c s) (String.◌∷◌ d t)
      ≡ (if ltb (code c) (code d) then true else if code c == code d then leb_text s t else false)
leb_text-cons c d s t = ap is_le (compare.cons-cons c d s t) ∙ go (compare_ℕ (code c) (code d))
  where
    go :
        (o : Ordering)
        → is_le (first_of o (compare_text s t)) ≡ (
            if elim o [ Ordering.lt ↦ true | _ ↦ false ]
            then true
            else if elim o [ Ordering.eq ↦ true | _ ↦ false ]
            then leb_text s t
            else false)
    go Ordering.lt = refl
    go Ordering.eq = refl
    go Ordering.gt = refl

leb_text-nil : (t : String) → leb_text String.[] t ≡ true
leb_text-nil String.[] = ap is_le compare.nil-nil
leb_text-nil (String.◌∷◌ d t) = ap is_le (compare.nil-cons d t)

leb_text-over : (c : Char) (s : String) → leb_text (String.◌∷◌ c s) String.[] ≡ false
leb_text-over c s = ap is_le (compare.cons-nil c s)

abbrev Below : Char → Char → Bool → Type 0
Below c d rest = (code c < code d) ⊎ ((code c ≡ code d) × (rest ≡ true))

leb_text-Below :
    (c d : Char) (s t : String)
    → leb_text (String.◌∷◌ c s) (String.◌∷◌ d t) ≡ true
    → Below c d (leb_text s t)
leb_text-Below c d s t h = go (leb_text s t) (sym (leb_text-cons c d s t) ∙ h)
  where
    go :
        (rest : Bool)
        → (if ltb (code c) (code d) then true else if code c == code d then rest else false) ≡ true
        → Below c d rest
    go rest h = ground (arith, h)

Below-leb_text :
    (c d : Char) (s t : String)
    → Below c d (leb_text s t)
    → leb_text (String.◌∷◌ c s) (String.◌∷◌ d t) ≡ true
Below-leb_text c d s t h = leb_text-cons c d s t ∙ go (leb_text s t) h
  where
    go :
        (rest : Bool)
        → Below c d rest
        → (if ltb (code c) (code d) then true else if code c == code d then rest else false) ≡ true
    go rest h = ground (arith, h)

leb_text_total : (s t : String) → (leb_text s t ≡ true) ⊎ (leb_text t s ≡ true)
leb_text_total String.[] t = inl (leb_text-nil t)
leb_text_total (String.◌∷◌ c s) String.[] = inr (leb_text-nil (String.◌∷◌ c s))
leb_text_total (String.◌∷◌ c s) (String.◌∷◌ d t) =
    either (ltb (code c) (code d)) refl (leb_text_total s t)
  where
    either :
        (lower : Bool)
        → ltb (code c) (code d) ≡ lower
        → (leb_text s t ≡ true) ⊎ (leb_text t s ≡ true)
        → (leb_text (String.◌∷◌ c s) (String.◌∷◌ d t) ≡ true)
          ⊎ (leb_text (String.◌∷◌ d t) (String.◌∷◌ c s) ≡ true)
    either true h rest = inl (Below-leb_text c d s t (inl (ground (arith, h))))
    either false h (inl below) = elim (Bool-cases (code c == code d)) [
      | inl same ↦ inl (Below-leb_text c d s t (inr (ground (arith, same), below)))
      | inr other ↦ inr (Below-leb_text d c t s (inl (ground (arith, h, other))))
    ]
    either false h (inr above) = elim (Bool-cases (code c == code d)) [
      | inl same ↦ inr (Below-leb_text d c t s (inr (ground (arith, same), above)))
      | inr other ↦ inr (Below-leb_text d c t s (inl (ground (arith, h, other))))
    ]

same_codes : (m n : ℕ) → m ≡ n → compare_ℕ m n ≡ Ordering.eq
same_codes m n e = ground (arith, e)

leb_text_antisym : (s t : String) → leb_text s t ≡ true → leb_text t s ≡ true → s ≡ t
leb_text_antisym String.[] String.[] p q = refl
leb_text_antisym String.[] (String.◌∷◌ d t) p q = absurd (false≢true (sym (leb_text-over d t) ∙ q))
leb_text_antisym (String.◌∷◌ c s) String.[] p q = absurd (false≢true (sym (leb_text-over c s) ∙ p))
leb_text_antisym (String.◌∷◌ c s) (String.◌∷◌ d t) p q =
    let (e, h, k) =
      both (leb_text s t) (leb_text t s) (leb_text-Below c d s t p) (leb_text-Below d c t s q) in
    λ i.
      String.◌∷◌ (codes_equal c d (same_codes (code c) (code d) e) i) (leb_text_antisym s t h k i)
  where
    both : (x y : Bool) → Below c d x → Below d c y → (code c ≡ code d) × (x ≡ true) × (y ≡ true)
    both x y h k = ground (arith, h, k)

leb_text_trans : (s t u : String) → leb_text s t ≡ true → leb_text t u ≡ true → leb_text s u ≡ true
leb_text_trans String.[] t u p q = leb_text-nil u
leb_text_trans (String.◌∷◌ c s) String.[] u p q = absurd (false≢true (sym (leb_text-over c s) ∙ p))
leb_text_trans (String.◌∷◌ c s) (String.◌∷◌ d t) String.[] p q =
    absurd (false≢true (sym (leb_text-over d t) ∙ q))
leb_text_trans (String.◌∷◌ c s) (String.◌∷◌ d t) (String.◌∷◌ f u) p q =
    Below-leb_text c f s u
      (chain (leb_text_trans s t u) (leb_text-Below c d s t p) (leb_text-Below d f t u q))
  where
    chain :
        (leb_text s t ≡ true → leb_text t u ≡ true → leb_text s u ≡ true)
        → Below c d (leb_text s t)
        → Below d f (leb_text t u)
        → Below c f (leb_text s u)
    chain rest (inl h) (inl k) = inl (omega (arith, h, k))
    chain rest (inl h) (inr k) = inl (omega (arith, h, k.0))
    chain rest (inr h) (inl k) = inl (omega (arith, h.0, k))
    chain rest (inr h) (inr k) = inr (h.0 ∙ k.0, rest h.1 k.1)

pub leb_text-IsOrder : IsOrder leb_text
leb_text-IsOrder = record {
  total = leb_text_total;
  antisym = leb_text_antisym;
  trans = leb_text_trans;
}

pub sort_strings-perm : (l l' : List String) → Perm l l' → sort_strings l ≡ sort_strings l'
sort_strings-perm l l' p = sort-perm leb_text leb_text-IsOrder l l' (hlevel (String-IsSet)) p
