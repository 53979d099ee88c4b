-- ===== src/Base/Order.antt =====
-- Sorting by an order, and lists that differ in their order.
pub mod Text
use mathlib.Core.List.Perm
use mathlib.Core.List.{Perm, foldr}
use cipolin.Base.{
  ℕ, ◌<◌, List, [], ◌∷◌, Bool, true, false, if◌then◌else◌, leb, ltb, ◌==◌, ◌≡◌, refl, sym, ap, ◌∙◌,
  Bool-cases, inl, inr, ◌⊎◌, arith, false≢true,
}
use cipolin.Base.Sorting.{insert_sorted, sort, sort_ints}

pub record IsOrder {A : Type 0} (le : A → A → Bool) : Type 0 where
  pub total : (a b : A) → (le a b ≡ true) ⊎ (le b a ≡ true)
  pub antisym : (a b : A) → le a b ≡ true → le b a ≡ true → a ≡ b
  pub trans : (a b c : A) → le a b ≡ true → le b c ≡ true → le a c ≡ true

module _ {A : Type 0} (le : A → A → Bool) (order : IsOrder le) where
  two_sorted :
      (a b : A) (l : List A)
      → (if le a b then a ∷ b ∷ l else b ∷ a ∷ l) ≡ (if le b a then b ∷ a ∷ l else a ∷ b ∷ l)
  two_sorted a b l = elim (Bool-cases (le a b)) [
    | inl p ↦ elim (Bool-cases (le b a)) [
      | inl q ↦ rw (p, q) (let e = order.antisym a b p q in λ i. e i ∷ sym e i ∷ l)
      | inr q ↦ rw (p, q) refl
    ]
    | inr p ↦ elim (order.total a b) [
      | inl q ↦ absurd (false≢true (sym p ∙ q))
      | inr q ↦ rw (p, q) refl
    ]
  ]

  not_below : (a b x : A) → le a x ≡ true → le b x ≡ false → le b a ≡ false
  not_below a b x p q = elim (Bool-cases (le b a)) [
    | inl below ↦ absurd (false≢true (sym q ∙ order.trans b a x below p))
    | inr above ↦ above
  ]

  insert_at : (a x : A) (l : List A) → le a x ≡ true → insert_sorted le a (x ∷ l) ≡ a ∷ x ∷ l
  unfolding insert_sorted
  insert_at a x l p = rw p refl

  insert_past :
      (a x : A) (l : List A)
      → le a x ≡ false
      → insert_sorted le a (x ∷ l) ≡ x ∷ insert_sorted le a l
  unfolding insert_sorted
  insert_past a x l p = rw p refl

  both_in_front :
      (a b x : A) (l : List A)
      → le a x ≡ true
      → le b x ≡ true
      → insert_sorted le a (b ∷ x ∷ l) ≡ insert_sorted le b (a ∷ x ∷ l)
  both_in_front a b x l p q = elim (Bool-cases (le a b)) [
    | inl ab ↦ elim (Bool-cases (le b a)) [
      | inl ba ↦
          insert_at a b (x ∷ l) ab
          ∙ (let e = order.antisym a b ab ba in λ i. e i ∷ sym e i ∷ x ∷ l)
          ∙ sym (insert_at b a (x ∷ l) ba)
      | inr ba ↦
          insert_at a b (x ∷ l) ab
          ∙ ap (λ r. a ∷ r) (sym (insert_at b x l q))
          ∙ sym (insert_past b a (x ∷ l) ba)
    ]
    | inr ab ↦ elim (order.total a b) [
      | inl below ↦ absurd (false≢true (sym ab ∙ below))
      | inr ba ↦
          insert_past a b (x ∷ l) ab
          ∙ ap (λ r. b ∷ r) (insert_at a x l p)
          ∙ sym (insert_at b a (x ∷ l) ba)
    ]
  ]

  one_in_front :
      (a b x : A) (l : List A)
      → le a x ≡ true
      → le b x ≡ false
      → insert_sorted le a (insert_sorted le b (x ∷ l))
        ≡ insert_sorted le b (insert_sorted le a (x ∷ l))
  one_in_front a b x l p q =
      ap (insert_sorted le a) (insert_past b x l q)
      ∙ insert_at a x (insert_sorted le b l) p
      ∙ ap (λ r. a ∷ r) (sym (insert_past b x l q))
      ∙ sym (insert_past b a (x ∷ l) (not_below a b x p q))
      ∙ ap (insert_sorted le b) (sym (insert_at a x l p))

  insert_comm-nil : (a b : A) → insert_sorted le a (b ∷ []) ≡ insert_sorted le b (a ∷ [])
  unfolding insert_sorted
  insert_comm-nil a b = two_sorted a b []

  insert-nil : (a : A) → insert_sorted le a [] ≡ a ∷ []
  unfolding insert_sorted
  insert-nil a = refl

  insert_comm :
      (a b : A) (l : List A)
      → insert_sorted le a (insert_sorted le b l) ≡ insert_sorted le b (insert_sorted le a l)
  insert_comm a b [] =
      ap (insert_sorted le a) (insert-nil b)
      ∙ insert_comm-nil a b
      ∙ ap (insert_sorted le b) (sym (insert-nil a))
  insert_comm a b (x ∷ xs) = elim (Bool-cases (le a x)) [
    | inl p ↦ elim (Bool-cases (le b x)) [
      | inl q ↦
          ap (insert_sorted le a) (insert_at b x xs q)
          ∙ both_in_front a b x xs p q
          ∙ ap (insert_sorted le b) (sym (insert_at a x xs p))
      | inr q ↦ one_in_front a b x xs p q
    ]
    | inr p ↦ elim (Bool-cases (le b x)) [
      | inl q ↦ sym (one_in_front b a x xs q p)
      | inr q ↦
          ap (insert_sorted le a) (insert_past b x xs q)
          ∙ insert_past a x (insert_sorted le b xs) p
          ∙ ap (λ r. x ∷ r) (insert_comm a b xs)
          ∙ sym (insert_past b x (insert_sorted le a xs) q)
          ∙ ap (insert_sorted le b) (sym (insert_past a x xs p))
    ]
  ]

  sort-foldr : (l : List A) → sort le l ≡ foldr (insert_sorted le) [] l
  unfolding sort
  sort-foldr [] = refl
  sort-foldr (x ∷ xs) = ap (insert_sorted le x) (sort-foldr xs)

  pub sort-perm : (l l' : List A) → IsSet (List A) → Perm l l' → sort le l ≡ sort le l'
  sort-perm l l' set p =
      sort-foldr l ∙ Perm.foldr-eq set (insert_sorted le) insert_comm p [] ∙ sym (sort-foldr l')

pub leb-IsOrder : IsOrder leb
leb-IsOrder = record {
  total = λ a b. ground arith;
  antisym = λ a b p q. ground (arith, p, q);
  trans = λ a b c p q. ground (arith, p, q);
}

pub sort_ints-perm : (l l' : List ℕ) → Perm l l' → sort_ints l ≡ sort_ints l'
sort_ints-perm l l' p = sort-perm leb leb-IsOrder l l' (hlevel) p
