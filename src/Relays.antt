-- ===== src/Relays.antt =====
-- internal/relay/discovery.go: the union of two lists of relays.
pub mod Discovery
pub mod Popular
pub mod Persist
pub mod Plan
pub mod Sync
pub mod Planned
pub mod Synced
use cipolin.Base.{
  Bool, true, false, ◌||◌, List, [], ◌∷◌, ◌++◌, ◌≡◌, refl, sym, ◌∙◌, ap, subst, arith, Bool-cases,
  inl, inr,
}
use cipolin.Base.Texts.{String, has, has-append, str_eq, eq_refl, eq_iff}

abbrev merge_on : Bool → String → List String → List String → List String × List String
merge_on true r seen result = (seen, result)
merge_on false r seen result = (r ∷ seen, result ++ r ∷ [])

-- One turn, on the keys seen and the result.
abbrev merge_one : List String × List String → String → List String × List String
merge_one (seen, result) r = merge_on (has r seen) r seen result

-- The loop over one list.
unfoldable pub merge_into : List String × List String → List String → List String × List String
unfolding has
merge_into m [] = m
merge_into m (r ∷ rs) = merge_into (merge_one m r) rs

unfoldable pub merge_relays : List String → List String → List String
unfolding merge_into
merge_relays a b = (merge_into (merge_into ([], []) a) b).1

-- No relay is there twice.
abbrev pub IsUnique : List String → Type 0
IsUnique [] = Unit
IsUnique (r ∷ rs) = (has r rs ≡ false) × IsUnique rs

-- The result is a unique list of the keys seen.
record IsMerged (m : List String × List String) : Type 0 where
  pub same : (k : String) → has k m.1 ≡ has k m.0
  pub unique : IsUnique m.1

IsUnique-append_one :
    (r : String) (rs : List String) → IsUnique rs → has r rs ≡ false → IsUnique (rs ++ r ∷ [])
unfolding has
IsUnique-append_one r [] u h = (refl, tt)
IsUnique-append_one r (x ∷ xs) u h =
    let front = has-append x xs (r ∷ []) in
    let rest = IsUnique-append_one r xs u.1 (ground (arith, h)) in
    let apart : str_eq r x ≡ false = elim (Bool-cases (str_eq r x)) [
      | inl q ↦
          let same : str_eq x r ≡ true =
            subst (λ z. str_eq x z ≡ true) (sym ((eq_iff r x).0 q)) (eq_refl x) in
          ground (arith, h, same)
      | inr q ↦ q
    ] in
    (ground (arith, front, u.0, apart), rest)

step-IsMerged :
    (r : String) (seen result : List String) (b : Bool)
    → has r seen ≡ b
    → IsMerged (seen, result)
    → IsMerged (merge_on b r seen result)
unfolding has
step-IsMerged r seen result true e m = m
step-IsMerged r seen result false e m = record {
  same = λ k.
      let both = has-append k result (r ∷ []) in let old = m.same k in ground (arith, both, old);
  unique = IsUnique-append_one r result m.unique (m.same r ∙ e);
}

merge_into-IsMerged :
    (m : List String × List String) (rs : List String) → IsMerged m → IsMerged (merge_into m rs)
unfolding merge_into
merge_into-IsMerged m [] h = h
merge_into-IsMerged m (r ∷ rs) h =
    merge_into-IsMerged (merge_one m r) rs (step-IsMerged r m.0 m.1 (has r m.0) refl h)

seen_key :
    (r k : String) (seen result : List String) (b : Bool)
    → has r seen ≡ b
    → has k (merge_on b r seen result).0 ≡ (has k seen || str_eq r k)
unfolding has
seen_key r k seen result true e = elim (Bool-cases (str_eq r k)) [
  | inl q ↦
      let known : has k seen ≡ true = subst (λ x. has x seen ≡ true) ((eq_iff r k).0 q) e in
      ground (arith, known, q)
  | inr q ↦ ground (arith, q)
]
seen_key r k seen result false e = ground arith

merge_into-has :
    (m : List String × List String) (rs : List String) (k : String)
    → has k (merge_into m rs).0 ≡ (has k m.0 || has k rs)
unfolding merge_into has
merge_into-has m [] k = ground arith
merge_into-has m (r ∷ rs) k =
    let rest = merge_into-has (merge_one m r) rs k in
    let one = seen_key r k m.0 m.1 (has r m.0) refl in
    rest ∙ ap (λ x. x || has k rs) one ∙ or_assoc (has k m.0) (str_eq r k) (has k rs)
  where
    or_assoc : (a b c : Bool) → (a || b || c) ≡ (a || (b || c))
    or_assoc a b c = ground arith

-- The merged list has exactly the relays of both lists, and none of them twice.
pub merge_relays-IsUnique :
    (a b : List String)
    → IsUnique (merge_relays a b) × ((k : String) → has k (merge_relays a b) ≡ (has k a || has k b))
unfolding merge_relays has
merge_relays-IsUnique a b =
    let none? : IsMerged ([], []) = record { same = λ k. refl; unique = tt } in
    let merged =
      merge_into-IsMerged (merge_into ([], []) a) b (merge_into-IsMerged ([], []) a none?) in
    (
      merged.unique,
      λ k.
          merged.same k
          ∙ merge_into-has (merge_into ([], []) a) b k
          ∙ ap (λ x. x || has k b) (merge_into-has ([], []) a k),
    )
