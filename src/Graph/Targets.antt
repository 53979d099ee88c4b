-- ===== src/Graph/Targets.antt =====
-- The targets of a contact list are the keys that its tags name.
use cipolin.Base.{
  ◌≡◌, refl, ap, inl, inr, Bool, false, ◌||◌, ◌&&◌, List, [], ◌∷◌, ◌==◌, arith, Bool-cases,
}
use cipolin.Base.Texts.{String, has, str_eq, eq_iff, byte_len}
use cipolin.Base.Sorting.{leb_text, insert_sorted, sort, sort_strings}
use cipolin.Nostr.{Event, Tag}
use cipolin.Graph.Ingest.{add_target, target_of, unique_targets, extract_follow_targets}

-- A tag says that the author follows a key.
abbrev follows_by : String → Tag → Bool
follows_by key [] = false
follows_by key (name ∷ []) = false
follows_by key (name ∷ target ∷ rest) =
    (str_eq name "p" && (byte_len target == 64)) && str_eq target key

abbrev pub is_followed : String → List Tag → Bool
is_followed key [] = false
is_followed key (tag ∷ tags) = follows_by key tag || is_followed key tags

add_target-has :
    (key target : String) (unique : List String)
    → has key (add_target target unique)
      ≡ ((byte_len target == 64) && str_eq target key || has key unique)
unfolding has
add_target-has key target unique = elim (Bool-cases (str_eq target key)) [
  | inl q ↦
      let same : has target unique ≡ has key unique =
        ap (λ x. has x unique) ((eq_iff target key).0 q) in
      ground (arith, same, q)
  | inr q ↦ ground (arith, q)
]

target_of-has :
    (key : String) (tag : Tag) (unique : List String)
    → has key (target_of tag unique) ≡ (follows_by key tag || has key unique)
target_of-has key [] unique = ground arith
target_of-has key (name ∷ []) unique = ground arith
target_of-has key (name ∷ target ∷ rest) unique = ground (arith, add_target-has key target unique)

unique_targets-has :
    (key : String) (tags : List Tag) (unique : List String)
    → has key (unique_targets tags unique) ≡ (is_followed key tags || has key unique)
unfolding unique_targets
unique_targets-has key [] unique = ground arith
unique_targets-has key (tag ∷ tags) unique =
    ground (arith, unique_targets-has key tags (target_of tag unique), target_of-has key tag unique)

insert_sorted-has :
    (key x : String) (xs : List String)
    → has key (insert_sorted leb_text x xs) ≡ (str_eq x key || has key xs)
unfolding insert_sorted has
insert_sorted-has key x [] = ground arith
insert_sorted-has key x (y ∷ ys) = ground (arith, insert_sorted-has key x ys)

sort-has : (key : String) (xs : List String) → has key (sort_strings xs) ≡ has key xs
unfolding sort has
sort-has key [] = refl
sort-has key (x ∷ xs) = ground (arith, insert_sorted-has key x (sort leb_text xs), sort-has key xs)

pub extract_follow_targets-has :
    (key : String) (event : Event)
    → has key (extract_follow_targets event) ≡ is_followed key event.tags
unfolding extract_follow_targets has
extract_follow_targets-has key event =
    let sorted = sort-has key (unique_targets event.tags []) in
    let found = unique_targets-has key event.tags [] in ground (arith, sorted, found)
