-- ===== src/Fetcher/Identity/Same.antt =====
-- internal/fetcher/cursor.go: filters that have the same cursor.
use mathlib.Core.List.Perm
use mathlib.Core.List.{Perm}
use cipolin.Base.{◌≡◌, refl, List, [], ◌∷◌, map}
use cipolin.Base.Order.{sort_ints-perm}
use cipolin.Base.Order.Text.{sort_strings-perm}
use cipolin.Base.Sorting.{sort_strings}
use cipolin.Base.Texts.{String}
use cipolin.Nostr.{Filter}
use cipolin.Fetcher.Pages.{is_empty}
use cipolin.Fetcher.Identity.{
  Digest, entry_of, kinds_of, values_of, tag_entries, filter_to_canonical_map, generate_cursor_id,
  generate_filter_hash,
}

-- Two filters with the same conditions, each in some order; the range of time and the limit may differ.
pub record Agrees (f g : Filter) : Type 0 where
  pub ids : Perm f.ids g.ids
  pub authors : Perm f.authors g.authors
  pub kinds : Perm f.kinds g.kinds
  pub names : Perm (map (λ t. t.0) f.tags) (map (λ t. t.0) g.tags)
  pub values : (key : String) → Perm (values_of key f.tags) (values_of key g.tags)

is_empty-perm : {A : Type 0} → (l l' : List A) → Perm l l' → is_empty l ≡ is_empty l'
is_empty-perm [] [] p = refl
is_empty-perm [] (y ∷ ys) p = let e = Perm.length-eq p in cc
is_empty-perm (x ∷ xs) [] p = let e = Perm.length-eq p in cc
is_empty-perm (x ∷ xs) (y ∷ ys) p = refl

entry_of-perm : (key : String) (l l' : List String) → Perm l l' → entry_of key l ≡ entry_of key l'
entry_of-perm key l l' p = rw (is_empty-perm l l' p, sort_strings-perm l l' p) refl

kinds_of-perm : (f g : Filter) → Perm f.kinds g.kinds → kinds_of f ≡ kinds_of g
kinds_of-perm f g p = rw (is_empty-perm f.kinds g.kinds p, sort_ints-perm f.kinds g.kinds p) refl

tag_entries-eq :
    (f g : Filter) (keys : List String)
    → ((key : String) → Perm (values_of key f.tags) (values_of key g.tags))
    → tag_entries f.tags keys ≡ tag_entries g.tags keys
unfolding tag_entries
tag_entries-eq f g [] h = refl
tag_entries-eq f g (key ∷ keys) h = rw (entry_of-perm _ _ _ (h key), tag_entries-eq f g keys h) refl

filter_to_canonical_map-eq :
    (f g : Filter) → Agrees f g → filter_to_canonical_map f ≡ filter_to_canonical_map g
unfolding filter_to_canonical_map
filter_to_canonical_map-eq f g h =
    rw
      (
        entry_of-perm "ids" f.ids g.ids h.ids,
        entry_of-perm "authors" f.authors g.authors h.authors,
        kinds_of-perm f g h.kinds,
        sort_strings-perm _ _ h.names,
        tag_entries-eq f g (sort_strings (map (λ t. t.0) g.tags)) h.values,
      )
      refl

-- Filters that have the same conditions in different orders, and with any ranges of time and limits,
-- have the same cursor for a relay and the same hash.
pub generate_cursor_id-eq :
    (d : Digest) (relay : String) (f g : Filter)
    → Agrees f g
    → (generate_cursor_id d relay f ≡ generate_cursor_id d relay g)
      × (generate_filter_hash d f ≡ generate_filter_hash d g)
unfolding generate_cursor_id generate_filter_hash
generate_cursor_id-eq d relay f g h =
    (rw (filter_to_canonical_map-eq f g h) refl, rw (filter_to_canonical_map-eq f g h) refl)
