-- ===== src/Fetcher/Identity.antt =====
-- internal/fetcher/cursor.go: the identity of a relay and filter, under which its cursor is kept.
pub mod Same
use Prim.Native.String.{slice, ◌++◌}
use cipolin.Base.{List, [], ◌∷◌, none, some, false, map, if◌then◌else◌, ◌++◌ as append}
use cipolin.Base.Texts.{String, lookup}
use cipolin.Base.Sorting.{sort_strings, sort_ints}
use cipolin.Nostr.{Filter}
use cipolin.Fetcher.Cursor.{Canonical, texts, numbers, FetchCursor}
use cipolin.Fetcher.Pages.{is_empty}

-- One entry of the canonical map, left out where the filter's list is empty.
abbrev pub entry_of : String → List String → List (String × Canonical)
entry_of key values = if is_empty values then [] else (key, texts (sort_strings values)) ∷ []

abbrev pub kinds_of : Filter → List (String × Canonical)
kinds_of f = if is_empty f.kinds then [] else ("kinds", numbers (sort_ints f.kinds)) ∷ []

abbrev pub values_of : String → List (String × List String) → List String
values_of key tags = elim (lookup key tags) [ none ↦ [] | some values ↦ values ]

-- The loop over the sorted tag names.
unfoldable pub tag_entries : List (String × List String) → List String → List (String × Canonical)
unfolding lookup
tag_entries tags [] = []
tag_entries tags (key ∷ keys) =
    append (entry_of ("#" ++ key) (values_of key tags)) (tag_entries tags keys)

-- A Go map, written as the list of its entries in the order in which the code adds them.
unfoldable pub filter_to_canonical_map : Filter → List (String × Canonical)
unfolding tag_entries
filter_to_canonical_map f = append (entry_of "ids" f.ids) (
    append (entry_of "authors" f.authors)
      (append (kinds_of f) (tag_entries f.tags (sort_strings (map (λ t. t.0) f.tags)))))

-- `encoding/json` on a canonical map, and `crypto/sha256` in hexadecimal.
pub record Digest : Type 0 where
  pub marshal : List (String × Canonical) → String
  pub sha256_hex : String → String

module _ (d : Digest) where
  unfoldable pub generate_cursor_id : String → Filter → String
  generate_cursor_id relay f =
      slice (d.sha256_hex (relay ++ "|" ++ d.marshal (filter_to_canonical_map f))) 0 16

  unfoldable pub generate_filter_hash : Filter → String
  generate_filter_hash f = slice (d.sha256_hex (d.marshal (filter_to_canonical_map f))) 0 16

  unfoldable pub new_fetch_cursor : String → Filter → FetchCursor
  new_fetch_cursor relay f = record {
    id = generate_cursor_id relay f;
    relay = relay;
    filter_hash = generate_filter_hash f;
    filter = filter_to_canonical_map f;
    oldest_fetched = none;
    newest_fetched = none;
    reached_beginning = false;
    last_fetched_at = none;
    oldest_boundary_ids = [];
    newest_boundary_ids = [];
  }
