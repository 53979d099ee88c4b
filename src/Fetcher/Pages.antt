-- ===== src/Fetcher/Pages.antt =====
-- internal/fetcher/fetcher.go: what a page of events does to a cursor. `fetchBackward` and
-- `fetchForward` run these parts in the order in which they stand here.
pub mod Boundary
pub mod Covered
pub mod Distinct
pub mod Ids
use cipolin.Base.{List, [], ◌∷◌, Option, none, some, Bool, true, false, if◌then◌else◌}
use cipolin.Base.Int.{ℤ, pos, ltb_ℤ, eqb_ℤ, sub64}
use cipolin.Base.Texts.{String, has}
use cipolin.Nostr.{Event}
use cipolin.Fetcher.Cursor.{FetchCursor}

abbrev pub is_empty {ℓ} : {A : Type ℓ} → List A → Bool
is_empty [] = true
is_empty (x ∷ xs) = false

module _ {S : Type 0} where
  abbrev pub keep : Bool → Event → List Event × S → List Event × S
  keep seen e (events, s) = (if seen then events else e ∷ events, s)

  -- The loop that leaves out the events of the boundary and hands the others to `onEvent`, whose
  -- effects are on the state `S`.
  unfoldable pub deliver : (Event → S → S) → List String → List Event → S → List Event × S
  deliver on_event boundary [] s = ([], s)
  deliver on_event boundary (e ∷ es) s =
      keep (has e.id boundary) e
        (deliver on_event boundary es (if has e.id boundary then s else on_event e s))

abbrev older : Option ℤ → ℤ → Option ℤ
older none ts = some ts
older (some t) ts = if ltb_ℤ ts t then some ts else some t

abbrev newer : Option ℤ → ℤ → Option ℤ
newer none ts = some ts
newer (some t) ts = if ltb_ℤ t ts then some ts else some t

-- `oldestTimestamp`: the loop's variable, nil at first.
unfoldable pub oldest_timestamp : Option ℤ → List Event → Option ℤ
oldest_timestamp t [] = t
oldest_timestamp t (e ∷ es) = oldest_timestamp (older t e.created_at) es

-- `newestTimestamp`.
unfoldable pub newest_timestamp : Option ℤ → List Event → Option ℤ
newest_timestamp t [] = t
newest_timestamp t (e ∷ es) = newest_timestamp (newer t e.created_at) es

-- Adds the ids of the events that stand at a timestamp.
unfoldable pub add_boundary : ℤ → List Event → List String → List String
add_boundary t [] ids = ids
add_boundary t (e ∷ es) ids = add_boundary t es (if eqb_ℤ e.created_at t then e.id ∷ ids else ids)

abbrev pub is_at : Option ℤ → ℤ → Bool
is_at none t = false
is_at (some o) t = eqb_ℤ t o

abbrev set_oldest : Option ℤ → List Event → FetchCursor → FetchCursor
set_oldest none new c = c
set_oldest (some t) new c = record c {
  oldest_boundary_ids =
      add_boundary t new (if is_at c.oldest_fetched t then c.oldest_boundary_ids else []);
  oldest_fetched = some t;
}

-- The oldest boundary: extended where the page ends at the same timestamp, replaced otherwise.
unfoldable pub update_oldest : List Event → FetchCursor → FetchCursor
update_oldest new c = set_oldest (oldest_timestamp none new) new c

abbrev is_nil {ℓ} : {A : Type ℓ} → Option A → Bool
is_nil none = true
is_nil (some a) = false

abbrev set_newest : Option ℤ → List Event → FetchCursor → FetchCursor
set_newest none new c = c
set_newest (some t) new c = record c {
  newest_fetched = some t;
  newest_boundary_ids = add_boundary t new [];
}

-- The newest boundary, on the first fetch alone.
unfoldable pub update_newest : List Event → FetchCursor → FetchCursor
update_newest new c =
    if is_nil c.newest_fetched then set_newest (newest_timestamp none new) new c else c

abbrev move_past : Option ℤ → FetchCursor → FetchCursor
move_past none c = c
move_past (some t) c = record c {
  oldest_fetched = some (sub64 t (pos 1));
  oldest_boundary_ids = [];
}

-- No events: the beginning is reached. Only known events: the cursor moves past the boundary.
unfoldable pub complete : List Event → List Event → FetchCursor → FetchCursor
complete events new c =
    if is_empty events
    then record c { reached_beginning = true }
    else if is_empty new
    then move_past c.oldest_fetched c
    else c

-- What a backward page does to the cursor, in the order of the code.
unfoldable pub advance_backward : List Event → List Event → ℤ → FetchCursor → FetchCursor
unfolding update_oldest update_newest complete
advance_backward events new done_at c =
    record (complete events new (update_newest new (update_oldest new c))) {
      last_fetched_at = some done_at;
    }

-- What a forward page does to the cursor.
unfoldable pub advance_forward : List Event → ℤ → FetchCursor → FetchCursor
advance_forward new done_at c = record (set_newest (newest_timestamp none new) new c) {
  last_fetched_at = some done_at;
}
