-- ===== src/Fetcher/Cursor.antt =====
-- internal/fetcher/cursor.go: the cursor of one relay and filter, and its tests on time. A clock
-- reading is a number of nanoseconds since the epoch, and so is a duration.
use cipolin.Base.{List, Option, none, some, Bool, false, not, ℕ}
use cipolin.Base.Int.{ℤ, ◌-ℤ◌, ltb_ℤ}
use cipolin.Base.Texts.{String}
use cipolin.Nostr.{Event}

pub data FetchDirection : Type 0 where
  backward forward : FetchDirection

pub data FetchStatus : Type 0 where
  success skipped_ttl skipped_complete skipped_no_prior : FetchStatus

-- The values of the canonical map of a filter.
pub data Canonical : Type 0 where
  texts : List String → Canonical
  numbers : List ℕ → Canonical

pub record FetchCursor : Type 0 where
  pub id : String
  pub relay : String
  pub filter_hash : String
  pub filter : List (String × Canonical)
  pub oldest_fetched : Option ℤ
  pub newest_fetched : Option ℤ
  pub reached_beginning : Bool
  pub last_fetched_at : Option ℤ
  pub oldest_boundary_ids : List String
  pub newest_boundary_ids : List String

pub record FetchResult : Type 0 where
  pub events : List Event
  pub cursor : FetchCursor
  pub status : FetchStatus
  pub direction : FetchDirection

-- `now` is the reading that `time.Since` takes.
unfoldable pub is_within_ttl : FetchCursor → ℤ → ℤ → Bool
is_within_ttl c now ttl = elim c.last_fetched_at [ none ↦ false | some t ↦ ltb_ℤ (now -ℤ t) ttl ]

unfoldable pub has_more_backward : FetchCursor → Bool
has_more_backward c = not c.reached_beginning
