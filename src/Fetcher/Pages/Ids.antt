-- ===== src/Fetcher/Pages/Ids.antt =====
-- A page changes neither the identity of a cursor nor, but for its end, the time of its last use.
use cipolin.Base.{◌≡◌, List, some, arith}
use cipolin.Base.Int.{ℤ}
use cipolin.Nostr.{Event}
use cipolin.Fetcher.Cursor.{FetchCursor}
use cipolin.Fetcher.Pages.{advance_backward, advance_forward}

module _ (events new : List Event) (done_at : ℤ) (c : FetchCursor) where
  pub id-advance_backward : (advance_backward events new done_at c).id ≡ c.id
  unfolding advance_backward
  id-advance_backward = ground arith

  pub id-advance_forward : (advance_forward new done_at c).id ≡ c.id
  unfolding advance_forward
  id-advance_forward = ground arith

  pub last-advance_backward : (advance_backward events new done_at c).last_fetched_at ≡ some done_at
  unfolding advance_backward
  last-advance_backward = ground arith
