-- ===== src/Fetcher/Fetch.antt =====
-- internal/fetcher/fetcher.go: one fetch. What the surroundings answer during the call (the clock,
-- the relay, the connection) is the record `Surroundings`. The program runs `fetchBackward` and
-- `fetchForward` on a cursor of its own, so the cursor is a value here.
pub mod Skips
pub mod Known
pub mod Forward
use cipolin.Base.{ℕ, zero, suc, List, [], Option, none, some, if◌then◌else◌}
use cipolin.Base.Int.{ℤ, pos, eqb_ℤ}
use cipolin.Base.Texts.{String}
use cipolin.Nostr.{Event, Filter}
use cipolin.Fetcher.Cursor.{
  FetchDirection, backward, forward, FetchStatus, success, skipped_ttl, skipped_complete,
  skipped_no_prior, FetchCursor, FetchResult, is_within_ttl,
}
use cipolin.Fetcher.Identity.{Digest}
use cipolin.Fetcher.Store.{Bolt, Result, ok, err, connect_failed, load_cursor, save_cursor}
use cipolin.Fetcher.Pages.{deliver, advance_backward, advance_forward}

-- Durations are nanoseconds.
pub record Config : Type 0 where
  pub ttl : ℤ
  pub fetch_timeout : ℤ
  pub fetch_limit : ℕ

abbrev or_default : ℤ → ℤ → ℤ
or_default z d = if eqb_ℤ z (pos 0) then d else z

abbrev or_limit : ℕ → ℕ
or_limit zero = 500
or_limit (suc n) = suc n

-- The configuration of a new fetcher, a zero replaced by the default.
unfoldable pub new_event_fetcher : Config → Config
new_event_fetcher cfg = record {
  ttl = or_default cfg.ttl (pos 60_000_000_000);
  fetch_timeout = or_default cfg.fetch_timeout (pos 30_000_000_000);
  fetch_limit = or_limit cfg.fetch_limit;
}

-- What a call of `FetchEvents` meets: the reading for the test on the TTL, the Unix time of the
-- query, the answer of the relay (none if the connection fails) and the reading at the end.
pub record Surroundings : Type 0 where
  pub ttl_clock : ℤ
  pub now : ℤ
  pub reply : String → Filter → Option (List Event)
  pub done_clock : ℤ

-- The bucket, and the state that `onEvent` writes.
pub record Stores (B S : Type 0) : Type 0 where
  pub bucket : B
  pub sink : S

abbrev pub until_of : ℤ → Option ℤ → ℤ
until_of now none = now
until_of now (some t) = t

-- The filter of a page: the caller's, with the page's range and limit.
abbrev pub page_filter : Filter → ℤ → ℤ → ℕ → Filter
page_filter f since until limit = record f { since = since; until = until; limit = limit }

module _ (d : Digest) (b : Bolt) {S : Type 0} (on_event : Event → S → S) where
  open b use {Bucket}

  abbrev pub result : FetchDirection → FetchStatus → List Event → FetchCursor → Result FetchResult
  result dir status events c =
      ok (record { events = events; cursor = c; status = status; direction = dir })

  -- The end of a fetch: a save that fails is logged, and the result is the same.
  abbrev pub finish :
      FetchDirection
      → Stores Bucket S
      → FetchCursor
      → List Event × S
      → Stores Bucket S × Result FetchResult
  finish dir st c (new, sink) =
      (record { bucket = (save_cursor d b st.bucket c).0; sink = sink }, result dir success new c)

  abbrev pub backward_page :
      Surroundings
      → Stores Bucket S
      → FetchCursor
      → Option (List Event)
      → Stores Bucket S × Result FetchResult
  backward_page env st c none = (st, err connect_failed)
  backward_page env st c (some events) =
      let page = deliver on_event c.oldest_boundary_ids events st.sink in
      finish backward st (advance_backward events page.0 env.done_clock c) page

  unfoldable pub fetch_backward :
      Config
      → Surroundings
      → String
      → Filter
      → FetchCursor
      → Stores Bucket S
      → Stores Bucket S × Result FetchResult
  unfolding deliver advance_backward save_cursor
  fetch_backward cfg env relay f c st =
      if c.reached_beginning
      then (st, result backward skipped_complete [] c)
      else backward_page env st c (
          env.reply relay
            (page_filter f (pos 0) (until_of env.now c.oldest_fetched) cfg.fetch_limit))

  abbrev pub forward_page :
      Surroundings
      → Stores Bucket S
      → FetchCursor
      → Option (List Event)
      → Stores Bucket S × Result FetchResult
  forward_page env st c none = (st, err connect_failed)
  forward_page env st c (some events) =
      let page = deliver on_event c.newest_boundary_ids events st.sink in
      finish forward st (advance_forward page.0 env.done_clock c) page

  abbrev pub since_newest :
      Config
      → Surroundings
      → String
      → Filter
      → FetchCursor
      → Stores Bucket S
      → Option ℤ
      → Stores Bucket S × Result FetchResult
  since_newest cfg env relay f c st none = (st, result forward skipped_no_prior [] c)
  since_newest cfg env relay f c st (some since) =
      forward_page env st c (env.reply relay (page_filter f since env.now cfg.fetch_limit))

  unfoldable pub fetch_forward :
      Config
      → Surroundings
      → String
      → Filter
      → FetchCursor
      → Stores Bucket S
      → Stores Bucket S × Result FetchResult
  unfolding deliver advance_forward save_cursor
  fetch_forward cfg env relay f c st = since_newest cfg env relay f c st c.newest_fetched

  abbrev pub in_direction :
      FetchDirection
      → Config
      → Surroundings
      → String
      → Filter
      → FetchCursor
      → Stores Bucket S
      → Stores Bucket S × Result FetchResult
  in_direction backward = fetch_backward
  in_direction forward = fetch_forward

  abbrev pub with_cursor :
      Config
      → Surroundings
      → String
      → Filter
      → FetchDirection
      → Stores Bucket S
      → Result FetchCursor
      → Stores Bucket S × Result FetchResult
  with_cursor cfg env relay f dir st (err e) = (st, err e)
  with_cursor cfg env relay f dir st (ok c) =
      if is_within_ttl c env.ttl_clock cfg.ttl
      then (st, result dir skipped_ttl [] c)
      else in_direction dir cfg env relay f c st

  unfoldable pub fetch_events :
      Config
      → Surroundings
      → String
      → Filter
      → FetchDirection
      → Stores Bucket S
      → Stores Bucket S × Result FetchResult
  unfolding load_cursor is_within_ttl fetch_backward fetch_forward
  fetch_events cfg env relay f dir st =
      with_cursor cfg env relay f dir st (load_cursor d b st.bucket relay f)
