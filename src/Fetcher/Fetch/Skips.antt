-- ===== src/Fetcher/Fetch/Skips.antt =====
-- The fetches that contact no relay: the cursor was used within the TTL, or is exhausted.
use cipolin.Base.{◌∙◌, ◌≡◌, true, false, List, [], arith, some}
use cipolin.Base.Int.{pos, ℤ, ltb_ℤ, ◌-ℤ◌}
use cipolin.Base.Texts.{String}
use cipolin.Nostr.{Event, Filter}
use cipolin.Fetcher.Cursor.{
  FetchDirection, backward, FetchCursor, FetchResult, skipped_ttl, skipped_complete, is_within_ttl,
}
use cipolin.Fetcher.Identity.{Digest, generate_cursor_id}
use cipolin.Fetcher.Pages.{deliver, advance_backward}
use cipolin.Fetcher.Store.{Bolt, IsFaithful, IsReliable, Result, ok, load_cursor}
use cipolin.Fetcher.Pages.Ids.{id-advance_backward, last-advance_backward}
use cipolin.Fetcher.Store.Reload.{load-save, save_of_IsReliable}
use cipolin.Fetcher.Fetch.{
  Config, Surroundings, Stores, page_filter, until_of, fetch_backward, fetch_events,
}

abbrev pub skip : FetchDirection → FetchCursor → Result FetchResult
skip dir c = ok (record { events = []; cursor = c; status = skipped_ttl; direction = dir })

module _ (d : Digest) (b : Bolt) {S : Type 0} (on_event : Event → S → S) where
  open b use {Bucket}

  module _ (cfg : Config) (env : Surroundings) (relay : String) (f : Filter) where
    pub fetch_within_ttl :
        (dir : FetchDirection) (st : Stores Bucket S) (c : FetchCursor)
        → load_cursor d b st.bucket relay f ≡ ok c
        → is_within_ttl c env.ttl_clock cfg.ttl ≡ true
        → fetch_events d b on_event cfg env relay f dir st ≡ (st, skip dir c)
    unfolding fetch_events
    fetch_within_ttl dir st c loaded within = rw (loaded, within)

    -- An exhausted cursor: the stores are left alone whatever the relay holds.
    pub fetch_exhausted :
        (st : Stores Bucket S) (c : FetchCursor)
        → load_cursor d b st.bucket relay f ≡ ok c
        → c.reached_beginning ≡ true
        → is_within_ttl c env.ttl_clock cfg.ttl ≡ false
        → fetch_events d b on_event cfg env relay f backward st ≡ (
          st,
          ok (record { events = []; cursor = c; status = skipped_complete; direction = backward }),
        )
    unfolding fetch_events fetch_backward
    fetch_exhausted st c loaded exhausted late = rw (loaded, late, exhausted)

within_of :
    (c : FetchCursor) (t now ttl : ℤ)
    → c.last_fetched_at ≡ some t
    → ltb_ℤ (now -ℤ t) ttl ≡ true
    → is_within_ttl c now ttl ≡ true
unfolding is_within_ttl
within_of c t now ttl p h = ground arith

module _ (d : Digest) (b : Bolt) (faithful : IsFaithful b) (reliable : IsReliable b) {S : Type 0}
    (on_event : Event → S → S) (cfg : Config) (relay : String) (f : Filter) where
  -- After a backward page was fetched, with a disk that reads back what it wrote and accepts every
  -- write, a call within the TTL, in either direction, contacts no relay, leaves the stores alone
  -- and returns the advanced cursor. The cursor had the id of the relay and filter and had not
  -- reached the beginning.
  pub refetch_skips :
      (env env' : Surroundings) (dir : FetchDirection) (st : Stores b.Bucket S) (c : FetchCursor)
      (es : List Event)
      → c.id ≡ generate_cursor_id d relay f
      → c.reached_beginning ≡ false
      → env.reply relay (page_filter f (pos 0) (until_of env.now c.oldest_fetched) cfg.fetch_limit)
        ≡ some es
      → ltb_ℤ (env'.ttl_clock -ℤ env.done_clock) cfg.ttl ≡ true
      → let got = fetch_backward d b on_event cfg env relay f c st in
        let after =
          advance_backward es
            (deliver on_event c.oldest_boundary_ids es st.sink).0
            env.done_clock
            c in
        fetch_events d b on_event cfg env' relay f dir got.0 ≡ (got.0, skip dir after)
  unfolding fetch_backward
  refetch_skips env env' dir st c es named more answered soon =
      let new = (deliver on_event c.oldest_boundary_ids es st.sink).0 in
      let after = advance_backward es new env.done_clock c in
      simp (more, answered)
        (fetch_within_ttl d b on_event cfg env' relay f dir _ after
          (load-save d b faithful st.bucket after relay f
            (id-advance_backward es new env.done_clock c ∙ named)
            (save_of_IsReliable d b reliable st.bucket after))
          (within_of after env.done_clock env'.ttl_clock cfg.ttl
            (last-advance_backward es new env.done_clock c) soon))
