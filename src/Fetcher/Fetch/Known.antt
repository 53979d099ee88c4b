-- ===== src/Fetcher/Fetch/Known.antt =====
-- A page that holds only events of the boundary.
use cipolin.Base.{◌≡◌, refl, List, [], ◌∷◌, some, true, false, arith, All}
use cipolin.Base.Int.{ℤ, pos, sub64}
use cipolin.Base.Texts.{String, has}
use cipolin.Nostr.{Event, Filter}
use cipolin.Fetcher.Cursor.{FetchCursor, success, backward}
use cipolin.Fetcher.Identity.{Digest}
use cipolin.Fetcher.Store.{Bolt, ok}
use cipolin.Fetcher.Pages.{deliver, oldest_timestamp, newest_timestamp, advance_backward}
use cipolin.Fetcher.Fetch.{Config, Surroundings, Stores, page_filter, backward_page, fetch_backward}

deliver_known :
    {S : Type 0} (on_event : Event → S → S) (boundary : List String) (es : List Event) (s : S)
    → All (λ e. has e.id boundary ≡ true) es
    → deliver on_event boundary es s ≡ ([], s)
unfolding deliver
deliver_known on_event boundary [] s h = refl
deliver_known on_event boundary (e ∷ es) s h = rw (h.0, deliver_known on_event boundary es s h.1)

-- The cursor after a page that has only known events.
abbrev pub moved_past : ℤ → ℤ → FetchCursor → FetchCursor
moved_past o done_at c = record c {
  oldest_fetched = some (sub64 o (pos 1));
  reached_beginning = false;
  oldest_boundary_ids = [];
  last_fetched_at = some done_at;
}

advance_known :
    (e : Event) (es : List Event) (done_at o : ℤ) (c : FetchCursor)
    → c.reached_beginning ≡ false
    → c.oldest_fetched ≡ some o
    → advance_backward (e ∷ es) [] done_at c ≡ moved_past o done_at c
unfolding advance_backward oldest_timestamp newest_timestamp
advance_known e es done_at o c more h = ground arith

module _ (d : Digest) (b : Bolt) {S : Type 0} (on_event : Event → S → S) (env : Surroundings)
    (c : FetchCursor) (st : Stores b.Bucket S) (o : ℤ) (e : Event) (es : List Event)
    (more : c.reached_beginning ≡ false) (at : c.oldest_fetched ≡ some o)
    (known : All (λ x. has x.id c.oldest_boundary_ids ≡ true) (e ∷ es)) where
  page_known :
      let got = backward_page d b on_event env st c (some (e ∷ es)) in
      (got.0.sink ≡ st.sink)
      × (got.1
          ≡ ok (record {
            events = [];
            cursor = moved_past o env.done_clock c;
            status = success;
            direction = backward;
          }))
  page_known =
      rw (deliver_known on_event c.oldest_boundary_ids (e ∷ es) st.sink known)
        (rw (advance_known e es env.done_clock o c more at) (refl, refl))

  -- If a cursor that has not reached the beginning gets a page of events that are all in its
  -- boundary, nothing is delivered, the fetch succeeds and the cursor moves one second past the
  -- boundary, whether or not the limit had cut the page off.
  pub fetch_known :
      (cfg : Config) (relay : String) (f : Filter)
      → env.reply relay (page_filter f (pos 0) o cfg.fetch_limit) ≡ some (e ∷ es)
      → let got = fetch_backward d b on_event cfg env relay f c st in
        (got.0.sink ≡ st.sink)
        × (got.1
            ≡ ok (record {
              events = [];
              cursor = moved_past o env.done_clock c;
              status = success;
              direction = backward;
            }))
  unfolding fetch_backward
  fetch_known cfg relay f answered = simp (more, at, answered) page_known
