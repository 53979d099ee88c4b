-- ===== src/Fetcher/Loop/Exhausted.antt =====
-- The loop on a cursor that has reached the beginning, and on a page of known events.
use cipolin.Base.{◌≡◌, refl, List, [], ◌∷◌, true, Bool-cases, inl, inr, arith}
use cipolin.Base.Int.{ℤ}
use cipolin.Base.Texts.{String}
use cipolin.Nostr.{Event, Filter}
use cipolin.Fetcher.Cursor.{FetchCursor, backward, is_within_ttl}
use cipolin.Fetcher.Identity.{Digest}
use cipolin.Fetcher.Store.{Bolt, ok, load_cursor}
use cipolin.Fetcher.Fetch.{Config, Stores}
use cipolin.Fetcher.Fetch.Skips.{fetch_within_ttl, fetch_exhausted}
use cipolin.Fetcher.Loop.{Turn, judge, fetch_turns, fetch_continuously}

-- Once the stored cursor has reached the beginning, no backward loop changes anything any more,
-- whatever the relay has got in the meantime.
pub exhausted-unchanged :
    (d : Digest) (b : Bolt) {S : Type 0} (on_event : Event → S → S) (cfg : Config) (relay : String)
    (f : Filter) (deadline : ℤ) (ts : List Turn) (st : Stores b.Bucket S) (c : FetchCursor)
    → load_cursor d b st.bucket relay f ≡ ok c
    → c.reached_beginning ≡ true
    → (fetch_continuously d b on_event cfg relay f backward deadline ts st).0 ≡ st
unfolding fetch_continuously fetch_turns judge
exhausted-unchanged d b on_event cfg relay f deadline [] st c loaded done = refl
exhausted-unchanged d b on_event cfg relay f deadline (t ∷ ts) st c loaded done =
    elim (Bool-cases (is_within_ttl c t.env.ttl_clock cfg.ttl)) [
      | inl within ↦
          rw (fetch_within_ttl d b on_event cfg t.env relay f backward st c loaded within)
            (ground arith)
      | inr late ↦
          rw (fetch_exhausted d b on_event cfg t.env relay f st c loaded done late) (ground arith)
    ]
