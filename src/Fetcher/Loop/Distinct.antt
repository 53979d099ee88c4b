-- ===== src/Fetcher/Loop/Distinct.antt =====
-- The loop over pages delivers no event twice.
use cipolin.Base.{ℕ, ◌≡◌, List, some, All}
use cipolin.Base.Int.{ℤ, ◌≤ℤ◌}
use cipolin.Base.Texts.{String}
use cipolin.Nostr.{Event, Filter}
use cipolin.Fetcher.Cursor.{FetchCursor, FetchResult}
use cipolin.Fetcher.Identity.{Digest, generate_cursor_id}
use cipolin.Fetcher.Store.{Bolt, IsFaithful, IsReliable, Result, ok, load_cursor}
use cipolin.Fetcher.Pages.{deliver}
use cipolin.Fetcher.Pages.Covered.{IsCovered}
use cipolin.Fetcher.Pages.Distinct.{IsDistinct, IsDated, record_event}
use cipolin.Fetcher.Fetch.{Surroundings, Stores}
use cipolin.Fetcher.Loop.{again, judge}

module _ (time_of : String → ℤ) where
  -- A relay that answers a query with distinct events, none younger than the query allows, under
  -- the ids that their contents have.
  pub record IsHonest (env : Surroundings) : Type 0 where
    pub bounded :
        (relay : String) (q : Filter) (es : List Event)
        → env.reply relay q ≡ some es
        → All (λ e. e.created_at ≤ℤ q.until) es
    pub distinct :
        (relay : String) (q : Filter) (es : List Event)
        → env.reply relay q ≡ some es
        → IsDistinct es
    pub dated :
        (relay : String) (q : Filter) (es : List Event)
        → env.reply relay q ≡ some es
        → All (IsDated time_of) es

  module _ (events : List Event) (done_at : ℤ) (c : FetchCursor) (s : List Event) where
    abbrev page : List Event × List Event
    page = deliver record_event c.oldest_boundary_ids events s

  module _ (d : Digest) (b : Bolt) (faithful : IsFaithful b) (reliable : IsReliable b)
      (relay : String) (f : Filter) where
    -- The stored cursor covers what has been delivered, and nothing was delivered twice.
    pub record IsConsistent (st : Stores b.Bucket (List Event)) : Type 0 where
      pub cursor : FetchCursor
      pub loaded : load_cursor d b st.bucket relay f ≡ ok cursor
      pub named : cursor.id ≡ generate_cursor_id d relay f
      pub covered : All (IsCovered cursor) st.sink
      pub dated : All (IsDated time_of) st.sink
      pub distinct : IsDistinct st.sink

    -- What a turn keeps: the sink is distinct, and if the loop goes on, all is consistent.
    abbrev Keeps : Stores b.Bucket (List Event) × Result FetchResult → Type 0
    Keeps (st, r) = IsDistinct st.sink × ((n m : ℕ) → judge n r ≡ again m → IsConsistent st)
