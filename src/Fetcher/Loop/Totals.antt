-- ===== src/Fetcher/Loop/Totals.antt =====
-- The count of the loop is the number of events that it handed to the handler.
use cipolin.Base.{
  ℕ, ◌+◌, ◌≡◌, List, [], ◌∷◌, Option, none, some, Bool, true, false, Bool-cases, inl, inr, arith,
  length, if◌then◌else◌,
}
use cipolin.Base.Int.{ℤ, ltb_ℤ}
use cipolin.Base.Texts.{String, has}
use cipolin.Nostr.{Event, Filter}
use cipolin.Fetcher.Cursor.{
  FetchCursor, FetchResult, FetchDirection, backward, forward, is_within_ttl,
}
use cipolin.Fetcher.Identity.{Digest}
use cipolin.Fetcher.Store.{Bolt, Result, ok, err, load_cursor}
use cipolin.Fetcher.Pages.{deliver}
use cipolin.Fetcher.Pages.Distinct.{record_event}
use cipolin.Fetcher.Fetch.{
  Config, Surroundings, Stores, fetch_backward, fetch_forward, fetch_events, backward_page,
  forward_page, since_newest, with_cursor,
}
use cipolin.Fetcher.Loop.{
  Turn, Verdict, stop, again, Outcome, turn_config, judge, conclude, fetch_turns,
  fetch_continuously,
}

length-deliver :
    (boundary : List String) (es s : List Event)
    → let page = deliver record_event boundary es s in length page.1 ≡ length s + length page.0
unfolding deliver
length-deliver boundary [] s = omega arith
length-deliver boundary (e ∷ es) s = elim (Bool-cases (has e.id boundary)) [
  | inl p ↦ rw p (length-deliver boundary es s)
  | inr p ↦ rw p (omega (arith, length-deliver boundary es (e ∷ s)))
]

abbrev pub found : Result FetchResult → ℕ
found (err e) = 0
found (ok r) = length r.events

-- The total of a verdict, or of the loop's continuation.
abbrev pub sum_of : Verdict → ℕ
sum_of (stop o) = o.total
sum_of (again n) = n

module _ (d : Digest) (b : Bolt) where
  -- The sink has grown by the events of the result, and the verdict counts them.
  abbrev pub Counts : List Event → Stores b.Bucket (List Event) × Result FetchResult → Type 0
  Counts s (st, r) =
      (length st.sink ≡ length s + found r) × ((n : ℕ) → sum_of (judge n r) ≡ n + found r)

  module _ (cfg : Config) (env : Surroundings) (relay : String) (f : Filter)
      (st : Stores b.Bucket (List Event)) where
    backward-Counts :
        (c : FetchCursor) (reply : Option (List Event))
        → Counts st.sink (backward_page d b record_event env st c reply)
    unfolding judge
    backward-Counts c none = (omega arith, λ n. omega arith)
    backward-Counts c (some es) =
        (length-deliver c.oldest_boundary_ids es st.sink, λ n. ground arith)

    forward-Counts :
        (c : FetchCursor) (reply : Option (List Event))
        → Counts st.sink (forward_page d b record_event env st c reply)
    unfolding judge
    forward-Counts c none = (omega arith, λ n. omega arith)
    forward-Counts c (some es) =
        (length-deliver c.newest_boundary_ids es st.sink, λ n. ground arith)

    fetch_backward-Counts :
        (c : FetchCursor) → Counts st.sink (fetch_backward d b record_event cfg env relay f c st)
    unfolding fetch_backward judge
    fetch_backward-Counts c = elim (Bool-cases c.reached_beginning) [
      | inl done ↦ simp done (omega arith, λ n. omega arith)
      | inr more ↦ simp more (backward-Counts c _)
    ]

    fetch_forward-Counts :
        (c : FetchCursor) → Counts st.sink (fetch_forward d b record_event cfg env relay f c st)
    unfolding fetch_forward judge
    fetch_forward-Counts c = go c.newest_fetched
      where
        go :
            (newest : Option ℤ)
            → Counts st.sink (since_newest d b record_event cfg env relay f c st newest)
        go none = (omega arith, λ n. ground arith)
        go (some since) = forward-Counts c _

    loaded-Counts :
        (dir : FetchDirection) (loaded : Result FetchCursor)
        → Counts st.sink (with_cursor d b record_event cfg env relay f dir st loaded)
    unfolding judge
    loaded-Counts dir (err e) = (omega arith, λ n. omega arith)
    loaded-Counts backward (ok c) = elim (Bool-cases (is_within_ttl c env.ttl_clock cfg.ttl)) [
      | inl within ↦ rw within (omega arith, λ n. omega arith)
      | inr late ↦ rw late (fetch_backward-Counts c)
    ]
    loaded-Counts forward (ok c) = elim (Bool-cases (is_within_ttl c env.ttl_clock cfg.ttl)) [
      | inl within ↦ rw within (omega arith, λ n. omega arith)
      | inr late ↦ rw late (fetch_forward-Counts c)
    ]

    pub fetch_events-Counts :
        (dir : FetchDirection)
        → Counts st.sink (fetch_events d b record_event cfg env relay f dir st)
    unfolding fetch_events judge
    fetch_events-Counts dir = loaded-Counts dir (load_cursor d b st.bucket relay f)

  -- What the loop has delivered when it ends is its total.
  abbrev Ends : ℕ → ℕ → Stores b.Bucket (List Event) × Option Outcome → Type 0
  Ends before total (st, none) = Unit
  Ends before total (st, some o) = length st.sink + total ≡ before + o.total

  concluded :
      (v : Verdict) (total before : ℕ) (got : Stores b.Bucket (List Event))
      (next : ℕ → Stores b.Bucket (List Event) → Stores b.Bucket (List Event) × Option Outcome)
      → length got.sink + total ≡ before + sum_of v
      → ((n : ℕ) → Ends (length got.sink) n (next n got))
      → Ends before total (conclude d b record_event v got next)
  concluded (stop o) total before got next h rest = h
  concluded (again n) total before got next h rest = shift (next n got) (rest n)
    where
      shift :
          (r : Stores b.Bucket (List Event) × Option Outcome)
          → Ends (length got.sink) n r
          → Ends before total r
      shift (st, none) k = tt
      shift (st, some o) k = omega arith

  by_clock :
      (test : Bool) (before total : ℕ) (x y : Stores b.Bucket (List Event) × Option Outcome)
      → Ends before total x
      → Ends before total y
      → Ends before total (if test then x else y)
  by_clock true before total x y hx hy = hx
  by_clock false before total x y hx hy = hy

  module _ (cfg : Config) (relay : String) (f : Filter) (dir : FetchDirection) (deadline : ℤ) where
    turns-Ends :
        (ts : List Turn) (first : Bool) (total : ℕ) (st : Stores b.Bucket (List Event))
        → Ends
            (length st.sink)
            total
            (fetch_turns d b record_event cfg relay f dir deadline ts first total st)
    unfolding fetch_turns
    turns-Ends [] first total st = tt
    turns-Ends (t ∷ ts) first total st =
        let got = fetch_events d b record_event (turn_config first cfg) t.env relay f dir st in
        let counts = fetch_events-Counts (turn_config first cfg) t.env relay f st dir in
        by_clock (ltb_ℤ t.clock deadline) (length st.sink) total _ _
          (concluded (judge total got.1) total (length st.sink) got.0 _
            (omega (arith, counts.0, counts.1 total)) (λ n. turns-Ends ts false n got.0))
          (omega arith)

    -- When the loop returns, in either direction and with an error too, a handler that records its
    -- events has been given as many as the loop's total says.
    pub total-deliveries :
        (ts : List Turn) (st end : Stores b.Bucket (List Event)) (o : Outcome)
        → fetch_continuously d b record_event cfg relay f dir deadline ts st ≡ (end, some o)
        → length end.sink ≡ length st.sink + o.total
    unfolding fetch_continuously
    total-deliveries ts st end o h =
        let ends = turns-Ends ts true 0 st in let reached = rw h at ends in omega (arith, reached)
