-- ===== src/Fetcher/Loop.antt =====
-- internal/fetcher/fetcher.go: `FetchContinuously`, the loop over pages, and `FetchAllContinuously`,
-- which runs one such loop for each relay and filter.
pub mod Distinct
pub mod Totals
pub mod Ends
pub mod Exhausted
use cipolin.Base.{
  ℕ, ◌+◌, List, [], ◌∷◌, Option, none, some, Bool, true, false, ◌||◌, not, if◌then◌else◌, length,
}
use cipolin.Base.Int.{ℤ, pos, ltb_ℤ}
use cipolin.Base.Texts.{String}
use cipolin.Nostr.{Event, Filter}
use cipolin.Fetcher.Cursor.{
  FetchDirection, FetchStatus, success, skipped_ttl, skipped_complete, skipped_no_prior,
  FetchResult, has_more_backward,
}
use cipolin.Fetcher.Identity.{Digest}
use cipolin.Fetcher.Store.{Bolt, Error, Result, ok, err}
use cipolin.Fetcher.Pages.{is_empty}
use cipolin.Fetcher.Fetch.{Config, Surroundings, Stores, fetch_events}

-- The five results of `FetchContinuously`.
pub record Outcome : Type 0 where
  pub total : ℕ
  pub reached_end : Bool
  pub timed_out : Bool
  pub skipped : Bool
  pub error : Option Error

-- One turn of the loop: the reading of the clock in its condition, and what the fetch meets.
pub record Turn : Type 0 where
  pub clock : ℤ
  pub env : Surroundings

pub data Verdict : Type 0 where
  stop : Outcome → Verdict
  again : ℕ → Verdict

abbrev pub outcome : ℕ → Bool → Bool → Bool → Option Error → Outcome
outcome total reached_end timed_out skipped error = record {
  total = total;
  reached_end = reached_end;
  timed_out = timed_out;
  skipped = skipped;
  error = error;
}

abbrev counted : ℕ → FetchResult → Verdict
counted total r =
    if not (has_more_backward r.cursor) || is_empty r.events
    then stop (outcome total true false false none)
    else again total

-- The switch on the status, and the test behind it.
abbrev by_status : FetchStatus → ℕ → FetchResult → Verdict
by_status skipped_ttl total r = stop (outcome total false false true none)
by_status skipped_complete total r = stop (outcome total true false false none)
by_status success total r = counted (total + length r.events) r
by_status skipped_no_prior total r = counted (total + length r.events) r

unfoldable pub judge : ℕ → Result FetchResult → Verdict
unfolding has_more_backward
judge total (err e) = stop (outcome total false false false (some e))
judge total (ok r) = by_status r.status total r

-- The TTL is bypassed in the turns after the first.
abbrev pub turn_config : Bool → Config → Config
turn_config true cfg = cfg
turn_config false cfg = record cfg { ttl = pos 0 }

module _ (d : Digest) (b : Bolt) {S : Type 0} (on_event : Event → S → S) where
  open b use {Bucket}

  -- Where a turn leads: out of the loop, or to the next turn.
  abbrev pub conclude :
      Verdict
      → Stores Bucket S
      → (ℕ → Stores Bucket S → Stores Bucket S × Option Outcome)
      → Stores Bucket S × Option Outcome
  conclude (stop o) st next = (st, some o)
  conclude (again total) st next = next total st

  module _ (cfg : Config) (relay : String) (f : Filter) (dir : FetchDirection) (deadline : ℤ) where
    -- The loop over the turns that the surroundings offer; `none` where they end before the loop.
    unfoldable pub fetch_turns :
        List Turn → Bool → ℕ → Stores Bucket S → Stores Bucket S × Option Outcome
    unfolding fetch_events judge
    fetch_turns [] first total st = (st, none)
    fetch_turns (t ∷ ts) first total st =
        let fetched = fetch_events d b on_event (turn_config first cfg) t.env relay f dir st in
        let rest = conclude (judge total fetched.1) fetched.0 (λ n s. fetch_turns ts false n s) in
        if ltb_ℤ t.clock deadline then rest else (st, some (outcome total false true false none))

    unfoldable pub fetch_continuously :
        List Turn → Stores Bucket S → Stores Bucket S × Option Outcome
    unfolding fetch_turns
    fetch_continuously ts st = fetch_turns ts true 0 st
