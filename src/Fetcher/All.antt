-- ===== src/Fetcher/All.antt =====
-- internal/fetcher/fetcher.go: `FetchAllContinuously`, a goroutine for each relay and filter. The
-- scheduler is a list that says which one runs its next turn: a turn's reading of the clock, its
-- fetch and, at the end of the loop, its summary are one step. A fetch loads and saves a cursor of
-- its own, and the events and summaries go through a mutex. Every caller passes a handler.
pub mod Sums
pub mod Whole
pub mod Late
use cipolin.Base.{
  ℕ, zero, suc, List, [], ◌∷◌, ◌++◌, map, Option, none, some, Bool, true, false, if◌then◌else◌,
}
use cipolin.Base.Int.{ℤ, ltb_ℤ}
use cipolin.Base.Texts.{String}
use cipolin.Nostr.{Event, Filter}
use cipolin.Fetcher.Cursor.{FetchDirection}
use cipolin.Fetcher.Identity.{Digest}
use cipolin.Fetcher.Store.{Bolt, Error}
use cipolin.Fetcher.Fetch.{Config, Stores, fetch_events}
use cipolin.Fetcher.Loop.{Outcome, outcome, Turn, Verdict, stop, again, turn_config, judge}

pub record ContinuousFetchSummary : Type 0 where
  pub relay : String
  pub filter : Filter
  pub total : ℕ
  pub reached_end : Bool
  pub timed_out : Bool
  pub skipped_ttl : Bool
  pub error : Option Error

-- Where a goroutine stands: in front of a turn, which is its first or not, with the total of the
-- turns before; or at its end.
pub data Phase : Type 0 where
  running : Bool → ℕ → Phase
  finished : Outcome → Phase

pub record Task : Type 0 where
  pub relay : String
  pub filter : Filter
  pub phase : Phase

abbrev pub summary : String → Filter → Outcome → ContinuousFetchSummary
summary relay filter o = record {
  relay = relay;
  filter = filter;
  total = o.total;
  reached_end = o.reached_end;
  timed_out = o.timed_out;
  skipped_ttl = o.skipped;
  error = o.error;
}

-- What the goroutines share.
pub record Shared (B S : Type 0) : Type 0 where
  pub stores : Stores B S
  pub results : List ContinuousFetchSummary

abbrev pub begin : String → Filter → Task
begin relay filter = record { relay = relay; filter = filter; phase = running true 0 }

-- The two loops that start the goroutines.
unfoldable pub tasks_for : List String → List Filter → List Task
tasks_for [] filters = []
tasks_for (relay ∷ relays) filters = map (begin relay) filters ++ tasks_for relays filters

-- One turn of the scheduler: the goroutine at this place runs.
pub record Pick : Type 0 where
  pub place : ℕ
  pub turn : Turn

module _ (d : Digest) (b : Bolt) {S : Type 0} (on_event : Event → S → S) where
  open b use {Bucket}

  -- A turn's verdict: the loop goes on, or its summary is appended.
  abbrev pub settle : Task → Shared Bucket S → Stores Bucket S × Verdict → Task × Shared Bucket S
  settle k shared (st, again total) =
      (record k { phase = running false total }, record shared { stores = st })
  settle k shared (st, stop o) = (
    record k { phase = finished o },
    record { stores = st; results = shared.results ++ summary k.relay k.filter o ∷ [] },
  )

  module _ (cfg : Config) (dir : FetchDirection) (deadline : ℤ) where
    abbrev pub fetched :
        Turn → Bool → ℕ → String → Filter → Stores Bucket S → Stores Bucket S × Verdict
    fetched t first total relay f st =
        let got = fetch_events d b on_event (turn_config first cfg) t.env relay f dir st in
        (got.0, judge total got.1)

    -- One turn of the loop of `FetchContinuously`.
    unfoldable pub take_turn :
        Turn → Bool → ℕ → String → Filter → Stores Bucket S → Stores Bucket S × Verdict
    unfolding fetch_events judge
    take_turn t first total relay f st =
        if ltb_ℤ t.clock deadline
        then fetched t first total relay f st
        else (st, stop (outcome total false true false none))

    abbrev pub run_phase : Phase → Turn → Task → Shared Bucket S → Task × Shared Bucket S
    run_phase (finished o) t k shared = (k, shared)
    run_phase (running first total) t k shared =
        settle k shared (take_turn t first total k.relay k.filter shared.stores)

    unfoldable pub run_task : Turn → Task → Shared Bucket S → Task × Shared Bucket S
    unfolding take_turn
    run_task t k shared = run_phase k.phase t k shared

    unfoldable pub run_at : ℕ → Turn → List Task → Shared Bucket S → List Task × Shared Bucket S
    unfolding run_task
    run_at place t [] shared = ([], shared)
    run_at zero t (k ∷ ks) shared = let (k', after) = run_task t k shared in (k' ∷ ks, after)
    run_at (suc place) t (k ∷ ks) shared =
        let (ks', after) = run_at place t ks shared in (k ∷ ks', after)

    -- The whole schedule.
    unfoldable pub run_all : List Pick → List Task × Shared Bucket S → List Task × Shared Bucket S
    unfolding run_at
    run_all [] state = state
    run_all (p ∷ ps) (ks, shared) = run_all ps (run_at p.place p.turn ks shared)

    -- Where the goroutines and the results stand behind a schedule. `wg.Wait` returns once every
    -- goroutine has finished.
    unfoldable pub fetch_all_continuously :
        List String → List Filter → List Pick → Stores Bucket S → List Task × Shared Bucket S
    unfolding run_all tasks_for
    fetch_all_continuously relays filters schedule st =
        run_all schedule (tasks_for relays filters, record { stores = st; results = [] })
