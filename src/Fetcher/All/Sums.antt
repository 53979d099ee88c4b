-- ===== src/Fetcher/All/Sums.antt =====
-- The summaries are one for each relay and filter, and their totals add up to what was delivered.
use mathlib.Core.List.Perm
use mathlib.Core.List.{Perm, perm_append_singleton}
use cipolin.Base.{
  ℕ, zero, suc, ◌+◌, ◌≡◌, refl, sym, ap, ◌∙◌, subst, append-nil, List, [], ◌∷◌, ◌++◌, map, Bool,
  length, arith, Bool-cases, inl, inr,
}
use cipolin.Base.Int.{ℤ, ltb_ℤ}
use cipolin.Base.Texts.{String}
use cipolin.Nostr.{Event, Filter}
use cipolin.Fetcher.Cursor.{FetchDirection}
use cipolin.Fetcher.Identity.{Digest}
use cipolin.Fetcher.Store.{Bolt}
use cipolin.Fetcher.Pages.Distinct.{record_event}
use cipolin.Fetcher.Fetch.{Config, Stores}
use cipolin.Fetcher.Loop.{Turn, Verdict, stop, again, turn_config}
use cipolin.Fetcher.Loop.Totals.{fetch_events-Counts, sum_of}
use cipolin.Fetcher.All.{
  ContinuousFetchSummary, Phase, running, finished, Task, summary, Shared, Pick, settle, take_turn,
  run_task, run_at, run_all,
}

abbrev pub Pair : Type 0
Pair = String × Filter

abbrev pub pair_of : ContinuousFetchSummary → Pair
pair_of r = (r.relay, r.filter)

abbrev pub sum_results : List ContinuousFetchSummary → ℕ
sum_results [] = 0
sum_results (r ∷ rs) = r.total + sum_results rs

-- What a task has tally so far, and what a finished one has.
abbrev pub tally : Phase → ℕ
tally (running first total) = total
tally (finished o) = o.total

abbrev pub reported : Phase → ℕ
reported (running first total) = 0
reported (finished o) = o.total

abbrev pub add_finished : Phase → Pair → List Pair → List Pair
add_finished (running first total) pair rest = rest
add_finished (finished o) pair rest = pair ∷ rest

abbrev pub sum_tally : List Task → ℕ
sum_tally [] = 0
sum_tally (k ∷ ks) = tally k.phase + sum_tally ks

abbrev pub sum_reported : List Task → ℕ
sum_reported [] = 0
sum_reported (k ∷ ks) = reported k.phase + sum_reported ks

abbrev pub pairs_of : List Task → List Pair
pairs_of [] = []
pairs_of (k ∷ ks) = (k.relay, k.filter) ∷ pairs_of ks

abbrev pub finished_pairs : List Task → List Pair
finished_pairs [] = []
finished_pairs (k ∷ ks) = add_finished k.phase (k.relay, k.filter) (finished_pairs ks)

sum_results-append :
    (rs new : List ContinuousFetchSummary)
    → sum_results (rs ++ new) ≡ sum_results rs + sum_results new
sum_results-append [] new = omega arith
sum_results-append (r ∷ rs) new = omega (arith, sum_results-append rs new)

unchanged : (pairs : List Pair) → Perm (pairs ++ []) pairs
unchanged pairs = subst (λ l. Perm l pairs) (sym (append-nil pairs)) (Perm.refl pairs)

map-append :
    (rs new : List ContinuousFetchSummary)
    → map pair_of (rs ++ new) ≡ map pair_of rs ++ map pair_of new
map-append [] new = refl
map-append (r ∷ rs) new = ap (λ l. pair_of r ∷ l) (map-append rs new)

-- One more task in front, which does not move.
add_finished-perm :
    (phase : Phase) (pair : Pair) (front new back : List Pair)
    → Perm (front ++ new) back
    → Perm (add_finished phase pair front ++ new) (add_finished phase pair back)
add_finished-perm (running first total) pair front new back p = p
add_finished-perm (finished o) pair front new back p = Perm.cons pair p

module _ (d : Digest) (b : Bolt) where
  abbrev pub Pool : Type 0
  Pool = Shared b.Bucket (List Event)

  -- A step of the tasks: what was delivered was tally, and who finished has appended a summary.
  record Grows (ks ks' : List Task) (before after : Pool) : Type 0 where
    pub delivered :
        length after.stores.sink + sum_tally ks ≡ length before.stores.sink + sum_tally ks'
    pub same_pairs : pairs_of ks' ≡ pairs_of ks
    pub new : List ContinuousFetchSummary
    pub appended : after.results ≡ before.results ++ new
    pub totals : sum_results new + sum_reported ks ≡ sum_reported ks'
    pub complete : Perm (finished_pairs ks ++ map pair_of new) (finished_pairs ks')

  abbrev same : (ks : List Task) (shared : Pool) → Grows ks ks shared shared
  same ks shared = record {
    delivered = refl;
    same_pairs = refl;
    new = [];
    appended = sym (append-nil shared.results);
    totals = omega arith;
    complete = unchanged (finished_pairs ks);
  }

  module _ (cfg : Config) (dir : FetchDirection) (deadline : ℤ) where
    -- What a turn counts.
    Counted : ℕ → List Event → Stores b.Bucket (List Event) × Verdict → Type 0
    Counted total sink (st, v) = length st.sink + total ≡ length sink + sum_of v

    take_turn-Counted :
        (t : Turn) (first : Bool) (total : ℕ) (relay : String) (f : Filter)
        (st : Stores b.Bucket (List Event))
        → Counted total st.sink
            (take_turn d b record_event cfg dir deadline t first total relay f st)
    unfolding take_turn Counted
    take_turn-Counted t first total relay f st = elim (Bool-cases (ltb_ℤ t.clock deadline)) [
      | inl early ↦
          let counts = fetch_events-Counts d b (turn_config first cfg) t.env relay f st dir in
          rw early (omega (arith, counts.0, counts.1 total))
      | inr late ↦ rw late (omega arith)
    ]

    settle-Grows :
        (relay : String) (f : Filter) (first : Bool) (total : ℕ) (ks : List Task) (shared : Pool)
        (out : Stores b.Bucket (List Event) × Verdict)
        → Counted total shared.stores.sink out
        → let k : Task = record { relay = relay; filter = f; phase = running first total } in
          let (k', after) = settle d b record_event k shared out in
          Grows (k ∷ ks) (k' ∷ ks) shared after
    unfolding Counted
    settle-Grows relay f first total ks shared (st, again n) h = record {
      delivered = omega arith;
      same_pairs = refl;
      new = [];
      appended = sym (append-nil shared.results);
      totals = omega arith;
      complete = unchanged (finished_pairs ks);
    }
    settle-Grows relay f first total ks shared (st, stop o) h = record {
      delivered = omega arith;
      same_pairs = refl;
      new = summary relay f o ∷ [];
      appended = refl;
      totals = omega arith;
      complete = perm_append_singleton (relay, f) (finished_pairs ks);
    }

    run_task-Grows :
        (t : Turn) (k : Task) (ks : List Task) (shared : Pool)
        → let (k', after) = run_task d b record_event cfg dir deadline t k shared in
          Grows (k ∷ ks) (k' ∷ ks) shared after
    unfolding run_task
    run_task-Grows t k ks shared = by_phase k.phase
      where
        by_phase :
            (phase : Phase)
            → let k₁ : Task = record k { phase = phase } in
              let (k', after) = run_task d b record_event cfg dir deadline t k₁ shared in
              Grows (k₁ ∷ ks) (k' ∷ ks) shared after
        by_phase (finished o) = same (record k { phase = finished o } ∷ ks) shared
        by_phase (running first total) =
            settle-Grows k.relay k.filter first total ks shared _
              (take_turn-Counted t first total k.relay k.filter shared.stores)

    run_at-Grows :
        (place : ℕ) (t : Turn) (ks : List Task) (shared : Pool)
        → let (ks', after) = run_at d b record_event cfg dir deadline place t ks shared in
          Grows ks ks' shared after
    unfolding run_at
    run_at-Grows place t [] shared = same [] shared
    run_at-Grows zero t (k ∷ ks) shared = run_task-Grows t k ks shared
    run_at-Grows (suc place) t (k ∷ ks) shared =
        let grown = run_at-Grows place t ks shared in
        record {
          delivered = omega (arith, grown.delivered);
          same_pairs = ap (λ l. (k.relay, k.filter) ∷ l) grown.same_pairs;
          new = grown.new;
          appended = grown.appended;
          totals = omega (arith, grown.totals);
          complete = add_finished-perm k.phase (k.relay, k.filter) _ _ _ grown.complete;
        }

    -- What holds at each point of a schedule.
    pub record IsSummed (before : ℕ) (pairs : List Pair) (ks : List Task) (shared : Pool)
        : Type 0 where
      pub delivered : length shared.stores.sink ≡ before + sum_tally ks
      pub same_pairs : pairs_of ks ≡ pairs
      pub totals : sum_results shared.results ≡ sum_reported ks
      pub complete : Perm (map pair_of shared.results) (finished_pairs ks)

    grown-IsSummed :
        (before : ℕ) (pairs : List Pair) (ks ks' : List Task) (shared after : Pool)
        → Grows ks ks' shared after
        → IsSummed before pairs ks shared
        → IsSummed before pairs ks' after
    grown-IsSummed before pairs ks ks' shared after g h = record {
      delivered = omega (arith, g.delivered, h.delivered);
      same_pairs = g.same_pairs ∙ h.same_pairs;
      totals =
          let both = ap sum_results g.appended ∙ sum_results-append shared.results g.new in
          omega (arith, both, g.totals, h.totals);
      complete =
          let both = ap (map pair_of) g.appended ∙ map-append shared.results g.new in
          subst (λ l. Perm l (finished_pairs ks')) (sym both)
            (Perm.trans (Perm.append_right (map pair_of g.new) h.complete) g.complete);
    }

    pub run_all-IsSummed :
        (before : ℕ) (pairs : List Pair) (schedule : List Pick) (ks : List Task) (shared : Pool)
        → IsSummed before pairs ks shared
        → let (ks', after) = run_all d b record_event cfg dir deadline schedule (ks, shared) in
          IsSummed before pairs ks' after
    unfolding run_all
    run_all-IsSummed before pairs [] ks shared h = h
    run_all-IsSummed before pairs (p ∷ ps) ks shared h =
        let next = run_at d b record_event cfg dir deadline p.place p.turn ks shared in
        run_all-IsSummed before pairs ps next.0 next.1 (
          grown-IsSummed before pairs ks next.0 shared next.1
            (run_at-Grows p.place p.turn ks shared) h)
