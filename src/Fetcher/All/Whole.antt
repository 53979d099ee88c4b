-- ===== src/Fetcher/All/Whole.antt =====
-- What `FetchAllContinuously` returns once all its goroutines have finished.
use mathlib.Core.List.Perm
use mathlib.Core.List.{Perm}
use cipolin.Base.{◌+◌, ◌≡◌, refl, sym, ap, ◌∙◌, subst, List, [], ◌∷◌, ◌++◌, map, length, arith}
use cipolin.Base.Int.{ℤ}
use cipolin.Base.Texts.{String}
use cipolin.Nostr.{Event, Filter}
use cipolin.Fetcher.Cursor.{FetchDirection}
use cipolin.Fetcher.Identity.{Digest}
use cipolin.Fetcher.Store.{Bolt}
use cipolin.Fetcher.Pages.Distinct.{record_event}
use cipolin.Fetcher.Fetch.{Config, Stores}
use cipolin.Fetcher.All.{
  Phase, running, finished, Task, begin, tasks_for, Pick, run_all, fetch_all_continuously,
}
use cipolin.Fetcher.All.Sums.{
  Pair, pair_of, sum_results, sum_tally, sum_reported, pairs_of, finished_pairs, Pool, IsSummed,
  run_all-IsSummed,
}

abbrev pub IsFinished : Phase → Type 0
IsFinished (running first total) = ⊥
IsFinished (finished o) = Unit {0}

abbrev pub AllFinished : List Task → Type 0
AllFinished [] = Unit {0}
AllFinished (k ∷ ks) = IsFinished k.phase × AllFinished ks

abbrev with_relay : String → List Filter → List Pair
with_relay relay [] = []
with_relay relay (f ∷ fs) = (relay, f) ∷ with_relay relay fs

-- Each relay with each filter.
abbrev pub all_pairs : List String → List Filter → List Pair
all_pairs [] filters = []
all_pairs (relay ∷ relays) filters = with_relay relay filters ++ all_pairs relays filters

-- Tasks that stand in front of their first turn.
pub record IsStart (ks : List Task) (pairs : List Pair) : Type 0 where
  pub nothing : sum_tally ks ≡ 0
  pub silent : sum_reported ks ≡ 0
  pub none_done : finished_pairs ks ≡ []
  pub same : pairs_of ks ≡ pairs

begin-IsStart :
    (relay : String) (filters : List Filter) (ks : List Task) (pairs : List Pair)
    → IsStart ks pairs
    → IsStart (map (begin relay) filters ++ ks) (with_relay relay filters ++ pairs)
begin-IsStart relay [] ks pairs h = h
begin-IsStart relay (f ∷ fs) ks pairs h =
    let rest = begin-IsStart relay fs ks pairs h in
    record {
      nothing = omega (arith, rest.nothing);
      silent = omega (arith, rest.silent);
      none_done = rest.none_done;
      same = ap (λ l. (relay, f) ∷ l) rest.same;
    }

pub tasks_for-IsStart :
    (relays : List String) (filters : List Filter)
    → IsStart (tasks_for relays filters) (all_pairs relays filters)
unfolding tasks_for
tasks_for-IsStart [] filters = record {
  nothing = refl;
  silent = refl;
  none_done = refl;
  same = refl;
}
tasks_for-IsStart (relay ∷ relays) filters =
    begin-IsStart relay filters (tasks_for relays filters) (all_pairs relays filters)
      (tasks_for-IsStart relays filters)

-- What a finished task has tally is what it has reported, and its pair is there.
record IsWhole (ks : List Task) : Type 0 where
  pub sums : sum_tally ks ≡ sum_reported ks
  pub all : finished_pairs ks ≡ pairs_of ks

AllFinished-IsWhole : (ks : List Task) → AllFinished ks → IsWhole ks
AllFinished-IsWhole [] h = record { sums = refl; all = refl }
AllFinished-IsWhole (k ∷ ks) h = in_front k.phase h.0 (AllFinished-IsWhole ks h.1)
  where
    in_front :
        (phase : Phase) → IsFinished phase → IsWhole ks → IsWhole (record k { phase = phase } ∷ ks)
    in_front (running first total) u rest = absurd u
    in_front (finished o) u rest = record {
      sums = omega (arith, rest.sums);
      all = ap (λ l. (k.relay, k.filter) ∷ l) rest.all;
    }

pub append-IsStart :
    (ks ls : List Task) (pairs others : List Pair)
    → IsStart ks pairs
    → IsStart ls others
    → IsStart (ks ++ ls) (pairs ++ others)
append-IsStart ks ls pairs others h g = record {
  nothing = append-sum_tally ks ∙ omega (arith, h.nothing, g.nothing);
  silent = append-sum_reported ks ∙ omega (arith, h.silent, g.silent);
  none_done = append-finished_pairs ks ∙ rw (h.none_done) g.none_done;
  same = append-pairs_of ks ∙ rw (h.same, g.same) refl;
}
  where
    append-sum_tally : (ks : List Task) → sum_tally (ks ++ ls) ≡ sum_tally ks + sum_tally ls
    append-sum_tally [] = omega arith
    append-sum_tally (k ∷ ks) = omega (arith, append-sum_tally ks)

    append-sum_reported :
        (ks : List Task) → sum_reported (ks ++ ls) ≡ sum_reported ks + sum_reported ls
    append-sum_reported [] = omega arith
    append-sum_reported (k ∷ ks) = omega (arith, append-sum_reported ks)

    append-pairs_of : (ks : List Task) → pairs_of (ks ++ ls) ≡ pairs_of ks ++ pairs_of ls
    append-pairs_of [] = refl
    append-pairs_of (k ∷ ks) = ap (λ l. (k.relay, k.filter) ∷ l) (append-pairs_of ks)

    append-finished_pairs :
        (ks : List Task) → finished_pairs (ks ++ ls) ≡ finished_pairs ks ++ finished_pairs ls
    append-finished_pairs [] = refl
    append-finished_pairs (k ∷ ks) = in_front k.phase (append-finished_pairs ks)
      where
        in_front :
            (phase : Phase)
            → finished_pairs (ks ++ ls) ≡ finished_pairs ks ++ finished_pairs ls
            → finished_pairs (record k { phase = phase } ∷ ks ++ ls)
              ≡ finished_pairs (record k { phase = phase } ∷ ks) ++ finished_pairs ls
        in_front (running first total) h = h
        in_front (finished o) h = ap (λ l. (k.relay, k.filter) ∷ l) h

module _ (d : Digest) (b : Bolt) (cfg : Config) (dir : FetchDirection) (deadline : ℤ) where
  -- The same of any goroutines that stand in front of their first turn.
  pub run_all-IsComplete :
      (start : List Task) (pairs : List Pair) (schedule : List Pick)
      (st : Stores b.Bucket (List Event)) (ks : List Task) (shared : Pool d b)
      → IsStart start pairs
      → run_all d b record_event cfg dir deadline schedule
          (start, record { stores = st; results = [] })
        ≡ (ks, shared)
      → AllFinished ks
      → Perm (map pair_of shared.results) pairs
        × (length shared.stores.sink ≡ length st.sink + sum_results shared.results)
  run_all-IsComplete start pairs schedule st ks shared begun run done =
      let first : IsSummed d b cfg dir deadline (length st.sink) pairs start
          (record { stores = st; results = [] }) =
        record {
          delivered = omega (arith, begun.nothing);
          same_pairs = begun.same;
          totals = omega (arith, begun.silent);
          complete = subst (λ l. Perm [] l) (sym begun.none_done) (Perm.refl []);
        } in
      let last =
        run_all-IsSummed d b cfg dir deadline (length st.sink) pairs schedule start
          (record { stores = st; results = [] }) first in
      let end : IsSummed d b cfg dir deadline (length st.sink) pairs ks shared = rw run at last in
      let whole = AllFinished-IsWhole ks done in
      (
        subst (λ l. Perm (map pair_of shared.results) l) (whole.all ∙ end.same_pairs) end.complete,
        omega (arith, end.delivered, end.totals, whole.sums),
      )

  -- Whatever the order in which the goroutines take their turns, once all have finished there is
  -- exactly one summary for each relay and filter, and the totals of the summaries add up to the
  -- number of events that a handler which records its events has been given.
  pub fetch_all_continuously-IsComplete :
      (relays : List String) (filters : List Filter) (schedule : List Pick)
      (st : Stores b.Bucket (List Event)) (ks : List Task) (shared : Pool d b)
      → fetch_all_continuously d b record_event cfg dir deadline relays filters schedule st
        ≡ (ks, shared)
      → AllFinished ks
      → Perm (map pair_of shared.results) (all_pairs relays filters)
        × (length shared.stores.sink ≡ length st.sink + sum_results shared.results)
  unfolding fetch_all_continuously
  fetch_all_continuously-IsComplete relays filters schedule st ks shared run done =
      run_all-IsComplete (tasks_for relays filters) (all_pairs relays filters) schedule st ks shared
        (tasks_for-IsStart relays filters) run done
