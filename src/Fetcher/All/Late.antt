-- ===== src/Fetcher/All/Late.antt =====
-- Every goroutine of `FetchAllContinuously` finishes.
use cipolin.Base.{
  ℕ, zero, suc, ◌*◌, ◌<◌, ◌≡◌, refl, ap, ◌∙◌, ◌⊎◌, inl, inr, subst, false, List, [], ◌∷◌, map,
  length, length-append, arith,
}
use cipolin.Base.Int.{ℤ, ltb_ℤ, ◌≤ℤ◌}
use cipolin.Base.Texts.{String}
use cipolin.Nostr.{Event, Filter}
use cipolin.Fetcher.Cursor.{FetchDirection}
use cipolin.Fetcher.Identity.{Digest}
use cipolin.Fetcher.Store.{Bolt}
use cipolin.Fetcher.Fetch.{Config, Stores}
use cipolin.Fetcher.Loop.{Turn}
use cipolin.Fetcher.All.{
  Phase, running, finished, Task, Shared, begin, tasks_for, Pick, take_turn, run_task, run_at,
  run_all, fetch_all_continuously,
}
use cipolin.Fetcher.All.Whole.{IsFinished, AllFinished}

-- The scheduler gives this place a turn at which the clock has reached the deadline.
abbrev pub GetsLate : ℤ → ℕ → List Pick → Type 0
GetsLate deadline i [] = ⊥
GetsLate deadline i (p ∷ ps) = ((p.place ≡ i) × (deadline ≤ℤ p.turn.clock)) ⊎ GetsLate deadline i ps

-- It gives one to every place.
abbrev pub IsFair : ℤ → ℕ → List Pick → Type 0
IsFair deadline places schedule = (i : ℕ) → i < places → GetsLate deadline i schedule

-- The task at the place, if there is one, has finished.
abbrev FinishedAt : ℕ → List Task → Type 0
FinishedAt i [] = Unit {0}
FinishedAt zero (k ∷ ks) = IsFinished k.phase
FinishedAt (suc i) (k ∷ ks) = FinishedAt i ks

FinishedAt-AllFinished :
    (ks : List Task) → ((i : ℕ) → i < length ks → FinishedAt i ks) → AllFinished ks
FinishedAt-AllFinished [] h = tt
FinishedAt-AllFinished (k ∷ ks) h =
    (h 0 (omega arith), FinishedAt-AllFinished ks (λ i lt. h (suc i) (omega arith)))

module _ (d : Digest) (b : Bolt) {S : Type 0} (on_event : Event → S → S) (cfg : Config)
    (dir : FetchDirection) (deadline : ℤ) where
  run_task-kept :
      (t : Turn) (k : Task) (shared : Shared b.Bucket S)
      → IsFinished k.phase
      → IsFinished (run_task d b on_event cfg dir deadline t k shared).0.phase
  unfolding run_task
  run_task-kept t k shared h = by_phase k.phase h
    where
      by_phase :
          (phase : Phase)
          → IsFinished phase
          → let k₁ : Task = record k { phase = phase } in
            IsFinished (run_task d b on_event cfg dir deadline t k₁ shared).0.phase
      by_phase (running first total) u = absurd u
      by_phase (finished o) u = tt

  run_task-late :
      (t : Turn) (k : Task) (shared : Shared b.Bucket S)
      → deadline ≤ℤ t.clock
      → IsFinished (run_task d b on_event cfg dir deadline t k shared).0.phase
  unfolding run_task take_turn
  run_task-late t k shared late = by_phase k.phase
    where
      passed : ltb_ℤ t.clock deadline ≡ false
      passed = ground (arith, late)

      by_phase :
          (phase : Phase)
          → let k₁ : Task = record k { phase = phase } in
            IsFinished (run_task d b on_event cfg dir deadline t k₁ shared).0.phase
      by_phase (running first total) = rw passed tt
      by_phase (finished o) = tt

  run_at-kept :
      (place i : ℕ) (t : Turn) (ks : List Task) (shared : Shared b.Bucket S)
      → FinishedAt i ks
      → FinishedAt i (run_at d b on_event cfg dir deadline place t ks shared).0
  unfolding run_at
  run_at-kept place i t [] shared h = tt
  run_at-kept zero zero t (k ∷ ks) shared h = run_task-kept t k shared h
  run_at-kept zero (suc i) t (k ∷ ks) shared h = h
  run_at-kept (suc place) zero t (k ∷ ks) shared h = h
  run_at-kept (suc place) (suc i) t (k ∷ ks) shared h = run_at-kept place i t ks shared h

  run_at-late :
      (place : ℕ) (t : Turn) (ks : List Task) (shared : Shared b.Bucket S)
      → deadline ≤ℤ t.clock
      → FinishedAt place (run_at d b on_event cfg dir deadline place t ks shared).0
  unfolding run_at
  run_at-late place t [] shared late = tt
  run_at-late zero t (k ∷ ks) shared late = run_task-late t k shared late
  run_at-late (suc place) t (k ∷ ks) shared late = run_at-late place t ks shared late

  length-run_at :
      (place : ℕ) (t : Turn) (ks : List Task) (shared : Shared b.Bucket S)
      → length (run_at d b on_event cfg dir deadline place t ks shared).0 ≡ length ks
  unfolding run_at
  length-run_at place t [] shared = refl
  length-run_at zero t (k ∷ ks) shared = refl
  length-run_at (suc place) t (k ∷ ks) shared = ap suc (length-run_at place t ks shared)

  run_all-finished :
      (i : ℕ) (schedule : List Pick) (state : List Task × Shared b.Bucket S)
      → FinishedAt i state.0 ⊎ GetsLate deadline i schedule
      → FinishedAt i (run_all d b on_event cfg dir deadline schedule state).0
  unfolding run_all
  run_all-finished i [] state (inl h) = h
  run_all-finished i [] state (inr h) = absurd h
  run_all-finished i (p ∷ ps) (ks, shared) (inl h) =
      run_all-finished i ps (run_at d b on_event cfg dir deadline p.place p.turn ks shared)
        (inl (run_at-kept p.place i p.turn ks shared h))
  run_all-finished i (p ∷ ps) (ks, shared) (inr (inl (here, late))) =
      run_all-finished i ps (run_at d b on_event cfg dir deadline p.place p.turn ks shared) (
        inl (
          subst
            (λ j. FinishedAt j (run_at d b on_event cfg dir deadline p.place p.turn ks shared).0)
            here (run_at-late p.place p.turn ks shared late)))
  run_all-finished i (p ∷ ps) (ks, shared) (inr (inr later)) =
      run_all-finished i ps (run_at d b on_event cfg dir deadline p.place p.turn ks shared)
        (inr later)

  length-run_all :
      (schedule : List Pick) (state : List Task × Shared b.Bucket S)
      → length (run_all d b on_event cfg dir deadline schedule state).0 ≡ length state.0
  unfolding run_all
  length-run_all [] state = refl
  length-run_all (p ∷ ps) (ks, shared) =
      length-run_all ps (run_at d b on_event cfg dir deadline p.place p.turn ks shared)
      ∙ length-run_at p.place p.turn ks shared

  length-begin :
      (relay : String) (filters : List Filter) → length (map (begin relay) filters) ≡ length filters
  length-begin relay [] = refl
  length-begin relay (f ∷ fs) = ap suc (length-begin relay fs)

  length-tasks_for :
      (relays : List String) (filters : List Filter)
      → length (tasks_for relays filters) ≡ length relays * length filters
  unfolding tasks_for
  length-tasks_for [] filters = omega arith
  length-tasks_for (relay ∷ relays) filters =
      let parts = length-append (map (begin relay) filters) (tasks_for relays filters) in
      let front = length-begin relay filters in
      let rest = length-tasks_for relays filters in grind (arith, parts, front, rest)

  -- If the scheduler gives every goroutine a turn at which the clock has reached the deadline, each
  -- of them finishes, whatever the fetches meet and in whatever order the turns come.
  pub fetch_all_continuously-finishes :
      (relays : List String) (filters : List Filter) (schedule : List Pick) (st : Stores b.Bucket S)
      → IsFair deadline (length relays * length filters) schedule
      → AllFinished
          (fetch_all_continuously d b on_event cfg dir deadline relays filters schedule st).0
  unfolding fetch_all_continuously
  fetch_all_continuously-finishes relays filters schedule st fair =
      let count = length-tasks_for relays filters in
      let kept =
        length-run_all schedule (tasks_for relays filters, record { stores = st; results = [] }) in
      FinishedAt-AllFinished _ (λ i lt.
        run_all-finished i schedule (tasks_for relays filters, record { stores = st; results = [] })
          (inr (fair i (omega (arith, lt, kept, count)))))
