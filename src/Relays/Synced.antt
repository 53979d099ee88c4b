-- ===== src/Relays/Synced.antt =====
-- internal/relay/sync.go: what the asynchronous syncs have written and counted when they are done.
use cipolin.Base.{
  ℕ, suc, ◌≡◌, refl, sym, ap, ◌∙◌, List, [], ◌∷◌, ◌++◌, Bool, true, false, length, inl, inr, ◌⊎◌,
  ◌≢◌, subst, arith,
}
use cipolin.Base.Int.{ℤ, pos, ◌+ℤ◌, +ℤ_assoc}
use cipolin.Base.Texts.{String}
use cipolin.Nostr.{Event}
use cipolin.Keys.{FilterType}
use cipolin.Fetcher.Cursor.{backward}
use cipolin.Fetcher.Identity.{Digest}
use cipolin.Fetcher.Store.{Bolt}
use cipolin.Fetcher.Pages.Distinct.{record_event}
use cipolin.Fetcher.Fetch.{Config, Stores}
use cipolin.Fetcher.All.{Task, Shared, Pick, run_all, tasks_for}
use cipolin.Fetcher.All.Sums.{Pair, sum_results}
use cipolin.Fetcher.All.Whole.{
  AllFinished, IsStart, tasks_for-IsStart, append-IsStart, run_all-IsComplete,
}
use cipolin.Fetcher.Sinks.{run_all-seen}
use cipolin.Relays.Discovery.{Network}
use cipolin.Relays.Persist.{
  Targets, Syncer, Progress, persist_event, on_event_async, unless_cancelled,
}
use cipolin.Relays.Plan.{user_tasks, report_relays, user_filters_async, report_filters_async}
use cipolin.Relays.Sync.{sync_user_events_async}

one_more : (n : ℕ) → pos n +ℤ pos 1 ≡ pos (suc n)
unfolding ◌+ℤ◌
one_more n = ground arith

add_none : (z : ℤ) → z +ℤ pos 0 ≡ z
unfolding ◌+ℤ◌
add_none z = ground arith

nothing-IsStart : IsStart [] []
nothing-IsStart = record { nothing = refl; silent = refl; none_done = refl; same = refl }

module _ {D G C : Type 0} (s : Syncer D G C) where
  -- The targets behind the events, the newest of which comes first.
  abbrev pub persisted : Targets D G C → List Event → Targets D G C
  persisted t [] = t
  persisted t (e ∷ es) = persist_event s e (persisted t es)

  abbrev progressed : Progress D G C → List Event → Progress D G C
  progressed p [] = p
  progressed p (e ∷ es) = on_event_async s e (progressed p es)

  abbrev IsCancelled : List Bool → Type 0
  IsCancelled [] = ⊥
  IsCancelled (false ∷ later) = ⊥
  IsCancelled (true ∷ later) = Unit {0}

  -- The events of a run are those persisted, and behind them those that came when the context
  -- was cancelled.
  pub record IsProgress (before after : Progress D G C) (events : List Event) : Type 0 where
    pub late : List Event
    pub stored : List Event
    pub all : events ≡ late ++ stored
    pub written : after.targets ≡ persisted before.targets stored
    pub counted : after.event_count ≡ before.event_count +ℤ pos (length stored)
    pub on_time : (late ≡ []) ⊎ (before.cancelled ≢ [])

  record Goes (before after : Progress D G C) (events : List Event) : Type 0 where
    pub so_far : IsProgress before after events
    pub either : (so_far.late ≡ []) ⊎ IsCancelled after.cancelled
    pub uncancelled : before.cancelled ≡ [] → after.cancelled ≡ []

  -- No event was late yet, and one more is stored.
  stored-Goes :
      (before p : Progress D G C) (flags : List Bool) (e : Event) (es : List Event)
      → (h : IsProgress before p es) → h.late ≡ []
      → (before.cancelled ≡ [] → flags ≡ [])
      → Goes before
          (record {
            targets = persist_event s e p.targets;
            event_count = p.event_count +ℤ pos 1;
            cancelled = flags;
          })
          (e ∷ es)
  stored-Goes before p flags e es h on_time calm = record {
    so_far = record {
      late = [];
      stored = e ∷ h.stored;
      all = ap (λ l. e ∷ l) (h.all ∙ ap (λ l. l ++ h.stored) on_time);
      written = ap (persist_event s e) h.written;
      counted =
          ap (λ z. z +ℤ pos 1) h.counted
          ∙ +ℤ_assoc before.event_count (pos (length h.stored)) (pos 1)
          ∙ ap (λ z. before.event_count +ℤ z) (one_more (length h.stored));
      on_time = inl refl;
    };
    either = inl refl;
    uncancelled = calm;
  }

  still_on_time :
      (flags : List Bool) (late : List Event)
      → ¬ IsCancelled flags
      → (late ≡ []) ⊎ IsCancelled flags
      → late ≡ []
  still_on_time flags late calm (inl on_time) = on_time
  still_on_time flags late calm (inr cancelled) = absurd (calm cancelled)

  nonempty : (f : Bool) (fs : List Bool) → (f ∷ fs) ≢ []
  nonempty f fs e = cc

  on_event_async-Goes :
      (before p : Progress D G C) (flags : List Bool) (e : Event) (es : List Event)
      → p.cancelled ≡ flags
      → Goes before p es
      → Goes before (unless_cancelled s e p flags) (e ∷ es)
  on_event_async-Goes before p [] e es is h =
      let on_time =
        still_on_time [] h.so_far.late (λ u. u)
          (subst (λ l. (h.so_far.late ≡ []) ⊎ IsCancelled l) is h.either) in
      stored-Goes before p p.cancelled e es h.so_far on_time h.uncancelled
  on_event_async-Goes before p (true ∷ later) e es is h = record {
    so_far = record {
      late = e ∷ h.so_far.late;
      stored = h.so_far.stored;
      all = ap (λ l. e ∷ l) h.so_far.all;
      written = h.so_far.written;
      counted = h.so_far.counted;
      on_time = inr (λ calm. nonempty true later (sym is ∙ h.uncancelled calm));
    };
    either = inr (subst IsCancelled (sym is) tt);
    uncancelled = h.uncancelled;
  }
  on_event_async-Goes before p (false ∷ later) e es is h =
      let on_time =
        still_on_time (false ∷ later) h.so_far.late (λ u. u)
          (subst (λ l. (h.so_far.late ≡ []) ⊎ IsCancelled l) is h.either) in
      stored-Goes before p later e es h.so_far on_time
        (λ calm. absurd (nonempty false later (sym is ∙ h.uncancelled calm)))

  progressed-Goes : (p : Progress D G C) (es : List Event) → Goes p (progressed p es) es
  unfolding on_event_async
  progressed-Goes p [] = record {
    so_far = record {
      late = [];
      stored = [];
      all = refl;
      written = refl;
      counted = sym (add_none p.event_count);
      on_time = inl refl;
    };
    either = inl refl;
    uncancelled = λ calm. calm;
  }
  progressed-Goes p (e ∷ es) =
      on_event_async-Goes p (progressed p es) (progressed p es).cancelled e es refl
        (progressed-Goes p es)

  -- The events that the goroutines have handed over, as many as their summaries say.
  pub record IsSynced (B : Type 0) (before : Progress D G C)
      (out : List Task × Shared B (Progress D G C)) : Type 0 where
    pub events : List Event
    pub progress : IsProgress before out.1.stores.sink events
    pub totals : length events ≡ sum_results out.1.results

  module _ (d : Digest) (b : Bolt) (cfg : Config) (deadline : ℤ) where
    abbrev start_of : {S : Type 0} → List Task → S → b.Bucket → List Task × Shared b.Bucket S
    start_of ks sink bucket =
        (ks, record { stores = record { bucket = bucket; sink = sink }; results = [] })

    run_all-IsSynced :
        (start : List Task) (pairs : List Pair) (schedule : List Pick)
        (st : Stores b.Bucket (Progress D G C))
        → IsStart start pairs
        → let out =
            run_all d b
              (on_event_async s)
              cfg
              backward
              deadline
              schedule
              (start_of start st.sink st.bucket) in
          AllFinished out.0 → IsSynced b.Bucket st.sink out
    run_all-IsSynced start pairs schedule st begun done =
        let recorded =
          run_all d b record_event cfg backward deadline schedule (start_of start [] st.bucket) in
        let same =
          run_all-seen d b record_event (on_event_async s) (progressed st.sink) (λ e es. refl) cfg
            backward deadline schedule start (start_of start [] st.bucket).1 in
        let whole =
          run_all-IsComplete d b cfg backward deadline start pairs schedule
            (record { bucket = st.bucket; sink = [] }) recorded.0 recorded.1 begun refl
            (subst AllFinished
              (ap (λ (out : List Task × Shared b.Bucket (Progress D G C)). out.0) same) done) in
        subst (IsSynced b.Bucket st.sink) (sym same) (record {
          events = recorded.1.stores.sink;
          progress = (progressed-Goes st.sink recorded.1.stores.sink).so_far;
          totals = omega (arith, whole.1);
        })

    module _ (net : Network) (storage_relays : List String) where
      -- Once the goroutines of a user's asynchronous sync have finished, there is a list of events, as
      -- many as the totals of the summaries say, of which a part has been persisted in its order and
      -- been counted, and the others came later; there are others only where the context may have been
      -- cancelled.
      pub sync_user_events_async-IsSynced :
          (cancelled : Bool) (pubkey : String) (user_relays : List String) (wanted : FilterType)
          (schedule : List Pick) (st : Stores b.Bucket (Progress D G C))
          → let out =
              sync_user_events_async net storage_relays d b s cfg deadline cancelled pubkey
                user_relays wanted schedule st in
            AllFinished out.0 → IsSynced b.Bucket st.sink out
      unfolding sync_user_events_async user_tasks
      sync_user_events_async-IsSynced true pubkey user_relays wanted schedule st done =
          run_all-IsSynced [] [] [] st nothing-IsStart tt
      sync_user_events_async-IsSynced false pubkey user_relays wanted schedule st done =
          run_all-IsSynced _ _ schedule st
            (append-IsStart (tasks_for user_relays (user_filters_async pubkey wanted))
              (tasks_for (report_relays net storage_relays user_relays)
                (report_filters_async pubkey wanted))
              _ _ (tasks_for-IsStart user_relays (user_filters_async pubkey wanted))
              (tasks_for-IsStart (report_relays net storage_relays user_relays)
                (report_filters_async pubkey wanted)))
            done
