-- ===== src/Fetcher/Sinks.antt =====
-- internal/fetcher/fetcher.go: the states of two handlers in runs that differ in their handler alone.
use cipolin.Base.{
  ℕ, zero, suc, ◌≡◌, refl, ap, ◌∙◌, List, [], ◌∷◌, Option, none, some, Bool, true, false,
  Bool-cases, inl, inr, if◌then◌else◌,
}
use cipolin.Base.Int.{ℤ, ltb_ℤ}
use cipolin.Base.Texts.{String, has}
use cipolin.Nostr.{Event, Filter}
use cipolin.Fetcher.Cursor.{
  FetchCursor, FetchResult, FetchDirection, backward, forward, is_within_ttl,
}
use cipolin.Fetcher.Identity.{Digest}
use cipolin.Fetcher.Store.{Bolt, Result, ok, err, load_cursor}
use cipolin.Fetcher.Pages.{keep, deliver}
use cipolin.Fetcher.Fetch.{
  Config, Surroundings, Stores, fetch_backward, fetch_forward, fetch_events, backward_page,
  forward_page, since_newest, with_cursor,
}
use cipolin.Fetcher.Loop.{Turn, Verdict, stop, again, turn_config, judge}
use cipolin.Fetcher.All.{
  Phase, running, finished, Task, Shared, Pick, settle, take_turn, run_phase, run_task, run_at,
  run_all,
}

module _ (d : Digest) (b : Bolt) {S T : Type 0} (on_s : Event → S → S) (on_t : Event → T → T)
    (h : S → T) where
  abbrev pub seen : Stores b.Bucket S → Stores b.Bucket T
  seen st = record { bucket = st.bucket; sink = h st.sink }

  abbrev pub seen_with : {R : Type 0} → Stores b.Bucket S × R → Stores b.Bucket T × R
  seen_with (st, r) = (seen st, r)

  by_test :
      {R : Type 0} (test : Bool) (x y : Stores b.Bucket S × R) (x' y' : Stores b.Bucket T × R)
      → x' ≡ seen_with x
      → y' ≡ seen_with y
      → (if test then x' else y') ≡ seen_with (if test then x else y)
  by_test true x y x' y' hx hy = hx
  by_test false x y x' y' hx hy = hy

  module _ (follows : (e : Event) (s : S) → on_t e (h s) ≡ h (on_s e s)) where
    abbrev delivered : List Event × S → List Event × T
    delivered (es, s) = (es, h s)

    keep-delivered :
        (known : Bool) (e : Event) (page : List Event × S)
        → keep known e (delivered page) ≡ delivered (keep known e page)
    keep-delivered true e page = refl
    keep-delivered false e page = refl

    deliver-seen :
        (boundary : List String) (es : List Event) (s : S)
        → deliver on_t boundary es (h s) ≡ delivered (deliver on_s boundary es s)
    unfolding deliver
    deliver-seen boundary [] s = refl
    deliver-seen boundary (e ∷ es) s = elim (Bool-cases (has e.id boundary)) [
      | inl known ↦ rw known (ap (keep true e) (deliver-seen boundary es s))
      | inr new ↦ rw new (
          ap (keep false e)
            (ap (deliver on_t boundary es) (follows e s) ∙ deliver-seen boundary es (on_s e s)))
    ]

    module _ (cfg : Config) (env : Surroundings) (relay : String) (f : Filter)
        (st : Stores b.Bucket S) where
      backward_page-seen :
          (c : FetchCursor) (reply : Option (List Event))
          → backward_page d b on_t env (seen st) c reply
            ≡ seen_with (backward_page d b on_s env st c reply)
      backward_page-seen c none = refl
      backward_page-seen c (some es) = rw (deliver-seen c.oldest_boundary_ids es st.sink) refl

      forward_page-seen :
          (c : FetchCursor) (reply : Option (List Event))
          → forward_page d b on_t env (seen st) c reply
            ≡ seen_with (forward_page d b on_s env st c reply)
      forward_page-seen c none = refl
      forward_page-seen c (some es) = rw (deliver-seen c.newest_boundary_ids es st.sink) refl

      fetch_backward-seen :
          (c : FetchCursor)
          → fetch_backward d b on_t cfg env relay f c (seen st)
            ≡ seen_with (fetch_backward d b on_s cfg env relay f c st)
      unfolding fetch_backward
      fetch_backward-seen c = by_test c.reached_beginning _ _ _ _ refl (backward_page-seen c _)

      since_newest-seen :
          (c : FetchCursor) (newest : Option ℤ)
          → since_newest d b on_t cfg env relay f c (seen st) newest
            ≡ seen_with (since_newest d b on_s cfg env relay f c st newest)
      since_newest-seen c none = refl
      since_newest-seen c (some since) = forward_page-seen c _

      fetch_forward-seen :
          (c : FetchCursor)
          → fetch_forward d b on_t cfg env relay f c (seen st)
            ≡ seen_with (fetch_forward d b on_s cfg env relay f c st)
      unfolding fetch_forward
      fetch_forward-seen c = since_newest-seen c c.newest_fetched

      with_cursor-seen :
          (dir : FetchDirection) (loaded : Result FetchCursor)
          → with_cursor d b on_t cfg env relay f dir (seen st) loaded
            ≡ seen_with (with_cursor d b on_s cfg env relay f dir st loaded)
      with_cursor-seen dir (err e) = refl
      with_cursor-seen backward (ok c) =
          by_test (is_within_ttl c env.ttl_clock cfg.ttl) _ _ _ _ refl (fetch_backward-seen c)
      with_cursor-seen forward (ok c) =
          by_test (is_within_ttl c env.ttl_clock cfg.ttl) _ _ _ _ refl (fetch_forward-seen c)

      fetch_events-seen :
          (dir : FetchDirection)
          → fetch_events d b on_t cfg env relay f dir (seen st)
            ≡ seen_with (fetch_events d b on_s cfg env relay f dir st)
      unfolding fetch_events
      fetch_events-seen dir = with_cursor-seen dir (load_cursor d b st.bucket relay f)

    abbrev pub seen_shared : Shared b.Bucket S → Shared b.Bucket T
    seen_shared shared = record { stores = seen shared.stores; results = shared.results }

    abbrev pub seen_run : {R : Type 0} → R × Shared b.Bucket S → R × Shared b.Bucket T
    seen_run (r, shared) = (r, seen_shared shared)

    settle-seen :
        (k : Task) (shared : Shared b.Bucket S) (got : Stores b.Bucket S × Verdict)
        → settle d b on_t k (seen_shared shared) (seen_with got)
          ≡ seen_run (settle d b on_s k shared got)
    settle-seen k shared (st, again total) = refl
    settle-seen k shared (st, stop o) = refl

    abbrev judged : ℕ → Stores b.Bucket T × Result FetchResult → Stores b.Bucket T × Verdict
    judged total (st, r) = (st, judge total r)

    module _ (cfg : Config) (dir : FetchDirection) (deadline : ℤ) where
      take_turn-seen :
          (t : Turn) (first : Bool) (total : ℕ) (relay : String) (f : Filter)
          (st : Stores b.Bucket S)
          → take_turn d b on_t cfg dir deadline t first total relay f (seen st)
            ≡ seen_with (take_turn d b on_s cfg dir deadline t first total relay f st)
      unfolding take_turn
      take_turn-seen t first total relay f st =
          by_test (ltb_ℤ t.clock deadline) _ _ _ _
            (ap (judged total) (fetch_events-seen (turn_config first cfg) t.env relay f st dir))
            refl

      run_phase-seen :
          (phase : Phase) (t : Turn) (k : Task) (shared : Shared b.Bucket S)
          → run_phase d b on_t cfg dir deadline phase t k (seen_shared shared)
            ≡ seen_run (run_phase d b on_s cfg dir deadline phase t k shared)
      run_phase-seen (finished o) t k shared = refl
      run_phase-seen (running first total) t k shared =
          ap (settle d b on_t k (seen_shared shared))
            (take_turn-seen t first total k.relay k.filter shared.stores)
          ∙ settle-seen k shared _

      run_at-seen :
          (place : ℕ) (t : Turn) (ks : List Task) (shared : Shared b.Bucket S)
          → run_at d b on_t cfg dir deadline place t ks (seen_shared shared)
            ≡ seen_run (run_at d b on_s cfg dir deadline place t ks shared)
      unfolding run_at run_task
      run_at-seen place t [] shared = refl
      run_at-seen zero t (k ∷ ks) shared = rw (run_phase-seen k.phase t k shared) refl
      run_at-seen (suc place) t (k ∷ ks) shared = rw (run_at-seen place t ks shared) refl

      -- The goroutines take the same turns, with the same summaries.
      pub run_all-seen :
          (schedule : List Pick) (ks : List Task) (shared : Shared b.Bucket S)
          → run_all d b on_t cfg dir deadline schedule (ks, seen_shared shared)
            ≡ seen_run (run_all d b on_s cfg dir deadline schedule (ks, shared))
      unfolding run_all
      run_all-seen [] ks shared = refl
      run_all-seen (p ∷ ps) ks shared =
          ap (run_all d b on_t cfg dir deadline ps) (run_at-seen p.place p.turn ks shared)
          ∙ run_all-seen ps _ _
