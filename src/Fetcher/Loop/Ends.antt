-- ===== src/Fetcher/Loop/Ends.antt =====
-- When the loop over pages ends, and what it leaves behind.
use cipolin.Base.{
  ℕ, ◌≡◌, refl, List, [], ◌∷◌, ◌++◌, Option, none, some, Bool, true, false, arith, if◌then◌else◌,
}
use cipolin.Base.Int.{ℤ, ◌≤ℤ◌, ltb_ℤ}
use cipolin.Base.Texts.{String}
use cipolin.Nostr.{Event, Filter}
use cipolin.Fetcher.Cursor.{FetchDirection}
use cipolin.Fetcher.Identity.{Digest}
use cipolin.Fetcher.Store.{Bolt}
use cipolin.Fetcher.Fetch.{Config, Stores, fetch_events}
use cipolin.Fetcher.Loop.{
  Turn, Verdict, stop, again, Outcome, turn_config, judge, conclude, fetch_turns,
  fetch_continuously,
}

abbrev Returns : {A : Type 0} → A × Option Outcome → Type 0
Returns (st, none) = ⊥
Returns (st, some o) = Unit

module _ (d : Digest) (b : Bolt) {S : Type 0} (on_event : Event → S → S) where
  open b use {Bucket}

  concluded :
      (v : Verdict) (got : Stores Bucket S)
      (next : ℕ → Stores Bucket S → Stores Bucket S × Option Outcome)
      → ((n : ℕ) → Returns (next n got))
      → Returns (conclude d b on_event v got next)
  concluded (stop o) got next rest = tt
  concluded (again n) got next rest = rest n

  by_clock :
      (test : Bool) (x y : Stores Bucket S × Option Outcome)
      → (test ≡ true → Returns x)
      → Returns y
      → Returns (if test then x else y)
  by_clock true x y hx hy = hx refl
  by_clock false x y hx hy = hy

  module _ (cfg : Config) (relay : String) (f : Filter) (dir : FetchDirection) (deadline : ℤ) where
    turns-Returns :
        (ts rest : List Turn) (t : Turn) (first : Bool) (total : ℕ) (st : Stores Bucket S)
        → deadline ≤ℤ t.clock
        → Returns
            (fetch_turns d b on_event cfg relay f dir deadline (ts ++ t ∷ rest) first total st)
    unfolding fetch_turns
    turns-Returns [] rest t first total st late =
        by_clock (ltb_ℤ t.clock deadline) _ _ (λ p. absurd (ground arith)) tt
    turns-Returns (u ∷ ts) rest t first total st late =
        let got = fetch_events d b on_event (turn_config first cfg) u.env relay f dir st in
        by_clock (ltb_ℤ u.clock deadline) _ _
          (λ p.
            concluded (judge total got.1) got.0 _ (λ n. turns-Returns ts rest t false n got.0 late))
          tt

    returned :
        (r : Stores Bucket S × Option Outcome) → Returns r → (o : Outcome) × (r ≡ (r.0, some o))
    returned (st, none) h = absurd h
    returned (st, some o) h = (o, refl)

    -- The loop returns by the first turn at which the clock has reached the deadline.
    pub fetch_continuously-returns :
        (ts rest : List Turn) (t : Turn) (st : Stores Bucket S)
        → deadline ≤ℤ t.clock
        → let r = fetch_continuously d b on_event cfg relay f dir deadline (ts ++ t ∷ rest) st in
          (o : Outcome) × (r ≡ (r.0, some o))
    unfolding fetch_continuously
    fetch_continuously-returns ts rest t st late =
        returned _ (turns-Returns ts rest t true 0 st late)
