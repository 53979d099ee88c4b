-- ===== src/Fetcher/Fetch/Forward.antt =====
-- Forward fetching: the newest timestamp only grows, and the boundary keeps known events out.
use cipolin.Base.{
  subst, ◌≡◌, refl, List, [], ◌∷◌, some, Bool-cases, inl, inr, arith, All, true, false, Bool, ◌||◌,
  ◌&&◌, ◌∙◌,
}
use cipolin.Base.Int.{ℤ, ◌≤ℤ◌, ltb_ℤ, eqb_ℤ}
use cipolin.Base.Texts.{String, has, str_eq}
use cipolin.Nostr.{Event, Filter}
use cipolin.Nostr.Times.{stands_at, or_right, or_between, eqb_refl}
use cipolin.Fetcher.Cursor.{FetchCursor, success, forward}
use cipolin.Fetcher.Identity.{Digest}
use cipolin.Fetcher.Store.{Bolt, ok}
use cipolin.Fetcher.Pages.{deliver, newest_timestamp, add_boundary, advance_forward}
use cipolin.Fetcher.Pages.Boundary.{≤ℤ_trans, ltb_ℤ-false, ltb_ℤ-true}
use cipolin.Fetcher.Fetch.{Config, Surroundings, Stores, page_filter, fetch_forward}
use cipolin.Fetcher.Pages.Covered.{deliver-unseen, deliver-All}

-- The loop returns an upper bound of what it started from and of the page.
pub newest-le :
    (es : List Event) (t m : ℤ)
    → newest_timestamp (some t) es ≡ some m
    → (t ≤ℤ m) × All (λ e. e.created_at ≤ℤ m) es
unfolding newest_timestamp
newest-le [] t m h = (ground arith, tt)
newest-le (e ∷ es) t m h = elim (Bool-cases (ltb_ℤ t e.created_at)) [
  | inl p ↦
      let (a, b) = newest-le es e.created_at m (rw p at h) in
      (≤ℤ_trans t e.created_at m (ltb_ℤ-true t e.created_at p) a, (a, b))
  | inr p ↦
      let (a, b) = newest-le es t m (rw p at h) in
      (a, (≤ℤ_trans e.created_at t m (ltb_ℤ-false t e.created_at p) a, b))
]

newest-some : (t : ℤ) (es : List Event) → (m : ℤ) × (newest_timestamp (some t) es ≡ some m)
unfolding newest_timestamp
newest-some t [] = (t, refl)
newest-some t (e ∷ es) = elim (Bool-cases (ltb_ℤ t e.created_at)) [
  | inl p ↦ rw p (newest-some e.created_at es)
  | inr p ↦ rw p (newest-some t es)
]

-- An event of the page stands at this time and has this identifier.
abbrev pub names_at : ℤ → String → List Event → Bool
names_at m id [] = false
names_at m id (e ∷ es) = (eqb_ℤ e.created_at m && str_eq e.id id) || names_at m id es

-- The newest time and the boundary behind a page: those of before if nothing was new, and else the
-- time of the youngest new event, with the identifiers of the new events that stand at it.
abbrev pub Reaches : FetchCursor → ℤ → FetchCursor → ℤ → List Event → Type 0
Reaches c o after m [] =
    (m ≡ o) × (after.newest_fetched ≡ some m) × (after.newest_boundary_ids ≡ c.newest_boundary_ids)
Reaches c o after m (e ∷ es) =
    (o ≤ℤ m)
    × (after.newest_fetched ≡ some m)
    × (stands_at m (e ∷ es) ≡ true)
    × All (λ x. x.created_at ≤ℤ m) (e ∷ es)
    × ((id : String) → has id after.newest_boundary_ids ≡ names_at m id (e ∷ es))

or_swap : (a b c : Bool) → (a || (b || c)) ≡ ((b || a) || c)
or_swap true true c = refl
or_swap true false c = refl
or_swap false true c = refl
or_swap false false c = refl

at_itself : (t m : ℤ) → some t ≡ some m → (eqb_ℤ t m || false) ≡ true
at_itself t m h =
    let e : t ≡ m = cc in subst (λ k. (eqb_ℤ t k || false) ≡ true) e (rw (eqb_refl t) refl)

-- The loop ends at the time from which it started or at that of an event.
newest-stands :
    (es : List Event) (t m : ℤ)
    → newest_timestamp (some t) es ≡ some m
    → (eqb_ℤ t m || stands_at m es) ≡ true
unfolding newest_timestamp
newest-stands [] t m h = at_itself t m h
newest-stands (e ∷ es) t m h = elim (Bool-cases (ltb_ℤ t e.created_at)) [
  | inl p ↦ or_right (eqb_ℤ t m) _ (newest-stands es e.created_at m (rw p at h))
  | inr p ↦
      or_between (eqb_ℤ t m) (eqb_ℤ e.created_at m) (stands_at m es)
        (newest-stands es t m (rw p at h))
]

has-add_boundary :
    (m : ℤ) (new : List Event) (ids : List String) (id : String)
    → has id (add_boundary m new ids) ≡ (names_at m id new || has id ids)
unfolding add_boundary has
has-add_boundary m [] ids id = refl
has-add_boundary m (e ∷ es) ids id = elim (Bool-cases (eqb_ℤ e.created_at m)) [
  | inl here ↦ rw here (
      has-add_boundary m es (e.id ∷ ids) id
      ∙ or_swap (names_at m id es) (str_eq e.id id) (has id ids))
  | inr away ↦ rw away (has-add_boundary m es ids id)
]

or_false : (a : Bool) → (a || false) ≡ a
or_false true = refl
or_false false = refl

advance-Reaches :
    (new : List Event) (o done_at : ℤ) (c : FetchCursor)
    → c.newest_fetched ≡ some o
    → All (λ e. o ≤ℤ e.created_at) new
    → (m : ℤ) × Reaches c o (advance_forward new done_at c) m new
unfolding advance_forward newest_timestamp has
advance-Reaches [] o done_at c at h = (o, (refl, at, refl))
advance-Reaches (e ∷ es) o done_at c at h =
    let (m, newest) = newest-some e.created_at es in
    let (le, below) = newest-le es e.created_at m newest in
    (
      m,
      (
        ≤ℤ_trans o e.created_at m h.0 le,
        rw newest refl,
        newest-stands es e.created_at m newest,
        (le, below),
        λ id. rw newest (has-add_boundary m (e ∷ es) [] id ∙ or_false (names_at m id (e ∷ es))),
      ),
    )

module _ (d : Digest) (b : Bolt) {S : Type 0} (on_event : Event → S → S) where
  -- A forward fetch that the relay answers with events not older than it was asked for: it
  -- succeeds and delivers no event of the boundary. If it delivers none the newest time and the
  -- boundary are as before; else the new time is that of the youngest delivered event, which is no
  -- older than before, and the boundary has exactly the identifiers of the delivered events at it.
  pub fetch_forward-Reaches :
      (cfg : Config) (env : Surroundings) (relay : String) (f : Filter) (c : FetchCursor)
      (st : Stores b.Bucket S) (o : ℤ) (es : List Event)
      → c.newest_fetched ≡ some o
      → env.reply relay (page_filter f o env.now cfg.fetch_limit) ≡ some es
      → All (λ e. o ≤ℤ e.created_at) es
      → let new = (deliver on_event c.newest_boundary_ids es st.sink).0 in
        let after = advance_forward new env.done_clock c in
        ((fetch_forward d b on_event cfg env relay f c st).1
          ≡ ok (record { events = new; cursor = after; status = success; direction = forward }))
        × All (λ e. has e.id c.newest_boundary_ids ≡ false) new
        × ((m : ℤ) × Reaches c o after m new)
  unfolding fetch_forward
  fetch_forward-Reaches cfg env relay f c st o es at answered honest = (
    simp (at, answered),
    deliver-unseen on_event c.newest_boundary_ids es st.sink,
    advance-Reaches _ o env.done_clock c at
        (deliver-All on_event c.newest_boundary_ids (λ e. o ≤ℤ e.created_at) es st.sink honest),
  )
