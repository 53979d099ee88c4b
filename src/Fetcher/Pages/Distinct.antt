-- ===== src/Fetcher/Pages/Distinct.antt =====
-- Delivered events pile up with no id twice.
use cipolin.Base.{
  ◌≡◌, ◌≢◌, sym, List, [], ◌∷◌, Option, none, some, false, All, Bool-cases, inl, inr, ◌∙◌,
}
use cipolin.Base.Int.{ℤ}
use cipolin.Base.Texts.{String, has}
use cipolin.Nostr.{Event}
use cipolin.Fetcher.Cursor.{FetchCursor}
use cipolin.Fetcher.Pages.{deliver}
use cipolin.Fetcher.Pages.Covered.{IsBounded, IsCovered, unseen-uncovered}

-- No two events of the list have one id.
abbrev pub IsDistinct : List Event → Type 0
IsDistinct [] = Unit
IsDistinct (e ∷ es) = All (λ e'. e'.id ≢ e.id) es × IsDistinct es

-- An id is the hash of the event, its timestamp included, so an id has one timestamp.
abbrev pub IsDated : (String → ℤ) → Event → Type 0
IsDated time_of e = e.created_at ≡ time_of e.id

-- The handler that keeps what it is given.
abbrev pub record_event : Event → List Event → List Event
record_event e s = e ∷ s

-- An event of the page that is not in the boundary has an id that the list has not.
abbrev IsApart : List String → List Event → List Event → Type 0
IsApart boundary es s = All (λ e. has e.id boundary ≡ false → All (λ e'. e'.id ≢ e.id) s) es

IsApart-cons :
    (boundary : List String) (e : Event) (es s : List Event)
    → All (λ e'. e'.id ≢ e.id) es
    → IsApart boundary es s
    → IsApart boundary es (e ∷ s)
IsApart-cons boundary e [] s h k = tt
IsApart-cons boundary e (x ∷ es) s h k =
    (λ p. (λ q. h.0 (sym q), k.0 p), IsApart-cons boundary e es s h.1 k.1)

pub deliver-IsDistinct :
    (boundary : List String) (es s : List Event)
    → IsDistinct s
    → IsDistinct es
    → IsApart boundary es s
    → IsDistinct (deliver record_event boundary es s).1
unfolding deliver
deliver-IsDistinct boundary [] s hs he k = hs
deliver-IsDistinct boundary (e ∷ es) s hs he k = elim (Bool-cases (has e.id boundary)) [
  | inl p ↦ rw p (deliver-IsDistinct boundary es s hs he.1 k.1)
  | inr p ↦ rw p (
      deliver-IsDistinct boundary es (e ∷ s) (k.0 p, hs) he.1
        (IsApart-cons boundary e es s he.0 k.1))
]

apart-covered :
    (time_of : String → ℤ) (c : FetchCursor) (e : Event) (s : List Event)
    → IsDated time_of e
    → ¬ IsCovered c e
    → All (IsDated time_of) s
    → All (IsCovered c) s
    → All (λ e'. e'.id ≢ e.id) s
apart-covered time_of c e [] de out ds cov = tt
apart-covered time_of c e (x ∷ s) de out ds cov = (
  λ p. let same : x.created_at ≡ e.created_at = ds.0 ∙ (rw (p, de)) in out (rw (← same, ← p) cov.0),
  apart-covered time_of c e s de out ds.1 cov.1,
)

IsBounded-tail :
    (o : Option ℤ) (e : Event) (es : List Event)
    → IsBounded o (e ∷ es)
    → IsBounded o (e ∷ []) × IsBounded o es
IsBounded-tail none e es h = (tt, tt)
IsBounded-tail (some o) e es h = ((h.0, tt), h.1)

module _ (time_of : String → ℤ) (c : FetchCursor) where
  -- A page that reaches no further than the cursor brings nothing that the cursor covers again.
  IsApart-page :
      (es s : List Event)
      → IsBounded c.oldest_fetched es
      → All (IsDated time_of) es
      → All (IsDated time_of) s
      → All (IsCovered c) s
      → IsApart c.oldest_boundary_ids es s
  IsApart-page [] s h de ds cov = tt
  IsApart-page (e ∷ es) s h de ds cov =
      let (one, rest) = IsBounded-tail c.oldest_fetched e es h in
      (
        λ p.
            apart-covered time_of c e s de.0
              (unseen-uncovered c.oldest_fetched c.oldest_boundary_ids (e ∷ []) one (p, tt)).0 ds
              cov,
        IsApart-page es s rest de.1 ds cov,
      )

  pub page-IsDistinct :
      (es s : List Event)
      → IsBounded c.oldest_fetched es
      → IsDistinct es
      → All (IsDated time_of) es
      → IsDistinct s
      → All (IsDated time_of) s
      → All (IsCovered c) s
      → IsDistinct (deliver record_event c.oldest_boundary_ids es s).1
  page-IsDistinct es s h ne de hs ds cov =
      deliver-IsDistinct c.oldest_boundary_ids es s hs ne (IsApart-page es s h de ds cov)

-- What holds of the events kept before and of those delivered holds of all that are kept.
pub deliver-sink-All {κ} :
    (P : Event → Type κ) (boundary : List String) (es s : List Event)
    → All P s
    → All P (deliver record_event boundary es s).0
    → All P (deliver record_event boundary es s).1
unfolding deliver
deliver-sink-All P boundary [] s hs hn = hs
deliver-sink-All P boundary (e ∷ es) s hs hn = elim (Bool-cases (has e.id boundary)) [
  | inl p ↦ rw p (deliver-sink-All P boundary es s hs (rw p at hn))
  | inr p ↦ let h = rw p at hn in rw p (deliver-sink-All P boundary es (e ∷ s) (h.0, hs) h.1)
]
