-- ===== src/Fetcher/Pages/Boundary.antt =====
-- The loops over a page that find its ends and collect the ids at a timestamp.
use cipolin.Base.{
  ◌≡◌, List, [], ◌∷◌, none, some, true, false, arith, All, inl, inr, Bool-cases, if◌then◌else◌,
}
use cipolin.Base.Int.{ℤ, ◌≤ℤ◌, ltb_ℤ, eqb_ℤ, eq_of_parts}
use cipolin.Base.Texts.{String, has, eq_refl}
use cipolin.Nostr.{Event}
use cipolin.Fetcher.Pages.{oldest_timestamp, add_boundary}

pub ≤ℤ_trans : (a b c : ℤ) → a ≤ℤ b → b ≤ℤ c → a ≤ℤ c
≤ℤ_trans a b c h k = omega arith

pub ltb_ℤ-false : (a b : ℤ) → ltb_ℤ a b ≡ false → b ≤ℤ a
ltb_ℤ-false a b h = ground arith

pub ltb_ℤ-true : (a b : ℤ) → ltb_ℤ a b ≡ true → a ≤ℤ b
ltb_ℤ-true a b h = ground arith

pub eqb_ℤ-true : (a b : ℤ) → eqb_ℤ a b ≡ true → a ≡ b
eqb_ℤ-true a b h = eq_of_parts a b (ground arith)

-- The loop returns a lower bound of what it started from and of the page.
pub oldest-le :
    (es : List Event) (t m : ℤ)
    → oldest_timestamp (some t) es ≡ some m
    → (m ≤ℤ t) × All (λ e. m ≤ℤ e.created_at) es
unfolding oldest_timestamp
oldest-le [] t m h = (ground arith, tt)
oldest-le (e ∷ es) t m h = elim (Bool-cases (ltb_ℤ e.created_at t)) [
  | inl p ↦
      let (a, b) = oldest-le es e.created_at m (rw p at h) in
      (≤ℤ_trans m e.created_at t a (ltb_ℤ-true e.created_at t p), (a, b))
  | inr p ↦
      let (a, b) = oldest-le es t m (rw p at h) in
      (a, (≤ℤ_trans m t e.created_at a (ltb_ℤ-false e.created_at t p), b))
]

-- What the loop returns for a page is a lower bound of the page.
pub oldest-All :
    (es : List Event) (m : ℤ) → oldest_timestamp none es ≡ some m → All (λ e. m ≤ℤ e.created_at) es
unfolding oldest_timestamp
oldest-All [] m h = tt
oldest-All (e ∷ es) m h = oldest-le es e.created_at m h

-- Once there is a timestamp, there is one at the end.
pub oldest-some : (t : ℤ) (es : List Event) → ¬ (oldest_timestamp (some t) es ≡ none)
unfolding oldest_timestamp
oldest-some t [] h = cc
oldest-some t (e ∷ es) h = elim (Bool-cases (ltb_ℤ e.created_at t)) [
  | inl p ↦ oldest-some e.created_at es (rw p at h)
  | inr p ↦ oldest-some t es (rw p at h)
]

-- A bound from above of the whole page is one of its oldest timestamp.
pub oldest-le_of_All :
    (es : List Event) (m o : ℤ)
    → oldest_timestamp none es ≡ some m
    → All (λ e. e.created_at ≤ℤ o) es
    → m ≤ℤ o
unfolding oldest_timestamp
oldest-le_of_All [] m o h k = absurd (cc)
oldest-le_of_All (e ∷ es) m o h k = ≤ℤ_trans m e.created_at o (oldest-le es e.created_at m h).0 k.0

-- An id that is there stays.
pub has-add_boundary :
    (t : ℤ) (i : String) (es : List Event) (ids : List String)
    → has i ids ≡ true
    → has i (add_boundary t es ids) ≡ true
unfolding add_boundary has
has-add_boundary t i [] ids h = h
has-add_boundary t i (e ∷ es) ids h =
    has-add_boundary t i es (if eqb_ℤ e.created_at t then e.id ∷ ids else ids) (ground arith)

-- The id of each event at the timestamp is collected.
pub add_boundary-All :
    (t : ℤ) (es : List Event) (ids : List String)
    → All (λ e. e.created_at ≡ t → has e.id (add_boundary t es ids) ≡ true) es
unfolding add_boundary
add_boundary-All t [] ids = tt
add_boundary-All t (e ∷ es) ids = (
  λ at.
      has-add_boundary t e.id es (if eqb_ℤ e.created_at t then e.id ∷ ids else ids)
        (unfold has in ground (arith, eq_refl e.id)),
  add_boundary-All t es (if eqb_ℤ e.created_at t then e.id ∷ ids else ids),
)
