-- ===== src/Fetcher/Pages/Covered.antt =====
-- The events that a cursor covers: those younger than its oldest timestamp, and those at that
-- timestamp whose id is in the boundary.
use cipolin.Base.{
  ◌≡◌, ◌∙◌, refl, sym, false≢true, List, [], ◌∷◌, Option, none, some, true, false, arith, All,
  All-map, ◌⊎◌, inl, inr, Bool-cases, if◌then◌else◌, ◌<◌, ◌^◌,
}
use cipolin.Base.Int.{ℤ, pos, negsuc, neg_part, ◌≤ℤ◌, ◌<ℤ◌, eqb_ℤ, sub64, IsInt64}
use cipolin.Base.Texts.{String, has}
use cipolin.Nostr.{Event}
use cipolin.Fetcher.Cursor.{FetchCursor}
use cipolin.Fetcher.Pages.{
  is_at, oldest_timestamp, add_boundary, deliver, set_oldest, move_past, advance_backward,
}
use cipolin.Fetcher.Pages.Boundary.{
  oldest-All, oldest-some, oldest-le_of_All, has-add_boundary, add_boundary-All, eqb_ℤ-true,
}

abbrev pub IsBehind : Option ℤ → List String → ℤ → String → Type 0
IsBehind none ids t i = ⊥
IsBehind (some o) ids t i = (o <ℤ t) ⊎ ((o ≡ t) × (has i ids ≡ true))

abbrev pub IsCovered : FetchCursor → Event → Type 0
IsCovered c e = IsBehind c.oldest_fetched c.oldest_boundary_ids e.created_at e.id

-- No event of a page is younger than the cursor's oldest timestamp.
abbrev pub IsBounded : Option ℤ → List Event → Type 0
IsBounded none es = Unit
IsBounded (some o) es = All (λ e. e.created_at ≤ℤ o) es

module _ {S : Type 0} (on_event : Event → S → S) (boundary : List String) where
  -- What is delivered is not in the boundary.
  pub deliver-unseen :
      (es : List Event) (s : S)
      → All (λ e. has e.id boundary ≡ false) (deliver on_event boundary es s).0
  unfolding deliver
  deliver-unseen [] s = tt
  deliver-unseen (e ∷ es) s = elim (Bool-cases (has e.id boundary)) [
    | inl p ↦ rw p (deliver-unseen es s)
    | inr p ↦ rw p (p, deliver-unseen es (on_event e s))
  ]

  -- What holds of a page holds of what is delivered.
  pub deliver-All {κ} :
      (P : Event → Type κ) (es : List Event) (s : S)
      → All P es
      → All P (deliver on_event boundary es s).0
  unfolding deliver
  deliver-All P [] s h = tt
  deliver-All P (e ∷ es) s h = elim (Bool-cases (has e.id boundary)) [
    | inl p ↦ rw p (deliver-All P es s h.1)
    | inr p ↦ rw p (h.0, deliver-All P es (on_event e s) h.1)
  ]

IsBehind-older :
    (o m : ℤ) (ids : List String) (new : List Event) (t : ℤ) (i : String)
    → m ≤ℤ o
    → IsBehind (some o) ids t i
    → IsBehind (some m) (add_boundary m new (if eqb_ℤ m o then ids else [])) t i
IsBehind-older o m ids new t i le (inl young) = inl (omega arith)
IsBehind-older o m ids new t i le (inr (at, known)) = elim (Bool-cases (eqb_ℤ m o)) [
  | inl p ↦ rw p (inr (eqb_ℤ-true m o p ∙ at, has-add_boundary m i new ids known))
  | inr p ↦ inl (rw (← at) (ground arith))
]

older-covers :
    (o? : Option ℤ) (c : FetchCursor) (new : List Event) (e : Event)
    → oldest_timestamp none new ≡ o?
    → IsBounded c.oldest_fetched new
    → IsCovered c e
    → IsCovered (set_oldest o? new c) e
older-covers none c new e h k cov = cov
older-covers (some m) c new e h k cov = go c.oldest_fetched c.oldest_boundary_ids k cov
  where
    go :
        (o : Option ℤ) (ids : List String)
        → IsBounded o new
        → IsBehind o ids e.created_at e.id
        → IsBehind (some m) (add_boundary m new (if is_at o m then ids else [])) e.created_at e.id
    go none ids k cov = absurd cov
    go (some o) ids k cov =
        IsBehind-older o m ids new e.created_at e.id (oldest-le_of_All new m o h k) cov

at_or_after :
    (m : ℤ) (ids : List String) (es : List Event)
    → All (λ e. m ≤ℤ e.created_at) es
    → All (λ e. e.created_at ≡ m → has e.id ids ≡ true) es
    → All (λ e. IsBehind (some m) ids e.created_at e.id) es
at_or_after m ids [] h k = tt
at_or_after m ids (e ∷ es) h k = (
  elim (Bool-cases (eqb_ℤ e.created_at m)) [
    | inl p ↦ let at = eqb_ℤ-true e.created_at m p in inr (sym at, k.0 at)
    | inr p ↦ inl (ground arith)
  ],
  at_or_after m ids es h.1 k.1,
)

new-IsCovered :
    (o? : Option ℤ) (c : FetchCursor) (new : List Event)
    → oldest_timestamp none new ≡ o?
    → All (IsCovered (set_oldest o? new c)) new
unfolding oldest_timestamp
new-IsCovered none c [] h = tt
new-IsCovered none c (e ∷ es) h = absurd (oldest-some e.created_at es h)
new-IsCovered (some m) c new h = at_or_after m _ new (oldest-All new m h) (add_boundary-All m new _)

-- What `move_past` subtracts from does not wrap around.
abbrev pub IsAboveMin : Option ℤ → Type 0
IsAboveMin none = Unit
IsAboveMin (some o) = IsInt64 o × (neg_part o < 2 ^ 63)

before-lt : (o t : ℤ) → IsInt64 o → neg_part o < 2 ^ 63 → o ≤ℤ t → sub64 o (pos 1) <ℤ t
unfolding sub64
before-lt (pos n) t h k le = ground arith
before-lt (negsuc n) t h k le = ground arith

past-covers :
    (o : Option ℤ) (c : FetchCursor) (e : Event)
    → o ≡ c.oldest_fetched
    → IsAboveMin o
    → IsCovered c e
    → IsCovered (move_past o c) e
past-covers none c e p h cov = cov
past-covers (some o) c e p h cov = go (rw (← p) at cov)
  where
    go :
        IsBehind (some o) c.oldest_boundary_ids e.created_at e.id
        → IsCovered (move_past (some o) c) e
    go (inl young) = inl (before-lt o e.created_at h.0 h.1 (omega arith))
    go (inr (at, known)) = inl (before-lt o e.created_at h.0 h.1 (rw at (omega arith)))

module _ (events : List Event) (done_at : ℤ) (c : FetchCursor) where
  -- After a page with something new the oldest end is the one of the update.
  pub advance-oldest :
      (x : Event) (xs : List Event)
      → let set = set_oldest (oldest_timestamp none (x ∷ xs)) (x ∷ xs) c in
        let advanced = advance_backward events (x ∷ xs) done_at c in
        (advanced.oldest_fetched ≡ set.oldest_fetched)
        × (advanced.oldest_boundary_ids ≡ set.oldest_boundary_ids)
  unfolding advance_backward
  advance-oldest x xs = ground arith

  pub advance-covers_cons :
      (x : Event) (xs : List Event) (e : Event)
      → IsBounded c.oldest_fetched (x ∷ xs)
      → IsCovered c e
      → IsCovered (advance_backward events (x ∷ xs) done_at c) e
  advance-covers_cons x xs e h cov =
      let (oldest, ids) = advance-oldest x xs in
      rw (oldest, ids) (older-covers (oldest_timestamp none (x ∷ xs)) c (x ∷ xs) e refl h cov)

  -- What a cursor covers it covers after a further page.
  pub advance-covers_seen :
      (new : List Event) (e : Event)
      → IsBounded c.oldest_fetched new
      → IsAboveMin c.oldest_fetched
      → IsCovered c e
      → IsCovered (advance_backward events new done_at c) e
  unfolding advance_backward oldest_timestamp
  advance-covers_seen [] e h k cov =
      let past = past-covers c.oldest_fetched c e refl k cov in ground arith
  advance-covers_seen (x ∷ xs) e h k cov = advance-covers_cons x xs e h cov

  -- What is new in a page is covered afterwards.
  pub advance-covers_new :
      (new : List Event) → All (IsCovered (advance_backward events new done_at c)) new
  advance-covers_new [] = tt
  advance-covers_new (x ∷ xs) =
      let (oldest, ids) = advance-oldest x xs in
      All-map (λ e cov. rw (oldest, ids) cov) (x ∷ xs)
        (new-IsCovered (oldest_timestamp none (x ∷ xs)) c (x ∷ xs) refl)

pub unseen-uncovered :
    (o : Option ℤ) (ids : List String) (es : List Event)
    → IsBounded o es
    → All (λ e. has e.id ids ≡ false) es
    → All (λ e. ¬ IsBehind o ids e.created_at e.id) es
unseen-uncovered none ids [] h k = tt
unseen-uncovered none ids (e ∷ es) h k = (λ b. b, unseen-uncovered none ids es tt k.1)
unseen-uncovered (some o) ids [] h k = tt
unseen-uncovered (some o) ids (e ∷ es) h k = (
  λ b. elim b [ inl young ↦ omega arith | inr (at, known) ↦ false≢true (sym k.0 ∙ known) ],
  unseen-uncovered (some o) ids es h.1 k.1,
)

module _ {S : Type 0} (on_event : Event → S → S) (events : List Event) (s : S) where
  pub deliver-IsBounded :
      (o : Option ℤ) (boundary : List String)
      → IsBounded o events
      → IsBounded o (deliver on_event boundary events s).0
  deliver-IsBounded none boundary h = tt
  deliver-IsBounded (some o) boundary h =
      deliver-All on_event boundary (λ e. e.created_at ≤ℤ o) events s h

  -- What a page delivers was not covered by the cursor before.
  pub deliver-uncovered :
      (c : FetchCursor)
      → IsBounded c.oldest_fetched events
      → All (λ e. ¬ IsCovered c e) (deliver on_event c.oldest_boundary_ids events s).0
  deliver-uncovered c h =
      unseen-uncovered c.oldest_fetched c.oldest_boundary_ids
        (deliver on_event c.oldest_boundary_ids events s).0
        (deliver-IsBounded c.oldest_fetched c.oldest_boundary_ids h)
        (deliver-unseen on_event c.oldest_boundary_ids events s)
