-- ===== src/Metrics/Hours/Range.antt =====
-- The range goes from the busiest hour to both sides as far as the hours are busy.
use cipolin.Base.{
  ℕ, zero, suc, ◌+◌, ◌/◌, ◌%◌, ◌≤◌, ◌<◌, ◌≡◌, ◌⊎◌, inl, inr, refl, sym, ◌∙◌, ap, subst, Bool, false,
  not, List, [], ◌∷◌, length, get_or, ltb, leb, ◌==◌, if◌then◌else◌, All, arith, Bool-cases,
}
use cipolin.Metrics.Hours.{
  find_peak, expand, hour_before, hour_after, around_peak, find_active_hours_range,
}

-- The hours from the first turn on are busy, `far` of them, and the next is not, unless the turns
-- are over.
pub record IsFarthest (counts : List ℕ) (threshold : ℕ) (hour_of : ℕ → ℕ) (far : ℕ) : Type 0 where
  pub in_turns : far ≤ 11
  pub busy : (i : ℕ) → 1 ≤ i → i ≤ far → threshold ≤ get_or counts (hour_of i) 0
  pub ended : (far ≡ 11) ⊎ (get_or counts (hour_of (far + 1)) 0 < threshold)

-- A range of hours around a busiest hour, with a quarter of its count as the threshold.
pub record IsActiveRange (counts : List ℕ) (start end : ℕ) : Type 0 where
  pub peak : ℕ
  pub back : ℕ
  pub ahead : ℕ
  pub is_hour : peak < 24
  pub busiest : All (λ c. c ≤ get_or counts peak 0) counts
  pub starts : start ≡ hour_before peak back
  pub ends : end ≡ (hour_after peak ahead + 1) % 24
  pub backward : IsFarthest counts (get_or counts peak 0 / 4) (hour_before peak) back
  pub forward : IsFarthest counts (get_or counts peak 0 / 4) (hour_after peak) ahead

module _ (counts : List ℕ) (threshold : ℕ) (hour_of : ℕ → ℕ) where
  abbrev IsBusy : ℕ → Type 0
  IsBusy i = threshold ≤ get_or counts (hour_of i) 0

  -- From the hour of turn `i`, with so many turns left.
  record Went (i left end : ℕ) : Type 0 where
    pub far : ℕ
    pub in_turns : far ≤ left
    pub at : end ≡ hour_of (i + far)
    pub busy : (j : ℕ) → 1 ≤ j → j ≤ far → IsBusy (i + j)
    pub ended : (far ≡ left) ⊎ (get_or counts (hour_of (i + far + 1)) 0 < threshold)

  further :
      (i far : ℕ)
      → IsBusy (suc i)
      → ((j : ℕ) → 1 ≤ j → j ≤ far → IsBusy (suc i + j))
      → (j : ℕ) → 1 ≤ j
      → j ≤ suc far
      → IsBusy (i + j)
  further i far b bs zero h k = absurd (omega arith)
  further i far b bs (suc zero) h k = subst IsBusy (omega arith) b
  further i far b bs (suc (suc j)) h k =
      subst IsBusy (omega arith) (bs (suc j) (omega arith) (omega arith))

  expand-Went :
      (i left : ℕ) → Went i left (expand counts threshold hour_of (hour_of i) (suc i) left)
  unfolding expand
  expand-Went i zero = record {
    far = 0;
    in_turns = omega arith;
    at = ap hour_of (omega arith);
    busy = λ j h k. absurd (omega arith);
    ended = inl refl;
  }
  expand-Went i (suc left) =
      let rest = expand-Went (suc i) left in
      elim (Bool-cases (leb threshold (get_or counts (hour_of (suc i)) 0))) [
        | inl e ↦ record {
          far = suc rest.far;
          in_turns = omega (arith, rest.in_turns);
          at = rw e (rest.at ∙ ap hour_of (omega arith));
          busy = further i rest.far (ground arith) rest.busy;
          ended = elim rest.ended [
            | inl all? ↦ inl (ap suc all?)
            | inr low ↦ inr (subst (λ x. get_or counts (hour_of x) 0 < threshold) (omega arith) low)
          ];
        }
        | inr e ↦ record {
          far = 0;
          in_turns = omega arith;
          at = rw e (ap hour_of (omega arith));
          busy = λ j h k. absurd (omega arith);
          ended =
              let next : suc i ≡ i + 0 + 1 = omega arith in
              let low : get_or counts (hour_of (suc i)) 0 < threshold = ground arith in
              inr (subst (λ x. get_or counts (hour_of x) 0 < threshold) next low);
        }
      ]

  farthest : (end : ℕ) (w : Went 0 11 end) → IsFarthest counts threshold hour_of w.far
  farthest end w = record {
    in_turns = w.in_turns;
    busy = λ i h k. let here : 0 + i ≡ i = omega arith in subst IsBusy here (w.busy i h k);
    ended = elim w.ended [
      | inl all? ↦ inl all?
      | inr low ↦
          let next : 0 + w.far + 1 ≡ w.far + 1 = omega arith in
          inr (subst (λ x. get_or counts (hour_of x) 0 < threshold) next low)
    ];
  }

Bounds : ℕ → List ℕ → ℕ × ℕ → Type 0
Bounds m counts best = (m ≤ best.0) × All (λ c. c ≤ best.0) counts

find_peak-Bounds : (h m p : ℕ) (counts : List ℕ) → Bounds m counts (find_peak h m p counts)
unfolding find_peak Bounds
find_peak-Bounds h m p [] = (omega arith, tt)
find_peak-Bounds h m p (c ∷ counts) = elim (Bool-cases (ltb m c)) [
  | inl e ↦
      let step : find_peak (suc h) c h counts ≡ find_peak h m p (c ∷ counts) =
        rw (e, find_peak) refl in
      let (top, all) = find_peak-Bounds (suc h) c h counts in
      subst (Bounds m (c ∷ counts)) step (ground (arith, top), (top, all))
  | inr e ↦
      let step : find_peak (suc h) m p counts ≡ find_peak h m p (c ∷ counts) =
        rw (e, find_peak) refl in
      let (top, all) = find_peak-Bounds (suc h) m p counts in
      subst (Bounds m (c ∷ counts)) step (top, (ground (arith, top), all))
]

-- The hour of the peak has its count, or there is no count above the one so far.
PeakAt : ℕ → ℕ → ℕ → List ℕ → ℕ × ℕ → Type 0
PeakAt h m p counts best =
    ((best.0 ≡ m) × (best.1 ≡ p))
    ⊎ ((i : ℕ) × (i < length counts) × (best.1 ≡ h + i) × (get_or counts i 0 ≡ best.0))

find_peak-PeakAt : (h m p : ℕ) (counts : List ℕ) → PeakAt h m p counts (find_peak h m p counts)
unfolding find_peak PeakAt
find_peak-PeakAt h m p [] = inl (refl, refl)
find_peak-PeakAt h m p (c ∷ counts) = elim (Bool-cases (ltb m c)) [
  | inl e ↦
      rw (e, find_peak)
        (elim (find_peak-PeakAt (suc h) c h counts) [
          | inl (v, at) ↦ inr (0, omega arith, at ∙ omega arith, sym v)
          | inr (i, lt, at, v) ↦ inr (suc i, omega arith, at ∙ omega arith, v)
        ])
  | inr e ↦
      rw (e, find_peak)
        (elim (find_peak-PeakAt (suc h) m p counts) [
          | inl (v, at) ↦ inl (v, at)
          | inr (i, lt, at, v) ↦ inr (suc i, omega arith, at ∙ omega arith, v)
        ])
]

active_range :
    (counts : List ℕ) (best : ℕ × ℕ)
    → length counts ≡ 24
    → Bounds 0 counts best
    → best.1 < 24
    → get_or counts best.1 0 ≡ best.0
    → let r = around_peak counts (best.0 / 4) best.1 in IsActiveRange counts r.0 r.1
unfolding Bounds
active_range counts best long (low, all) hour at =
    let first : best.1 ≡ hour_before best.1 0 = omega arith in
    let first' : best.1 ≡ hour_after best.1 0 = omega arith in
    let down =
      subst
        (λ x.
          Went counts (best.0 / 4) (hour_before best.1) 0 11
            (expand counts (best.0 / 4) (hour_before best.1) x 1 11))
        (sym first) (expand-Went counts (best.0 / 4) (hour_before best.1) 0 11) in
    let up =
      subst
        (λ x.
          Went counts (best.0 / 4) (hour_after best.1) 0 11
            (expand counts (best.0 / 4) (hour_after best.1) x 1 11))
        (sym first') (expand-Went counts (best.0 / 4) (hour_after best.1) 0 11) in
    record {
      peak = best.1;
      back = down.far;
      ahead = up.far;
      is_hour = hour;
      busiest = subst (λ x. All (λ c. c ≤ x) counts) (sym at) all;
      starts = down.at ∙ ap (hour_before best.1) (omega arith);
      ends = ap (λ x. (x + 1) % 24) (up.at ∙ ap (hour_after best.1) (omega arith));
      backward =
          subst (λ x. IsFarthest counts (x / 4) (hour_before best.1) down.far) (sym at)
            (farthest counts (best.0 / 4) (hour_before best.1) _ down);
      forward =
          subst (λ x. IsFarthest counts (x / 4) (hour_after best.1) up.far) (sym at)
            (farthest counts (best.0 / 4) (hour_after best.1) _ up);
    }

guarded :
    (P : ℕ × ℕ → Type 0) (b c : Bool) (r s : ℕ × ℕ)
    → b ≡ false
    → c ≡ false
    → P r
    → P (if b then s else if c then s else r)
guarded P b c r s h k p = rw (h, k) p

not_zero :
    (counts : List ℕ) (best : ℕ × ℕ)
    → ¬ All (λ c. c ≤ 0) counts
    → Bounds 0 counts best
    → (best.0 == 0) ≡ false
unfolding Bounds
not_zero counts best active (low, all) = elim (Bool-cases (best.0 == 0)) [
  | inl e ↦
      let zero? : best.0 ≡ 0 = ground (arith, e) in
      absurd (active (subst (λ x. All (λ c. c ≤ x) counts) zero? all))
  | inr e ↦ e
]

-- A peak that is not zero stands at an hour of the day.
peak_hour :
    (counts : List ℕ) (best : ℕ × ℕ)
    → length counts ≡ 24
    → (best.0 == 0) ≡ false
    → PeakAt 0 0 0 counts best
    → (best.1 < 24) × (get_or counts best.1 0 ≡ best.0)
unfolding PeakAt
peak_hour counts best long some? (inl (none?, at)) = absurd (ground (arith, some?, none?))
peak_hour counts best long some? (inr (i, lt, at, v)) =
    let here : i ≡ best.1 = omega (arith, at) in
    (omega (arith, lt, at, long), subst (λ x. get_or counts x 0 ≡ best.0) here v)

-- For 24 counts of which one is not zero, the range starts and ends around an hour of the largest
-- count: it goes to each side as far as the hours have a quarter of that count, rounded down, and
-- by eleven hours at most. The end is the hour after the last.
pub find_active_hours_range-IsActiveRange :
    (counts : List ℕ)
    → length counts ≡ 24
    → ¬ All (λ c. c ≤ 0) counts
    → let r = find_active_hours_range counts in IsActiveRange counts r.0 r.1
unfolding find_active_hours_range
find_active_hours_range-IsActiveRange counts long active =
    let best = find_peak 0 0 0 counts in
    let bounds = find_peak-Bounds 0 0 0 counts in
    let busy = not_zero counts best active bounds in
    let (hour, at) = peak_hour counts best long busy (find_peak-PeakAt 0 0 0 counts) in
    guarded (λ r. IsActiveRange counts r.0 r.1) (not (length counts == 24)) (best.0 == 0)
      (around_peak counts (best.0 / 4) best.1) (0, 24) (ground (arith, long)) busy
      (active_range counts best long bounds hour at)
