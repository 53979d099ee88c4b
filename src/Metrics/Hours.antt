-- ===== src/Metrics/Hours.antt =====
-- internal/metrics/metrics.go: the range of the hours in which a user is active.
pub mod Range
use cipolin.Base.{
  ℕ, zero, suc, ◌+◌, ◌-◌, ◌/◌, ◌%◌, Bool, true, false, not, List, [], ◌∷◌, length, get_or, ltb, leb,
  ◌==◌, if◌then◌else◌,
}

-- The largest count and its first hour; the counts are those from hour `h` on.
unfoldable pub find_peak : ℕ → ℕ → ℕ → List ℕ → ℕ × ℕ
find_peak h max_count peak_hour [] = (max_count, peak_hour)
find_peak h max_count peak_hour (count ∷ counts) =
    find_peak (suc h) (if ltb max_count count then count else max_count)
      (if ltb max_count count then h else peak_hour) counts

-- The two loops from the peak: `hour_of i` is the hour of the `i`-th turn, and so many turns are
-- left. An hour under the threshold ends the loop.
unfoldable pub expand : List ℕ → ℕ → (ℕ → ℕ) → ℕ → ℕ → ℕ → ℕ
expand counts threshold hour_of last i zero = last
expand counts threshold hour_of last i (suc left) =
    let rest = expand counts threshold hour_of (hour_of i) (suc i) left in
    if leb threshold (get_or counts (hour_of i) 0) then rest else last

-- `(peakHour - i + 24) % 24`, where `i` is less than 24.
abbrev pub hour_before : ℕ → ℕ → ℕ
hour_before peak i = (peak + 24 - i) % 24

abbrev pub hour_after : ℕ → ℕ → ℕ
hour_after peak i = (peak + i) % 24

-- The range around the peak.
abbrev pub around_peak : List ℕ → ℕ → ℕ → ℕ × ℕ
around_peak counts threshold peak = (
  expand counts threshold (hour_before peak) peak 1 11,
  (expand counts threshold (hour_after peak) peak 1 11 + 1) % 24,
)

unfoldable pub find_active_hours_range : List ℕ → ℕ × ℕ
unfolding find_peak expand
find_active_hours_range counts =
    let peak = find_peak 0 0 0 counts in
    if not (length counts == 24)
    then (0, 24)
    else if peak.0 == 0
    then (0, 24)
    else around_peak counts (peak.0 / 4) peak.1
