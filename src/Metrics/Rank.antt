-- ===== src/Metrics/Rank.antt =====
-- internal/metrics/metrics.go: the normalised ranks.
use cipolin.Base.{ℕ, Bool, if◌then◌else◌, arith}
use cipolin.Base.Int.{ℤ, pos, ltb_ℤ, ◌≤ℤ◌}

-- The float64 of Go, by the operations that the ranks use. A literal is a fraction, and the
-- conversion to an integer is any for what is out of range.
pub record Floats : Type 1 where
  pub Float : Type 0
  pub literal : ℕ → ℕ → Float
  pub of_int : ℤ → Float
  pub add : Float → Float → Float
  pub mul : Float → Float → Float
  pub div : Float → Float → Float
  pub log10 : Float → Float
  pub is_le_zero : Float → Bool
  pub to_int : Float → ℤ

-- The two tests at the end: the first one's result is what the second one tests.
abbrev at_most : ℤ → ℤ
at_most rank = if ltb_ℤ (pos 100) rank then pos 100 else rank

abbrev at_least : ℤ → ℤ
at_least rank = if ltb_ℤ rank (pos 0) then pos 0 else rank

module _ (fl : Floats) where
  open fl use {Float, literal, of_int, add, mul, div, log10, is_le_zero, to_int}

  -- The rank of a score, on a logarithmic scale with this many powers of ten.
  unfoldable pub normalised : ℕ → Float → ℤ
  normalised scale score =
      if is_le_zero score
      then pos 0
      else at_least (at_most (to_int (mul (div (log10 score) (literal scale 1)) (literal 100 1))))

  unfoldable pub calculate_user_rank : ℤ → ℤ → ℤ → ℤ → ℤ
  unfolding normalised
  calculate_user_rank followers posts zap_amount zap_count = normalised 6 (
      add
        (add (add (mul (of_int followers) (literal 1 1)) (mul (of_int posts) (literal 1 2)))
          (mul (of_int zap_amount) (literal 1 1000)))
        (mul (of_int zap_count) (literal 2 1)))

  unfoldable pub calculate_event_rank : ℤ → ℤ → ℤ → ℤ → ℤ → ℤ → ℤ
  unfolding normalised
  calculate_event_rank comments quotes reposts reactions zaps zap_amount = normalised 4 (
      add
        (add
          (add
            (add (add (mul (of_int comments) (literal 3 1)) (mul (of_int quotes) (literal 5 1)))
              (mul (of_int reposts) (literal 2 1)))
            (mul (of_int reactions) (literal 1 1)))
          (mul (of_int zaps) (literal 4 1)))
        (mul (of_int zap_amount) (literal 1 100)))

  abbrev pub IsRank : ℤ → Type 0
  IsRank rank = (pos 0 ≤ℤ rank) × (rank ≤ℤ pos 100)

  normalised-IsRank : (scale : ℕ) (score : Float) → IsRank (normalised scale score)
  unfolding normalised
  normalised-IsRank scale score = ground arith

-- Both ranks are between 0 and 100, whatever the counts and the amounts and whatever the
-- arithmetic of the floating-point numbers gives.
pub ranks-IsRank :
    (fl : Floats) (a b c d e f : ℤ)
    → IsRank fl (calculate_user_rank fl a b c d) × IsRank fl (calculate_event_rank fl a b c d e f)
unfolding calculate_user_rank calculate_event_rank
ranks-IsRank fl a b c d e f = (normalised-IsRank fl 6 _, normalised-IsRank fl 4 _)
