-- ===== src/Base/Tables.antt =====
-- Tests at every number below a bound, which a table of the values proves.
use cipolin.Base.{ℕ, zero, suc, ◌<◌, ◌≡◌, Bool, true, false, ◌&&◌, not, arith}

unfoldable pub holds_until : (ℕ → Bool) → ℕ → Bool
holds_until test zero = true
holds_until test (suc k) = holds_until test k && test k

pub holds-below :
    (test : ℕ → Bool) (bound k : ℕ) → k < bound → holds_until test bound ≡ true → test k ≡ true
unfolding holds_until
holds-below test zero k below all? = absurd (omega arith)
holds-below test (suc b) k below all? = ground (arith, holds-below test b k)

abbrev pub same : Bool → Bool → Bool
same true b = b
same false b = not b

pub same-eq : (a b : Bool) → same a b ≡ true → a ≡ b
same-eq true b h = ground arith
same-eq false b h = ground arith
