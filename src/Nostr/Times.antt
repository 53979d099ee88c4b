-- ===== src/Nostr/Times.antt =====
-- Events that stand at a time.
use cipolin.Base.{◌≡◌, refl, Bool, true, false, ◌||◌, List, [], ◌∷◌, arith}
use cipolin.Base.Int.{ℤ, eqb_ℤ}
use cipolin.Nostr.{Event}

-- One of the events has this time of creation.
abbrev pub stands_at : ℤ → List Event → Bool
stands_at m [] = false
stands_at m (e ∷ es) = eqb_ℤ e.created_at m || stands_at m es

pub or_right : (a b : Bool) → b ≡ true → (a || b) ≡ true
or_right true b h = refl
or_right false b h = h

pub or_between : (a b c : Bool) → (a || c) ≡ true → (a || (b || c)) ≡ true
or_between true b c h = refl
or_between false b c h = or_right b c h

pub eqb_refl : (t : ℤ) → eqb_ℤ t t ≡ true
eqb_refl t = ground arith
