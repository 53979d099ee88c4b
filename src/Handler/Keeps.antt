-- ===== src/Handler/Keeps.antt =====
-- Invariants of code that yields events: one rule for each way to build it.
pub mod Waves
pub mod Streams
use cipolin.Base.{
  ◌≡◌, refl, Bool, true, false, List, [], ◌∷◌, ◌++◌, Option, none, some, arith, All, All-append,
  if◌then◌else◌,
}
use cipolin.Nostr.{Event}
use cipolin.Base.Int.{ℤ, pos, ltb_ℤ}
use cipolin.Handler.Send.{Snapshot}
use cipolin.Handler.Serve.{Signal, cancelled, synced, tick, Session, follow_sync, stream}
use cipolin.Handler.Run.{
  World, Run, done, panicked, waiting, M, follow, ◌>>=◌, pure, panic, wait, publish, receive,
  yield_event,
}

-- Whether the code has panicked.
abbrev pub panics : {A : Type 0} → Run A → Bool
panics (done a) = false
panics panicked = true
panics waiting = false

-- The code keeps `P`, whether it ends, panics or waits, and it panics only if `Panics`.
pub record Keeps {A : Type 0} (Panics : Type 0) (P : World → Type 0) (m : M A) : Type 0 where
  pub at : (w : World) → P w → P (m w).1
  pub calm : (w : World) → P w → panics (m w).0 ≡ true → Panics

module _ {A : Type 0} {Panics : Type 0} {P : World → Type 0} where
  pub Keeps-pure : (a : A) → Keeps Panics P (pure a)
  Keeps-pure a = record { at = λ w h. h; calm = λ w h e. ground arith }

  pub Keeps-panic : Panics → Keeps Panics P (panic {A = A})
  Keeps-panic p = record { at = λ w h. h; calm = λ w h e. p }

  pub Keeps-wait : Keeps Panics P (wait {A = A})
  Keeps-wait = record { at = λ w h. h; calm = λ w h e. ground arith }

  pub Keeps-if :
      (b : Bool) (m n : M A)
      → (b ≡ true → Keeps Panics P m)
      → (b ≡ false → Keeps Panics P n)
      → Keeps Panics P (if b then m else n)
  Keeps-if true m n km kn = km refl
  Keeps-if false m n km kn = kn refl

module _ {A B : Type 0} {Panics : Type 0} {P : World → Type 0} where
  followed :
      (r : Run A) (f : A → M B) (w : World)
      → ((a : A) → Keeps Panics P (f a))
      → P w
      → P (follow r f w).1
  followed (done a) f w k h = (k a).at w h
  followed panicked f w k h = h
  followed waiting f w k h = h

  followed_calm :
      (r : Run A) (f : A → M B) (w : World)
      → ((a : A) → Keeps Panics P (f a))
      → P w
      → (panics r ≡ true → Panics)
      → panics (follow r f w).0 ≡ true
      → Panics
  followed_calm (done a) f w k h c e = (k a).calm w h e
  followed_calm panicked f w k h c e = c refl
  followed_calm waiting f w k h c e = ground arith

  pub Keeps-bind :
      (m : M A) (f : A → M B)
      → Keeps Panics P m
      → ((a : A) → Keeps Panics P (f a))
      → Keeps Panics P (m >>= f)
  Keeps-bind m f km kf = record {
    at = λ w h. followed (m w).0 f (m w).1 kf (km.at w h);
    calm = λ w h. followed_calm (m w).0 f (m w).1 kf (km.at w h) (km.calm w h);
  }

-- The sync ends while the stream follows it.
unfoldable pub ends_synced : List Signal → Bool
ends_synced [] = false
ends_synced (cancelled ∷ rest) = false
ends_synced (synced s ∷ rest) = true
ends_synced (tick count s ∷ rest) = ends_synced rest

-- A stream keeps what its waves keep, where `Fits` tells which waves it sends.
module _ {Panics : Type 0} {P : World → Type 0} (Fits : Bool → Type 0)
    (send : Snapshot → Bool → M (Unit {0}))
    (k : (s : Snapshot) (final : Bool) → Fits final → Keeps Panics P (send s final))
    (early : Fits false) where
  pub follow_sync-Keeps :
      (reads : Bool)
      → (reads ≡ false → Panics)
      → (last : ℤ) (signals : List Signal) → (ends_synced signals ≡ true → Fits true)
      → Keeps Panics P (follow_sync send reads last signals)
  unfolding follow_sync ends_synced
  follow_sync-Keeps reads may last [] fits =
      Keeps-if reads _ _ (λ _. Keeps-wait) (λ e. Keeps-panic (may e))
  follow_sync-Keeps reads may last (cancelled ∷ rest) fits = Keeps-pure tt
  follow_sync-Keeps reads may last (synced s ∷ rest) fits =
      Keeps-if reads _ _ (λ _. k s true (fits refl))
        (λ e. Keeps-bind _ _ (k s true (fits refl)) (λ _. Keeps-panic (may e)))
  follow_sync-Keeps reads may last (tick count s ∷ rest) fits =
      Keeps-if (ltb_ℤ last count) _ _
        (λ _. Keeps-bind _ _ (k s false early) (λ _. follow_sync-Keeps reads may count rest fits))
        (λ _. follow_sync-Keeps reads may last rest fits)

  pub stream-Keeps :
      (reads : Bool)
      → (reads ≡ false → Panics)
      → (x : Session) → (ends_synced x.signals ≡ true → Fits true)
      → Keeps Panics P (stream send reads x)
  stream-Keeps reads may x fits =
      Keeps-bind _ _ (k x.initial false early)
        (λ _. follow_sync-Keeps reads may (pos 0) x.signals fits)
