-- ===== src/Handler/Run.antt =====
-- Code that yields events to the loop of its caller. In Go a range-over-func loop panics when it
-- is given an event after its body has ended the loop.
use cipolin.Base.{Bool, true, false, List, [], ◌∷◌, ◌++◌}
use cipolin.Nostr.{Event}

-- What the caller's loop has received, whether it still takes events, and what was handed to the
-- storage relays.
pub record World : Type 0 where
  pub received : List Event
  pub is_open : Bool
  pub published : List Event

-- How a piece of code ends: with a value, by a panic, or not yet.
pub data Run {ℓ} (A : Type ℓ) : Type ℓ where
  done : A → Run A
  panicked : Run A
  waiting : Run A

abbrev pub M : Type 0 → Type 0
M A = World → Run A × World

abbrev pub follow : {A B : Type 0} → Run A → (A → M B) → M B
follow (done a) f w = f a w
follow panicked f w = (panicked, w)
follow waiting f w = (waiting, w)

infixl 5 ◌>>=◌ ◌>>◌
abbrev pub ◌>>=◌ : {A B : Type 0} → M A → (A → M B) → M B
◌>>=◌ m f w = let (r, w') = m w in follow r f w'

abbrev pub ◌>>◌ : {A B : Type 0} → M A → M B → M B
m >> k = m >>= λ _. k

abbrev pub pure : {A : Type 0} → A → M A
pure a w = (done a, w)

abbrev pub panic : {A : Type 0} → M A
panic w = (panicked, w)

abbrev pub wait : {A : Type 0} → M A
wait w = (waiting, w)

-- The goroutines that publish an event are started; they take no part in the stream.
unfoldable pub publish : Event → M (Unit {0})
publish e w = (done tt, record w { published = w.published ++ e ∷ [] })

module _ (goes_on : List Event → Bool) where
  abbrev pub receive : Bool → Event → M Bool
  receive true e w =
      let more = goes_on (w.received ++ e ∷ []) in
      (done more, record w { received = w.received ++ e ∷ []; is_open = more })
  receive false e w = (panicked, w)

  -- `yield`: the body of the caller's loop receives the event and says whether it goes on.
  unfoldable pub yield_event : Event → M Bool
  yield_event e w = receive w.is_open e w
