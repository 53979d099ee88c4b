-- ===== src/Handler/Early.antt =====
-- Streams whose sync does not end.
use cipolin.Base.{ℕ, ◌≡◌, refl, Bool, true, false, List, some, All-elements, arith}
use cipolin.Base.Texts.{String}
use cipolin.Nostr.{Event, Filter}
use cipolin.Keys.Manager.{Crypto, MetricKeyManager}
use cipolin.Handler.Run.{World, yield_event, receive}
use cipolin.Handler.Send.{emit}
use cipolin.Handler.Serve.{Session, handle_nip85_query, subjects}
use cipolin.Handler.Keeps.{Keeps, Keeps-pure, Keeps-bind, ends_synced}
use cipolin.Handler.Keeps.Waves.{waves}
use cipolin.Handler.Keeps.Streams.{handle_nip85_query-Keeps}

module _ (y : Crypto) (km : MetricKeyManager y) (goes_on : List Event → Bool)
    (events : List Event) where
  abbrev Published : World → Type 0
  Published w = w.published ≡ events

  yield-Published : (e : Event) → Keeps (Unit {0}) Published (yield_event goes_on e)
  unfolding yield_event
  yield-Published e = record { at = λ w h. kept w.is_open w h; calm = λ _ _ _. tt }
    where
      kept : (open? : Bool) (w : World) → Published w → Published (receive goes_on open? e w).1
      kept true w h = h
      kept false w h = h

  send-Published :
      (final : Bool) (e : Event)
      → final ≡ false
      → Keeps (Unit {0}) Published (emit y km goes_on final (some e))
  send-Published true e early = ground (arith, early)
  send-Published false e early = Keeps-bind _ _ (Keeps-pure tt) (λ _. yield-Published e)

-- When no stream of a query sees the end of its sync (the client goes away or is still waiting),
-- the handler publishes nothing to the storage relays: only the final wave is published.
pub handle_nip85_query-unpublished :
    (y : Crypto) (km : MetricKeyManager y) (is_hex : String → Bool) (goes_on : List Event → Bool)
    (session : ℕ → String → Session) (f : Filter) (w : World)
    → ((kind : ℕ) (subject : String) → ends_synced (session kind subject).signals ≡ false)
    → (handle_nip85_query y km is_hex goes_on session f w).1.published ≡ w.published
handle_nip85_query-unpublished y km is_hex goes_on session f w early =
    (handle_nip85_query-Keeps y km is_hex goes_on session f
        (waves y km goes_on f.authors (λ final. final ≡ false) (λ _. Unit {0}) (λ _ _ _ _ _ _. tt)
          (λ final e fits _. send-Published y km goes_on w.published final e fits) refl)
        (λ kind d e. ground (arith, early kind d, e))
        (All-elements (λ d. ((λ _ _. tt), (λ _. tt))) (subjects f))).at
      w refl
