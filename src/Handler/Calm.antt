-- ===== src/Handler/Calm.antt =====
-- Queries of a client that listens to the end.
use cipolin.Base.{
  ◌⊎◌, inl, inr, ℕ, ◌≡◌, Bool, true, false, List, ◌∷◌, [], ◌++◌, some, All, sym, ◌∙◌, All-map,
  false≢true, arith, ◌==◌,
}
use cipolin.Base.Texts.{String, byte_len}
use cipolin.Nostr.{Event, Filter}
use cipolin.Keys.Manager.{Crypto, MetricKeyManager}
use cipolin.Handler.Run.{World, publish, yield_event, receive}
use cipolin.Handler.Send.{emit}
use cipolin.Handler.Serve.{is_readable_address, Session, handle_nip85_query, subjects}
use cipolin.Handler.Keeps.{Keeps, Keeps-pure, Keeps-bind, panics}
use cipolin.Handler.Keeps.Waves.{waves}
use cipolin.Handler.Keeps.Streams.{Readable, handle_nip85_query-Keeps}

-- A subject that no stream fails to read.
abbrev pub IsReadable : (String → Bool) → String → Type 0
IsReadable is_hex d =
    ((byte_len d == 64 ≡ false) ⊎ (is_hex d ≡ true)) × (is_readable_address is_hex d ≡ true)

module _ (y : Crypto) (km : MetricKeyManager y) (goes_on : List Event → Bool)
    (always : (es : List Event) → goes_on es ≡ true) where
  abbrev Open : World → Type 0
  Open w = w.is_open ≡ true

  yield-Open : (e : Event) → Keeps ⊥ Open (yield_event goes_on e)
  unfolding yield_event
  yield-Open e = record { at = λ w h. kept w.is_open w h; calm = λ w h. calm w.is_open w h }
    where
      kept : (open? : Bool) (w : World) → open? ≡ true → Open (receive goes_on open? e w).1
      kept true w h = always (w.received ++ e ∷ [])
      kept false w h = ground arith

      calm :
          (open? : Bool) (w : World)
          → open? ≡ true
          → panics (receive goes_on open? e w).0 ≡ true
          → ⊥
      calm true w h c = false≢true c
      calm false w h c = false≢true h

  publish-Open : (e : Event) → Keeps ⊥ Open (publish e)
  unfolding publish
  publish-Open e = record { at = λ w h. h; calm = λ w h. false≢true }

  send-Open : (final : Bool) (e : Event) → Keeps ⊥ Open (emit y km goes_on final (some e))
  send-Open true e = Keeps-bind _ _ (publish-Open e) (λ _. yield-Open e)
  send-Open false e = Keeps-bind _ _ (Keeps-pure tt) (λ _. yield-Open e)

-- A query of a client that keeps listening does not panic, whatever its streams meet, as long as
-- each subject of the length of a key is a hexadecimal number, and so is the author in each subject
-- that has the form of an address with an author of that length.
pub handle_nip85_query-calm :
    (y : Crypto) (km : MetricKeyManager y) (is_hex : String → Bool) (goes_on : List Event → Bool)
    (session : ℕ → String → Session) (f : Filter) (w : World)
    → ((es : List Event) → goes_on es ≡ true)
    → w.is_open ≡ true
    → All (IsReadable is_hex) (subjects f)
    → ¬ (panics (handle_nip85_query y km is_hex goes_on session f w).0 ≡ true)
handle_nip85_query-calm y km is_hex goes_on session f w always open? hex =
    (handle_nip85_query-Keeps y km is_hex goes_on session f
        (waves y km goes_on f.authors (λ _. Unit {0}) (λ _. Unit {0}) (λ _ _ _ _ _ _. tt)
          (λ final e _ _. send-Open y km goes_on always final e) tt)
        (λ _ _ _. tt) (All-map (λ d h. readable d h) (subjects f) hex)).calm
      w open?
  where
    readable : (d : String) → IsReadable is_hex d → Readable is_hex ⊥ d
    readable d (key, address) = (
      λ l e. elim key [ inl short ↦ false≢true (sym short ∙ l) | inr is ↦ false≢true (sym e ∙ is) ],
      λ e. false≢true (sym e ∙ address),
    )
