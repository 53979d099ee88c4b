-- ===== src/Handler/Selective.antt =====
-- A client that names authors receives events of these authors alone.
use cipolin.Base.{
  ℕ, ◌≡◌, Bool, true, false, List, [], ◌∷◌, some, arith, Option-cases, inl, inr, All, All-append,
  All-elements, subst, sym, ◌∙◌,
}
use cipolin.Base.Texts.{String, has}
use cipolin.Nostr.{Event, Filter}
use cipolin.Keys.Matched.{get_key-matched}
use cipolin.Keys.Manager.{
  Crypto, MetricKeyManager, new_metric_key_manager, get_key, get_pub_key, sign_event_for_metric,
}
use cipolin.Fetcher.Pages.{is_empty}
use cipolin.Handler.Run.{World, M, publish, yield_event, receive}
use cipolin.Handler.Keeps.Waves.{waves}
use cipolin.Handler.Keeps.Streams.{handle_nip85_query-Keeps}
use cipolin.Handler.Keeps.{Keeps, Keeps-pure, Keeps-bind}
use cipolin.Handler.Assert.{should_generate_metric}
use cipolin.Handler.Send.{emit}
use cipolin.Handler.Serve.{Session, handle_nip85_query, subjects}

-- What the nostr library says of `Event.Sign`: it makes the public key of the secret the author of
-- the event.
pub record SignsForSecret (y : Crypto) : Type 0 where
  pub pubkey-sign :
      (s : y.Secret) (e e' : Event) → y.sign s e ≡ some e' → e'.pubkey ≡ y.public_key s

-- All that the caller's loop has received satisfies the predicate.
abbrev Received : (Event → Type 0) → World → Type 0
Received Good w = All Good w.received

-- The waves of such a client may panic.
abbrev KeepsReceived : {A : Type 0} → (Event → Type 0) → M A → Type 0
KeepsReceived Good m = Keeps (Unit {0}) (Received Good) m

module _ (Good : Event → Type 0) where
  Keeps-publish : (e : Event) → KeepsReceived Good (publish e)
  unfolding publish
  Keeps-publish e = record { at = λ w h. h; calm = λ _ _ _. tt }

  Keeps-yield :
      (goes_on : List Event → Bool) (e : Event)
      → Good e
      → KeepsReceived Good (yield_event goes_on e)
  unfolding yield_event
  Keeps-yield goes_on e good = record { at = λ w h. received w.is_open w h; calm = λ _ _ _. tt }
    where
      received :
          (open? : Bool) (w : World) → Received Good w → Received Good (receive goes_on open? e w).1
      received true w h = All-append Good w.received (e ∷ []) h (good, tt)
      received false w h = h

-- The author of the event is one of these.
abbrev pub ByAuthors : List String → Event → Type 0
ByAuthors authors e = has e.pubkey authors ≡ true

module _ (y : Crypto) (signs : SignsForSecret y) (master : String) where
  abbrev km : MetricKeyManager y
  km = new_metric_key_manager y master

  -- A signed event has the key of its kind and metric for an author.
  pub sign-author :
      (e e' : Event) (kind metric : String)
      → sign_event_for_metric y km e kind metric ≡ some e'
      → e'.pubkey ≡ get_pub_key y km kind metric
  unfolding sign_event_for_metric get_pub_key
  sign-author e e' kind metric h = elim (Option-cases (get_key y km kind metric)) [
    | inl p ↦ ground arith
    | inr (k, p) ↦
        let own = signs.pubkey-sign k.private_key (record e { pubkey = k.public }) e' in
        rw p (own (ground arith) ∙ sym (get_key-matched y master kind metric k p))
  ]

  module _ (goes_on : List Event → Bool) (authors : List String)
      (named : is_empty authors ≡ false) where
    should_generate-has :
        (kind metric : String)
        → should_generate_metric y km kind metric authors ≡ true
        → has (get_pub_key y km kind metric) authors ≡ true
    unfolding should_generate_metric
    should_generate-has kind metric h = ground arith

    send-Keeps :
        (final : Bool) (e : Event)
        → ByAuthors authors e
        → KeepsReceived (ByAuthors authors) (emit y km goes_on final (some e))
    send-Keeps true e good =
        Keeps-bind _ _ (Keeps-publish (ByAuthors authors) e)
          (λ _. Keeps-yield (ByAuthors authors) goes_on e good)
    send-Keeps false e good =
        Keeps-bind _ _ (Keeps-pure tt) (λ _. Keeps-yield (ByAuthors authors) goes_on e good)

    by_authors :
        (e e' : Event) (kind metric : String)
        → sign_event_for_metric y km e kind metric ≡ some e'
        → should_generate_metric y km kind metric authors ≡ true
        → ByAuthors authors e'
    by_authors e e' kind metric q p =
        rw (sign-author e e' kind metric q) (should_generate-has kind metric p)

-- A client that has received nothing and whose query names authors receives events of these
-- authors alone, whichever kinds and subjects it asks for, whatever the streams meet, and whether
-- or not it stops listening. The keys are those of a new manager, and a signature is assumed to
-- make the public key of its secret the author of the event.
pub handle_nip85_query-selective :
    (y : Crypto)
    → SignsForSecret y
    → (master : String) (is_hex : String → Bool) (goes_on : List Event → Bool)
      (session : ℕ → String → Session) (f : Filter) (w : World)
    → is_empty f.authors ≡ false
    → w.received ≡ []
    → All
        (ByAuthors f.authors)
        (handle_nip85_query y
          (new_metric_key_manager y master)
          is_hex
          goes_on
          session
          f
          w).1.received
handle_nip85_query-selective y signs master is_hex goes_on session f w named empty =
    (handle_nip85_query-Keeps y (new_metric_key_manager y master) is_hex goes_on session f
        (waves y (new_metric_key_manager y master) goes_on f.authors (λ _. Unit {0})
          (ByAuthors f.authors) (by_authors y signs master goes_on f.authors named)
          (λ final e _ good. send-Keeps y signs master goes_on f.authors named final e good) tt)
        (λ _ _ _. tt) (All-elements (λ d. ((λ _ _. tt), (λ _. tt))) (subjects f))).at
      w (subst (All (ByAuthors f.authors)) (sym empty) tt)
