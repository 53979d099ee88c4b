-- ===== src/Handler/Closed.antt =====
-- A wave to a client that has ended its loop.
use cipolin.Base.{
  ℕ, ◌≡◌, refl, Bool, true, false, List, [], ◌∷◌, ◌++◌, Option, none, some, if◌then◌else◌, arith,
}
use cipolin.Base.Texts.{String}
use cipolin.Nostr.{Event, Tag}
use cipolin.Keys.{event_metrics}
use cipolin.Keys.Manager.{Crypto, MetricKeyManager}
use cipolin.Fetcher.Pages.{is_empty}
use cipolin.Handler.Run.{World, Run, panicked, M, follow, ◌>>=◌, pure, publish, yield_event}
use cipolin.Handler.Assert.{
  kind_user_assertion, kind_event_assertion, create_metric_event, should_generate_metric,
}
use cipolin.Handler.Send.{
  Snapshot, value_of, user_names, emit, continue, unless_ended, send_metrics, send_topics,
  send_user_metrics, send_event_metrics,
}
use cipolin.Handler.Delivers.{made, metric_events}

abbrev pub closed : List Event → List Event → World
closed r p = record { received = r; is_open = false; published = p }

module _ (y : Crypto) (km : MetricKeyManager y) (goes_on : List Event → Bool) where
  abbrev Panics : M Bool → List Event → Type 0
  Panics m r = (p : List Event) → (m (closed r p)).0 ≡ panicked

  step-Panics :
      (final b : Bool) (o : Option Event) (rest : M Bool) (fs r : List Event)
      → (is_empty fs ≡ false → Panics rest r)
      → is_empty (if b then made o ++ fs else fs) ≡ false
      → Panics
          (if b
            then emit y km goes_on final o >>= (λ more. continue y km goes_on more rest)
            else rest)
          r
  unfolding publish yield_event
  step-Panics final false o rest fs r k h p = k h p
  step-Panics final true none rest fs r k h p = k h p
  step-Panics true true (some e) rest fs r k h p = refl
  step-Panics false true (some e) rest fs r k h p = refl

  send_metrics-Panics :
      (kind : ℕ) (kind_str subject : String) (extra : List Tag) (s : Snapshot)
      (authors : List String) (final : Bool) (names : List String) (r : List Event)
      → is_empty (metric_events y km kind kind_str subject extra s authors names) ≡ false
      → Panics (send_metrics y km goes_on kind kind_str subject extra s authors final names) r
  unfolding send_metrics metric_events
  send_metrics-Panics kind kind_str subject extra s authors final [] r h p = ground arith
  send_metrics-Panics kind kind_str subject extra s authors final (name ∷ names) r h p =
      step-Panics final (should_generate_metric y km kind_str name authors)
        (create_metric_event y km kind subject kind_str name (value_of s name) extra (s.now name))
        (send_metrics y km goes_on kind kind_str subject extra s authors final names)
        (metric_events y km kind kind_str subject extra s authors names) r
        (send_metrics-Panics kind kind_str subject extra s authors final names r) h p

-- Once the client has ended its loop, a further wave for a user or for an event panics as soon as
-- it has the event of a requested metric.
pub send_user_metrics-panicked :
    (y : Crypto) (km : MetricKeyManager y) (goes_on : List Event → Bool) (pubkey event_id : String)
    (s : Snapshot) (authors : List String) (final : Bool) (r p : List Event)
    → is_empty (
        metric_events y km kind_user_assertion "30382" pubkey
          (("p" ∷ pubkey ∷ []) ∷ [])
          s
          authors
          user_names)
      ≡ false
    → is_empty (
        metric_events y km kind_event_assertion "30383" event_id
          (("e" ∷ event_id ∷ []) ∷ [])
          s
          authors
          event_metrics)
      ≡ false
    → ((send_user_metrics y km goes_on pubkey s authors final (closed r p)).0 ≡ panicked)
      × ((send_event_metrics y km goes_on event_id s authors final (closed r p)).0 ≡ panicked)
unfolding send_user_metrics send_event_metrics
send_user_metrics-panicked y km goes_on pubkey event_id s authors final r p user event = (
  stays
      (send_metrics y km goes_on kind_user_assertion "30382" pubkey (("p" ∷ pubkey ∷ []) ∷ []) s
        authors final user_names (closed r p))
      (λ more. unless_ended y km goes_on more (send_topics y km goes_on pubkey s authors final))
      (send_metrics-Panics y km goes_on kind_user_assertion "30382" pubkey
        (("p" ∷ pubkey ∷ []) ∷ []) s authors final user_names r user p),
  stays
      (send_metrics y km goes_on kind_event_assertion "30383" event_id (("e" ∷ event_id ∷ []) ∷ [])
        s authors final event_metrics (closed r p))
      (λ _. pure tt)
      (send_metrics-Panics y km goes_on kind_event_assertion "30383" event_id
        (("e" ∷ event_id ∷ []) ∷ []) s authors final event_metrics r event p),
)
  where
    stays :
        (c : Run Bool × World) (f : Bool → M (Unit {0}))
        → c.0 ≡ panicked
        → (follow c.0 f c.1).0 ≡ panicked
    stays c f h = rw h refl
