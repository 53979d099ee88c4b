-- ===== src/Handler/Keeps/Waves.antt =====
-- The waves of a stream keep what the sending of one event keeps.
use cipolin.Base.{ℕ, ◌≡◌, refl, Bool, true, false, List, [], ◌∷◌, Option, none, some}
use cipolin.Base.Texts.{String, str_eq}
use cipolin.Base.Split.{split}
use cipolin.Nostr.{Event, Tag}
use cipolin.Keys.Manager.{Crypto, MetricKeyManager, sign_event_for_metric}
use cipolin.Handler.Run.{World, M}
use cipolin.Handler.Keeps.{Keeps, Keeps-pure, Keeps-if, Keeps-bind}
use cipolin.Handler.Assert.{
  create_metric_event, should_generate_metric, kind_user_assertion, kind_event_assertion,
  kind_address_assertion,
}
use cipolin.Keys.{event_metrics}
use cipolin.Handler.Send.{
  Snapshot, value_of, user_names, emit, continue, unless_ended, topic_event, send_metrics,
  send_topics, send_user_metrics, send_event_metrics, send_address_metrics,
}

-- The waves for every subject keep `P`, where `Fits` tells which waves are sent.
pub record Waves (y : Crypto) (km : MetricKeyManager y) (goes_on : List Event → Bool)
    (authors : List String) (Panics : Type 0) (P : World → Type 0) (Fits : Bool → Type 0)
    : Type 0 where
  pub early : Fits false
  pub user :
      (pubkey : String) (s : Snapshot) (final : Bool)
      → Fits final
      → Keeps Panics P (send_user_metrics y km goes_on pubkey s authors final)
  pub event :
      (event_id : String) (s : Snapshot) (final : Bool)
      → Fits final
      → Keeps Panics P (send_event_metrics y km goes_on event_id s authors final)
  pub address :
      (address : String) (s : Snapshot) (final : Bool)
      → Fits final
      → Keeps Panics P (send_address_metrics y km goes_on address s authors final)

module _ (y : Crypto) (km : MetricKeyManager y) (goes_on : List Event → Bool)
    (authors : List String) {Panics : Type 0} {P : World → Type 0} (Fits : Bool → Type 0)
    (Good : Event → Type 0)
    (made : (e e' : Event) (kind metric : String)
      → sign_event_for_metric y km e kind metric ≡ some e'
      → should_generate_metric y km kind metric authors ≡ true
      → Good e')
    (sends : (final : Bool) (e : Event)
      → Fits final
      → Good e
      → Keeps Panics P (emit y km goes_on final (some e))) where
  module _ (final : Bool) (fits : Fits final) where
    emit-Keeps :
        (o : Option Event)
        → ((e : Event) → o ≡ some e → Good e)
        → Keeps Panics P (emit y km goes_on final o)
    emit-Keeps none h = Keeps-pure true
    emit-Keeps (some e) h = sends final e fits (h e refl)

    continue-Keeps :
        (more : Bool) (rest : M Bool)
        → Keeps Panics P rest
        → Keeps Panics P (continue y km goes_on more rest)
    continue-Keeps true rest k = k
    continue-Keeps false rest k = Keeps-pure false

    send_metrics-Keeps :
        (kind : ℕ) (kind_str subject : String) (extra : List Tag) (s : Snapshot)
        (names : List String)
        → Keeps Panics P
            (send_metrics y km goes_on kind kind_str subject extra s authors final names)
    unfolding send_metrics create_metric_event
    send_metrics-Keeps kind kind_str subject extra s [] = Keeps-pure true
    send_metrics-Keeps kind kind_str subject extra s (name ∷ names) =
        let rest = send_metrics-Keeps kind kind_str subject extra s names in
        Keeps-if (should_generate_metric y km kind_str name authors) _ _
          (λ p.
            Keeps-bind _ _ (emit-Keeps _ (λ e q. made _ e kind_str name q p))
              (λ more. continue-Keeps more _ rest))
          (λ p. rest)

    send_topics-Keeps :
        (pubkey : String) (s : Snapshot)
        → Keeps Panics P (send_topics y km goes_on pubkey s authors final)
    unfolding send_topics
    send_topics-Keeps pubkey s =
        Keeps-if (should_generate_metric y km "30382" "t" authors) _ _
          (λ p.
            Keeps-if (str_eq (value_of s "_topics") "") _ _ (λ _. Keeps-pure tt)
              (λ _.
                Keeps-bind _ _
                  (emit-Keeps
                    (topic_event y km goes_on pubkey (split b',' (value_of s "_topics"))
                      (s.now "t"))
                    (λ e q. made _ e "30382" "t" q p))
                  (λ _. Keeps-pure tt)))
          (λ _. Keeps-pure tt)

    send_user_metrics-Keeps :
        (pubkey : String) (s : Snapshot)
        → Keeps Panics P (send_user_metrics y km goes_on pubkey s authors final)
    unfolding send_user_metrics
    send_user_metrics-Keeps pubkey s =
        Keeps-bind _ _
          (send_metrics-Keeps kind_user_assertion "30382" pubkey (("p" ∷ pubkey ∷ []) ∷ []) s
            user_names)
          (λ more. ended more)
      where
        ended :
            (more : Bool)
            → Keeps Panics P
                (unless_ended y km goes_on more (send_topics y km goes_on pubkey s authors final))
        ended true = send_topics-Keeps pubkey s
        ended false = Keeps-pure tt

    send_event_metrics-Keeps :
        (event_id : String) (s : Snapshot)
        → Keeps Panics P (send_event_metrics y km goes_on event_id s authors final)
    unfolding send_event_metrics
    send_event_metrics-Keeps event_id s =
        Keeps-bind _ _
          (send_metrics-Keeps kind_event_assertion "30383" event_id (("e" ∷ event_id ∷ []) ∷ []) s
            event_metrics)
          (λ _. Keeps-pure tt)

    send_address_metrics-Keeps :
        (address : String) (s : Snapshot)
        → Keeps Panics P (send_address_metrics y km goes_on address s authors final)
    unfolding send_address_metrics
    send_address_metrics-Keeps address s =
        Keeps-bind _ _
          (send_metrics-Keeps kind_address_assertion "30384" address (("a" ∷ address ∷ []) ∷ []) s
            event_metrics)
          (λ _. Keeps-pure tt)

  pub waves : Fits false → Waves y km goes_on authors Panics P Fits
  waves early = record {
    early = early;
    user = λ d s final fits. send_user_metrics-Keeps final fits d s;
    event = λ d s final fits. send_event_metrics-Keeps final fits d s;
    address = λ d s final fits. send_address_metrics-Keeps final fits d s;
  }
