-- ===== src/Handler/Delivers.antt =====
-- What a wave delivers to a client that keeps listening.
pub mod Generated
use cipolin.Base.{
  ℕ, ◌≡◌, refl, sym, ap, ◌∙◌, Bool, true, false, List, [], ◌∷◌, ◌++◌, Option, none, some,
  if◌then◌else◌, append-nil, append_assoc, ◌==◌,
}
use cipolin.Base.Texts.{String, str_eq, byte_len}
use cipolin.Base.Split.{split}
use cipolin.Nostr.{Event, Tag}
use cipolin.Keys.{event_metrics}
use cipolin.Keys.Manager.{Crypto, MetricKeyManager}
use cipolin.Handler.Run.{World, Run, done, panicked, M, follow, publish, yield_event, ◌>>=◌, pure}
use cipolin.Handler.Assert.{
  kind_user_assertion, kind_event_assertion, kind_address_assertion, create_metric_event,
  should_generate_metric,
}
use cipolin.Handler.Send.{
  Snapshot, value_of, user_names, topic_event, emit, continue, send_metrics, send_topics,
  send_user_metrics, send_event_metrics, send_address_metrics, unless_ended,
}
use cipolin.Handler.Blocking.{
  keep, generate_metrics, generate_topics, generate_user_assertions, generate_event_assertions,
  generate_address_assertions,
}

-- A client that has received these events and listens on.
abbrev pub listening : List Event → List Event → World
listening r p = record { received = r; is_open = true; published = p }

abbrev pub made : Option Event → List Event
made none = []
made (some e) = e ∷ []

-- The events handed to the storage relays: those of a final wave.
abbrev pub handed : Bool → List Event → List Event
handed true es = es
handed false es = []

module _ (y : Crypto) (km : MetricKeyManager y) where
  -- The events of the metrics that the authors ask for, in order, less those not signed.
  unfoldable pub metric_events :
      ℕ → String → String → List Tag → Snapshot → List String → List String → List Event
  unfolding create_metric_event should_generate_metric
  metric_events kind kind_str subject extra s authors [] = []
  metric_events kind kind_str subject extra s authors (name ∷ names) =
      let rest = metric_events kind kind_str subject extra s authors names in
      if should_generate_metric y km kind_str name authors
      then made
          (create_metric_event y km kind subject kind_str name (value_of s name) extra (s.now name))
        ++ rest
      else rest

  -- The event of the topics, if any.
  unfoldable pub topic_events : String → Snapshot → List String → List Event
  unfolding should_generate_metric split
  topic_events pubkey s authors =
      if should_generate_metric y km "30382" "t" authors
      then (if str_eq (value_of s "_topics") ""
          then []
          else made
              (topic_event y km (λ _. true) pubkey (split b',' (value_of s "_topics")) (s.now "t")))
      else []

  abbrev pub user_events : String → Snapshot → List String → List Event
  user_events pubkey s authors =
      metric_events kind_user_assertion "30382" pubkey (("p" ∷ pubkey ∷ []) ∷ []) s authors
        user_names
      ++ topic_events pubkey s authors

  abbrev pub event_events : String → Snapshot → List String → List Event
  event_events event_id s authors =
      metric_events kind_event_assertion "30383" event_id (("e" ∷ event_id ∷ []) ∷ []) s authors
        event_metrics

  abbrev pub address_events : String → Snapshot → List String → List Event
  address_events address s authors =
      metric_events kind_address_assertion "30384" address (("a" ∷ address ∷ []) ∷ []) s authors
        event_metrics

  module _ (goes_on : List Event → Bool) (always : (es : List Event) → goes_on es ≡ true) where
    abbrev delivered :
        {A : Type 0} → A → Bool → List Event → List Event → List Event → Run A × World
    delivered a final r p es = (done a, listening (r ++ es) (p ++ handed final es))

    delivered_more :
        {A : Type 0} (a : A) (final : Bool) (r p es fs : List Event)
        → delivered a final (r ++ es) (p ++ handed final es) fs ≡ delivered a final r p (es ++ fs)
    delivered_more a true r p es fs = simp append_assoc
    delivered_more a false r p es fs = simp (append_assoc, append-nil)

    emit-delivers :
        (final : Bool) (o : Option Event) (r p : List Event)
        → emit y km goes_on final o (listening r p) ≡ delivered true final r p (made o)
    unfolding publish yield_event
    emit-delivers true none r p = simp append-nil
    emit-delivers false none r p = simp append-nil
    emit-delivers true (some e) r p = rw (always (r ++ e ∷ []))
    emit-delivers false (some e) r p = rw (always (r ++ e ∷ []), append-nil p)

    -- A delivery, and what comes after it.
    then_delivers :
        {A B : Type 0} (m : M A) (f : A → M B) (a : A) (b : B) (final : Bool)
        (r p es fs : List Event)
        → m (listening r p) ≡ delivered a final r p es
        → f a (listening (r ++ es) (p ++ handed final es))
          ≡ delivered b final (r ++ es) (p ++ handed final es) fs
        → (m >>= f) (listening r p) ≡ delivered b final r p (es ++ fs)
    then_delivers m f a b final r p es fs first second =
        ap (λ c. follow c.0 f c.1) first ∙ second ∙ delivered_more b final r p es fs

    if-delivers :
        {A : Type 0} {a : A} (b : Bool) (m n : M A) (final : Bool) (r p es fs : List Event)
        → m (listening r p) ≡ delivered a final r p es
        → n (listening r p) ≡ delivered a final r p fs
        → (if b then m else n) (listening r p) ≡ delivered a final r p (if b then es else fs)
    if-delivers true m n final r p es fs h k = h
    if-delivers false m n final r p es fs h k = k

    nothing-delivers :
        {A : Type 0} (final : Bool) (a : A) (r p : List Event)
        → pure a (listening r p) ≡ delivered a final r p []
    nothing-delivers true a r p = simp append-nil
    nothing-delivers false a r p = simp append-nil

    send_metrics-delivers :
        (kind : ℕ) (kind_str subject : String) (extra : List Tag) (s : Snapshot)
        (authors : List String) (final : Bool) (names : List String) (r p : List Event)
        → send_metrics y km goes_on kind kind_str subject extra s authors final names
            (listening r p)
          ≡ delivered true final r p (metric_events kind kind_str subject extra s authors names)
    unfolding send_metrics metric_events
    send_metrics-delivers kind kind_str subject extra s authors final [] r p =
        nothing-delivers final true r p
    send_metrics-delivers kind kind_str subject extra s authors final (name ∷ names) r p =
        let o =
          create_metric_event y km kind subject kind_str name (value_of s name) extra
            (s.now name) in
        let es = metric_events kind kind_str subject extra s authors names in
        let rest = send_metrics-delivers kind kind_str subject extra s authors final names in
        if-delivers (should_generate_metric y km kind_str name authors) _ _ final r p _ _
          (then_delivers (emit y km goes_on final o)
            (λ more.
              continue y km goes_on more
                (send_metrics y km goes_on kind kind_str subject extra s authors final names))
            true true final r p (made o) es (emit-delivers final o r p)
            (rest (r ++ made o) (p ++ handed final (made o))))
          (rest r p)

    send_topics-delivers :
        (pubkey : String) (s : Snapshot) (authors : List String) (final : Bool) (r p : List Event)
        → send_topics y km goes_on pubkey s authors final (listening r p)
          ≡ delivered tt final r p (topic_events pubkey s authors)
    unfolding send_topics topic_events
    send_topics-delivers pubkey s authors final r p =
        if-delivers (should_generate_metric y km "30382" "t" authors) _ _ final r p _ _
          (if-delivers (str_eq (value_of s "_topics") "") _ _ final r p _ _
            (nothing-delivers final tt r p)
            (ap (λ c. follow c.0 (λ _. pure tt) c.1)
              (emit-delivers final
                (topic_event y km goes_on pubkey (split b',' (value_of s "_topics")) (s.now "t")) r
                p)))
          (nothing-delivers final tt r p)

-- A wave of the assertions for a user sends a client that keeps listening the events of the
-- requested metrics, in the order of the source, and the event of the topics. It hands the same
-- events to the storage relays if it is final, and none otherwise.
pub send_user_metrics-delivers :
    (y : Crypto) (km : MetricKeyManager y) (goes_on : List Event → Bool)
    → ((es : List Event) → goes_on es ≡ true)
    → (pubkey : String) (s : Snapshot) (authors : List String) (final : Bool) (r p : List Event)
    → send_user_metrics y km goes_on pubkey s authors final (listening r p) ≡ (
      done tt,
      listening
          (r ++ user_events y km pubkey s authors)
          (p ++ handed final (user_events y km pubkey s authors)),
    )
unfolding send_user_metrics
send_user_metrics-delivers y km goes_on always pubkey s authors final r p =
    let tags = ("p" ∷ pubkey ∷ []) ∷ [] in
    let es = metric_events y km kind_user_assertion "30382" pubkey tags s authors user_names in
    then_delivers y km goes_on always
      (send_metrics y km goes_on kind_user_assertion "30382" pubkey tags s authors final user_names)
      (λ more. unless_ended y km goes_on more (send_topics y km goes_on pubkey s authors final))
      true tt final r p es (topic_events y km pubkey s authors)
      (send_metrics-delivers y km goes_on always kind_user_assertion "30382" pubkey tags s authors
        final user_names r p)
      (send_topics-delivers y km goes_on always pubkey s authors final (r ++ es)
        (p ++ handed final es))

-- A wave of the assertions for an event sends such a client the events of the requested metrics
-- in order, and hands them to the storage relays exactly if it is final.
pub send_event_metrics-delivers :
    (y : Crypto) (km : MetricKeyManager y) (goes_on : List Event → Bool)
    → ((es : List Event) → goes_on es ≡ true)
    → (event_id : String) (s : Snapshot) (authors : List String) (final : Bool) (r p : List Event)
    → send_event_metrics y km goes_on event_id s authors final (listening r p) ≡ (
      done tt,
      listening
          (r ++ event_events y km event_id s authors)
          (p ++ handed final (event_events y km event_id s authors)),
    )
unfolding send_event_metrics
send_event_metrics-delivers y km goes_on always event_id s authors final r p =
    ap (λ c. follow c.0 (λ _. pure tt) c.1)
      (send_metrics-delivers y km goes_on always kind_event_assertion "30383" event_id
        (("e" ∷ event_id ∷ []) ∷ []) s authors final event_metrics r p)

-- The same of the wave for an address.
pub send_address_metrics-delivers :
    (y : Crypto) (km : MetricKeyManager y) (goes_on : List Event → Bool)
    → ((es : List Event) → goes_on es ≡ true)
    → (address : String) (s : Snapshot) (authors : List String) (final : Bool) (r p : List Event)
    → send_address_metrics y km goes_on address s authors final (listening r p) ≡ (
      done tt,
      listening
          (r ++ address_events y km address s authors)
          (p ++ handed final (address_events y km address s authors)),
    )
unfolding send_address_metrics
send_address_metrics-delivers y km goes_on always address s authors final r p =
    ap (λ c. follow c.0 (λ _. pure tt) c.1)
      (send_metrics-delivers y km goes_on always kind_address_assertion "30384" address
        (("a" ∷ address ∷ []) ∷ []) s authors final event_metrics r p)
