-- ===== src/Handler/Blocking.antt =====
-- The blocking generation of assertions: one list of events, each published as it is made.
use cipolin.Base.{ℕ, Bool, true, List, [], ◌∷◌, ◌++◌, Option, none, some, if◌then◌else◌, ◌==◌}
use cipolin.Base.Texts.{String, str_eq, byte_len}
use cipolin.Base.Split.{split}
use cipolin.Nostr.{Event, Tag}
use cipolin.Keys.{event_metrics}
use cipolin.Keys.Manager.{Crypto, MetricKeyManager}
use cipolin.Handler.Run.{M, ◌>>=◌, ◌>>◌, pure, panic, publish}
use cipolin.Handler.Assert.{
  kind_user_assertion, kind_event_assertion, kind_address_assertion, create_metric_event,
  should_generate_metric,
}
use cipolin.Handler.Serve.{is_readable_address}
use cipolin.Handler.Send.{Snapshot, value_of, user_names, topic_event}

-- The snapshot is the database after the sync, with the clock.
module _ (y : Crypto) (km : MetricKeyManager y) where
  -- What the loop does with the event of a metric: an error of the signature skips it.
  abbrev pub keep : List Event → (List Event → M (List Event)) → Option Event → M (List Event)
  keep events rest none = rest events
  keep events rest (some e) = publish e >> rest (events ++ e ∷ [])

  unfoldable pub generate_metrics :
      ℕ
      → String
      → String
      → List Tag
      → Snapshot
      → List String
      → List String
      → List Event
      → M (List Event)
  unfolding create_metric_event should_generate_metric publish
  generate_metrics kind kind_str subject extra s authors [] events = pure events
  generate_metrics kind kind_str subject extra s authors (name ∷ names) events =
      let rest = generate_metrics kind kind_str subject extra s authors names in
      if should_generate_metric y km kind_str name authors
      then keep events rest
          (create_metric_event y km kind subject kind_str name (value_of s name) extra (s.now name))
      else rest events

  unfoldable pub generate_topics : String → Snapshot → List String → List Event → M (List Event)
  unfolding should_generate_metric split publish
  generate_topics pubkey s authors events =
      let topics = value_of s "_topics" in
      if should_generate_metric y km "30382" "t" authors
      then (if str_eq topics ""
          then pure events
          else keep events pure
              (topic_event y km (λ _. true) pubkey (split b',' topics) (s.now "t")))
      else pure events

  unfoldable pub generate_user_assertions :
      (String → Bool) → String → Snapshot → List String → M (List Event)
  unfolding generate_metrics generate_topics
  generate_user_assertions is_hex pubkey s authors =
      if byte_len pubkey == 64
      then (if is_hex pubkey
          then (do
            events ←
                generate_metrics kind_user_assertion "30382" pubkey (("p" ∷ pubkey ∷ []) ∷ []) s
                  authors user_names []
            generate_topics pubkey s authors events)
          else panic)
      else pure []

  -- The sync for an event reads its identifier, and that for an address the author in it; what
  -- they cannot read makes them panic.
  unfoldable pub generate_event_assertions :
      (String → Bool) → String → Snapshot → List String → M (List Event)
  unfolding generate_metrics
  generate_event_assertions is_hex event_id s authors =
      if byte_len event_id == 64
      then (if is_hex event_id
          then generate_metrics kind_event_assertion "30383" event_id (("e" ∷ event_id ∷ []) ∷ []) s
              authors event_metrics []
          else panic)
      else pure []

  unfoldable pub generate_address_assertions :
      (String → Bool) → String → Snapshot → List String → M (List Event)
  unfolding generate_metrics is_readable_address
  generate_address_assertions is_hex address s authors =
      if is_readable_address is_hex address
      then generate_metrics kind_address_assertion "30384" address (("a" ∷ address ∷ []) ∷ []) s
          authors event_metrics []
      else panic
