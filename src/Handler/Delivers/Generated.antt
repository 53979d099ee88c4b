-- ===== src/Handler/Delivers/Generated.antt =====
-- The blocking generation and the final waves make the same events.
use cipolin.Base.{
  ℕ, ◌≡◌, ap, ◌∙◌, Bool, true, false, List, [], ◌∷◌, ◌++◌, Option, none, some, if◌then◌else◌,
  append-nil, append_assoc, ◌==◌, arith,
}
use cipolin.Base.Texts.{String, str_eq, byte_len}
use cipolin.Base.Split.{split}
use cipolin.Nostr.{Event, Tag}
use cipolin.Keys.{event_metrics}
use cipolin.Keys.Manager.{Crypto, MetricKeyManager}
use cipolin.Handler.Run.{World, Run, done, M, follow, publish, pure, panic, ◌>>=◌}
use cipolin.Handler.Assert.{
  kind_user_assertion, kind_event_assertion, kind_address_assertion, create_metric_event,
  should_generate_metric,
}
use cipolin.Handler.Serve.{is_readable_address}
use cipolin.Handler.Send.{Snapshot, value_of, user_names, topic_event}
use cipolin.Handler.Blocking.{
  keep, generate_metrics, generate_topics, generate_user_assertions, generate_event_assertions,
  generate_address_assertions,
}
use cipolin.Handler.Delivers.{
  made, metric_events, topic_events, user_events, event_events, address_events,
}

-- The events are handed to the storage relays.
abbrev pub after : World → List Event → World
after w es = record w { published = w.published ++ es }

module _ (y : Crypto) (km : MetricKeyManager y) where
  abbrev Generates : M (List Event) → List Event → List Event → Type 0
  Generates m events es = (w : World) → m w ≡ (done (events ++ es), after w es)

  nothing-Generates : (events : List Event) → Generates (pure events) events []
  nothing-Generates events w = simp append-nil

  if-Generates :
      (b : Bool) (m n : M (List Event)) (events es fs : List Event)
      → Generates m events es
      → Generates n events fs
      → Generates (if b then m else n) events (if b then es else fs)
  if-Generates true m n events es fs h k = h
  if-Generates false m n events es fs h k = k

  keep-Generates :
      (events : List Event) (rest : List Event → M (List Event)) (o : Option Event)
      (es : List Event)
      → ((fs : List Event) → Generates (rest fs) fs es)
      → Generates (keep y km events rest o) events (made o ++ es)
  unfolding publish
  keep-Generates events rest none es h w = h events w
  keep-Generates events rest (some e) es h w =
      h (events ++ e ∷ []) (after w (e ∷ [])) ∙ simp append_assoc

  generate_metrics-Generates :
      (kind : ℕ) (kind_str subject : String) (extra : List Tag) (s : Snapshot)
      (authors names : List String) (events : List Event)
      → Generates
          (generate_metrics y km kind kind_str subject extra s authors names events)
          events
          (metric_events y km kind kind_str subject extra s authors names)
  unfolding generate_metrics metric_events
  generate_metrics-Generates kind kind_str subject extra s authors [] events =
      nothing-Generates events
  generate_metrics-Generates kind kind_str subject extra s authors (name ∷ names) events =
      let rest = generate_metrics-Generates kind kind_str subject extra s authors names in
      if-Generates (should_generate_metric y km kind_str name authors) _ _ events _ _
        (keep-Generates events (generate_metrics y km kind kind_str subject extra s authors names)
          (create_metric_event y km kind subject kind_str name (value_of s name) extra (s.now name))
          (metric_events y km kind kind_str subject extra s authors names) rest)
        (rest events)

  generate_topics-Generates :
      (pubkey : String) (s : Snapshot) (authors : List String) (events : List Event)
      → Generates
          (generate_topics y km pubkey s authors events)
          events
          (topic_events y km pubkey s authors)
  unfolding generate_topics topic_events
  generate_topics-Generates pubkey s authors events =
      let o = topic_event y km (λ _. true) pubkey (split b',' (value_of s "_topics")) (s.now "t") in
      if-Generates (should_generate_metric y km "30382" "t" authors) _ _ events _ _
        (if-Generates (str_eq (value_of s "_topics") "") _ _ events _ _ (nothing-Generates events)
          (λ w. keep-Generates events pure o [] nothing-Generates w ∙ simp append-nil))
        (nothing-Generates events)

-- A guard that holds.
guarded :
    {b : Bool} (m n : M (List Event)) (w : World) (r : Run (List Event) × World)
    → b ≡ true
    → m w ≡ r
    → (if b then m else n) w ≡ r
guarded {b = true} m n w r e h = h
guarded {b = false} m n w r e h = ground arith

-- For a hexadecimal subject of 64 bytes the blocking generation returns the events that a final
-- wave from the same database sends, in the same order, and publishes each of them once.
pub generate_user_assertions-generates :
    (y : Crypto) (km : MetricKeyManager y) (is_hex : String → Bool) (pubkey : String) (s : Snapshot)
    (authors : List String) (w : World)
    → byte_len pubkey ≡ 64
    → is_hex pubkey ≡ true
    → generate_user_assertions y km is_hex pubkey s authors w
      ≡ (done (user_events y km pubkey s authors), after w (user_events y km pubkey s authors))
unfolding generate_user_assertions
generate_user_assertions-generates y km is_hex pubkey s authors w long hex =
    let tags = ("p" ∷ pubkey ∷ []) ∷ [] in
    let es = metric_events y km kind_user_assertion "30382" pubkey tags s authors user_names in
    let m =
      generate_metrics y km kind_user_assertion "30382" pubkey tags s authors user_names []
      >>= generate_topics y km pubkey s authors in
    guarded {b = byte_len pubkey == 64} (if is_hex pubkey then m else panic) (pure []) w _
      (ground (arith, long))
      (guarded m panic w _ hex (
        ap (λ c. follow c.0 (generate_topics y km pubkey s authors) c.1)
          (generate_metrics-Generates y km kind_user_assertion "30382" pubkey tags s authors
            user_names [] w)
        ∙ generate_topics-Generates y km pubkey s authors es (after w es)
        ∙ simp append_assoc))

-- The same for an event: the blocking generation returns and publishes what a final wave sends,
-- for every hexadecimal identifier of 64 bytes.
pub generate_event_assertions-generates :
    (y : Crypto) (km : MetricKeyManager y) (is_hex : String → Bool) (event_id : String)
    (s : Snapshot) (authors : List String) (w : World)
    → byte_len event_id ≡ 64
    → is_hex event_id ≡ true
    → generate_event_assertions y km is_hex event_id s authors w ≡ (
      done (event_events y km event_id s authors),
      after w (event_events y km event_id s authors),
    )
unfolding generate_event_assertions
generate_event_assertions-generates y km is_hex event_id s authors w long hex =
    let m =
      generate_metrics y km kind_event_assertion "30383" event_id (("e" ∷ event_id ∷ []) ∷ []) s
        authors event_metrics [] in
    guarded {b = byte_len event_id == 64} (if is_hex event_id then m else panic) (pure []) w _
      (ground (arith, long))
      (guarded m panic w _ hex (
        generate_metrics-Generates y km kind_event_assertion "30383" event_id
          (("e" ∷ event_id ∷ []) ∷ []) s authors event_metrics [] w))

-- The same for an address whose author can be read.
pub generate_address_assertions-generates :
    (y : Crypto) (km : MetricKeyManager y) (is_hex : String → Bool) (address : String)
    (s : Snapshot) (authors : List String) (w : World)
    → is_readable_address is_hex address ≡ true
    → generate_address_assertions y km is_hex address s authors w ≡ (
      done (address_events y km address s authors),
      after w (address_events y km address s authors),
    )
unfolding generate_address_assertions
generate_address_assertions-generates y km is_hex address s authors w readable =
    guarded
      (generate_metrics y km kind_address_assertion "30384" address (("a" ∷ address ∷ []) ∷ []) s
        authors event_metrics [])
      panic w _ readable
      (generate_metrics-Generates y km kind_address_assertion "30384" address
        (("a" ∷ address ∷ []) ∷ []) s authors event_metrics [] w)
