-- ===== src/Handler/Send.antt =====
-- One wave of assertions: the metrics of a snapshot of the database, signed and yielded.
use cipolin.Base.{ℕ, Bool, true, false, List, [], ◌∷◌, Option, none, some, if◌then◌else◌, ◌++◌}
use cipolin.Base.Int.{ℤ}
use cipolin.Base.Texts.{String, lookup, str_eq}
use cipolin.Base.Split.{split}
use cipolin.Nostr.{Event, Tag}
use cipolin.Keys.{event_metrics}
use cipolin.Keys.Manager.{Crypto, MetricKeyManager, sign_event_for_metric}
use cipolin.Handler.Run.{M, ◌>>=◌, ◌>>◌, pure, publish, yield_event}
use cipolin.Handler.Assert.{
  kind_user_assertion, kind_event_assertion, kind_address_assertion, create_metric_event,
  should_generate_metric,
}

-- The computed metrics, and the reading of the clock when the event of a metric is created.
pub record Snapshot : Type 0 where
  pub metrics : List (String × String)
  pub now : String → ℤ

-- `m[name]`: a missing key reads as the empty string.
unfoldable pub value_of : Snapshot → String → String
value_of s name = elim (lookup name s.metrics) [ none ↦ "" | some v ↦ v ]

abbrev pub user_names : List String
user_names =
    "followers" ∷ "rank" ∷ "first_created_at" ∷ "post_cnt" ∷ "reply_cnt" ∷ "reactions_cnt"
    ∷ "zap_amt_recd" ∷ "zap_amt_sent" ∷ "zap_cnt_recd" ∷ "zap_cnt_sent" ∷ "zap_avg_amt_day_recd"
    ∷ "zap_avg_amt_day_sent" ∷ "reports_cnt_recd" ∷ "reports_cnt_sent" ∷ "active_hours_start"
    ∷ "active_hours_end" ∷ []

-- The tags of the non-empty topics.
unfoldable pub topic_tags : List String → List Tag
topic_tags [] = []
topic_tags (t ∷ ts) = if str_eq t "" then topic_tags ts else ("t" ∷ t ∷ []) ∷ topic_tags ts

module _ (y : Crypto) (km : MetricKeyManager y) (goes_on : List Event → Bool) where
  abbrev pub publish_if : Bool → Event → M (Unit {0})
  publish_if true e = publish e
  publish_if false e = pure tt

  -- What the loop does with the event of a metric: `false` is the return out of the loop.
  abbrev pub emit : Bool → Option Event → M Bool
  emit final none = pure true
  emit final (some e) = do publish_if final e; yield_event goes_on e

  abbrev pub continue : Bool → M Bool → M Bool
  continue true rest = rest
  continue false rest = pure false

  -- The loop over the metrics' names. It is `false` if the caller's loop has ended.
  unfoldable pub send_metrics :
      ℕ → String → String → List Tag → Snapshot → List String → Bool → List String → M Bool
  unfolding create_metric_event should_generate_metric publish yield_event
  send_metrics kind kind_str subject extra s authors final [] = pure true
  send_metrics kind kind_str subject extra s authors final (name ∷ names) =
      let rest = send_metrics kind kind_str subject extra s authors final names in
      if should_generate_metric y km kind_str name authors
      then (emit final (
            create_metric_event y km kind subject kind_str name (value_of s name) extra
              (s.now name))
          >>= (λ more. continue more rest))
      else rest

  abbrev pub topic_event : String → List String → ℤ → Option Event
  topic_event pubkey topics now =
      sign_event_for_metric y km
        (record {
          id = "";
          pubkey = "";
          created_at = now;
          kind = kind_user_assertion;
          tags = (("d" ∷ pubkey ∷ []) ∷ ("p" ∷ pubkey ∷ []) ∷ []) ++ topic_tags topics;
          content = "";
          sig = "";
        })
        "30382" "t"

  -- The event of the topics; what its `yield` answers is ignored.
  unfoldable pub send_topics : String → Snapshot → List String → Bool → M (Unit {0})
  unfolding should_generate_metric sign_event_for_metric topic_tags split publish yield_event
  send_topics pubkey s authors final =
      let topics = value_of s "_topics" in
      if should_generate_metric y km "30382" "t" authors
      then (if str_eq topics ""
          then pure tt
          else do emit final (topic_event pubkey (split b',' topics) (s.now "t")); pure tt)
      else pure tt

  abbrev pub unless_ended : Bool → M (Unit {0}) → M (Unit {0})
  unless_ended true rest = rest
  unless_ended false rest = pure tt

  unfoldable pub send_user_metrics : String → Snapshot → List String → Bool → M (Unit {0})
  unfolding send_metrics send_topics
  send_user_metrics pubkey s authors final = do
    more ←
        send_metrics kind_user_assertion "30382" pubkey (("p" ∷ pubkey ∷ []) ∷ []) s authors final
          user_names
    unless_ended more (send_topics pubkey s authors final)

  unfoldable pub send_event_metrics : String → Snapshot → List String → Bool → M (Unit {0})
  unfolding send_metrics
  send_event_metrics event_id s authors final = do
    send_metrics kind_event_assertion "30383" event_id (("e" ∷ event_id ∷ []) ∷ []) s authors final
        event_metrics
    pure tt

  unfoldable pub send_address_metrics : String → Snapshot → List String → Bool → M (Unit {0})
  unfolding send_metrics
  send_address_metrics address s authors final = do
    send_metrics kind_address_assertion "30384" address (("a" ∷ address ∷ []) ∷ []) s authors final
        event_metrics
    pure tt
