-- ===== src/Metrics/User.antt =====
-- internal/metrics/metrics.go: the metrics of a user, an event and an address as texts.
use Prim.Native.String.{◌++◌}
use cipolin.Base.{ℕ, List, [], ◌∷◌, Option, none, some, length}
use cipolin.Base.Int.{ℤ, pos}
use cipolin.Base.Texts.{String}
use cipolin.Nostr.{Event}
use cipolin.Graph.Neo4j.{Result, ok, err}
use cipolin.Metrics.Counts.{
  EventStore, query_all, tagged, authored, Counts, compute_event_metrics, compute_address_metrics,
  zaps_received, zaps_sent, average_per_day, ZapSpan,
}
use cipolin.Metrics.Hours.{find_active_hours_range}
use cipolin.Metrics.Posts.{PostStats, post_stats}
use cipolin.Metrics.Rank.{Floats, calculate_user_rank}
use cipolin.Metrics.Texts.{itoa}
use cipolin.Metrics.Topics.{SortSlice, count_topics, get_top_topics}
use cipolin.Metrics.Zaps.{Json}
pub mod Written
pub mod Joined

-- The readings of the clock at the start.
pub record Readings : Type 0 where
  pub first_created_at : ℤ
  pub oldest_zap_recd : ℤ
  pub oldest_zap_sent : ℤ

-- `strings.Join` by a comma.
unfoldable pub join : List String → String
join [] = ""
join (s ∷ []) = s
join (s ∷ t ∷ ts) = s ++ ("," ++ join (t ∷ ts))

-- The provider of ranks may be missing, and its error leaves the rank that was calculated.
abbrev pub provided : Option (Result ℤ) → ℤ → ℤ
provided none rank = rank
provided (some (err e)) rank = rank
provided (some (ok graph_rank)) rank = graph_rank

-- The topics stand under a key of their own, if there are any.
abbrev pub topics_entry : List String → List (String × String)
topics_entry [] = []
topics_entry (t ∷ ts) = ("_topics", join (t ∷ ts)) ∷ []

abbrev pub count : ℕ → String
count n = itoa (pos n)

-- The entries of the map, which have different keys.
abbrev pub user_entries :
    ℕ → ℤ → PostStats → ℕ → ZapSpan → ZapSpan → ℕ → ℕ → ℕ × ℕ → List String → List (String × String)
user_entries followers rank posts reactions recd sent reports_recd reports_sent hours topics =
    ("followers", count followers)
    ∷ ("rank", itoa rank)
    ∷ ("first_created_at", itoa posts.first_created_at)
    ∷ ("post_cnt", count posts.posts)
    ∷ ("reply_cnt", count posts.replies)
    ∷ ("reactions_cnt", count reactions)
    ∷ ("zap_amt_recd", itoa recd.total.amount)
    ∷ ("zap_amt_sent", itoa sent.total.amount)
    ∷ ("zap_cnt_recd", count recd.total.count)
    ∷ ("zap_cnt_sent", count sent.total.count)
    ∷ ("zap_avg_amt_day_recd", itoa (average_per_day recd))
    ∷ ("zap_avg_amt_day_sent", itoa (average_per_day sent))
    ∷ ("reports_cnt_recd", count reports_recd)
    ∷ ("reports_cnt_sent", count reports_sent)
    ∷ ("active_hours_start", count hours.0)
    ∷ ("active_hours_end", count hours.1)
    ∷ topics_entry topics

abbrev pub event_entries : Counts → List (String × String)
event_entries c =
    ("comment_cnt", count c.comments)
    ∷ ("quote_cnt", count c.quotes)
    ∷ ("repost_cnt", count c.reposts)
    ∷ ("reaction_cnt", count c.reactions)
    ∷ ("zap_cnt", count c.zaps.count)
    ∷ ("zap_amount", itoa c.zaps.amount)
    ∷ ("rank", itoa c.rank)
    ∷ []

module _ (db : EventStore) (json : Json) (fl : Floats) where
  abbrev pub user_rank : Option (Result ℤ) → ℕ → PostStats → ZapSpan → ℤ
  user_rank graph_rank followers posts recd = provided graph_rank (
      calculate_user_rank fl (pos followers) (pos posts.posts) recd.total.amount
        (pos recd.total.count))

  unfoldable pub compute_user_metrics :
      (String → String) → SortSlice → Readings → Option (Result ℤ) → String → List (String × String)
  unfolding query_all post_stats zaps_received zaps_sent average_per_day find_active_hours_range
      get_top_topics count_topics calculate_user_rank itoa join
  compute_user_metrics lower sort_slice now graph_rank pubkey =
      let followers = length (tagged db (3 ∷ []) "p" pubkey) in
      let posts = post_stats db now.first_created_at pubkey in
      let recd = zaps_received db json now.oldest_zap_recd pubkey in
      let sent = zaps_sent db json now.oldest_zap_sent pubkey in
      user_entries followers (user_rank graph_rank followers posts recd) posts
        (length (authored db 7 pubkey)) recd sent (length (tagged db (1984 ∷ []) "p" pubkey))
        (length (authored db 1984 pubkey)) (find_active_hours_range posts.hour_counts)
        (get_top_topics sort_slice (count_topics lower (authored db 1 pubkey) []) 5)

  unfoldable pub event_metrics_map : String → List (String × String)
  unfolding compute_event_metrics itoa
  event_metrics_map event_id = event_entries (compute_event_metrics db json fl event_id)

  unfoldable pub address_metrics_map : String → List (String × String)
  unfolding compute_address_metrics itoa
  address_metrics_map address = event_entries (compute_address_metrics db json fl address)
