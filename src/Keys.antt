-- ===== src/Keys.antt =====
-- internal/keys/keys.go: the metrics, the data that each needs, and the signing keys.
pub mod Derived
pub mod Matched
pub mod Filters
pub mod Manager
use Prim.Native.Nat.{bit_or}
use cipolin.Base.{ℕ, ◌==◌, List, [], ◌∷◌, Option, none, some, if◌then◌else◌}
use cipolin.Base.Texts.{String, lookup}
use cipolin.Fetcher.Pages.{is_empty}

abbrev pub user_metrics : List String
user_metrics =
    "followers" ∷ "rank" ∷ "first_created_at" ∷ "post_cnt" ∷ "reply_cnt" ∷ "reactions_cnt"
    ∷ "zap_amt_recd" ∷ "zap_amt_sent" ∷ "zap_cnt_recd" ∷ "zap_cnt_sent" ∷ "zap_avg_amt_day_recd"
    ∷ "zap_avg_amt_day_sent" ∷ "reports_cnt_recd" ∷ "reports_cnt_sent" ∷ "active_hours_start"
    ∷ "active_hours_end" ∷ "t" ∷ []

abbrev pub event_metrics : List String
event_metrics =
    "comment_cnt" ∷ "quote_cnt" ∷ "repost_cnt" ∷ "reaction_cnt" ∷ "zap_cnt" ∷ "zap_amount" ∷ "rank"
    ∷ []

-- Every metric that the source names, those without a key included.
abbrev pub all_metrics : List String
all_metrics =
    "followers" ∷ "rank" ∷ "first_created_at" ∷ "first_seen_at" ∷ "post_cnt" ∷ "reply_cnt"
    ∷ "reactions_cnt" ∷ "zap_amt_recd" ∷ "zap_amt_sent" ∷ "zap_cnt_recd" ∷ "zap_cnt_sent"
    ∷ "zap_avg_amt_day_recd" ∷ "zap_avg_amt_day_sent" ∷ "reports_cnt_recd" ∷ "reports_cnt_sent"
    ∷ "active_hours_start" ∷ "active_hours_end" ∷ "t" ∷ "comment_cnt" ∷ "quote_cnt" ∷ "repost_cnt"
    ∷ "reaction_cnt" ∷ "zap_cnt" ∷ "zap_amount" ∷ []

-- Sets of filters, as bits.
abbrev pub FilterType : Type 0
FilterType = ℕ

abbrev pub filter_posts : FilterType
filter_posts = 1

abbrev pub filter_reactions : FilterType
filter_reactions = 2

abbrev pub filter_followers : FilterType
filter_followers = 4

abbrev pub filter_zaps_recd : FilterType
filter_zaps_recd = 8

abbrev pub filter_zaps_sent : FilterType
filter_zaps_sent = 16

abbrev pub filter_reports_recd : FilterType
filter_reports_recd = 32

abbrev pub filter_reports_sent : FilterType
filter_reports_sent = 64

abbrev pub filter_all : FilterType
filter_all =
    bit_or
      (bit_or
        (bit_or
          (bit_or (bit_or (bit_or filter_posts filter_reactions) filter_followers) filter_zaps_recd)
          filter_zaps_sent)
        filter_reports_recd)
      filter_reports_sent

abbrev pub metric_filters : List (String × FilterType)
metric_filters =
    ("post_cnt", filter_posts)
    ∷ ("reply_cnt", filter_posts)
    ∷ ("first_created_at", filter_posts)
    ∷ ("active_hours_start", filter_posts)
    ∷ ("active_hours_end", filter_posts)
    ∷ ("t", filter_posts)
    ∷ ("reactions_cnt", filter_reactions)
    ∷ ("followers", filter_followers)
    ∷ ("zap_amt_recd", filter_zaps_recd)
    ∷ ("zap_cnt_recd", filter_zaps_recd)
    ∷ ("zap_avg_amt_day_recd", bit_or filter_zaps_recd filter_posts)
    ∷ ("zap_amt_sent", filter_zaps_sent)
    ∷ ("zap_cnt_sent", filter_zaps_sent)
    ∷ ("zap_avg_amt_day_sent", bit_or filter_zaps_sent filter_posts)
    ∷ ("reports_cnt_recd", filter_reports_recd)
    ∷ ("reports_cnt_sent", filter_reports_sent)
    ∷ ("rank", filter_all)
    ∷ []

abbrev or_none : FilterType → Option FilterType → FilterType
or_none required none = required
or_none required (some f) = bit_or required f

-- The loop over the metrics.
unfoldable pub require : FilterType → List String → FilterType
require required [] = required
require required (m ∷ ms) = require (or_none required (lookup m metric_filters)) ms

unfoldable pub get_required_filters : List String → FilterType
unfolding require
get_required_filters ms =
    if is_empty ms
    then filter_all
    else let required = require 0 ms in if required == 0 then filter_all else required
