-- ===== src/Metrics/Posts.antt =====
-- internal/metrics/metrics.go: the loop over a user's posts, without the topics.
pub mod Counted
use cipolin.Base.{
  ℕ, zero, suc, ◌+◌, ◌-◌, ◌/◌, ◌%◌, ◌<◌, ◌≡◌, ◌∙◌, refl, Bool, false, ◌||◌, List, [], ◌∷◌, length,
  get_or, set, length-set, if◌then◌else◌, All, arith,
}
use cipolin.Base.Int.{ℤ, pos, negsuc, ltb_ℤ, ◌≤ℤ◌}
use cipolin.Base.Texts.{String, str_eq}
use cipolin.Nostr.{Tag, Event}
use cipolin.Metrics.Counts.{EventStore, authored}

-- The hour of the day of a Unix time, in UTC.
unfoldable pub hour_of_day : ℤ → ℕ
hour_of_day (pos n) = n % 86400 / 3600
hour_of_day (negsuc n) = (86399 - n % 86400) / 3600

abbrev is_e_tag : Tag → Bool
is_e_tag [] = false
is_e_tag (name ∷ rest) = str_eq name "e"

unfoldable pub is_reply : List Tag → Bool
is_reply [] = false
is_reply (t ∷ ts) = is_e_tag t || is_reply ts

pub record PostStats : Type 0 where
  pub first_created_at : ℤ
  pub hour_counts : List ℕ
  pub posts : ℕ
  pub replies : ℕ

abbrev pub count_post : PostStats → Event → PostStats
count_post z e =
    let h = hour_of_day e.created_at in
    record {
      first_created_at =
          if ltb_ℤ e.created_at z.first_created_at then e.created_at else z.first_created_at;
      hour_counts = set z.hour_counts h (suc (get_or z.hour_counts h 0));
      posts = if is_reply e.tags then z.posts else suc z.posts;
      replies = if is_reply e.tags then suc z.replies else z.replies;
    }

unfoldable pub count_posts : PostStats → List Event → PostStats
unfolding hour_of_day is_reply
count_posts z [] = z
count_posts z (e ∷ es) = count_posts (count_post z e) es

abbrev pub no_posts : ℤ → PostStats
no_posts now = record {
  first_created_at = now;
  hour_counts =
      0 ∷ 0 ∷ 0 ∷ 0 ∷ 0 ∷ 0 ∷ 0 ∷ 0 ∷ 0 ∷ 0 ∷ 0 ∷ 0 ∷ 0 ∷ 0 ∷ 0 ∷ 0 ∷ 0 ∷ 0 ∷ 0 ∷ 0 ∷ 0 ∷ 0 ∷ 0 ∷ 0
      ∷ [];
  posts = 0;
  replies = 0;
}

-- `now` is the reading of the clock at the start.
unfoldable pub post_stats : EventStore → ℤ → String → PostStats
unfolding count_posts cipolin.Metrics.Counts.query_all
post_stats db now pubkey = count_posts (no_posts now) (authored db 1 pubkey)
