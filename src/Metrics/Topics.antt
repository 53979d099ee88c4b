-- ===== src/Metrics/Topics.antt =====
-- internal/metrics/metrics.go: the topics of a user's notes. A map has no order and `sort.Slice` is
-- not stable, so the sort of the Go library is a parameter; the lower case of a text in any script is
-- one too.
pub mod Keyed
pub mod Top
use mathlib.Core.List.{Perm}
use cipolin.Base.{
  ℕ, zero, suc, ◌+◌, ◌≤◌, ◌≡◌, refl, sym, ap, subst, List, [], ◌∷◌, ◌++◌, Option, none, some, take,
  length, length-take, All, if◌then◌else◌, arith, Bool-cases, inl, inr, ◌⊎◌, Bool, false, true, ltb,
  All-map,
}
use cipolin.Base.Texts.{String, str_eq, eq_iff, lookup, insert, lookup-insert}
use cipolin.Nostr.{Tag, Event}

abbrev pub TopicCounts : Type 0
TopicCounts = List (String × ℕ)

-- `m[key]` of a map to int: zero if the key is missing.
abbrev pub count_of : Option ℕ → ℕ
count_of none = 0
count_of (some n) = n

-- `m[key]++`.
unfoldable pub add_topic : String → TopicCounts → TopicCounts
unfolding insert lookup
add_topic topic counts = insert topic (suc (count_of (lookup topic counts))) counts

module _ (lower : String → String) where
  abbrev pub count_tag : Tag → TopicCounts → TopicCounts
  count_tag [] counts = counts
  count_tag (name ∷ []) counts = counts
  count_tag (name ∷ value ∷ rest) counts =
      if str_eq name "t" then add_topic (lower value) counts else counts

  -- The loop over the tags of a note.
  unfoldable pub count_tags : List Tag → TopicCounts → TopicCounts
  unfolding add_topic
  count_tags [] counts = counts
  count_tags (tag ∷ tags) counts = count_tags tags (count_tag tag counts)

  -- The loop over the notes.
  unfoldable pub count_topics : List Event → TopicCounts → TopicCounts
  unfolding count_tags
  count_topics [] counts = counts
  count_topics (e ∷ es) counts = count_topics es (count_tags e.tags counts)

abbrev pub keys_of : TopicCounts → List String
keys_of [] = []
keys_of ((key, value) ∷ entries) = key ∷ keys_of entries

-- `sort.Slice`: a slice and a test on two elements.
abbrev pub SortSlice : Type 0
SortSlice = (String × ℕ → String × ℕ → Bool) → TopicCounts → TopicCounts

-- `sorted[i].Value > sorted[j].Value`.
abbrev pub is_before : String × ℕ → String × ℕ → Bool
is_before x y = ltb y.1 x.1

-- The order of the entries of a map is any, so the sort's result does not tell the order of equals.
unfoldable pub get_top_topics : SortSlice → TopicCounts → ℕ → List String
get_top_topics sort_slice counts n = keys_of (take n (sort_slice is_before counts))
