-- ===== src/Metrics/User/Joined.antt =====
-- The topics of a user: joined by commas in internal/metrics/metrics.go, and split and put into tags in
-- internal/handler/handler.go.
use Prim.Native.Char.{Char, code}
use Prim.Native.String.append
use Prim.Native.String.{char_at, ◌++◌}
use cipolin.Base.{
  ℕ, ◌≡◌, refl, ap, ◌∙◌, Bool, true, false, List, [], ◌∷◌, All, map, Option, none, some, ◌==◌,
}
use cipolin.Base.Int.{ℤ}
use cipolin.Base.Split.{cut, split}
use cipolin.Base.Texts.{String, str_eq, lookup}
use cipolin.Nostr.{Tag}
use cipolin.Graph.Neo4j.{Result}
use cipolin.Handler.Send.{value_of, topic_tags}
use cipolin.Metrics.Counts.{EventStore, authored}
use cipolin.Metrics.Rank.{Floats}
use cipolin.Metrics.Topics.{SortSlice, count_topics, get_top_topics}
use cipolin.Metrics.User.{Readings, compute_user_metrics, topics_entry, join}
use cipolin.Metrics.Zaps.{Json}

-- A text without the separator.
abbrev pub IsWithout : ℕ → String → Type 0
IsWithout sep String.[] = Unit {0}
IsWithout sep (String.◌∷◌ c s) = ((code c == sep) ≡ false) × IsWithout sep s

split-IsWithout : (sep : ℕ) (s : String) → IsWithout sep s → split sep s ≡ s ∷ []
unfolding split
split-IsWithout sep String.[] h = refl
split-IsWithout sep (String.◌∷◌ c s) (other, rest) = rw (split-IsWithout sep s rest, other) refl

-- A split has a first part.
abbrev IsNonempty : List String → Type 0
IsNonempty parts = (first : String) × (others : List String) × (parts ≡ first ∷ others)

cut-IsNonempty :
    (sep : Bool) (c : Char) (parts : List String) → IsNonempty parts → IsNonempty (cut sep c parts)
cut-IsNonempty true c parts (first, others, is) = (String.[], first ∷ others, ap (cut true c) is)
cut-IsNonempty false c parts (first, others, is) = (String.◌∷◌ c first, others, ap (cut false c) is)

split-IsNonempty : (sep : ℕ) (s : String) → IsNonempty (split sep s)
unfolding split
split-IsNonempty sep String.[] = (String.[], [], refl)
split-IsNonempty sep (String.◌∷◌ c s) =
    cut-IsNonempty (code c == sep) c (split sep s) (split-IsNonempty sep s)

cut-sep : (c : Char) (parts : List String) → IsNonempty parts → cut true c parts ≡ String.[] ∷ parts
cut-sep c parts (first, others, is) = rw is refl

comma-append : (t : String) → "" ++ ("," ++ t) ≡ String.◌∷◌ (char_at "," 0) t
comma-append t =
    append.nil ("," ++ t)
    ∙ append.cons (char_at "," 0) String.[] t
    ∙ ap (String.◌∷◌ (char_at "," 0)) (append.nil t)

-- The part before a comma.
split-before : (s t : String) → IsWithout b',' s → split b',' (s ++ ("," ++ t)) ≡ s ∷ split b',' t
unfolding split
split-before String.[] t h =
    ap (split b',') (comma-append t)
    ∙ cut-sep (char_at "," 0) (split b',' t) (split-IsNonempty b',' t)
split-before (String.◌∷◌ c s) t (other, rest) =
    ap (split b',') (append.cons c s ("," ++ t)) ∙ rw (split-before s t rest, other) refl

split-join :
    (t : String) (ts : List String)
    → All (IsWithout b',') (t ∷ ts)
    → split b',' (join (t ∷ ts)) ≡ t ∷ ts
unfolding join
split-join t [] (h, rest) = split-IsWithout b',' t h
split-join t (u ∷ us) (h, rest) =
    split-before t (join (u ∷ us)) h ∙ ap (λ l. t ∷ l) (split-join u us rest)

-- A topic that stays one tag.
abbrev pub IsPlain : String → Type 0
IsPlain topic = (str_eq topic "" ≡ false) × IsWithout b',' topic

abbrev pub tag_of : String → Tag
tag_of topic = "t" ∷ topic ∷ []

topic_tags-plain : (ts : List String) → All IsPlain ts → topic_tags ts ≡ map tag_of ts
unfolding topic_tags
topic_tags-plain [] h = refl
topic_tags-plain (t ∷ ts) ((named, plain), rest) = rw (topic_tags-plain ts rest, named) refl

All-IsWithout : (ts : List String) → All IsPlain ts → All (IsWithout b',') ts
All-IsWithout [] h = tt
All-IsWithout (t ∷ ts) ((named, plain), rest) = (plain, All-IsWithout ts rest)

abbrev text_or_none : Option String → String
text_or_none none = ""
text_or_none (some v) = v

-- What the handler reads of the entry.
topics_entry-read :
    (ts : List String)
    → All IsPlain ts
    → topic_tags (split b',' (text_or_none (lookup "_topics" (topics_entry ts)))) ≡ map tag_of ts
unfolding lookup split topic_tags
topics_entry-read [] h = refl
topics_entry-read (t ∷ ts) h =
    ap topic_tags (split-join t ts (All-IsWithout (t ∷ ts) h)) ∙ topic_tags-plain (t ∷ ts) h

-- Where no topic among the five most frequent is empty or has a comma, the handler makes one tag of
-- each of them, in their order, from the text in which the metrics hold them.
pub compute_user_metrics-topics :
    (db : EventStore) (json : Json) (fl : Floats) (lower : String → String) (sort_slice : SortSlice)
    (now : Readings) (answer : Option (Result ℤ)) (pubkey : String) (at : String → ℤ)
    → let topics = get_top_topics sort_slice (count_topics lower (authored db 1 pubkey) []) 5 in
      All IsPlain topics
      → topic_tags (
          split b',' (
            value_of
              (record {
                metrics = compute_user_metrics db json fl lower sort_slice now answer pubkey;
                now = at;
              })
              "_topics"))
        ≡ map tag_of topics
unfolding compute_user_metrics value_of lookup
compute_user_metrics-topics db json fl lower sort_slice now answer pubkey at h =
    topics_entry-read (get_top_topics sort_slice (count_topics lower (authored db 1 pubkey) []) 5) h
