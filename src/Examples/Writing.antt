-- ===== src/Examples/Writing.antt =====
-- The texts of metrics, and the topics of two notes.
use mathlib.Core.List.Perm
use mathlib.Core.List.{Perm}
use cipolin.Base.{
  sym, ◌∙◌, Bool, false, true, false≢true, All-map, ℕ, ◌≡◌, refl, List, [], ◌∷◌, All, map, none,
  some, if◌then◌else◌, Bool-cases, inl, inr,
}
use cipolin.Base.Int.{pos, negsuc}
use cipolin.Base.Split.{split}
use cipolin.Base.Texts.{String, lookup}
use cipolin.Examples.Measuring.{store, json, floats}
use cipolin.Examples.Ranking.{numbers, memory, engine, empty, first_clocks, meanwhile}
use cipolin.Handler.Send.{value_of, user_names, topic_tags}
use cipolin.Keys.{event_metrics}
use cipolin.Metrics.Counts.{EventStore, authored}
use cipolin.Metrics.Texts.{itoa}
use cipolin.Metrics.Topics.{TopicCounts, SortSlice, count_of, count_topics, get_top_topics}
use cipolin.Metrics.Topics.Keyed.{IsKeyed}
use cipolin.Metrics.Topics.Top.{
  IsStrict, IsOrdered, IsSort, IsTop, mentions_in, get_top_topics-IsTop,
}
use cipolin.Metrics.User.{
  Readings, join, compute_user_metrics, event_metrics_map, address_metrics_map,
}
use cipolin.Metrics.User.Joined.{tag_of, compute_user_metrics-topics}
use cipolin.Metrics.User.Written.{IsWritten, HasRank, asked, compute_metrics-IsWritten}
use cipolin.Nostr.{Event}

texts : (itoa (pos 0) ≡ "0") × (itoa (pos 120) ≡ "120") × (itoa (negsuc 41) ≡ "-42")
unfolding itoa
texts = (refl, refl, refl)

-- A topic with a comma falls apart on its way to the tags.
comma_lost :
    topic_tags (split b',' (join ("salt,pepper" ∷ []))) ≡ map tag_of ("salt" ∷ "pepper" ∷ [])
unfolding topic_tags split join
comma_lost = refl

-- Insertion behind the entries that have to stand before.
abbrev Test : Type 0
Test = String × ℕ → String × ℕ → Bool

abbrev put_in : Test → String × ℕ → TopicCounts → TopicCounts
put_in less x [] = x ∷ []
put_in less x (y ∷ ys) = let rest = put_in less x ys in if less y x then y ∷ rest else x ∷ y ∷ ys

abbrev sort_slice : SortSlice
sort_slice less [] = []
sort_slice less (x ∷ xs) = put_in less x (sort_slice less xs)

put_in-perm : (less : Test) (x : String × ℕ) (l : TopicCounts) → Perm (put_in less x l) (x ∷ l)
put_in-perm less x [] = Perm.refl _
put_in-perm less x (y ∷ ys) = elim (Bool-cases (less y x)) [
  | inl p ↦ rw p (Perm.trans (Perm.cons y (put_in-perm less x ys)) (Perm.swap _ _ _))
  | inr p ↦ rw p (Perm.refl _)
]

sort_slice-perm : (less : Test) (l : TopicCounts) → Perm (sort_slice less l) l
sort_slice-perm less [] = Perm.refl _
sort_slice-perm less (x ∷ xs) =
    Perm.trans (put_in-perm less x (sort_slice less xs)) (Perm.cons x (sort_slice-perm less xs))

module _ (less : Test) (strict : IsStrict less) where
  put_in-All :
      (P : String × ℕ → Type 0) (x : String × ℕ) (l : TopicCounts)
      → P x
      → All P l
      → All P (put_in less x l)
  put_in-All P x [] h hs = (h, tt)
  put_in-All P x (y ∷ ys) h hs = elim (Bool-cases (less y x)) [
    | inl p ↦ rw p (hs.0, put_in-All P x ys h hs.1)
    | inr p ↦ rw p (h, hs)
  ]

  not_before : (a b c : String × ℕ) → less a b ≡ false → less b c ≡ false → less a c ≡ false
  not_before a b c p q = elim (Bool-cases (less a c)) [
    | inl before ↦ elim (strict.between a b c before) [
      | inl r ↦ absurd (false≢true (sym p ∙ r))
      | inr r ↦ absurd (false≢true (sym q ∙ r))
    ]
    | inr r ↦ r
  ]

  not_both : (a b : String × ℕ) → less a b ≡ true → less b a ≡ false
  not_both a b p = elim (Bool-cases (less b a)) [
    | inl q ↦ absurd (false≢true (sym (strict.irrefl a) ∙ strict.trans a b a p q))
    | inr q ↦ q
  ]

  put_in-IsOrdered :
      (x : String × ℕ) (l : TopicCounts) → IsOrdered less l → IsOrdered less (put_in less x l)
  put_in-IsOrdered x [] h = (tt, tt)
  put_in-IsOrdered x (y ∷ ys) h = elim (Bool-cases (less y x)) [
    | inl p ↦
        rw p
          (put_in-All (λ z. less z y ≡ false) x ys (not_both y x p) h.0, put_in-IsOrdered x ys h.1)
    | inr p ↦ rw p ((p, All-map (λ z q. not_before z y x q p) ys h.0), h)
  ]

  sort_slice-IsOrdered : (l : TopicCounts) → IsOrdered less (sort_slice less l)
  sort_slice-IsOrdered [] = tt
  sort_slice-IsOrdered (x ∷ xs) = put_in-IsOrdered x (sort_slice less xs) (sort_slice-IsOrdered xs)

sort_slice-IsSort : IsSort sort_slice
sort_slice-IsSort = record { permutes = sort_slice-perm; orders = sort_slice-IsOrdered }

abbrev note : String → String → Event
note topic other = record {
  id = "a";
  pubkey = "u";
  created_at = pos 100;
  kind = 1;
  tags = ("t" ∷ topic ∷ []) ∷ ("t" ∷ other ∷ []) ∷ ("e" ∷ topic ∷ []) ∷ [];
  content = "";
  sig = "";
}

abbrev notes : List Event
notes = note "nostr" "go" ∷ note "nostr" "relay" ∷ []

abbrev kept : String → String
kept s = s

notes-top : get_top_topics sort_slice (count_topics kept notes []) 1 ≡ "nostr" ∷ []
unfolding get_top_topics count_topics
notes-top = refl

get_top_topics-IsTop_example :
    ((topic : String)
      → count_of (lookup topic (count_topics kept notes [])) ≡ mentions_in kept topic notes)
    × IsKeyed (count_topics kept notes [])
    × All (λ x. x.1 ≡ mentions_in kept x.0 notes) (count_topics kept notes [])
    × IsTop 1
        (count_topics kept notes [])
        (get_top_topics sort_slice (count_topics kept notes []) 1)
get_top_topics-IsTop_example = get_top_topics-IsTop kept sort_slice notes 1 sort_slice-IsSort

abbrev readings : Readings
readings = record {
  first_created_at = pos 500;
  oldest_zap_recd = pos 500;
  oldest_zap_sent = pos 500;
}

compute_metrics-IsWritten_example :
    let user =
      compute_user_metrics store json floats kept sort_slice readings
        (asked floats numbers memory (some (engine, empty)) first_clocks meanwhile "alice")
        "alice" in
    let event = event_metrics_map store json floats "e" in
    let addressed = address_metrics_map store json floats "30023:k:x" in
    (IsWritten user user_names × HasRank floats user)
    × (IsWritten event event_metrics × HasRank floats event)
    × (IsWritten addressed event_metrics × HasRank floats addressed)
compute_metrics-IsWritten_example =
    compute_metrics-IsWritten floats store json kept sort_slice readings numbers memory
      (some (engine, empty)) first_clocks meanwhile "alice" "e" "30023:k:x"

abbrev note_store : EventStore
note_store = record { query_events = λ f limit. elim f.authors [ [] ↦ [] | a ∷ rest ↦ notes ] }

compute_user_metrics-topics_example :
    topic_tags (
      split b',' (
        value_of
          (record {
            metrics = compute_user_metrics note_store json floats kept sort_slice readings none "u";
            now = λ name. pos 500;
          })
          "_topics"))
    ≡ map tag_of ("nostr" ∷ "go" ∷ "relay" ∷ [])
unfolding get_top_topics count_topics cipolin.Metrics.Counts.query_all
compute_user_metrics-topics_example =
    compute_user_metrics-topics note_store json floats kept sort_slice readings none "u"
      (λ name. pos 500)
      (
        (refl, (refl, (refl, (refl, (refl, (refl, tt)))))),
        ((refl, (refl, (refl, tt))), ((refl, (refl, (refl, (refl, (refl, (refl, tt)))))), tt)),
      )
