-- ===== src/Metrics/Topics/Keyed.antt =====
-- The entries of the counts have different topics.
use cipolin.Base.{
  ◌≡◌, refl, sym, subst, ◌∙◌, List, [], ◌∷◌, Bool, false, ◌||◌, false≢true, some, All, Bool-cases,
  inl, inr, ℕ, arith,
}
use cipolin.Base.Texts.{String, str_eq, eq_iff, eq_refl, has, lookup, insert}
use cipolin.Nostr.{Tag, Event}
use cipolin.Metrics.Topics.{TopicCounts, count_tag, count_tags, count_topics, add_topic, keys_of}

-- No topic stands in two entries.
abbrev pub IsKeyed : TopicCounts → Type 0
IsKeyed [] = Unit {0}
IsKeyed (x ∷ xs) = (has x.0 (keys_of xs) ≡ false) × IsKeyed xs

differ_sym : (a b : String) → str_eq a b ≡ false → str_eq b a ≡ false
differ_sym a b h = elim (Bool-cases (str_eq b a)) [
  | inl p ↦ absurd (false≢true (sym h ∙ (eq_iff a b).1 (sym ((eq_iff b a).0 p))))
  | inr p ↦ p
]

neither : {a b : Bool} → a ≡ false → b ≡ false → (a || b) ≡ false
neither {a} {b} p q = rw (p, q) refl

has-insert :
    (k key : String) (value : ℕ) (l : TopicCounts)
    → str_eq key k ≡ false
    → has k (keys_of l) ≡ false
    → has k (keys_of (insert key value l)) ≡ false
unfolding has insert
has-insert k key value [] other h = neither other refl
has-insert k key value ((name, old) ∷ l) other h = elim (Bool-cases (str_eq name key)) [
  | inl p ↦ rw p (neither other (ground arith))
  | inr p ↦ rw p (neither (ground arith) (has-insert k key value l other (ground arith)))
]

insert-IsKeyed :
    (key : String) (value : ℕ) (l : TopicCounts) → IsKeyed l → IsKeyed (insert key value l)
unfolding insert has
insert-IsKeyed key value [] h = (refl, tt)
insert-IsKeyed key value ((name, old) ∷ l) (new, rest) = elim (Bool-cases (str_eq name key)) [
  | inl p ↦ rw p (subst (λ k. has k (keys_of l) ≡ false) ((eq_iff name key).0 p) new, rest)
  | inr p ↦
      rw p
        (has-insert name key value l (differ_sym name key p) new, insert-IsKeyed key value l rest)
]

module _ (lower : String → String) where
  count_tag-IsKeyed :
      (tag : Tag) (counts : TopicCounts) → IsKeyed counts → IsKeyed (count_tag lower tag counts)
  unfolding add_topic
  count_tag-IsKeyed [] counts h = h
  count_tag-IsKeyed (name ∷ []) counts h = h
  count_tag-IsKeyed (name ∷ value ∷ rest) counts h = elim (Bool-cases (str_eq name "t")) [
    | inl p ↦ rw p (insert-IsKeyed (lower value) _ counts h)
    | inr p ↦ rw p h
  ]

  count_tags-IsKeyed :
      (tags : List Tag) (counts : TopicCounts)
      → IsKeyed counts
      → IsKeyed (count_tags lower tags counts)
  unfolding count_tags
  count_tags-IsKeyed [] counts h = h
  count_tags-IsKeyed (tag ∷ tags) counts h =
      count_tags-IsKeyed tags (count_tag lower tag counts) (count_tag-IsKeyed tag counts h)

  pub count_topics-IsKeyed :
      (es : List Event) (counts : TopicCounts)
      → IsKeyed counts
      → IsKeyed (count_topics lower es counts)
  unfolding count_topics
  count_topics-IsKeyed [] counts h = h
  count_topics-IsKeyed (e ∷ es) counts h =
      count_topics-IsKeyed es (count_tags lower e.tags counts) (count_tags-IsKeyed e.tags counts h)

others-differ :
    (k : String) (l : TopicCounts) → has k (keys_of l) ≡ false → All (λ y. str_eq k y.0 ≡ false) l
unfolding has
others-differ k [] h = tt
others-differ k ((name, value) ∷ l) h =
    (differ_sym name k (ground arith), others-differ k l (ground arith))

both_hold :
    (P Q R : String × ℕ → Type 0) (f : (x : String × ℕ) → P x → Q x → R x) (l : TopicCounts)
    → All P l
    → All Q l
    → All R l
both_hold P Q R f [] p q = tt
both_hold P Q R f (x ∷ xs) p q = (f x p.0 q.0, both_hold P Q R f xs p.1 q.1)

-- Each entry is the one that its topic finds.
pub lookup-IsKeyed : (l : TopicCounts) → IsKeyed l → All (λ x. lookup x.0 l ≡ some x.1) l
unfolding lookup
lookup-IsKeyed [] h = tt
lookup-IsKeyed ((name, value) ∷ l) (new, rest) = (
  rw (eq_refl name) refl,
  both_hold (λ y. str_eq name y.0 ≡ false) (λ y. lookup y.0 l ≡ some y.1) _
      (λ y other found. rw other found) l (others-differ name l new) (lookup-IsKeyed l rest),
)
