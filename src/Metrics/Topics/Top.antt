-- ===== src/Metrics/Topics/Top.antt =====
-- The counts of the topics, and the most frequent of them.
use mathlib.Core.List.{Perm}
use cipolin.Base.{
  ◌∙◌, ℕ, zero, suc, ◌+◌, ◌≤◌, ◌≡◌, refl, sym, ap, subst, List, [], ◌∷◌, ◌++◌, take, length,
  length-take, All, if◌then◌else◌, arith, Bool-cases, inl, inr, ◌⊎◌, Bool, false, true, All-map,
}
use cipolin.Base.Texts.{String, str_eq, eq_iff, lookup, lookup-insert}
use cipolin.Nostr.{Tag, Event}
use cipolin.Metrics.Topics.{
  TopicCounts, count_of, add_topic, count_tag, count_tags, count_topics, keys_of, SortSlice,
  is_before, get_top_topics,
}
use cipolin.Metrics.Topics.Keyed.{IsKeyed, count_topics-IsKeyed, lookup-IsKeyed}

-- The entries stand by falling counts.
abbrev pub IsFalling : TopicCounts → Type 0
IsFalling [] = Unit {0}
IsFalling (x ∷ xs) = All (λ y. y.1 ≤ x.1) xs × IsFalling xs

-- No element stands behind one that it has to stand before.
abbrev pub IsOrdered : (String × ℕ → String × ℕ → Bool) → TopicCounts → Type 0
IsOrdered less [] = Unit {0}
IsOrdered less (x ∷ xs) = All (λ y. less y x ≡ false) xs × IsOrdered less xs

-- What `sort.Slice` asks of a test: a strict weak order.
pub record IsStrict (less : String × ℕ → String × ℕ → Bool) : Type 0 where
  pub irrefl : (a : String × ℕ) → less a a ≡ false
  pub trans : (a b c : String × ℕ) → less a b ≡ true → less b c ≡ true → less a c ≡ true
  pub between : (a b c : String × ℕ) → less a c ≡ true → (less a b ≡ true) ⊎ (less b c ≡ true)

-- What it promises of such a test: the slice is permuted and ordered.
pub record IsSort (sort_slice : SortSlice) : Type 0 where
  pub permutes :
      (less : String × ℕ → String × ℕ → Bool) (l : TopicCounts) → Perm (sort_slice less l) l
  pub orders :
      (less : String × ℕ → String × ℕ → Bool)
      → IsStrict less
      → (l : TopicCounts) → IsOrdered less (sort_slice less l)

is_before-IsStrict : IsStrict is_before
is_before-IsStrict = record {
  irrefl = λ a. ground arith;
  trans = λ a b c p q. ground (arith, p, q);
  between = λ a b c p. ground (arith, p);
}

IsOrdered-IsFalling : (l : TopicCounts) → IsOrdered is_before l → IsFalling l
IsOrdered-IsFalling [] h = tt
IsOrdered-IsFalling (x ∷ xs) (first, rest) =
    (All-map (λ y k. ground (arith, k)) xs first, IsOrdered-IsFalling xs rest)

abbrev skip : ℕ → TopicCounts → TopicCounts
skip zero l = l
skip (suc n) [] = []
skip (suc n) (x ∷ xs) = skip n xs

take-skip : (n : ℕ) (l : TopicCounts) → take n l ++ skip n l ≡ l
take-skip zero l = refl
take-skip (suc n) [] = refl
take-skip (suc n) (x ∷ xs) = ap (λ r. x ∷ r) (take-skip n xs)

All-skip : (P : String × ℕ → Type 0) (n : ℕ) (l : TopicCounts) → All P l → All P (skip n l)
All-skip P zero l h = h
All-skip P (suc n) [] h = tt
All-skip P (suc n) (x ∷ xs) h = All-skip P n xs h.1

-- What is taken of a falling list is not below what is left.
falling_split :
    (n : ℕ) (l : TopicCounts) → IsFalling l → All (λ x. All (λ y. y.1 ≤ x.1) (skip n l)) (take n l)
falling_split zero l h = tt
falling_split (suc n) [] h = tt
falling_split (suc n) (x ∷ xs) (first, rest) =
    (All-skip (λ y. y.1 ≤ x.1) n xs first, falling_split n xs rest)

-- How often a topic is named by the tags.
abbrev names_it : (String → String) → String → Tag → ℕ
names_it lower topic [] = 0
names_it lower topic (name ∷ []) = 0
names_it lower topic (name ∷ value ∷ rest) =
    if str_eq name "t" then (if str_eq (lower value) topic then 1 else 0) else 0

abbrev pub mentions : (String → String) → String → List Tag → ℕ
mentions lower topic [] = 0
mentions lower topic (tag ∷ tags) = names_it lower topic tag + mentions lower topic tags

abbrev pub mentions_in : (String → String) → String → List Event → ℕ
mentions_in lower topic [] = 0
mentions_in lower topic (e ∷ es) = mentions lower topic e.tags + mentions_in lower topic es

add_topic-count :
    (topic asked : String) (counts : TopicCounts)
    → count_of (lookup asked (add_topic topic counts))
      ≡ count_of (lookup asked counts) + (if str_eq topic asked then 1 else 0)
unfolding add_topic
add_topic-count topic asked counts =
    let put = lookup-insert topic asked (suc (count_of (lookup topic counts))) counts in
    elim (Bool-cases (str_eq topic asked)) [
      | inl own ↦
          let same : lookup topic counts ≡ lookup asked counts =
            ap (λ k. lookup k counts) ((eq_iff topic asked).0 own) in
          rw (put, own, same) (omega arith)
      | inr foreign ↦ rw (put, foreign) (omega arith)
    ]

module _ (lower : String → String) (asked : String) where
  count_tag-count :
      (tag : Tag) (counts : TopicCounts)
      → count_of (lookup asked (count_tag lower tag counts))
        ≡ count_of (lookup asked counts) + names_it lower asked tag
  count_tag-count [] counts = omega arith
  count_tag-count (name ∷ []) counts = omega arith
  count_tag-count (name ∷ value ∷ rest) counts = elim (Bool-cases (str_eq name "t")) [
    | inl topic ↦ rw topic (add_topic-count (lower value) asked counts)
    | inr other ↦ rw other (omega arith)
  ]

  count_tags-count :
      (tags : List Tag) (counts : TopicCounts)
      → count_of (lookup asked (count_tags lower tags counts))
        ≡ count_of (lookup asked counts) + mentions lower asked tags
  unfolding count_tags
  count_tags-count [] counts = omega arith
  count_tags-count (tag ∷ tags) counts =
      omega (arith, count_tags-count tags (count_tag lower tag counts), count_tag-count tag counts)

  count_topics-count :
      (es : List Event) (counts : TopicCounts)
      → count_of (lookup asked (count_topics lower es counts))
        ≡ count_of (lookup asked counts) + mentions_in lower asked es
  unfolding count_topics
  count_topics-count [] counts = omega arith
  count_topics-count (e ∷ es) counts = omega (
    arith,
    count_topics-count es (count_tags lower e.tags counts),
    count_tags-count e.tags counts,
  )

-- The entries that the topics are taken from, and the others: as many as asked for, or all.
pub record IsTop (n : ℕ) (counts : TopicCounts) (topics : List String) : Type 0 where
  pub chosen : TopicCounts
  pub others : TopicCounts
  pub named : topics ≡ keys_of chosen
  pub all : Perm (chosen ++ others) counts
  pub few : length chosen ≤ n
  pub full : (length chosen ≡ n) ⊎ (others ≡ [])
  pub in_order : IsFalling chosen
  pub above : All (λ x. All (λ y. y.1 ≤ x.1) others) chosen

take-full : (n : ℕ) (l : TopicCounts) → (length (take n l) ≡ n) ⊎ (skip n l ≡ [])
take-full zero l = inl refl
take-full (suc n) [] = inr refl
take-full (suc n) (x ∷ xs) = elim (take-full n xs) [ inl e ↦ inl (ap suc e) | inr e ↦ inr e ]

All-take : (P : String × ℕ → Type 0) (n : ℕ) (l : TopicCounts) → All P l → All P (take n l)
All-take P zero l h = tt
All-take P (suc n) [] h = tt
All-take P (suc n) (x ∷ xs) h = (h.0, All-take P n xs h.1)

take-IsFalling : (n : ℕ) (l : TopicCounts) → IsFalling l → IsFalling (take n l)
take-IsFalling zero l h = tt
take-IsFalling (suc n) [] h = tt
take-IsFalling (suc n) (x ∷ xs) h = (All-take (λ y. y.1 ≤ x.1) n xs h.0, take-IsFalling n xs h.1)

count_topics-mentions :
    (lower : String → String) (notes : List Event) (topic : String)
    → count_of (lookup topic (count_topics lower notes [])) ≡ mentions_in lower topic notes
unfolding lookup
count_topics-mentions lower notes topic = omega (arith, count_topics-count lower topic notes [])

-- Each topic is counted as often as the t tags of the notes name it, in lower case, and stands in one
-- entry, with that count. The top topics are as many as asked for, or all that were counted if there
-- are fewer; they stand by falling counts; and no other topic has a larger count than one of them.
-- The library's sort is assumed to permute a slice and to order it by a test that is a strict weak
-- order.
pub get_top_topics-IsTop :
    (lower : String → String) (sort_slice : SortSlice) (notes : List Event) (n : ℕ)
    → IsSort sort_slice
    → let counts = count_topics lower notes [] in
      ((topic : String) → count_of (lookup topic counts) ≡ mentions_in lower topic notes)
      × IsKeyed counts
      × All (λ x. x.1 ≡ mentions_in lower x.0 notes) counts
      × IsTop n counts (get_top_topics sort_slice counts n)
unfolding get_top_topics
get_top_topics-IsTop lower sort_slice notes n sorts =
    let counts = count_topics lower notes [] in
    let keyed = count_topics-IsKeyed lower notes [] tt in
    let sorted = sort_slice is_before counts in
    let falling = IsOrdered-IsFalling sorted (sorts.orders is_before is_before-IsStrict counts) in
    (
      count_topics-mentions lower notes,
      keyed,
      All-map (λ x found. ap count_of (sym found) ∙ count_topics-mentions lower notes x.0) counts
          (lookup-IsKeyed counts keyed),
      record {
        chosen = take n sorted;
        others = skip n sorted;
        named = refl;
        all =
            subst (λ l. Perm l counts) (sym (take-skip n sorted)) (sorts.permutes is_before counts);
        few = omega (arith, length-take n sorted);
        full = take-full n sorted;
        in_order = take-IsFalling n sorted falling;
        above = falling_split n sorted falling;
      },
    )
