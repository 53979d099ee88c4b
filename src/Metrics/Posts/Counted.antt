-- ===== src/Metrics/Posts/Counted.antt =====
-- What is counted of a user's notes.
use cipolin.Base.{
  ℕ, zero, suc, ◌+◌, ◌-◌, ◌*◌, ◌/◌, ◌%◌, ◌<◌, ◌≡◌, ◌∙◌, sym, ap, subst, refl, Bool, true, false,
  ◌||◌, ◌&&◌, not, ◌==◌, List, [], ◌∷◌, length, get_or, set, length-set, if◌then◌else◌, All, arith,
  Bool-cases, inl, inr,
}
use cipolin.Base.Int.{ℤ, pos, negsuc, ltb_ℤ, ◌≤ℤ◌, eqb_ℤ}
use cipolin.Base.Texts.{String, str_eq, has}
use cipolin.Nostr.{Tag, Event}
use cipolin.Nostr.Times.{stands_at, or_right, or_between, eqb_refl}
use cipolin.Metrics.Counts.{EventStore, authored}
use cipolin.Metrics.Posts.{
  hour_of_day, is_reply, PostStats, count_post, count_posts, no_posts, post_stats,
}

-- The hour of a Unix time: so many whole hours and less than one more behind a midnight.
abbrev pub IsHourOf : ℤ → ℕ → Type 0
IsHourOf (pos n) h =
    (day : ℕ) × (second : ℕ) × (h < 24) × (second < 3600) × (n ≡ day * 86400 + (h * 3600 + second))
IsHourOf (negsuc n) h =
    (day : ℕ) × (second : ℕ) × (h < 24)
    × (second < 3600)
    × (suc n + (h * 3600 + second) ≡ suc day * 86400)

hour_of_day-IsHourOf : (ts : ℤ) → IsHourOf ts (hour_of_day ts)
unfolding hour_of_day
hour_of_day-IsHourOf (pos n) = (n / 86400, n % 86400 % 3600, omega arith, omega arith, omega arith)
hour_of_day-IsHourOf (negsuc n) =
    (n / 86400, (86399 - n % 86400) % 3600, omega arith, omega arith, omega arith)

hour_bound : (ts : ℤ) → hour_of_day ts < 24
unfolding hour_of_day
hour_bound (pos n) = omega arith
hour_bound (negsuc n) = omega arith

-- The names of the tags, which are their first texts.
abbrev pub tag_names : List Tag → List String
tag_names [] = []
tag_names ([] ∷ ts) = tag_names ts
tag_names ((name ∷ rest) ∷ ts) = name ∷ tag_names ts

is_reply-names : (ts : List Tag) → is_reply ts ≡ has "e" (tag_names ts)
unfolding is_reply has
is_reply-names [] = refl
is_reply-names ([] ∷ ts) = is_reply-names ts
is_reply-names ((name ∷ rest) ∷ ts) = ap (λ b. str_eq name "e" || b) (is_reply-names ts)

-- How many events pass a test.
abbrev pub count_if : (Event → Bool) → List Event → ℕ
count_if test [] = 0
count_if test (e ∷ es) = (if test e then 1 else 0) + count_if test es

abbrev pub has_e_tag : Event → Bool
has_e_tag e = has "e" (tag_names e.tags)

abbrev pub is_in_hour : ℕ → Event → Bool
is_in_hour h e = hour_of_day e.created_at == h

suc-== : (i h : ℕ) → (suc i == suc h) ≡ (i == h)
suc-== i h = ground arith

get_or-set :
    (xs : List ℕ) (i h : ℕ)
    → i < length xs
    → get_or (set xs i (suc (get_or xs i 0))) h 0 ≡ (if i == h then 1 else 0) + get_or xs h 0
get_or-set [] i h lt = absurd (omega arith)
get_or-set (x ∷ xs) zero zero lt = ground arith
get_or-set (x ∷ xs) zero (suc h) lt = ground arith
get_or-set (x ∷ xs) (suc i) zero lt = ground arith
get_or-set (x ∷ xs) (suc i) (suc h) lt =
    get_or-set xs i h (omega (arith, lt))
    ∙ ap (λ b. (if b then 1 else 0) + get_or xs h 0) (sym (suc-== i h))

-- What has been counted since.
record IsCounted (z r : PostStats) (es : List Event) : Type 0 where
  pub hours :
      (h : ℕ)
      → h < 24
      → get_or r.hour_counts h 0 ≡ get_or z.hour_counts h 0 + count_if (is_in_hour h) es
  pub replies : r.replies ≡ z.replies + count_if has_e_tag es
  pub posts : r.posts ≡ z.posts + count_if (λ e. not (has_e_tag e)) es
  pub of_day : length r.hour_counts ≡ 24
  pub first : r.first_created_at ≤ℤ z.first_created_at
  pub oldest : All (λ e. r.first_created_at ≤ℤ e.created_at) es
  pub attained :
      (eqb_ℤ z.first_created_at r.first_created_at || stands_at r.first_created_at es) ≡ true

-- The posts that one note adds.
posts-count_post :
    (z : PostStats) (e : Event)
    → ((count_post z e).replies ≡ z.replies + (if has_e_tag e then 1 else 0))
      × ((count_post z e).posts ≡ z.posts + (if not (has_e_tag e) then 1 else 0))
posts-count_post z e =
    subst
      (λ b.
        ((if is_reply e.tags then suc z.replies else z.replies) ≡ z.replies + (if b then 1 else 0))
        × ((if is_reply e.tags then z.posts else suc z.posts) ≡ z.posts + (if not b then 1 else 0)))
      (is_reply-names e.tags) (by_test (is_reply e.tags))
  where
    by_test :
        (b : Bool)
        → ((if b then suc z.replies else z.replies) ≡ z.replies + (if b then 1 else 0))
          × ((if b then z.posts else suc z.posts) ≡ z.posts + (if not b then 1 else 0))
    by_test true = (omega arith, omega arith)
    by_test false = (omega arith, omega arith)

first-count_post :
    (z : PostStats) (e : Event) (first : ℤ) (rest : Bool)
    → (eqb_ℤ (count_post z e).first_created_at first || rest) ≡ true
    → (eqb_ℤ z.first_created_at first || (eqb_ℤ e.created_at first || rest)) ≡ true
first-count_post z e first rest h = elim (Bool-cases (ltb_ℤ e.created_at z.first_created_at)) [
  | inl p ↦ or_right (eqb_ℤ z.first_created_at first) _ (rw p at h)
  | inr p ↦ or_between (eqb_ℤ z.first_created_at first) (eqb_ℤ e.created_at first) rest (rw p at h)
]

or_none : (b : Bool) → b ≡ true → (b || false) ≡ true
or_none b h = rw h refl

count_posts-IsCounted :
    (z : PostStats) (es : List Event)
    → length z.hour_counts ≡ 24
    → IsCounted z (count_posts z es) es
unfolding count_posts
count_posts-IsCounted z [] long = record {
  hours = λ h lt. omega arith;
  replies = omega arith;
  posts = omega arith;
  of_day = long;
  first = omega arith;
  oldest = tt;
  attained = or_none _ (eqb_refl z.first_created_at);
}
count_posts-IsCounted z (e ∷ es) long =
    let i = hour_of_day e.created_at in
    let bound : i < length z.hour_counts = omega (arith, long, hour_bound e.created_at) in
    let (one_reply, one_post) = posts-count_post z e in
    let rest =
      count_posts-IsCounted (count_post z e) es
        (length-set z.hour_counts i (suc (get_or z.hour_counts i 0)) ∙ long) in
    record {
      hours = λ h lt. omega (arith, rest.hours h lt, get_or-set z.hour_counts i h bound);
      replies = omega (arith, rest.replies, one_reply);
      posts = omega (arith, rest.posts, one_post);
      of_day = rest.of_day;
      first = ground (arith, rest.first);
      oldest = (ground (arith, rest.first), rest.oldest);
      attained =
          first-count_post z e (count_posts (count_post z e) es).first_created_at
            (stands_at (count_posts (count_post z e) es).first_created_at es) rest.attained;
    }

abbrev are_zero : List ℕ → Bool
are_zero [] = true
are_zero (x ∷ xs) = x == 0 && are_zero xs

get_or-zero : (xs : List ℕ) (h : ℕ) → are_zero xs ≡ true → get_or xs h 0 ≡ 0
get_or-zero [] h zeros = refl
get_or-zero (x ∷ xs) zero zeros = ground (arith, zeros)
get_or-zero (x ∷ xs) (suc h) zeros = get_or-zero xs h (ground (arith, zeros))

-- The replies are the notes of the user that have a tag named e, and the posts are the others; at each
-- of the 24 hours stands the number of notes of that hour of the day, in UTC; and the first
-- time of creation is the smallest of those of the notes and of the clock at the start.
pub post_stats-counts :
    (db : EventStore) (now : ℤ) (pubkey : String)
    → let r = post_stats db now pubkey in
      let notes = authored db 1 pubkey in
      (r.replies ≡ count_if has_e_tag notes)
      × (r.posts ≡ count_if (λ e. not (has_e_tag e)) notes)
      × (length r.hour_counts ≡ 24)
      × ((h : ℕ) → h < 24 → get_or r.hour_counts h 0 ≡ count_if (is_in_hour h) notes)
      × ((ts : ℤ) → IsHourOf ts (hour_of_day ts))
      × (r.first_created_at ≤ℤ now)
      × All (λ e. r.first_created_at ≤ℤ e.created_at) notes
      × ((eqb_ℤ now r.first_created_at || stands_at r.first_created_at notes) ≡ true)
unfolding post_stats
post_stats-counts db now pubkey =
    let c = count_posts-IsCounted (no_posts now) (authored db 1 pubkey) refl in
    (
      c.replies ∙ omega arith,
      c.posts ∙ omega arith,
      c.of_day,
      λ h lt. omega (arith, c.hours h lt, get_or-zero (no_posts now).hour_counts h refl),
      hour_of_day-IsHourOf,
      c.first,
      c.oldest,
      c.attained,
    )
