-- ===== src/Examples/Measuring.antt =====
-- The metrics of a database with one zap and one nutzap.
use cipolin.Base.{
  true, not, ◌<◌, get_or, ◌||◌, ℕ, ◌≡◌, refl, List, [], ◌∷◌, All, some, none, length, ◌+◌, arith,
}
use cipolin.Base.Int.{eqb_ℤ, ℤ, pos, negsuc, wrap64, ◌≤ℤ◌, ltb_ℤ}
use cipolin.Nostr.{Event}
use cipolin.Metrics.Zaps.{Json}
use cipolin.Metrics.Rank.{Floats}
use cipolin.Metrics.Counts.{
  EventStore, tagged, ZapSpan, compute_event_metrics, compute_address_metrics, zaps_received,
  average_per_day,
}
use cipolin.Metrics.Sums.{exact_sats, compute_metrics-zaps}
use cipolin.Metrics.Spans.{IsWithin, zaps_received-IsWithin}
use cipolin.Metrics.Posts.{hour_of_day, post_stats}
use cipolin.Metrics.Posts.Counted.{count_if, has_e_tag, is_in_hour, IsHourOf, post_stats-counts}
use cipolin.Nostr.Times.{stands_at}
use cipolin.Metrics.Hours.{find_active_hours_range}
use cipolin.Metrics.Hours.Range.{IsActiveRange, find_active_hours_range-IsActiveRange}

abbrev zap : Event
zap = record {
  id = "z";
  pubkey = "k";
  created_at = pos 100;
  kind = 9735;
  tags = ("p" ∷ "u" ∷ []) ∷ ("description" ∷ "{}" ∷ []) ∷ [];
  content = "";
  sig = "";
}

abbrev nutzap : Event
nutzap = record zap { id = "n"; kind = 9321; tags = ("proof" ∷ "[]" ∷ []) ∷ [] }

abbrev pub json : Json
json = record {
  zap_tags = λ s. some (("amount" ∷ "21000" ∷ []) ∷ []);
  proofs = λ s. some (pos 4 ∷ pos 8 ∷ []);
  proof = λ s. none;
}

abbrev pub store : EventStore
store = record { query_events = λ f limit. elim f.kinds [ [] ↦ [] | k ∷ ks ↦ zap ∷ nutzap ∷ [] ] }

abbrev pub floats : Floats
floats = record {
  Float = ℤ;
  literal = λ n d. pos n;
  of_int = λ z. z;
  add = λ a b. a;
  mul = λ a b. b;
  div = λ a b. a;
  log10 = λ a. a;
  is_le_zero = λ a. ltb_ℤ a (pos 1);
  to_int = λ a. a;
}

compute_metrics-zaps_example :
    let e = (compute_event_metrics store json floats "e").zaps in
    let a = (compute_address_metrics store json floats "30023:k:x").zaps in
    (e.amount ≡ wrap64 (exact_sats store json "e" "e"))
    × (e.count ≡ 2 + 2)
    × (a.amount ≡ wrap64 (exact_sats store json "a" "30023:k:x"))
    × (a.count ≡ 2 + 2)
unfolding cipolin.Metrics.Counts.query_all
compute_metrics-zaps_example = compute_metrics-zaps store json floats "e" "30023:k:x"

zaps_received-IsWithin_example :
    let r = zaps_received store json (pos 500) "u" in
    (r.total.amount ≡ wrap64 (exact_sats store json "p" "u"))
    × All (IsWithin r) (tagged store (9735 ∷ []) "p" "u")
    × All (IsWithin r) (tagged store (9321 ∷ []) "p" "u")
zaps_received-IsWithin_example = zaps_received-IsWithin store json (pos 500) "u"

abbrev span : ZapSpan
span = record {
  total = record { count = 2; amount = pos 33 };
  oldest = pos 100;
  newest = pos 300_000;
}

abbrev hours : List ℕ
hours =
    4 ∷ 1 ∷ 0 ∷ 0 ∷ 0 ∷ 0 ∷ 0 ∷ 0 ∷ 0 ∷ 0 ∷ 0 ∷ 0 ∷ 0 ∷ 0 ∷ 0 ∷ 0 ∷ 0 ∷ 0 ∷ 0 ∷ 0 ∷ 2 ∷ 0 ∷ 3 ∷ 9
    ∷ []

hours_range : find_active_hours_range hours ≡ (22, 1)
unfolding find_active_hours_range
hours_range = refl

find_active_hours_range-IsActiveRange_example :
    let r = find_active_hours_range hours in IsActiveRange hours r.0 r.1
find_active_hours_range-IsActiveRange_example =
    find_active_hours_range-IsActiveRange hours refl (λ h. omega (arith, h.0))

before_midnight : (hour_of_day (negsuc 0) ≡ 23) × (hour_of_day (pos 7200) ≡ 2)
unfolding hour_of_day
before_midnight = (refl, refl)

post_stats-counts_example :
    let r = post_stats store (pos 500) "u" in
    let notes = zap ∷ nutzap ∷ [] in
    (r.replies ≡ count_if has_e_tag notes)
    × (r.posts ≡ count_if (λ e. not (has_e_tag e)) notes)
    × (length r.hour_counts ≡ 24)
    × ((h : ℕ) → h < 24 → get_or r.hour_counts h 0 ≡ count_if (is_in_hour h) notes)
    × ((ts : ℤ) → IsHourOf ts (hour_of_day ts))
    × (r.first_created_at ≤ℤ pos 500)
    × All (λ e. r.first_created_at ≤ℤ e.created_at) notes
    × ((eqb_ℤ (pos 500) r.first_created_at || stands_at r.first_created_at notes) ≡ true)
unfolding cipolin.Metrics.Counts.query_all
post_stats-counts_example = post_stats-counts store (pos 500) "u"
