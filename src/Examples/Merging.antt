-- ===== src/Examples/Merging.antt =====
-- Two lists of relays with one in common, and what a sync asks for.
use mathlib.Core.List.{Perm}
use cipolin.Base.{ℕ, ◌<◌, ◌≡◌, refl, List, [], ◌∷◌, none, some, true, if◌then◌else◌}
use cipolin.Base.Int.{pos}
use cipolin.Base.Texts.{String, str_eq, lookup}
use cipolin.Base.Tables.{holds_until, holds-below}
use cipolin.Nostr.{Event}
use cipolin.Keys.{get_required_filters}
use cipolin.Keys.Filters.{wants, any_known}
use cipolin.Relays.Discovery.{Network, get_popular_relays}
use cipolin.Relays.Popular.{IsPopular, get_popular_relays-IsPopular}
use cipolin.Relays.Plan.{
  by_author, by_tag, user_filters, report_filters, user_filters_async, report_filters_async,
}
use cipolin.Relays.Planned.{is_needed, filters_async-is_needed, filters_async-perm}
use cipolin.Relays.{merge_relays}

abbrev pub mine : List String
mine = "wss://a" ∷ "wss://b" ∷ []

abbrev theirs : List String
theirs = "wss://b" ∷ "wss://c" ∷ []

merged : merge_relays mine theirs ≡ "wss://a" ∷ "wss://b" ∷ "wss://c" ∷ []
unfolding merge_relays
merged = refl

-- A storage relay that cannot be reached, and one that offers a list.
abbrev offer : Event
offer = record {
  id = "o";
  pubkey = "k";
  created_at = pos 5;
  kind = 6301;
  tags = [];
  content = "[]";
  sig = "";
}

abbrev pub network : Network
network = record {
  reply = λ url f. if str_eq url "wss://down" then none else some (offer ∷ []);
  unmarshal = λ text. some mine;
  is_hex = λ text. true;
}

abbrev pub storage : List String
storage = "wss://down" ∷ "wss://up" ∷ []

popular : get_popular_relays network storage ≡ mine
unfolding get_popular_relays
popular = refl

get_popular_relays-IsPopular_example :
    IsPopular network storage (get_popular_relays network storage)
get_popular_relays-IsPopular_example = get_popular_relays-IsPopular network storage

filters_async-is_needed_example :
    (user_filters_async "k" (get_required_filters ("zap_cnt_sent" ∷ "reports_cnt_recd" ∷ []))
      ≡ by_tag "P" "k" (9735 ∷ []) ∷ by_author "k" 9321 ∷ [])
    × (report_filters_async "k" (get_required_filters ("zap_cnt_sent" ∷ "reports_cnt_recd" ∷ []))
        ≡ by_tag "p" "k" (1984 ∷ []) ∷ [])
unfolding wants any_known lookup
filters_async-is_needed_example =
    filters_async-is_needed "k" ("zap_cnt_sent" ∷ "reports_cnt_recd" ∷ [])

rank_needs_all : (k : ℕ) → k < 7 → is_needed k ("rank" ∷ []) ≡ true
unfolding holds_until wants any_known lookup
rank_needs_all k h = holds-below (λ j. is_needed j ("rank" ∷ [])) 7 k h refl

filters_async-perm_example :
    Perm (user_filters_async "k" (get_required_filters ("rank" ∷ []))) (user_filters "k")
    × Perm (report_filters_async "k" (get_required_filters ("rank" ∷ []))) (report_filters "k")
filters_async-perm_example = filters_async-perm "k" ("rank" ∷ []) rank_needs_all
