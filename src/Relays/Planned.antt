-- ===== src/Relays/Planned.antt =====
-- A sync asks for what the requested metrics need.
use Prim.Native.Nat.{bit_and}
use mathlib.Core.List.Perm
use mathlib.Core.List.{Perm}
use cipolin.Base.{
  ℕ, ◌<◌, ◌≡◌, refl, sym, ap, ◌∙◌, Bool, true, false, not, List, [], ◌∷◌, ◌++◌, append-nil, ◌==◌,
  if◌then◌else◌, arith, ◌^◌,
}
use cipolin.Base.Texts.{String}
use cipolin.Nostr.{Filter}
use cipolin.Keys.{FilterType, get_required_filters}
use cipolin.Base.Tables.{holds_until, holds-below, same, same-eq}
use cipolin.Keys.Filters.{
  has_bit, wants, any_known, get_required_filters-lt, get_required_filters-bits,
}
use cipolin.Relays.Plan.{
  by_author, by_tag, user_filters, report_filters, when_asked, user_filters_async,
  report_filters_async,
}

-- A metric of the list needs the data at this position, or no metric of the list is known.
abbrev pub is_needed : ℕ → List String → Bool
is_needed k ms = if any_known ms then wants k ms else true

abbrev agrees : FilterType → ℕ → Bool
agrees f k = same (not (bit_and f (2 ^ k) == 0)) (has_bit f k)

abbrev all_agree : FilterType → Bool
all_agree f = holds_until (agrees f) 7

table : holds_until all_agree 128 ≡ true
unfolding holds_until
table = refl

asked-eq-has_bit :
    (f : FilterType) (k : ℕ) → f < 128 → k < 7 → not (bit_and f (2 ^ k) == 0) ≡ has_bit f k
asked-eq-has_bit f k lt le =
    same-eq (not (bit_and f (2 ^ k) == 0)) (has_bit f k)
      (holds-below (agrees f) 7 k le (holds-below all_agree 128 f lt table))

abbrev pub chosen : Bool → List Filter → List Filter
chosen true filters = filters
chosen false filters = []

when_asked-eq :
    (ms : List String) (k : ℕ) (filters before : List Filter)
    → k < 7
    → when_asked (get_required_filters ms) (2 ^ k) filters before
      ≡ before ++ chosen (is_needed k ms) filters
when_asked-eq ms k filters before le =
    let asked = asked-eq-has_bit (get_required_filters ms) k (get_required_filters-lt ms) le in
    let bits = get_required_filters-bits ms k le in rw (asked, bits) (by_test (is_needed k ms))
  where
    by_test : (b : Bool) → (if b then before ++ filters else before) ≡ before ++ chosen b filters
    by_test true = refl
    by_test false = sym (append-nil before)

-- With the filters that a list of metrics requires, the sync of a user asks for exactly the data
-- that a known metric of the list needs, in this order, and for all data if no metric is known:
-- posts, reactions, followers, zaps and nutzaps received, zaps and nutzaps sent; and reports
-- received and sent.
pub filters_async-is_needed :
    (pubkey : String) (ms : List String)
    → (user_filters_async pubkey (get_required_filters ms)
        ≡ chosen (is_needed 0 ms) (by_author pubkey 1 ∷ [])
          ++ chosen (is_needed 1 ms) (by_author pubkey 7 ∷ [])
          ++ chosen (is_needed 2 ms) (by_tag "p" pubkey (3 ∷ []) ∷ [])
          ++ chosen
              (is_needed 3 ms)
              (by_tag "p" pubkey (9735 ∷ []) ∷ by_tag "p" pubkey (9321 ∷ []) ∷ [])
          ++ chosen (is_needed 4 ms) (by_tag "P" pubkey (9735 ∷ []) ∷ by_author pubkey 9321 ∷ []))
      × (report_filters_async pubkey (get_required_filters ms)
          ≡ chosen (is_needed 5 ms) (by_tag "p" pubkey (1984 ∷ []) ∷ [])
            ++ chosen (is_needed 6 ms) (by_author pubkey 1984 ∷ []))
unfolding user_filters_async report_filters_async
filters_async-is_needed pubkey ms =
    let add = λ (k : ℕ) (h : k < 7) (fs before after : List Filter) (e : before ≡ after).
      when_asked-eq ms k fs before h ∙ ap (λ l. l ++ chosen (is_needed k ms) fs) e in
    (
      add 4 (omega arith) _ _ _ (
          add 3 (omega arith) _ _ _ (
            add 2 (omega arith) _ _ _
              (add 1 (omega arith) _ _ _ (when_asked-eq ms 0 _ [] (omega arith))))),
      add 6 (omega arith) _ _ _ (when_asked-eq ms 5 _ [] (omega arith)),
    )

-- If every type of data is needed, as for the rank or where no metric is known, the asynchronous
-- sync asks for what the blocking one asks for, in another order.
pub filters_async-perm :
    (pubkey : String) (ms : List String)
    → ((k : ℕ) → k < 7 → is_needed k ms ≡ true)
    → Perm (user_filters_async pubkey (get_required_filters ms)) (user_filters pubkey)
      × Perm (report_filters_async pubkey (get_required_filters ms)) (report_filters pubkey)
filters_async-perm pubkey ms all =
    let (users, reports) = filters_async-is_needed pubkey ms in
    let need0 = all 0 (omega arith) in
    let need1 = all 1 (omega arith) in
    let need2 = all 2 (omega arith) in
    let need3 = all 3 (omega arith) in
    let need4 = all 4 (omega arith) in
    let need5 = all 5 (omega arith) in
    let need6 = all 6 (omega arith) in
    (
      rw (users, need0, need1, need2, need3, need4)
          (Perm.cons _ (Perm.cons _ (Perm.cons _ (Perm.cons _ (Perm.swap _ _ _))))),
      rw (reports, need5, need6) (Perm.swap _ _ _),
    )
