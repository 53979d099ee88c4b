-- ===== src/Metrics/Spans.antt =====
-- The zaps of a user: their total, their span of time and their average.
use native.Mathlib.Nat.{div-le_self}
use cipolin.Base.{
  Bool, ℕ, suc, ◌≡◌, refl, ap, ◌∙◌, List, [], ◌∷◌, arith, All, All-map, if◌then◌else◌, true, false,
}
use cipolin.Base.Int.{ℤ, pos, negsuc, wrap64, add64, ◌≤ℤ◌, ltb_ℤ}
use cipolin.Base.Texts.{String}
use cipolin.Nostr.{Event}
use cipolin.Metrics.Zaps.{Json, zap_sats, extract_amount_from_nutzap, quot}
use cipolin.Metrics.Counts.{
  EventStore, tagged, add_zaps, ZapSpan, span_zaps, zaps_received, average_per_day,
}
use cipolin.Metrics.Sums.{exact_sats, zap_total-amount}

-- The time is in the span.
abbrev pub IsWithin : ZapSpan → Event → Type 0
IsWithin z e = (z.oldest ≤ℤ e.created_at) × (e.created_at ≤ℤ z.newest)

module _ (amount_of : Event → ℤ) where
  abbrev seen : ZapSpan → Event → ZapSpan
  seen z e = record {
    total = record { count = suc z.total.count; amount = add64 z.total.amount (amount_of e) };
    oldest = if ltb_ℤ e.created_at z.oldest then e.created_at else z.oldest;
    newest = if ltb_ℤ z.newest e.created_at then e.created_at else z.newest;
  }

  span_zaps-total :
      (z : ZapSpan) (es : List Event)
      → (span_zaps amount_of z es).total ≡ add_zaps amount_of z.total es
  unfolding span_zaps add_zaps
  span_zaps-total z [] = refl
  span_zaps-total z (e ∷ es) = span_zaps-total (seen z e) es

  span_zaps-IsWithin :
      (z : ZapSpan) (es : List Event)
      → let r = span_zaps amount_of z es in
        (r.oldest ≤ℤ z.oldest) × (z.newest ≤ℤ r.newest) × All (IsWithin r) es
  unfolding span_zaps
  span_zaps-IsWithin z [] = (omega arith, omega arith, tt)
  span_zaps-IsWithin z (e ∷ es) =
      let (old, new, all) = span_zaps-IsWithin (seen z e) es in
      (ground (arith, old), ground (arith, new), ((ground (arith, old), ground (arith, new)), all))

-- The received zaps of a user are the zaps and nutzaps with their key in a p tag: the total amount
-- is the sum of their sats, wrapped to an int64, and every one of them is within the span.
pub zaps_received-IsWithin :
    (db : EventStore) (json : Json) (now : ℤ) (pubkey : String)
    → let r = zaps_received db json now pubkey in
      (r.total.amount ≡ wrap64 (exact_sats db json "p" pubkey))
      × All (IsWithin r) (tagged db (9735 ∷ []) "p" pubkey)
      × All (IsWithin r) (tagged db (9321 ∷ []) "p" pubkey)
unfolding zaps_received
zaps_received-IsWithin db json now pubkey =
    let zaps = tagged db (9735 ∷ []) "p" pubkey in
    let nutzaps = tagged db (9321 ∷ []) "p" pubkey in
    let sats = λ (e : Event). zap_sats json e.tags in
    let sats' = extract_amount_from_nutzap json in
    let start : ZapSpan = record {
      total = record { count = 0; amount = pos 0 };
      oldest = now;
      newest = pos 0;
    } in
    let first = span_zaps sats start zaps in
    let (old, new, within) = span_zaps-IsWithin sats start zaps in
    let (old', new', within') = span_zaps-IsWithin sats' first nutzaps in
    (
      ap (λ t. t.amount)
            (span_zaps-total sats' first nutzaps
              ∙ ap (λ t. add_zaps sats' t nutzaps) (span_zaps-total sats start zaps))
          ∙ zap_total-amount db json "p" pubkey,
      All-map (λ e w. (omega (arith, old', w.0), omega (arith, new', w.1))) zaps within,
      within',
    )

IsPart : ℤ → ℤ → Type 0
IsPart whole part = (pos 0 ≤ℤ part) × (part ≤ℤ whole)

quot-IsPart : (a : ℤ) (d : ℕ) → pos 0 ≤ℤ a → IsPart a (quot a d)
unfolding quot IsPart
quot-IsPart (pos n) d h = (omega arith, omega (arith, div-le_self n d))
quot-IsPart (negsuc n) d h = absurd (omega arith)

if-IsPart : (a x y : ℤ) (b : Bool) → IsPart a x → IsPart a y → IsPart a (if b then x else y)
if-IsPart a x y true h k = h
if-IsPart a x y false h k = k

-- The average of a total that is not negative is not negative and not above the total.
pub average_per_day-bounds :
    (z : ZapSpan)
    → pos 0 ≤ℤ z.total.amount
    → (pos 0 ≤ℤ average_per_day z) × (average_per_day z ≤ℤ z.total.amount)
unfolding average_per_day IsPart
average_per_day-bounds z h =
    if-IsPart z.total.amount _ (pos 0) (ltb_ℤ z.oldest z.newest) (quot-IsPart z.total.amount _ h)
      (omega arith, h)
