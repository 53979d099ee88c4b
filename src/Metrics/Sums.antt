-- ===== src/Metrics/Sums.antt =====
-- What the counts and totals of internal/metrics/metrics.go amount to.
use cipolin.Base.{
  ℕ, suc, ◌+◌, ◌≡◌, refl, sym, ap, ◌∙◌, List, [], ◌∷◌, arith, length, if◌then◌else◌, Bool-cases,
  inl, inr,
}
use cipolin.Base.Int.{ℤ, pos, wrap64, add64, ◌+ℤ◌, +ℤ_assoc}
use cipolin.Base.Texts.{String}
use cipolin.Nostr.{Event}
use cipolin.Metrics.Zaps.{Json, zap_sats, extract_amount_from_nutzap}
use cipolin.Metrics.Rank.{Floats}
use cipolin.Metrics.Counts.{
  EventStore, tagged, ZapTotal, add_zaps, zap_total, compute_event_metrics, compute_address_metrics,
  is_quote, count_comments,
}

add64-wrap64 : (a b : ℤ) → add64 (wrap64 a) b ≡ wrap64 (a +ℤ b)
unfolding add64 wrap64 ◌+ℤ◌
add64-wrap64 a b = ground arith

-- The exact sum of the amounts, without a width.
unfoldable pub exact : (Event → ℤ) → List Event → ℤ
exact amount_of [] = pos 0
exact amount_of (e ∷ es) = amount_of e +ℤ exact amount_of es

+ℤ_zero : (a : ℤ) → a +ℤ pos 0 ≡ a
unfolding ◌+ℤ◌
+ℤ_zero a = ground arith

module _ (amount_of : Event → ℤ) where
  add_zaps-amount :
      (n : ℕ) (a : ℤ) (es : List Event)
      → (add_zaps amount_of (record { count = n; amount = wrap64 a }) es).amount
        ≡ wrap64 (a +ℤ exact amount_of es)
  unfolding add_zaps exact
  add_zaps-amount n a [] = ap wrap64 (sym (+ℤ_zero a))
  add_zaps-amount n a (e ∷ es) =
      ap (λ x. (add_zaps amount_of (record { count = suc n; amount = x }) es).amount)
        (add64-wrap64 a (amount_of e))
      ∙ add_zaps-amount (suc n) (a +ℤ amount_of e) es
      ∙ ap wrap64 (+ℤ_assoc a (amount_of e) (exact amount_of es))

  add_zaps-amount_from :
      (z : ZapTotal) (a : ℤ) (es : List Event)
      → z.amount ≡ wrap64 a
      → (add_zaps amount_of z es).amount ≡ wrap64 (a +ℤ exact amount_of es)
  add_zaps-amount_from z a es h =
      ap (λ x. (add_zaps amount_of (record { count = z.count; amount = x }) es).amount) h
      ∙ add_zaps-amount z.count a es

  add_zaps-count :
      (z : ZapTotal) (es : List Event) → (add_zaps amount_of z es).count ≡ z.count + length es
  unfolding add_zaps
  add_zaps-count z [] = omega arith
  add_zaps-count z (e ∷ es) =
      add_zaps-count (record { count = suc z.count; amount = add64 z.amount (amount_of e) }) es
      ∙ omega arith

-- The sats of the zaps and the nutzaps with a value of a tag.
abbrev pub exact_sats : EventStore → Json → String → String → ℤ
exact_sats db json tag value =
    exact (λ e. zap_sats json e.tags) (tagged db (9735 ∷ []) tag value)
    +ℤ exact (extract_amount_from_nutzap json) (tagged db (9321 ∷ []) tag value)

zero-wrap64 : wrap64 (pos 0) ≡ pos 0
unfolding wrap64
zero-wrap64 = refl

zero_+ℤ : (a : ℤ) → pos 0 +ℤ a ≡ a
unfolding ◌+ℤ◌
zero_+ℤ a = ground arith

module _ (db : EventStore) (json : Json) where
  pub zap_total-amount :
      (tag value : String)
      → (zap_total db json tag value).amount ≡ wrap64 (exact_sats db json tag value)
  zap_total-amount tag value =
      let sats = λ (e : Event). zap_sats json e.tags in
      let start : ZapTotal = record { count = 0; amount = pos 0 } in
      let zaps = tagged db (9735 ∷ []) tag value in
      let first = add_zaps-amount_from sats start (pos 0) zaps (sym zero-wrap64) in
      add_zaps-amount_from (extract_amount_from_nutzap json) (add_zaps sats start zaps)
        (exact sats zaps) (tagged db (9321 ∷ []) tag value)
        (first ∙ ap wrap64 (zero_+ℤ (exact sats zaps)))

  zap_total-count :
      (tag value : String)
      → (zap_total db json tag value).count
        ≡ length (tagged db (9735 ∷ []) tag value) + length (tagged db (9321 ∷ []) tag value)
  zap_total-count tag value =
      let sats = λ (e : Event). zap_sats json e.tags in
      let start : ZapTotal = record { count = 0; amount = pos 0 } in
      let zaps = tagged db (9735 ∷ []) tag value in
      add_zaps-count (extract_amount_from_nutzap json) (add_zaps sats start zaps)
        (tagged db (9321 ∷ []) tag value)
      ∙ ap (λ n. n + length (tagged db (9321 ∷ []) tag value))
          (add_zaps-count sats start zaps ∙ omega arith)

-- The zap amount of an event is the sum of the sats of all its zaps and nutzaps in the database,
-- wrapped to an int64, and their count is the number of both. The same holds of an address.
pub compute_metrics-zaps :
    (db : EventStore) (json : Json) (fl : Floats) (event_id address : String)
    → let e = (compute_event_metrics db json fl event_id).zaps in
      let a = (compute_address_metrics db json fl address).zaps in
      (e.amount ≡ wrap64 (exact_sats db json "e" event_id))
      × (e.count
          ≡ length (tagged db (9735 ∷ []) "e" event_id)
            + length (tagged db (9321 ∷ []) "e" event_id))
      × (a.amount ≡ wrap64 (exact_sats db json "a" address))
      × (a.count
          ≡ length (tagged db (9735 ∷ []) "a" address) + length (tagged db (9321 ∷ []) "a" address))
unfolding compute_event_metrics compute_address_metrics
compute_metrics-zaps db json fl event_id address = (
  zap_total-amount db json "e" event_id,
  zap_total-count db json "e" event_id,
  zap_total-amount db json "a" address,
  zap_total-count db json "a" address,
)

-- The quotes among these events.
unfoldable pub quotes_among : String → List Event → ℕ
unfolding is_quote
quotes_among event_id [] = 0
quotes_among event_id (e ∷ es) =
    (if is_quote event_id e.tags then 1 else 0) + quotes_among event_id es

comments-quotes :
    (event_id : String) (n : ℕ) (es : List Event)
    → count_comments event_id n es + quotes_among event_id es ≡ n + length es
unfolding count_comments quotes_among
comments-quotes event_id n [] = omega arith
comments-quotes event_id n (e ∷ es) = elim (Bool-cases (is_quote event_id e.tags)) [
  | inl q ↦ let rest = comments-quotes event_id n es in rw (q, count_comments) (omega (arith, rest))
  | inr q ↦
      let rest = comments-quotes event_id (suc n) es in rw (q, count_comments) (omega (arith, rest))
]

-- The comments of an event and the quotes of it, among the notes that refer to it by an e tag, are
-- all these notes: none is counted twice and none is left out.
pub compute_event_metrics-comments :
    (db : EventStore) (json : Json) (fl : Floats) (event_id : String)
    → let notes = tagged db (1 ∷ []) "e" event_id in
      (compute_event_metrics db json fl event_id).comments + quotes_among event_id notes
      ≡ length notes
unfolding compute_event_metrics
compute_event_metrics-comments db json fl event_id =
    comments-quotes event_id 0 (tagged db (1 ∷ []) "e" event_id) ∙ omega arith
