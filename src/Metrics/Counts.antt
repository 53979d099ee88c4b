-- ===== src/Metrics/Counts.antt =====
-- internal/metrics/metrics.go: what is counted in the local database, and the zaps of a user.
use cipolin.Base.{
  ℕ, suc, Bool, false, not, ◌||◌, List, [], ◌∷◌, Option, none, some, length, if◌then◌else◌,
}
use cipolin.Base.Int.{ℤ, pos, add64, sub64, ltb_ℤ, pos_part}
use cipolin.Base.Texts.{String, str_eq}
use cipolin.Nostr.{Tag, Event, Filter}
use cipolin.Metrics.Zaps.{Json, tag_value, quot, extract_amount_from_nutzap, zap_sats}
use cipolin.Metrics.Rank.{Floats, calculate_event_rank}

-- `EventStore`: the events of a filter, up to a limit.
pub record EventStore : Type 0 where
  pub query_events : Filter → ℕ → List Event

unfoldable pub query_all : EventStore → Filter → List Event
query_all db f = db.query_events f 5000

abbrev pub no_filter : Filter
no_filter = record {
  ids = [];
  authors = [];
  kinds = [];
  tags = [];
  since = pos 0;
  until = pos 0;
  limit = 0;
}

-- The events of these kinds with this value of the tag.
abbrev pub tagged : EventStore → List ℕ → String → String → List Event
tagged db kinds tag value =
    query_all db (record no_filter { kinds = kinds; tags = (tag, value ∷ []) ∷ [] })

abbrev pub authored : EventStore → ℕ → String → List Event
authored db kind pubkey =
    query_all db (record no_filter { kinds = kind ∷ []; authors = pubkey ∷ [] })

abbrev quotes_it : String → Option String → Bool
quotes_it event_id none = false
quotes_it event_id (some v) = str_eq v event_id

unfoldable pub is_quote : String → List Tag → Bool
unfolding tag_value
is_quote event_id [] = false
is_quote event_id (t ∷ ts) = quotes_it event_id (tag_value "q" t) || is_quote event_id ts

-- The loop over the comments, which skips the quotes.
unfoldable pub count_comments : String → ℕ → List Event → ℕ
unfolding is_quote
count_comments event_id count [] = count
count_comments event_id count (e ∷ es) =
    count_comments event_id (if not (is_quote event_id e.tags) then suc count else count) es

pub record ZapTotal : Type 0 where
  pub count : ℕ
  pub amount : ℤ

-- A loop over zaps or nutzaps, by the amount of one event.
unfoldable pub add_zaps : (Event → ℤ) → ZapTotal → List Event → ZapTotal
unfolding add64
add_zaps amount_of z [] = z
add_zaps amount_of z (e ∷ es) =
    add_zaps amount_of (record { count = suc z.count; amount = add64 z.amount (amount_of e) }) es

-- The metrics of an event or an address as numbers, before they are written as texts.
pub record Counts : Type 0 where
  pub comments : ℕ
  pub quotes : ℕ
  pub reposts : ℕ
  pub reactions : ℕ
  pub zaps : ZapTotal
  pub rank : ℤ

module _ (db : EventStore) (json : Json) where
  abbrev pub zap_total : String → String → ZapTotal
  zap_total tag value =
      let zapped =
        add_zaps (λ e. zap_sats json e.tags) (record { count = 0; amount = pos 0 })
          (tagged db (9735 ∷ []) tag value) in
      add_zaps (extract_amount_from_nutzap json) zapped (tagged db (9321 ∷ []) tag value)

module _ (db : EventStore) (json : Json) (fl : Floats) where
  abbrev ranked : ℕ → ℕ → ℕ → ℕ → ZapTotal → Counts
  ranked comments quotes reposts reactions zaps = record {
    comments = comments;
    quotes = quotes;
    reposts = reposts;
    reactions = reactions;
    zaps = zaps;
    rank =
        calculate_event_rank fl (pos comments) (pos quotes) (pos reposts) (pos reactions)
          (pos zaps.count) zaps.amount;
  }

  unfoldable pub compute_event_metrics : String → Counts
  unfolding count_comments query_all add_zaps zap_sats extract_amount_from_nutzap
      calculate_event_rank
  compute_event_metrics event_id =
      ranked (count_comments event_id 0 (tagged db (1 ∷ []) "e" event_id))
        (length (tagged db (1 ∷ []) "q" event_id)) (length (tagged db (6 ∷ []) "e" event_id))
        (length (tagged db (7 ∷ []) "e" event_id)) (zap_total db json "e" event_id)

  -- There are no quotes of an address.
  unfoldable pub compute_address_metrics : String → Counts
  unfolding query_all add_zaps zap_sats extract_amount_from_nutzap calculate_event_rank
  compute_address_metrics address =
      ranked (length (tagged db (1 ∷ []) "a" address)) 0
        (length (tagged db (6 ∷ 16 ∷ []) "a" address)) (length (tagged db (7 ∷ []) "a" address))
        (zap_total db json "a" address)

-- The zaps that a user received or sent, with the times of the oldest and the newest.
pub record ZapSpan : Type 0 where
  pub total : ZapTotal
  pub oldest : ℤ
  pub newest : ℤ

unfoldable pub span_zaps : (Event → ℤ) → ZapSpan → List Event → ZapSpan
unfolding add64
span_zaps amount_of z [] = z
span_zaps amount_of z (e ∷ es) =
    span_zaps amount_of
      (record {
        total = record { count = suc z.total.count; amount = add64 z.total.amount (amount_of e) };
        oldest = if ltb_ℤ e.created_at z.oldest then e.created_at else z.oldest;
        newest = if ltb_ℤ z.newest e.created_at then e.created_at else z.newest;
      })
      es

abbrev no_zaps : ℤ → ZapSpan
no_zaps now = record { total = record { count = 0; amount = pos 0 }; oldest = now; newest = pos 0 }

module _ (db : EventStore) (json : Json) where
  -- `now` is the reading of the clock at the start.
  unfoldable pub zaps_received : ℤ → String → ZapSpan
  unfolding query_all span_zaps zap_sats extract_amount_from_nutzap
  zaps_received now pubkey =
      span_zaps (extract_amount_from_nutzap json)
        (span_zaps (λ e. zap_sats json e.tags) (no_zaps now) (tagged db (9735 ∷ []) "p" pubkey))
        (tagged db (9321 ∷ []) "p" pubkey)

  unfoldable pub zaps_sent : ℤ → String → ZapSpan
  unfolding query_all span_zaps zap_sats extract_amount_from_nutzap
  zaps_sent now pubkey =
      span_zaps (extract_amount_from_nutzap json)
        (span_zaps (λ e. zap_sats json e.tags) (no_zaps now) (tagged db (9735 ∷ []) "P" pubkey))
        (authored db 9321 pubkey)

abbrev at_least_one : ℤ → ℤ
at_least_one days = if ltb_ℤ days (pos 1) then pos 1 else days

-- The average per day, with one day at least.
unfoldable pub average_per_day : ZapSpan → ℤ
unfolding sub64 quot
average_per_day z =
    if ltb_ℤ z.oldest z.newest
    then quot z.total.amount (pos_part (at_least_one (quot (sub64 z.newest z.oldest) 86400)))
    else pos 0
