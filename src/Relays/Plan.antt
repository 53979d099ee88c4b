-- ===== src/Relays/Plan.antt =====
-- internal/relay/sync.go: what a sync asks for, and of which relays.
use Prim.Native.Nat.{bit_and}
use cipolin.Base.{
  ℕ, ◌+◌, Bool, true, false, List, [], ◌∷◌, ◌++◌, Option, none, some, if◌then◌else◌, ◌==◌, not,
}
use cipolin.Base.Split.{split}
use cipolin.Base.Texts.{String, byte_len}
use cipolin.Nostr.{Event, Filter}
use cipolin.Fetcher.All.{ContinuousFetchSummary, Task, tasks_for}
use cipolin.Keys.{
  FilterType, filter_posts, filter_reactions, filter_followers, filter_zaps_recd, filter_zaps_sent,
  filter_reports_recd, filter_reports_sent,
}
use cipolin.Relays.{merge_relays}
use cipolin.Relays.Discovery.{
  Network, no_filter, first_event, get_popular_relays, get_user_nip65_relays,
}

-- The public key of a subject stands for its hexadecimal form: the callers have turned it into a key
-- before.
abbrev pub by_author : String → ℕ → Filter
by_author pubkey kind = record no_filter { authors = pubkey ∷ []; kinds = kind ∷ [] }

abbrev pub by_tag : String → String → List ℕ → Filter
by_tag name value kinds = record no_filter { kinds = kinds; tags = (name, value ∷ []) ∷ [] }

-- The filters of `SyncUserEvents`.
abbrev pub user_filters : String → List Filter
user_filters pubkey =
    by_author pubkey 1
    ∷ by_author pubkey 7
    ∷ by_tag "p" pubkey (3 ∷ [])
    ∷ by_tag "p" pubkey (9735 ∷ [])
    ∷ by_tag "P" pubkey (9735 ∷ [])
    ∷ by_tag "p" pubkey (9321 ∷ [])
    ∷ by_author pubkey 9321
    ∷ []

abbrev pub report_filters : String → List Filter
report_filters pubkey = by_author pubkey 1984 ∷ by_tag "p" pubkey (1984 ∷ []) ∷ []

-- `filterType & bit != 0`, and the filters that are appended if it holds.
abbrev pub when_asked : FilterType → FilterType → List Filter → List Filter → List Filter
when_asked wanted bit filters before =
    if not (bit_and wanted bit == 0) then before ++ filters else before

-- The filters of `SyncUserEventsAsync`, by the types of data that are needed.
unfoldable pub user_filters_async : String → FilterType → List Filter
user_filters_async pubkey wanted =
    when_asked wanted filter_zaps_sent (by_tag "P" pubkey (9735 ∷ []) ∷ by_author pubkey 9321 ∷ [])
      (when_asked wanted filter_zaps_recd
        (by_tag "p" pubkey (9735 ∷ []) ∷ by_tag "p" pubkey (9321 ∷ []) ∷ [])
        (when_asked wanted filter_followers (by_tag "p" pubkey (3 ∷ []) ∷ []) (
          when_asked wanted filter_reactions (by_author pubkey 7 ∷ [])
            (when_asked wanted filter_posts (by_author pubkey 1 ∷ []) []))))

unfoldable pub report_filters_async : String → FilterType → List Filter
report_filters_async pubkey wanted =
    when_asked wanted filter_reports_sent (by_author pubkey 1984 ∷ [])
      (when_asked wanted filter_reports_recd (by_tag "p" pubkey (1984 ∷ []) ∷ []) [])

-- The filters for the interactions with an event or an address, in both forms of the sync.
abbrev pub event_filters : String → List Filter
event_filters event_id =
    by_tag "e" event_id (1 ∷ [])
    ∷ by_tag "q" event_id (1 ∷ [])
    ∷ by_tag "e" event_id (6 ∷ [])
    ∷ by_tag "e" event_id (7 ∷ [])
    ∷ by_tag "e" event_id (9735 ∷ [])
    ∷ by_tag "e" event_id (9321 ∷ [])
    ∷ []

abbrev pub address_filters : String → List Filter
address_filters address =
    by_tag "a" address (1 ∷ [])
    ∷ by_tag "a" address (6 ∷ 16 ∷ [])
    ∷ by_tag "a" address (7 ∷ [])
    ∷ by_tag "a" address (9735 ∷ [])
    ∷ by_tag "a" address (9321 ∷ [])
    ∷ []

-- The counts of `logFetchResults`: the events, the errors and the relays skipped by the TTL.
abbrev pub error_count : {A : Type 0} → Option A → ℕ
error_count none = 0
error_count (some e) = 1

abbrev pub one_if : Bool → ℕ
one_if true = 1
one_if false = 0

unfoldable pub log_fetch_results : List ContinuousFetchSummary → ℕ → ℕ → ℕ → ℕ × ℕ × ℕ
log_fetch_results [] total errors skipped = (total, errors, skipped)
log_fetch_results (r ∷ rs) total errors skipped =
    log_fetch_results rs (total + r.total) (errors + error_count r.error)
      (skipped + one_if r.skipped_ttl)

module _ (net : Network) (storage_relays : List String) where
  -- A list, or the panic on the way to it.
  abbrev pub author_of_address : List String → Option (List String)
  author_of_address [] = some []
  author_of_address (kind ∷ []) = some []
  author_of_address (kind ∷ pubkey ∷ rest) =
      if byte_len pubkey == 64 then get_user_nip65_relays net storage_relays pubkey else some []

  unfoldable pub get_address_author_relays : String → Option (List String)
  unfolding byte_len get_user_nip65_relays split
  get_address_author_relays address = author_of_address (split b':' address)

  abbrev pub author_or_next : Option Event → Option (List String) → Option (List String)
  author_or_next none rest = rest
  author_or_next (some e) rest = get_user_nip65_relays net storage_relays e.pubkey

  abbrev pub event_filter : String → Filter
  event_filter event_id = record no_filter { ids = event_id ∷ [] }

  -- The loop over the fallback relays.
  unfoldable pub author_from_relays : String → List String → Option (List String)
  unfolding get_user_nip65_relays
  author_from_relays event_id [] = some []
  author_from_relays event_id (url ∷ urls) =
      author_or_next (first_event (net.reply url (event_filter event_id)))
        (author_from_relays event_id urls)

  -- The local database first: its answer to the query with a limit of one.
  unfoldable pub get_event_author_relays :
      (Filter → ℕ → List Event) → String → List String → Option (List String)
  unfolding get_user_nip65_relays author_from_relays
  get_event_author_relays query_events event_id fallback =
      if net.is_hex event_id
      then author_or_next (first_event (some (query_events (event_filter event_id) 1)))
          (author_from_relays event_id fallback)
      else none

  abbrev pub report_relays : List String → List String
  report_relays user_relays = merge_relays (get_popular_relays net storage_relays) user_relays

  abbrev pub with_popular : Option (List String) → Option (List String)
  with_popular none = none
  with_popular (some author) = some (merge_relays (get_popular_relays net storage_relays) author)

  abbrev pub event_relays : (Filter → ℕ → List Event) → String → Option (List String)
  event_relays query_events event_id =
      with_popular
        (get_event_author_relays query_events event_id (get_popular_relays net storage_relays))

  abbrev pub address_relays : String → Option (List String)
  address_relays address = with_popular (get_address_author_relays address)

  -- The goroutines of a user's sync: those for their own relays, and those for the reports. Where a
  -- list of filters is empty none is started.
  unfoldable pub user_tasks : List String → List Filter → List Filter → List Task
  unfolding tasks_for
  user_tasks user_relays filters reports =
      tasks_for user_relays filters ++ tasks_for (report_relays user_relays) reports
