-- ===== src/Relays/Sync.antt =====
-- internal/relay/sync.go: the syncs. Each starts its goroutines with a handler that persists the
-- events; the schedule says which of them runs its next turn. A sync that is cancelled before it
-- starts does nothing, and one that panics on the way to its relays has no result.
use cipolin.Base.{ℕ, Bool, List, [], Option, none, some, if◌then◌else◌}
use cipolin.Base.Int.{ℤ}
use cipolin.Base.Texts.{String}
use cipolin.Nostr.{Event, Filter}
use cipolin.Keys.{FilterType}
use cipolin.Fetcher.Cursor.{backward}
use cipolin.Fetcher.Identity.{Digest}
use cipolin.Fetcher.Store.{Bolt}
use cipolin.Fetcher.Fetch.{Config, Stores}
use cipolin.Fetcher.All.{Task, Shared, Pick, run_all, fetch_all_continuously}
use cipolin.Relays.Discovery.{Network}
use cipolin.Relays.Persist.{Targets, Syncer, Progress, persist_event, on_event_async}
use cipolin.Relays.Plan.{
  user_filters, report_filters, user_filters_async, report_filters_async, event_filters,
  address_filters, get_address_author_relays, get_event_author_relays, event_relays, address_relays,
  user_tasks,
}

module _ (net : Network) (storage_relays : List String) (d : Digest) (b : Bolt) {D G C : Type 0}
    (s : Syncer D G C) (cfg : Config) (deadline : ℤ) where
  -- Where the goroutines and what they share stand.
  abbrev pub Fleet : Type 0 → Type 0
  Fleet S = List Task × Shared b.Bucket S

  abbrev pub begun : {S : Type 0} → Stores b.Bucket S → List Task → Fleet S
  begun st tasks = (tasks, record { stores = st; results = [] })

  unfoldable pub sync_user_events :
      String → List String → List Pick → Stores b.Bucket (Targets D G C) → Fleet (Targets D G C)
  unfolding user_tasks run_all persist_event
  sync_user_events pubkey user_relays schedule st =
      run_all d b (persist_event s) cfg backward deadline schedule (
        begun st
          (user_tasks net storage_relays user_relays (user_filters pubkey) (report_filters pubkey)))

  -- The flag says whether the context is cancelled at the start.
  unfoldable pub sync_user_events_async :
      Bool
      → String
      → List String
      → FilterType
      → List Pick
      → Stores b.Bucket (Progress D G C)
      → Fleet (Progress D G C)
  unfolding user_tasks run_all user_filters_async report_filters_async on_event_async
  sync_user_events_async cancelled pubkey user_relays wanted schedule st =
      if cancelled
      then begun st []
      else run_all d b (on_event_async s) cfg backward deadline schedule (
          begun st (
            user_tasks net storage_relays user_relays (user_filters_async pubkey wanted)
              (report_filters_async pubkey wanted)))

  abbrev pub sync_from :
      {S : Type 0}
      → (Event → S → S)
      → Option (List String)
      → List Filter
      → List Pick
      → Stores b.Bucket S
      → Option (Fleet S)
  sync_from on_event none filters schedule st = none
  sync_from on_event (some relays) filters schedule st =
      some (fetch_all_continuously d b on_event cfg backward deadline relays filters schedule st)

  module _ (query_events : Filter → ℕ → List Event) where
    unfoldable pub sync_event_interactions :
        String → List Pick → Stores b.Bucket (Targets D G C) → Option (Fleet (Targets D G C))
    unfolding get_event_author_relays fetch_all_continuously persist_event
    sync_event_interactions event_id =
        sync_from (persist_event s) (event_relays net storage_relays query_events event_id)
          (event_filters event_id)

    unfoldable pub sync_event_interactions_async :
        Bool
        → String
        → List Pick
        → Stores b.Bucket (Progress D G C)
        → Option (Fleet (Progress D G C))
    unfolding get_event_author_relays fetch_all_continuously on_event_async
    sync_event_interactions_async cancelled event_id schedule st =
        if cancelled
        then some (begun st [])
        else sync_from (on_event_async s) (event_relays net storage_relays query_events event_id)
            (event_filters event_id) schedule st

  unfoldable pub sync_address_interactions :
      String → List Pick → Stores b.Bucket (Targets D G C) → Option (Fleet (Targets D G C))
  unfolding get_address_author_relays fetch_all_continuously persist_event
  sync_address_interactions address =
      sync_from (persist_event s) (address_relays net storage_relays address)
        (address_filters address)

  unfoldable pub sync_address_interactions_async :
      Bool → String → List Pick → Stores b.Bucket (Progress D G C) → Option (Fleet (Progress D G C))
  unfolding get_address_author_relays fetch_all_continuously on_event_async
  sync_address_interactions_async cancelled address schedule st =
      if cancelled
      then some (begun st [])
      else sync_from (on_event_async s) (address_relays net storage_relays address)
          (address_filters address) schedule st
