-- ===== src/Examples/Racing.antt =====
-- Two relays that are fetched from at the same time.
use mathlib.Core.List.{Perm}
use cipolin.Base.{
  ℕ, zero, suc, ◌+◌, ◌<◌, ◌≡◌, refl, List, [], ◌∷◌, map, length, arith, inl, inr, true, false, none,
}
use cipolin.Base.Int.{pos, ◌+ℤ◌}
use cipolin.Base.Texts.{String, has, lookup, insert}
use cipolin.Nostr.{Event, Filter}
use cipolin.Keys.{get_required_filters}
use cipolin.Fetcher.Cursor.{backward}
use cipolin.Fetcher.Identity.{new_fetch_cursor, generate_cursor_id}
use cipolin.Fetcher.Pages.{oldest_timestamp, newest_timestamp}
use cipolin.Fetcher.Pages.Distinct.{record_event}
use cipolin.Fetcher.All.{Pick, Task, Shared, fetch_all_continuously}
use cipolin.Fetcher.All.Sums.{pair_of, sum_results, Pool}
use cipolin.Fetcher.All.Whole.{AllFinished, all_pairs, fetch_all_continuously-IsComplete}
use cipolin.Fetcher.All.Late.{GetsLate, fetch_all_continuously-finishes}
use cipolin.Relays.Persist.{Syncer, Progress}
use cipolin.Relays.Sync.{sync_user_events_async}
use cipolin.Relays.Synced.{IsSynced, sync_user_events_async-IsSynced}
use cipolin.Examples.Merging.{network, storage}
use cipolin.Examples.Fetching.{digest, disk, all_posts, config, start, turn}

abbrev relays : List String
relays = "wss://r" ∷ "wss://s" ∷ []

abbrev filters : List Filter
filters = all_posts ∷ []

abbrev pick : ℕ → ℕ → Pick
pick place clock = record { place = place; turn = turn (pos clock) }

-- The second goroutine runs first; each then finds the deadline passed.
abbrev schedule : List Pick
schedule = pick 1 1 ∷ pick 0 2 ∷ pick 1 8 ∷ pick 0 9 ∷ []

abbrev behind : List Task × Pool digest disk
behind =
    fetch_all_continuously digest disk record_event config backward (pos 8) relays filters schedule
      start

schedule-IsFair : (i : ℕ) → i < 2 → GetsLate (pos 8) i schedule
schedule-IsFair zero h = inr (inr (inr (inl (refl, omega arith))))
schedule-IsFair (suc zero) h = inr (inr (inl (refl, omega arith)))
schedule-IsFair (suc (suc i)) h = absurd (omega arith)

fetch_all_continuously-finishes_example : AllFinished behind.0
fetch_all_continuously-finishes_example =
    fetch_all_continuously-finishes digest disk record_event config backward (pos 8) relays filters
      schedule start schedule-IsFair

delivered : length behind.1.stores.sink ≡ 2
unfolding fetch_all_continuously lookup new_fetch_cursor has oldest_timestamp newest_timestamp
    insert generate_cursor_id
delivered = refl

fetch_all_continuously-IsComplete_example :
    Perm (map pair_of behind.1.results) (all_pairs relays filters)
    × (length behind.1.stores.sink ≡ 0 + sum_results behind.1.results)
fetch_all_continuously-IsComplete_example =
    fetch_all_continuously-IsComplete digest disk config backward (pos 8) relays filters schedule
      start behind.0 behind.1 refl
      (fetch_all_continuously-finishes digest disk record_event config backward (pos 8) relays
        filters schedule start schedule-IsFair)

-- A user's sync, with a database that is a list of events.
abbrev saves_all : Syncer (List Event) (Unit {0}) (Unit {0})
saves_all = record { save_event = λ e db. (true, e ∷ db); graph_ingestor = none; rank_cache = none }

abbrev before : Progress (List Event) (Unit {0}) (Unit {0})
before = record {
  targets = record { db = []; graph = tt; ranks = tt };
  event_count = pos 0;
  cancelled = [];
}

abbrev synced : List Task × Shared disk.Bucket (Progress (List Event) (Unit {0}) (Unit {0}))
synced =
    sync_user_events_async network storage digest disk saves_all config (pos 8) false "k"
      ("wss://r" ∷ []) (get_required_filters ("post_cnt" ∷ [])) (pick 0 1 ∷ pick 0 9 ∷ [])
      (record { bucket = []; sink = before })

synced-AllFinished : AllFinished synced.0
unfolding sync_user_events_async lookup new_fetch_cursor has oldest_timestamp newest_timestamp
    insert generate_cursor_id get_required_filters cipolin.Relays.merge_relays
    cipolin.Relays.Discovery.get_popular_relays
synced-AllFinished = (tt, tt)

synced_one : synced.1.stores.sink.event_count ≡ pos 1
unfolding sync_user_events_async lookup new_fetch_cursor has oldest_timestamp newest_timestamp
    insert generate_cursor_id get_required_filters ◌+ℤ◌
synced_one = refl

sync_user_events_async-IsSynced_example : IsSynced saves_all disk.Bucket before synced
sync_user_events_async-IsSynced_example =
    sync_user_events_async-IsSynced saves_all digest disk config (pos 8) network storage false "k"
      ("wss://r" ∷ []) (get_required_filters ("post_cnt" ∷ [])) (pick 0 1 ∷ pick 0 9 ∷ [])
      (record { bucket = []; sink = before }) synced-AllFinished
