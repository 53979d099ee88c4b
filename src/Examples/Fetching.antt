-- ===== src/Examples/Fetching.antt =====
-- Fetching from a relay that holds two events, with cursors kept in an association list.
use cipolin.Base.{
  ◌≡◌, refl, sym, ap, List, [], ◌∷◌, Option, some, none, true, false, arith, All, subst,
  if◌then◌else◌, length, ◌+◌,
}
use cipolin.Base.Int.{ℤ, pos, ltb_ℤ, ◌-ℤ◌}
use cipolin.Base.Texts.{String, lookup, insert, lookup-insert, remove, lookup-remove, has, str_eq}
use cipolin.Nostr.{Event, Filter}
use cipolin.Fetcher.Cursor.{FetchCursor, backward, forward, success}
use cipolin.Fetcher.Identity.{Digest, generate_cursor_id, new_fetch_cursor}
use cipolin.Fetcher.Store.{Bolt, IsFaithful, IsReliable, ok, load_cursor, save_cursor}
use cipolin.Fetcher.Store.Reload.{load-save}
use cipolin.Fetcher.Pages.{
  deliver, oldest_timestamp, newest_timestamp, advance_backward, advance_forward,
}
use cipolin.Fetcher.Pages.Distinct.{record_event}
use cipolin.Fetcher.Fetch.{
  Config, Surroundings, Stores, fetch_backward, fetch_forward, fetch_events,
}
use cipolin.Fetcher.Fetch.Skips.{skip, refetch_skips}
use cipolin.Fetcher.Fetch.Known.{moved_past, fetch_known}
use cipolin.Fetcher.Fetch.Forward.{Reaches, fetch_forward-Reaches}
use cipolin.Fetcher.Loop.Ends.{fetch_continuously-returns}
use cipolin.Fetcher.Loop.Exhausted.{exhausted-unchanged}
use cipolin.Fetcher.Loop.{Turn, Outcome, outcome, fetch_continuously}
use cipolin.Fetcher.Loop.Totals.{total-deliveries}

abbrev pub digest : Digest
digest = record { marshal = λ m. "{}"; sha256_hex = λ s. s }

abbrev pub disk : Bolt
disk = record {
  Bytes = FetchCursor;
  Bucket = List (String × FetchCursor);
  get = λ s k. lookup k s;
  put = λ s k v. some (insert k v s);
  delete = λ s k. some (remove k s);
  keys = λ s. [];
  marshal = λ c. some c;
  unmarshal = λ v. some v;
}

of_some : {A : Type 0} {x y : A} → some x ≡ some y → x ≡ y
of_some h = cc

disk-IsFaithful : IsFaithful disk
disk-IsFaithful = record {
  get-put = λ s t k j v e.
      subst (λ u. lookup j u ≡ (if str_eq k j then some v else lookup j s)) (of_some e)
        (lookup-insert k j v s);
  get-delete = λ s t k j e.
      subst (λ u. lookup j u ≡ (if str_eq k j then none else lookup j s)) (of_some e)
        (lookup-remove k j s);
  unmarshal-marshal = λ c v e. sym e;
}

disk-IsReliable : IsReliable disk
disk-IsReliable = record { marshals = λ c. (c, refl); puts = λ s k v. (insert k v s, refl) }

abbrev pub young : Event
young = record {
  id = "y";
  pubkey = "k";
  created_at = pos 10;
  kind = 1;
  tags = [];
  content = "";
  sig = "";
}

abbrev pub old : Event
old = record {
  id = "o";
  pubkey = "k";
  created_at = pos 5;
  kind = 1;
  tags = [];
  content = "";
  sig = "";
}

-- The relay answers with its newest event in range.
abbrev pub answer : ℤ → List Event
answer until =
    if ltb_ℤ until (pos 5) then [] else if ltb_ℤ until (pos 10) then old ∷ [] else young ∷ []

abbrev pub env : Surroundings
env = record {
  ttl_clock = pos 100;
  now = pos 100;
  reply = λ relay q. some (answer q.until);
  done_clock = pos 100;
}

abbrev time_of : String → ℤ
time_of i = if str_eq i "y" then pos 10 else pos 5

abbrev pub all_posts : Filter
all_posts = record {
  ids = [];
  authors = "k" ∷ [];
  kinds = 1 ∷ [];
  tags = [];
  since = pos 0;
  until = pos 0;
  limit = 0;
}

abbrev pub config : Config
config = record { ttl = pos 60; fetch_timeout = pos 30; fetch_limit = 500 }

abbrev pub start : Stores disk.Bucket (List Event)
start = record { bucket = []; sink = [] }

-- The relay answers one event at a time, so the second page is the first event again: the loop
-- ends there, as at the end of the relay's events.
abbrev pub turn : ℤ → Turn
turn t = record { clock = t; env = env }

abbrev turns : List Turn
turns = turn (pos 1) ∷ turn (pos 2) ∷ turn (pos 3) ∷ turn (pos 9) ∷ []

abbrev run : Stores disk.Bucket (List Event) × Option Outcome
run =
    fetch_continuously digest disk record_event config "wss://r" all_posts backward (pos 8) turns
      start

run_ends : (run.0.sink ≡ young ∷ []) × (run.1 ≡ some (outcome 1 true false false none))
unfolding fetch_continuously lookup new_fetch_cursor has oldest_timestamp newest_timestamp insert
    generate_cursor_id ◌-ℤ◌ cipolin.Fetcher.Pages.add_boundary
run_ends = (refl, refl)

total-deliveries_example : length run.0.sink ≡ 0 + 1
total-deliveries_example =
    total-deliveries digest disk config "wss://r" all_posts backward (pos 8) turns start run.0
      (outcome 1 true false false none) (ap (λ (o : Option Outcome). (run.0, o)) run_ends.1)

fetch_continuously-returns_example : (o : Outcome) × (run ≡ (run.0, some o))
fetch_continuously-returns_example =
    fetch_continuously-returns digest disk record_event config "wss://r" all_posts backward (pos 8)
      (turn (pos 1) ∷ turn (pos 2) ∷ turn (pos 3) ∷ []) [] (turn (pos 9)) start (omega arith)

-- A cursor that has reached the beginning.
abbrev exhausted : FetchCursor
exhausted = record {
  id = "wss://r|{}";
  relay = "wss://r";
  filter_hash = "{}";
  filter = [];
  oldest_fetched = some (pos 10);
  newest_fetched = some (pos 10);
  reached_beginning = true;
  last_fetched_at = some (pos 20);
  oldest_boundary_ids = "y" ∷ [];
  newest_boundary_ids = "y" ∷ [];
}

abbrev finished : Stores disk.Bucket (List Event)
finished = record { bucket = ("cursor:wss://r|{}", exhausted) ∷ []; sink = [] }

exhausted-unchanged_example :
    (fetch_continuously digest disk record_event config "wss://r" all_posts backward
      (pos 8)
      turns
      finished).0
    ≡ finished
unfolding load_cursor generate_cursor_id lookup
exhausted-unchanged_example =
    exhausted-unchanged digest disk record_event config "wss://r" all_posts (pos 8) turns finished
      exhausted refl refl

-- The same cursor before it was exhausted.
abbrev halfway : FetchCursor
halfway = record exhausted { reached_beginning = false }

load-save_example :
    load_cursor digest disk (save_cursor digest disk [] halfway).0 "wss://r" all_posts ≡ ok halfway
unfolding save_cursor generate_cursor_id insert
load-save_example = load-save digest disk disk-IsFaithful [] halfway "wss://r" all_posts refl refl

refetch_skips_example :
    let got =
      fetch_backward digest disk record_event config env "wss://r" all_posts halfway start in
    let after = advance_backward (young ∷ []) [] (pos 100) halfway in
    fetch_events digest disk record_event config
      (record env { ttl_clock = pos 130 })
      "wss://r"
      all_posts
      forward
      got.0
    ≡ (got.0, skip forward after)
unfolding generate_cursor_id deliver has ◌-ℤ◌
refetch_skips_example =
    refetch_skips digest disk disk-IsFaithful disk-IsReliable record_event config "wss://r"
      all_posts env (record env { ttl_clock = pos 130 }) forward start halfway (young ∷ []) refl
      refl refl refl

fetch_known_example :
    let got =
      fetch_backward digest disk record_event config env "wss://r" all_posts halfway start in
    (got.0.sink ≡ [])
    × (got.1
        ≡ ok (record {
          events = [];
          cursor = moved_past (pos 10) (pos 100) halfway;
          status = success;
          direction = backward;
        }))
unfolding has
fetch_known_example =
    fetch_known digest disk record_event env halfway start (pos 10) young [] refl refl (refl, tt)
      config "wss://r" all_posts refl

fetch_forward-Reaches_example :
    let new = (deliver record_event ("z" ∷ []) (young ∷ []) []).0 in
    let c = record halfway { newest_fetched = some (pos 4); newest_boundary_ids = "z" ∷ [] } in
    let after = advance_forward new (pos 100) c in
    ((fetch_forward digest disk record_event config env "wss://r" all_posts c start).1
      ≡ ok (record { events = new; cursor = after; status = success; direction = forward }))
    × All (λ e. has e.id ("z" ∷ []) ≡ false) new
    × ((m : ℤ) × Reaches c (pos 4) after m new)
fetch_forward-Reaches_example =
    fetch_forward-Reaches digest disk record_event config env "wss://r" all_posts
      (record halfway { newest_fetched = some (pos 4); newest_boundary_ids = "z" ∷ [] }) start
      (pos 4) (young ∷ []) refl refl (omega arith)
