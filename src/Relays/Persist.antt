-- ===== src/Relays/Persist.antt =====
-- internal/relay/sync.go: what the syncer does with an event.
pub mod Ranked
use cipolin.Base.{ℕ, ◌+◌, Bool, true, false, List, [], ◌∷◌, Option, none, some, if◌then◌else◌}
use cipolin.Base.Int.{ℤ, pos, ◌+ℤ◌}
use cipolin.Nostr.{Event}
use cipolin.Graph.Neo4j.{Result, ok, err}

-- What the syncer writes to: the database of events, the graph, and the cache of ranks.
pub record Targets (D G C : Type 0) : Type 0 where
  pub db : D
  pub graph : G
  pub ranks : C

-- The syncer's operations on them. The graph and the cache may be missing.
pub record Syncer (D G C : Type 0) : Type 0 where
  pub save_event : Event → D → Bool × D
  pub graph_ingestor : Option (Event → G → Result Bool × G)
  pub rank_cache : Option (C → C)

abbrev pub invalidated : {C : Type 0} → Option (C → C) → C → C
invalidated none ranks = ranks
invalidated (some invalidate_cache) ranks = invalidate_cache ranks

-- The progress of a sync, and what `ctx.Err()` will say to each handler that asks: once true, it
-- stays so.
pub record Progress (D G C : Type 0) : Type 0 where
  pub targets : Targets D G C
  pub event_count : ℤ
  pub cancelled : List Bool

module _ {D G C : Type 0} where
  abbrev pub after_ingest : Option (C → C) → Targets D G C → Result Bool × G → Targets D G C
  after_ingest rank_cache t (err e, graph) = record t { graph = graph }
  after_ingest rank_cache t (ok false, graph) = record t { graph = graph }
  after_ingest rank_cache t (ok true, graph) = record t {
    graph = graph;
    ranks = invalidated rank_cache t.ranks;
  }

  abbrev pub ingest_with :
      Option (Event → G → Result Bool × G) → Option (C → C) → Event → Targets D G C → Targets D G C
  ingest_with none rank_cache e t = t
  ingest_with (some ingest) rank_cache e t = after_ingest rank_cache t (ingest e t.graph)

  abbrev pub after_save : Syncer D G C → Event → Targets D G C → Bool × D → Targets D G C
  after_save s e t (false, db) = record t { db = db }
  after_save s e t (true, db) = ingest_with s.graph_ingestor s.rank_cache e (record t { db = db })

  unfoldable pub persist_event : Syncer D G C → Event → Targets D G C → Targets D G C
  persist_event s e t = after_save s e t (s.save_event e t.db)

  abbrev pub unless_cancelled : Syncer D G C → Event → Progress D G C → List Bool → Progress D G C
  unless_cancelled s e p [] = record p {
    targets = persist_event s e p.targets;
    event_count = p.event_count +ℤ pos 1;
  }
  unless_cancelled s e p (true ∷ later) = p
  unless_cancelled s e p (false ∷ later) = record p {
    targets = persist_event s e p.targets;
    event_count = p.event_count +ℤ pos 1;
    cancelled = later;
  }

  -- The handler of the asynchronous syncs.
  unfoldable pub on_event_async : Syncer D G C → Event → Progress D G C → Progress D G C
  unfolding persist_event
  on_event_async s e p = unless_cancelled s e p p.cancelled
