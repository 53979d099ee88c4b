-- ===== src/Relays/Persist/Ranked.antt =====
-- From the event of a contact list to the ranks.
use cipolin.Base.{◌≡◌, refl, sym, ap, ◌∙◌, subst, Bool, true, false, some}
use cipolin.Base.Int.{ℤ}
use cipolin.Base.Texts.{String, eq_refl}
use cipolin.Nostr.{Event}
use cipolin.Graph.Neo4j.{Arithmetic, Result, ok, err, Neo4j}
use cipolin.Graph.Ingest.{ingest_event}
use cipolin.Graph.Promises.{ContactList, Reading, IsFaithful}
use cipolin.Graph.Lists.{list_of, Refines, ingest_event-Refines}
use cipolin.Graph.Engine.{
  GraphRankEngine, Clocks, is_blank, rank_among, invalidate_cache, State, get_user_rank,
}
use cipolin.Graph.Fresh.{IsInvalid, ranks_in, get_user_rank-Rebuilt}
use cipolin.Relays.Persist.{Targets, Syncer, after_ingest, after_save, persist_event}

module _ (m : Arithmetic) (n : Neo4j m) (r : Reading m n) (faithful : IsFaithful m n r) {D : Type 0}
    (save_event : Event → D → Bool × D) where
  -- The syncer of the program: one engine takes the contact lists and caches the ranks.
  abbrev pub ranked_syncer : Syncer D n.Database (GraphRankEngine m.Float64)
  ranked_syncer = record {
    save_event = save_event;
    graph_ingestor = some (ingest_event m n);
    rank_cache = some (invalidate_cache m);
  }

  abbrev pub World : Type 0
  World = Targets D n.Database (GraphRankEngine m.Float64)

  -- What an event does, by whether it is stored and what the graph says.
  abbrev pub Persisted : Event → World → World → Bool × D → Result Bool × n.Database → Type 0
  Persisted e t t' (false, db) out = (t'.db ≡ db) × (t'.graph ≡ t.graph) × (t'.ranks ≡ t.ranks)
  Persisted e t t' (true, db) (err x, graph) =
      (t'.db ≡ db) × (t'.graph ≡ graph) × (t'.ranks ≡ t.ranks)
  Persisted e t t' (true, db) (ok false, graph) =
      (t'.db ≡ db)
      × (t'.graph ≡ graph)
      × (t'.ranks ≡ t.ranks)
      × (r.lists t'.graph ≡ r.lists t.graph)
  Persisted e t t' (true, db) (ok true, graph) =
      (t'.db ≡ db)
      × (t'.graph ≡ graph)
      × IsInvalid m n r faithful t'.ranks
      × (r.lists t'.graph e.pubkey ≡ list_of e)

  ingested-Persisted :
      (e : Event) (t : World) (db : D) (out : Result Bool × n.Database)
      → ingest_event m n e t.graph ≡ out
      → Persisted e t
          (after_ingest (some (invalidate_cache m)) (record t { db = db }) out)
          (true, db)
          out
  unfolding invalidate_cache
  ingested-Persisted e t db (err x, graph) run = (refl, refl, refl)
  ingested-Persisted e t db (ok false, graph) run =
      let (told, lists) =
        subst (λ out. Refines m n r faithful e t.graph out) run
          (ingest_event-Refines m n r faithful e t.graph) in
      (refl, refl, refl, lists ∙ rw (← told) refl)
  ingested-Persisted e t db (ok true, graph) run =
      let (told, lists) =
        subst (λ out. Refines m n r faithful e t.graph out) run
          (ingest_event-Refines m n r faithful e t.graph) in
      (
        refl,
        refl,
        record { dirty = refl; expired = refl },
        ap (λ (l : String → ContactList). l e.pubkey) lists ∙ rw (← told, eq_refl e.pubkey) refl,
      )

  -- An event that cannot be stored changes nothing else; one that the graph fails to take or refuses
  -- leaves the ranks as they are, and a refused one the contact lists too; and one that the graph
  -- takes is its author's contact list from then on, and the cached ranks are invalid.
  pub persist_event-Persisted :
      (e : Event) (t : World)
      → Persisted e t
          (persist_event ranked_syncer e t)
          (save_event e t.db)
          (ingest_event m n e t.graph)
  unfolding persist_event
  persist_event-Persisted e t = by_save (save_event e t.db)
    where
      by_save :
          (saved : Bool × D)
          → Persisted e t (after_save ranked_syncer e t saved) saved (ingest_event m n e t.graph)
      by_save (false, db) = (refl, refl, refl)
      by_save (true, db) = ingested-Persisted e t db (ingest_event m n e t.graph) refl

  -- Once an event was stored and the graph has taken it as a contact list, the next rank of any
  -- user is that of the graph in which its author follows the keys that it names: no rank from
  -- before is given out.
  pub persist_event-ranked :
      (e : Event) (t : World) (db : D) (graph : n.Database) (pubkey : String) (now : Clocks)
      (rank : ℤ) (after : State m n)
      → save_event e t.db ≡ (true, db)
      → ingest_event m n e t.graph ≡ (ok true, graph)
      → is_blank pubkey ≡ false
      → let t' = persist_event ranked_syncer e t in
        get_user_rank m n pubkey now (λ s. s) (t'.ranks, t'.graph) ≡ (ok rank, after)
        → (rank ≡ rank_among m (ranks_in m n r faithful graph) pubkey)
          × (r.lists graph e.pubkey ≡ list_of e)
  persist_event-ranked e t db graph pubkey now rank after stored took named h =
      let t' = persist_event ranked_syncer e t in
      let one =
        subst (λ saved. Persisted e t t' saved (ingest_event m n e t.graph)) stored
          (persist_event-Persisted e t) in
      let (kept, same, invalid, listed) = subst (λ out. Persisted e t t' (true, db) out) took one in
      let fresh =
        get_user_rank-Rebuilt m n r faithful pubkey now (λ s. s) t'.ranks t'.graph rank after named
          invalid invalid h in
      (
        fresh.0 ∙ ap (λ g. rank_among m (ranks_in m n r faithful g) pubkey) same,
        ap (λ g. r.lists g e.pubkey) (sym same) ∙ listed,
      )
