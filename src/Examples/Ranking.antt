-- ===== src/Examples/Ranking.antt =====
-- A graph in memory, with contact lists of two authors.
use cipolin.Base.{
  ℕ, ◌+◌, ◌*◌, ◌/◌, ◌≡◌, refl, sym, ap, ◌∙◌, inl, Bool, true, false, ◌||◌, List, [], ◌∷◌, Option,
  none, some, ltb, leb, if◌then◌else◌, arith,
}
use cipolin.Base.Int.{ℤ, pos, pos_part, ◌<ℤ◌, ◌+ℤ◌}
use cipolin.Base.Texts.{String, has}
use cipolin.Nostr.{Event}
use cipolin.Graph.Neo4j.{
  Arithmetic, Any, int64, float64, text, boolean, other, Answer, refused, rows, Result, ok, err,
  Error, Neo4j, Run,
}
use cipolin.Graph.Ingest.{ingest_event}
use cipolin.Graph.Promises.{ContactList, update, is_there, Reading, Same, Committed, IsFaithful}
use cipolin.Graph.Lists.{list_of}
use cipolin.Graph.Newest.{IsNewest, Ingested, none_yet, ingested, ingest_event-IsNewest}
use cipolin.Graph.Engine.{
  GraphRankEngine, Clocks, rank_among, new_engine, invalidate_cache, State, get_user_rank,
}
use cipolin.Relays.Persist.{persist_event}
use cipolin.Relays.Persist.Ranked.{
  World, Persisted, ranked_syncer, persist_event-Persisted, persist_event-ranked,
}
use cipolin.Graph.Fresh.{IsInvalid, ranks_in, get_user_rank-fresh}

-- Whole numbers; a quotient is in hundredths.
abbrev pub numbers : Arithmetic
numbers = record {
  Float64 = ℕ;
  Float32 = ℕ;
  nought = 0;
  hundred = 100;
  is_less = ltb;
  is_at_most = leb;
  div = λ x y. x * 100 / y;
  mul = λ x y. x;
  round = λ x. x;
  to_int = pos;
  of_int = pos_part;
  widen = λ x. x;
}

pub record Memory : Type 0 where
  pub lists : String → ContactList
  pub projection : Option (String → ContactList)

abbrev Value : Type 0
Value = Any numbers

abbrev commit : {R : Type 0} → Memory → Result R × Memory → Result R × Memory
commit d (ok a, d') = (ok a, d')
commit d (err e, d') = (err e, d)

abbrev bob : String
bob = "0123456789012345678901234567890123456789012345678901234567890123"

-- Bob's score is two if alice follows him.
abbrev scores : (String → ContactList) → List (Value × Value)
scores lists =
    (text "alice", float64 1)
    ∷ (text bob, float64 (if (lists "alice").follows bob then 2 else 1))
    ∷ []

abbrev rank_rows : Option (String → ContactList) → Answer (Value × Value)
rank_rows none = refused
rank_rows (some lists) = rows (scores lists) false

abbrev pub memory : Neo4j numbers
memory = record {
  Database = Memory;
  execute_write = λ R work d. commit d (work d);
  execute_read = λ R work d. ((work d).0, d);
  merge_user = λ pubkey d. (rows (int64 ((d.lists pubkey).created_at) ∷ []) false, d);
  reset_follows = λ pubkey time d. (
    rows [] false,
    record d { lists = update pubkey (record { created_at = time; follows = λ k. false }) d.lists },
  );
  add_follows = λ pubkey targets id time d. (
    rows [] false,
    record d {
      lists =
          update pubkey
            (record {
              created_at = (d.lists pubkey).created_at;
              follows = λ k. (d.lists pubkey).follows k || has k targets;
            })
            d.lists;
    },
  );
  graph_exists = λ d. (rows (boolean (is_there d.projection) ∷ []) false, d);
  graph_project = λ d. (rows (other ∷ []) false, record d { projection = some d.lists });
  graph_drop = λ d. (rows (other ∷ []) false, record d { projection = none });
  page_rank = λ d. (rank_rows d.projection, d);
  gds_version = λ d. (rows (text "2.6" ∷ []) false, d);
}

abbrev reading : Reading numbers memory
reading = record {
  Snapshot = String → ContactList;
  lists = λ d. d.lists;
  current = λ d. d.lists;
  projection = λ d. d.projection;
  scores_of = scores;
}

eq-Same : {d d' : Memory} → d ≡ d' → Same numbers memory reading d d'
eq-Same e = record {
  same_lists = ap (λ (d : Memory). d.lists) e;
  same_current = ap (λ (d : Memory). d.lists) e;
  same_projection = ap (λ (d : Memory). d.projection) e;
}

committed :
    (R : Type 0) (work : Run Memory R) (d d' : Memory) (a : R) (out : Result R × Memory)
    → work d ≡ out
    → commit d out ≡ (ok a, d')
    → Committed numbers memory reading R work d a d'
committed R work d d' a (ok a', after) run h =
    let one : (ok a', after) ≡ (ok a, d') = h in (d, d', eq-Same refl, run ∙ one, eq-Same refl)
committed R work d d' a (err e, after) run h = cc

rolled_back :
    (R : Type 0) (d d' : Memory) (e : Error) (out : Result R × Memory)
    → commit d out ≡ (err e, d')
    → d ≡ d'
rolled_back R d d' e (ok a, after) h = cc
rolled_back R d d' e (err x, after) h = cc

ranked :
    (p : Option (String → ContactList)) (d d' : Memory) (vs : List (Value × Value))
    → ◌≡◌ {A = Answer (Value × Value) × Memory} (rank_rows p, d) (rows vs false, d')
    → (s : String → ContactList) × (p ≡ some s) × (vs ≡ scores s)
ranked none d d' vs h = cc
ranked (some s) d d' vs h = (s, refl, cc)

memory-IsFaithful : IsFaithful numbers memory reading
memory-IsFaithful = record {
  write_ok = λ R work d a d' h. committed R work d d' a (work d) refl h;
  write_err = λ R work d e d' h. inl (eq-Same (rolled_back R d d' e (work d) h));
  read_ok = λ R work d a d' h.
      let result : (work d).0 ≡ ok a = cc in
      let state : d ≡ d' = cc in
      (
        d,
        (work d).1,
        eq-Same refl,
        ap (λ (r : Result R). let out : Result R × Memory = (r, (work d).1) in out) result,
        eq-Same state,
      );
  merge_user_row = λ pubkey d d' v vs broken h.
      let state : d ≡ d' = cc in (cc, ap (λ (d : Memory). d.lists) (sym state));
  reset_done = λ pubkey time d d' vs h. cc;
  add_done = λ pubkey targets id time d d' vs h. cc;
  exists_row = λ d d' v vs broken h. cc;
  drop_done = λ d d' vs h. (cc, cc);
  project_done = λ d d' vs h. (cc, cc);
  page_rank_rows = λ d d' vs h. ranked d.projection d d' vs h;
}

abbrev pub empty : Memory
empty = record {
  lists = λ k. record { created_at = pos 0; follows = λ j. false };
  projection = none;
}

abbrev contacts : ℕ → List String → Event
contacts time tag = record {
  id = "e";
  pubkey = "alice";
  created_at = pos time;
  kind = 3;
  tags = tag ∷ [];
  content = "";
  sig = "";
}

-- The newer list comes first, and the older one is refused.
abbrev newer_list : Event
newer_list = contacts 20 ("p" ∷ bob ∷ [])

abbrev older_list : Event
older_list = contacts 10 ("p" ∷ "too short" ∷ [])

abbrev once : Memory
once = (ingest_event numbers memory newer_list empty).1

abbrev twice : Memory
twice = (ingest_event numbers memory older_list once).1

taken : (ingest_event numbers memory newer_list empty).0 ≡ ok true
unfolding ingest_event
taken = refl

refused_older : (ingest_event numbers memory older_list once).0 ≡ ok false
unfolding ingest_event
refused_older = refl

abbrev history :
    Ingested numbers memory reading empty
      ((older_list, (ingest_event numbers memory older_list once).0)
        ∷ (newer_list, (ingest_event numbers memory newer_list empty).0)
        ∷ [])
      twice
history = ingested older_list (ingested newer_list none_yet)

ingest_event-IsNewest_example :
    IsNewest "alice"
      (empty.lists "alice")
      ((older_list, (ingest_event numbers memory older_list once).0)
        ∷ (newer_list, (ingest_event numbers memory newer_list empty).0)
        ∷ [])
      (twice.lists "alice")
ingest_event-IsNewest_example =
    ingest_event-IsNewest numbers memory reading memory-IsFaithful "alice" history

abbrev pub engine : GraphRankEngine ℕ
engine = new_engine numbers (record {
  uri = "neo4j://localhost";
  username = "neo4j";
  password = "secret";
  database = "";
  cache_ttl = pos 0;
  query_timeout = pos 0;
})

engine-IsInvalid : IsInvalid numbers memory reading memory-IsFaithful engine
unfolding new_engine
engine-IsInvalid = record { dirty = refl; expired = refl }

abbrev pub first_clocks : Clocks
first_clocks = record { asked = 100; locked = 101; rebuilt = 102 }

abbrev later_clocks : Clocks
later_clocks = record { asked = 1000; locked = 1001; rebuilt = 1002 }

abbrev pub meanwhile : State numbers memory → State numbers memory
meanwhile s = s

abbrev asked_first : Result ℤ × State numbers memory
asked_first = get_user_rank numbers memory bob first_clocks meanwhile (engine, empty)

asked_first-ok : asked_first.0 ≡ ok (pos 100)
unfolding get_user_rank new_engine
asked_first-ok = refl

soon : pos 1000 <ℤ pos 102 +ℤ engine.cache_ttl
unfolding new_engine ◌+ℤ◌
soon = omega arith

get_user_rank-fresh_example :
    (pos 100 ≡ rank_among numbers (ranks_in numbers memory reading memory-IsFaithful empty) bob)
    × (get_user_rank numbers memory "alice" later_clocks meanwhile asked_first.1 ≡ (
      ok (rank_among numbers (ranks_in numbers memory reading memory-IsFaithful empty) "alice"),
      asked_first.1,
    ))
get_user_rank-fresh_example =
    get_user_rank-fresh numbers memory reading memory-IsFaithful bob "alice" first_clocks
      later_clocks meanwhile meanwhile engine empty (pos 100) asked_first.1 refl refl
      engine-IsInvalid engine-IsInvalid
      (ap (λ (r : Result ℤ). let out : Result ℤ × State numbers memory = (r, asked_first.1) in out)
        asked_first-ok)
      soon

abbrev saves : Event → ℕ → Bool × ℕ
saves e n = (true, n + 1)

abbrev world : World numbers memory reading memory-IsFaithful saves
world = record { db = 0; graph = empty; ranks = engine }

-- A list that is taken, one that is refused, and the ranks behind the first.
persist_event-Persisted_example :
    Persisted numbers memory reading memory-IsFaithful saves newer_list world
      (persist_event
        (ranked_syncer numbers memory reading memory-IsFaithful saves)
        newer_list
        world)
      (true, 1)
      (ingest_event numbers memory newer_list empty)
persist_event-Persisted_example =
    persist_event-Persisted numbers memory reading memory-IsFaithful saves newer_list world

abbrev persisted : World numbers memory reading memory-IsFaithful saves
persisted =
    persist_event (ranked_syncer numbers memory reading memory-IsFaithful saves) newer_list world

abbrev asked_behind : Result ℤ × State numbers memory
asked_behind =
    get_user_rank numbers memory "alice" first_clocks meanwhile (persisted.ranks, persisted.graph)

asked_behind-ok : asked_behind.0 ≡ ok (pos 50)
unfolding get_user_rank persist_event ingest_event new_engine invalidate_cache
asked_behind-ok = refl

persist_event-ranked_example :
    (pos 50 ≡ rank_among numbers (ranks_in numbers memory reading memory-IsFaithful once) "alice")
    × (once.lists "alice" ≡ list_of newer_list)
persist_event-ranked_example =
    persist_event-ranked numbers memory reading memory-IsFaithful saves newer_list world 1 once
      "alice" first_clocks (pos 50) asked_behind.1 refl
      (ap (λ (r : Result Bool). let out : Result Bool × Memory = (r, once) in out) taken) refl
      (ap (λ (r : Result ℤ). let out : Result ℤ × State numbers memory = (r, asked_behind.1) in out)
        asked_behind-ok)
