-- ===== src/Graph/Newest.antt =====
-- The graph holds the newest contact list of each author, whatever order the lists come in.
use cipolin.Base.{
  ◌≡◌, refl, sym, ap, ◌∙◌, ◌⊎◌, inl, inr, subst, Bool, false≢true, true, List, [], ◌∷◌, All,
  All-map, ◌==◌, arith, Bool-cases,
}
use cipolin.Base.Int.{ℤ, ◌≤ℤ◌}
use cipolin.Base.Texts.{String, str_eq, eq_iff}
use cipolin.Nostr.{Event}
use cipolin.Graph.Neo4j.{Arithmetic, Result, ok, err, Neo4j}
use cipolin.Graph.Ingest.{ingest_event}
use cipolin.Graph.Promises.{ContactList, Reading, Same, IsFaithful}
use cipolin.Graph.Lists.{list_of, is_newer, take_list, Refines, ingest_event-Refines}

-- The event is a contact list of this author.
abbrev pub IsBy : String → Event → Type 0
IsBy pubkey event = ((event.kind == 3) ≡ true) × (event.pubkey ≡ pubkey)

abbrev pub IsOk : Result Bool → Type 0
IsOk (ok b) = Unit {0}
IsOk (err e) = ⊥

abbrev pub Some : {A : Type 0} → (A → Type 0) → List A → Type 0
Some P [] = ⊥
Some P (x ∷ xs) = P x ⊎ Some P xs

-- The list `last` of an author, who had the list `first` before the events of the log: it is one of
-- those, and no older than any whose ingestion succeeded.
pub record IsNewest (pubkey : String) (first : ContactList) (log : List (Event × Result Bool))
    (last : ContactList) : Type 0 where
  pub source : (last ≡ first) ⊎ Some (λ entry. IsBy pubkey entry.0 × (last ≡ list_of entry.0)) log
  pub later : first.created_at ≤ℤ last.created_at
  pub newest :
      All (λ entry. IsBy pubkey entry.0 → IsOk entry.1 → entry.0.created_at ≤ℤ last.created_at) log

-- One ingestion, as one author's list sees it.
abbrev Moves : String → Event → Result Bool → ContactList → ContactList → Type 0
Moves pubkey event out before after =
    ((after ≡ before) × (IsBy pubkey event → IsOk out → event.created_at ≤ℤ before.created_at))
    ⊎ (IsBy pubkey event × (after ≡ list_of event) × (before.created_at ≤ℤ event.created_at))

taken :
    (pubkey : String) (event : Event) (out : Result Bool) (lists : String → ContactList)
    → Moves pubkey event out (lists pubkey) (take_list event lists pubkey)
taken pubkey event out lists = elim (Bool-cases (is_newer event lists)) [
  | inl newer ↦ elim (Bool-cases (str_eq event.pubkey pubkey)) [
    | inl own ↦
        let same = (eq_iff event.pubkey pubkey).0 own in
        inr
          ((ground (arith, newer), same), rw (newer, own) refl, rw (← same) (ground (arith, newer)))
    | inr foreign ↦ inl (
      rw (newer, foreign) refl,
      λ by done. absurd (false≢true (sym foreign ∙ (eq_iff event.pubkey pubkey).1 by.1)),
    )
  ]
  | inr older ↦ inl (rw older refl, λ by done. rw (← by.1) (ground (arith, older, by.0)))
]

extended :
    (pubkey : String) (event : Event) (out : Result Bool) (first before after : ContactList)
    (log : List (Event × Result Bool))
    → Moves pubkey event out before after
    → IsNewest pubkey first log before
    → IsNewest pubkey first ((event, out) ∷ log) after
extended pubkey event out first before after log (inl (kept, old)) h =
    subst (IsNewest pubkey first ((event, out) ∷ log)) (sym kept) (record {
      source = elim h.source [ inl same ↦ inl same | inr found ↦ inr (inr found) ];
      later = h.later;
      newest = (old, h.newest);
    })
extended pubkey event out first before after log (inr (by, taken, later)) h =
    let time : after.created_at ≡ event.created_at = ap (λ (l : ContactList). l.created_at) taken in
    let bound : before.created_at ≤ℤ after.created_at = rw time later in
    record {
      source = inr (inl (by, taken));
      later = le_trans_ℤ first.created_at before.created_at after.created_at h.later bound;
      newest = (
        λ _ _. rw time (le_refl_ℤ event.created_at),
        All-map
            (λ entry old by done.
              le_trans_ℤ entry.0.created_at before.created_at after.created_at (old by done) bound)
            log h.newest,
      );
    }
  where
    le_refl_ℤ : (a : ℤ) → a ≤ℤ a
    le_refl_ℤ a = omega arith

    le_trans_ℤ : (a b c : ℤ) → a ≤ℤ b → b ≤ℤ c → a ≤ℤ c
    le_trans_ℤ a b c h k = omega arith

module _ (m : Arithmetic) (n : Neo4j m) (r : Reading m n) where
  open n use {Database}
  open r use {lists}

  -- A history of ingestions, the last one first, between which the network may change.
  pub data Ingested (start : Database) : List (Event × Result Bool) → Database → Type 0 where
    none_yet : Ingested start [] start
    ingested :
        {log : List (Event × Result Bool)} {d : Database} (event : Event)
        → Ingested start log d
        → Ingested start ((event, (ingest_event m n event d).0) ∷ log) (ingest_event m n event d).1
    waited :
        {log : List (Event × Result Bool)} {d d' : Database}
        → Ingested start log d
        → Same m n r d d'
        → Ingested start log d'

  module _ (faithful : IsFaithful m n r) where
    moved :
        (pubkey : String) (event : Event) (d : Database) (out : Result Bool × Database)
        → Refines m n r faithful event d out
        → Moves pubkey event out.0 (lists d pubkey) (lists out.1 pubkey)
    moved pubkey event d (ok b, d') (told, taken?) =
        subst (Moves pubkey event (ok b) (lists d pubkey))
          (ap (λ (l : String → ContactList). l pubkey) (sym taken?))
          (taken pubkey event (ok b) (lists d))
    moved pubkey event d (err e, d') (inl kept) =
        inl (ap (λ (l : String → ContactList). l pubkey) kept, λ by done. absurd done)
    moved pubkey event d (err e, d') (inr taken?) =
        subst (Moves pubkey event (err e) (lists d pubkey))
          (ap (λ (l : String → ContactList). l pubkey) (sym taken?))
          (taken pubkey event (err e) (lists d))

    -- After any ingestions, in any order and with failures among them, the list of an author is the
    -- one that they had before or one of those ingested, and it is no older than the one before nor
    -- than any whose ingestion succeeded; and it names exactly the keys that its tags name.
    pub ingest_event-IsNewest :
        {start end : Database} {log : List (Event × Result Bool)} (pubkey : String)
        → Ingested start log end
        → IsNewest pubkey (lists start pubkey) log (lists end pubkey)
    ingest_event-IsNewest {start = start} pubkey none_yet = record {
      source = inl refl;
      later = omega arith;
      newest = tt;
    }
    ingest_event-IsNewest {start = start} pubkey (ingested {log = log} {d = d} event before) =
        extended pubkey event (ingest_event m n event d).0 (lists start pubkey) (lists d pubkey)
          (lists (ingest_event m n event d).1 pubkey) log
          (moved pubkey event d (ingest_event m n event d)
            (ingest_event-Refines m n r faithful event d))
          (ingest_event-IsNewest pubkey before)
    ingest_event-IsNewest {start = start} {log = log} pubkey (waited before same) =
        subst (λ (l : String → ContactList). IsNewest pubkey (lists start pubkey) log (l pubkey))
          same.same_lists (ingest_event-IsNewest pubkey before)
