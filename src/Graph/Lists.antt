-- ===== src/Graph/Lists.antt =====
-- What an ingestion does to the contact lists of the graph.
use cipolin.Base.{
  ◌≡◌, refl, sym, ap, ◌∙◌, ◌⊎◌, inl, inr, subst, fun_ext, Bool, true, false, ◌||◌, ◌&&◌, List, [],
  ◌∷◌, ◌==◌, if◌then◌else◌, Bool-cases,
}
use cipolin.Base.Int.{ℤ, ltb_ℤ}
use cipolin.Base.Texts.{String, has, str_eq, eq_refl}
use cipolin.Nostr.{Event}
use cipolin.Graph.Neo4j.{
  Arithmetic, to_int64, upsert_failed, Result, ok, err, Neo4j, Run, pure, relabel, first_row,
  every_row, >>=-eq-ok, one_row-eq-ok, all_rows-eq-ok,
}
use cipolin.Graph.Ingest.{
  extract_follow_targets, insert_targets, replace_list, if_newer, upsert, ingest_event,
}
use cipolin.Graph.Targets.{is_followed, extract_follow_targets-has}
use cipolin.Graph.Promises.{ContactList, update, Reading, Committed, IsFaithful}

-- What a contact list says.
abbrev pub list_of : Event → ContactList
list_of event = record {
  created_at = event.created_at;
  follows = λ key. is_followed key event.tags;
}

abbrev pub is_newer : Event → (String → ContactList) → Bool
is_newer event lists = event.kind == 3 && ltb_ℤ ((lists event.pubkey).created_at) event.created_at

-- The abstract ingestion: a contact list that is newer than the author's takes its place.
abbrev pub take_list : Event → (String → ContactList) → String → ContactList
take_list event lists =
    if is_newer event lists then update event.pubkey (list_of event) lists else lists

-- The list that the statements write.
abbrev listing : ℤ → List String → ContactList
listing time targets = record { created_at = time; follows = λ key. has key targets }

-- Follows that are added to a cleared list are the list's.
written :
    (source : String) (time : ℤ) (targets : List String) (base lists : String → ContactList)
    → lists ≡ update source (listing time []) base
    → (key : String)
    → update source
        (record {
          created_at = (lists source).created_at;
          follows = λ k. (lists source).follows k || has k targets;
        })
        lists
        key
      ≡ update source (listing time targets) base key
unfolding has
written source time targets base lists clear key =
    let own : lists source ≡ listing time [] =
      ap (λ (f : String → ContactList). f source) clear ∙ rw (eq_refl source) refl in
    elim (Bool-cases (str_eq source key)) [
      | inl q ↦ rw (q, own) refl
      | inr q ↦ rw q (ap (λ (f : String → ContactList). f key) clear ∙ rw q refl)
    ]

module _ (m : Arithmetic) (n : Neo4j m) (r : Reading m n) (faithful : IsFaithful m n r) where
  open n use {Database}
  open r use {lists}

  insert_targets-lists :
      (source : String) (time : ℤ) (id : String) (targets : List String)
      (base : String → ContactList) (d d' : Database) (b : Bool)
      → lists d ≡ update source (listing time []) base
      → insert_targets m n source time id targets d ≡ (ok b, d')
      → (b ≡ true) × (lists d' ≡ update source (listing time targets) base)
  insert_targets-lists source time id [] base d d' b clear h =
      (cc, subst (λ x. lists x ≡ update source (listing time []) base) (cc) clear)
  insert_targets-lists source time id (t ∷ ts) base d d' b clear h =
      let (vs, d₁, run, rest) =
        >>=-eq-ok (every_row (n.add_follows source (t ∷ ts) id time)) (λ _. pure true) d b d' h in
      let added = faithful.add_done source (t ∷ ts) id time d d₁ vs (all_rows-eq-ok _ vs d₁ run) in
      let same : d₁ ≡ d' = cc in
      (
        cc,
        ap lists (sym same) ∙ added ∙ fun_ext (written source time (t ∷ ts) base (lists d) clear),
      )

  replace_list-lists :
      (source : String) (time : ℤ) (id : String) (targets : List String) (d d' : Database)
      (b : Bool)
      → replace_list m n source time id targets d ≡ (ok b, d')
      → (b ≡ true) × (lists d' ≡ update source (listing time targets) (lists d))
  unfolding has
  replace_list-lists source time id targets d d' b h =
      let (vs, d₁, run, rest) =
        >>=-eq-ok (every_row (n.reset_follows source time))
          (λ _. insert_targets m n source time id targets) d b d' h in
      let clear = faithful.reset_done source time d d₁ vs (all_rows-eq-ok _ vs d₁ run) in
      insert_targets-lists source time id targets (lists d) d₁ d' b clear rest

  -- What a transaction that succeeds does to the lists.
  abbrev Wrote : Event → Bool → Database → Database → Type 0
  Wrote event b d d' =
      (b ≡ ltb_ℤ ((lists d event.pubkey).created_at) event.created_at)
      × (lists d' ≡ (
          if b
          then update event.pubkey (listing event.created_at (extract_follow_targets event))
              (lists d)
          else lists d))

  abbrev work : Event → Run Database Bool
  work event = upsert m n event.pubkey event.created_at event.id (extract_follow_targets event)

  upsert-Wrote :
      (event : Event) (d d' : Database) (b : Bool) → work event d ≡ (ok b, d') → Wrote event b d d'
  unfolding upsert to_int64
  upsert-Wrote event d d' b h =
      let (v, d₁, run, rest) =
        >>=-eq-ok (first_row (n.merge_user event.pubkey))
          (λ v. if_newer m n (ltb_ℤ (to_int64 m v) event.created_at) (
            replace_list m n event.pubkey event.created_at event.id (extract_follow_targets event)))
          d b d' h in
      let (vs, broken, row) = one_row-eq-ok _ v d₁ run in
      let (seen, kept) = faithful.merge_user_row event.pubkey d d₁ v vs broken row in
      let time : to_int64 m v ≡ (lists d event.pubkey).created_at = rw seen refl in
      by_test (ltb_ℤ (to_int64 m v) event.created_at) d₁ (rw time refl) kept rest
    where
      by_test :
          (newer : Bool) (d₁ : Database)
          → newer ≡ ltb_ℤ ((lists d event.pubkey).created_at) event.created_at
          → lists d₁ ≡ lists d
          → if_newer m n newer
              (replace_list m n event.pubkey event.created_at event.id
                (extract_follow_targets event))
              d₁
            ≡ (ok b, d')
          → Wrote event b d d'
      by_test true d₁ test kept run =
          let (yes?, out) =
            replace_list-lists event.pubkey event.created_at event.id (extract_follow_targets event)
              d₁ d' b run in
          (yes? ∙ test, rw yes? (out ∙ rw kept refl))
      by_test false d₁ test kept run =
          let no? : b ≡ false = cc in
          let same : d₁ ≡ d' = cc in (no? ∙ test, rw no? (ap lists (sym same) ∙ kept))

  -- A transaction that was committed, begun from the same lists.
  Committed-Wrote :
      (event : Event) (d d' : Database) (b : Bool)
      → Committed m n r Bool (work event) d b d'
      → Wrote event b d d'
  Committed-Wrote event d d' b (before, after, from, run, to) =
      let wrote = upsert-Wrote event before after b run in
      let start = from.same_lists in
      let finish = to.same_lists in (rw (← start) (wrote.0), rw (← start) (finish ∙ wrote.1))

  listing-eq-list_of :
      (event : Event) → listing event.created_at (extract_follow_targets event) ≡ list_of event
  listing-eq-list_of event =
      ap (λ (f : String → Bool). record { created_at = event.created_at; follows = f })
        (fun_ext (λ key. extract_follow_targets-has key event))

  -- The lists after the transaction of a contact list.
  Wrote-take_list :
      (event : Event) (d d' : Database) (b : Bool)
      → (event.kind == 3) ≡ true
      → Wrote event b d d'
      → (b ≡ is_newer event (lists d)) × (lists d' ≡ take_list event (lists d))
  Wrote-take_list event d d' b kind wrote =
      let newer : b ≡ is_newer event (lists d) = rw kind (wrote.0) in
      let out : lists d' ≡ (if b then update event.pubkey (list_of event) (lists d) else lists d) =
        wrote.1
        ∙ ap (λ l. if b then update event.pubkey l (lists d) else lists d)
            (listing-eq-list_of event) in
      (
        newer,
        out ∙ ap (λ t. if t then update event.pubkey (list_of event) (lists d) else lists d) newer,
      )

  -- An ingestion that succeeds is the abstract one, and tells whether the list was taken; one that
  -- fails has left the lists alone or, if its commit went through, taken the list too.
  abbrev pub Refines : Event → Database → Result Bool × Database → Type 0
  Refines event d (ok b, d') =
      (b ≡ is_newer event (lists d)) × (lists d' ≡ take_list event (lists d))
  Refines event d (err e, d') = (lists d' ≡ lists d) ⊎ (lists d' ≡ take_list event (lists d))

  transaction-Refines :
      (event : Event) (d : Database) (out : Result Bool × Database)
      → (event.kind == 3) ≡ true
      → n.execute_write Bool (work event) d ≡ out
      → Refines event d (relabel upsert_failed out)
  transaction-Refines event d (ok b, d') kind run =
      Wrote-take_list event d d' b kind
        (Committed-Wrote event d d' b (faithful.write_ok Bool (work event) d b d' run))
  transaction-Refines event d (err e, d') kind run =
      elim (faithful.write_err Bool (work event) d e d' run) [
        | inl same ↦ inl (sym same.same_lists)
        | inr (b, done) ↦
            inr ((Wrote-take_list event d d' b kind (Committed-Wrote event d d' b done)).1)
      ]

  pub ingest_event-Refines :
      (event : Event) (d : Database) → Refines event d (ingest_event m n event d)
  unfolding ingest_event
  ingest_event-Refines event d = elim (Bool-cases (event.kind == 3)) [
    | inl kind ↦ rw kind (transaction-Refines event d _ kind refl)
    | inr other ↦
        let old : is_newer event (lists d) ≡ false = rw other refl in
        let kept : take_list event (lists d) ≡ lists d = rw old refl in rw other (sym old, sym kept)
  ]
