-- ===== src/Entry/Serve/Served.antt =====
-- What a client receives of a query.
use cipolin.Base.{
  ℕ, suc, ◌≡◌, refl, sym, ap, ◌∙◌, subst, Bool, true, false, false≢true, List, [], ◌∷◌, ◌++◌,
  append_assoc, append-nil, take, if◌then◌else◌, Bool-cases, inl, inr,
}
use cipolin.Nostr.{Event, Filter}
use cipolin.Handler.Run.{World, Run, done, M, pure, receive, yield_event, follow}
use cipolin.Handler.Assert.{is_only_nip85_kinds}
use cipolin.Entry.Serve.{yield_stored, then_stored, if_open, after_assertions, query_stored}

-- So many of the events were yielded, all of them unless the client ended the query.
pub record IsServed (w : World) (events : List Event) (out : Run (Unit {0}) × World) : Type 0 where
  pub ended : out.0 ≡ done tt
  pub sent : ℕ
  pub received : out.1.received ≡ w.received ++ take sent events
  pub complete : out.1.is_open ≡ true → take sent events ≡ events
  pub published : out.1.published ≡ w.published

nothing-IsServed : (w : World) → IsServed w [] (done tt, w)
nothing-IsServed w = record {
  ended = refl;
  sent = 0;
  received = sym (append-nil w.received);
  complete = λ h. refl;
  published = refl;
}

-- One event more in front.
abbrev behind : World → Event → Bool → World
behind w e open? = record w { received = w.received ++ e ∷ []; is_open = open? }

further :
    (w : World) (e : Event) (es : List Event) (open? : Bool) (out : Run (Unit {0}) × World)
    → IsServed (behind w e open?) es out
    → IsServed w (e ∷ es) out
further w e es open? out h = record {
  ended = h.ended;
  sent = suc h.sent;
  received = h.received ∙ append_assoc w.received (e ∷ []) (take h.sent es);
  complete = λ o. ap (λ l. e ∷ l) (h.complete o);
  published = h.published;
}

stopped-IsServed :
    (w : World) (e : Event) (es : List Event) → IsServed w (e ∷ es) (done tt, behind w e false)
stopped-IsServed w e es = record {
  ended = refl;
  sent = 1;
  received = refl;
  complete = λ o. absurd (false≢true o);
  published = refl;
}

module _ (goes_on : List Event → Bool) where
  yielded :
      (w : World) (e : Event) (more : Bool)
      → w.is_open ≡ true
      → goes_on (w.received ++ e ∷ []) ≡ more
      → yield_event goes_on e w ≡ (done more, behind w e more)
  unfolding yield_event
  yielded w e more open? told =
      ap (λ o. receive goes_on o e w) open?
      ∙ ap (λ (b : Bool). let out : Run Bool × World = (done b, behind w e b) in out) told

  -- The turn of the loop, by what the event's `yield` gave.
  abbrev turned : List Event → Run Bool × World → Run (Unit {0}) × World
  turned es (r, w) =
      follow r (λ more. elim more [ true ↦ yield_stored goes_on es | false ↦ pure tt ]) w

  yield_stored-IsServed :
      (events : List Event) (w : World)
      → w.is_open ≡ true
      → IsServed w events (yield_stored goes_on events w)
  unfolding yield_stored
  yield_stored-IsServed [] w open? = nothing-IsServed w
  yield_stored-IsServed (e ∷ es) w open? = elim (Bool-cases (goes_on (w.received ++ e ∷ []))) [
    | inl more ↦
        subst (λ out. IsServed w (e ∷ es) (turned es out)) (sym (yielded w e true open? more))
          (further w e es true (yield_stored goes_on es (behind w e true))
            (yield_stored-IsServed es (behind w e true) refl))
    | inr enough ↦
        subst (λ out. IsServed w (e ∷ es) (turned es out)) (sym (yielded w e false open? enough))
          (stopped-IsServed w e es)
  ]

  -- What a query asks for behind the assertions.
  abbrev pub rest_of : Filter → List Event → List Event
  rest_of f stored = if is_only_nip85_kinds f.kinds then [] else stored

  open-IsServed :
      (f : Filter) (stored : List Event) (w : World)
      → w.is_open ≡ true
      → IsServed w (rest_of f stored) (then_stored goes_on (is_only_nip85_kinds f.kinds) stored w)
  open-IsServed f stored w open? = by_kinds (is_only_nip85_kinds f.kinds)
    where
      by_kinds :
          (only : Bool)
          → IsServed w (if only then [] else stored) (then_stored goes_on only stored w)
      by_kinds true = nothing-IsServed w
      by_kinds false = yield_stored-IsServed stored w open?

  -- Behind the assertions, where these have ended without a panic, a query ends without one too.
  -- If the client has ended it, nothing more is sent; if not, the stored events follow in their
  -- order, as many as the client takes, unless the query names kinds of assertions alone. Nothing of
  -- them is published.
  pub query_stored-IsServed :
      (assertions : M (Unit {0})) (f : Filter) (stored : List Event) (w w' : World)
      → assertions w ≡ (done tt, w')
      → IsServed w'
          (if w'.is_open then rest_of f stored else [])
          (query_stored goes_on assertions f stored w)
  unfolding query_stored
  query_stored-IsServed assertions f stored w w' ran =
      subst
        (λ (out : Run (Unit {0}) × World).
          IsServed w' (if w'.is_open then rest_of f stored else [])
            (follow out.0 (λ _. after_assertions goes_on f stored) out.1))
        (sym ran) (by_flag w'.is_open refl)
    where
      by_flag :
          (open? : Bool)
          → w'.is_open ≡ open?
          → IsServed w' (if open? then rest_of f stored else []) (if_open goes_on f stored open? w')
      by_flag true told = open-IsServed f stored w' told
      by_flag false told = nothing-IsServed w'
