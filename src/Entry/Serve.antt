-- ===== src/Entry/Serve.antt =====
-- cmd/cipolin/main.go: how a query is answered, by the assertions and then the stored events.
pub mod Served
use cipolin.Base.{
  ℕ, ◌≡◌, refl, sym, ap, ◌∙◌, Bool, true, false, List, [], ◌∷◌, ◌++◌, append_assoc, append-nil,
  if◌then◌else◌,
}
use cipolin.Nostr.{Event, Filter}
use cipolin.Handler.Run.{
  World, Run, done, panicked, waiting, M, ◌>>=◌, ◌>>◌, pure, receive, yield_event,
}
use cipolin.Handler.Assert.{is_only_nip85_kinds, contains_nip85_kind}

module _ (goes_on : List Event → Bool) where
  -- The loop over the stored events, which returns when the client wants no more.
  unfoldable pub yield_stored : List Event → M (Unit {0})
  unfolding yield_event
  yield_stored [] = pure tt
  yield_stored (e ∷ es) =
      yield_event goes_on e >>= λ more. elim more [ true ↦ yield_stored es | false ↦ pure tt ]

  abbrev pub then_stored : Bool → List Event → M (Unit {0})
  then_stored true stored = pure tt
  then_stored false stored = yield_stored stored

  -- The loop over the assertions returns from the query when the client wants no more.
  abbrev pub if_open : Filter → List Event → Bool → M (Unit {0})
  if_open f stored false = pure tt
  if_open f stored true = then_stored (is_only_nip85_kinds f.kinds) stored

  abbrev pub after_assertions : Filter → List Event → M (Unit {0})
  after_assertions f stored w = if_open f stored w.is_open w

  unfoldable pub query_stored : M (Unit {0}) → Filter → List Event → M (Unit {0})
  unfolding yield_stored is_only_nip85_kinds
  query_stored assertions f stored = assertions >> after_assertions f stored
