-- ===== src/Handler/Serve.antt =====
-- The streams of assertions for a subject, and the query that starts them.
use cipolin.Base.{ℕ, Bool, true, false, List, [], ◌∷◌, none, some, if◌then◌else◌, ◌==◌}
use cipolin.Base.Int.{ℤ, pos, ltb_ℤ}
use cipolin.Base.Texts.{String, lookup, str_eq, byte_len}
use cipolin.Base.Split.{split}
use cipolin.Nostr.{Event, Filter}
use cipolin.Keys.Manager.{Crypto, MetricKeyManager}
use cipolin.Fetcher.Pages.{is_empty}
use cipolin.Handler.Run.{M, ◌>>◌, pure, panic, wait}
use cipolin.Handler.Assert.{
  kind_user_assertion, kind_event_assertion, kind_address_assertion, contains_nip85_kind,
}
use cipolin.Handler.Send.{Snapshot, send_user_metrics, send_event_metrics, send_address_metrics}

-- What the `select` of a stream meets: the client is gone, the sync is done, or the ticker fires
-- while the sync has stored so many events. The last two come with the database as it is then.
pub data Signal : Type 0 where
  cancelled : Signal
  synced : Snapshot → Signal
  tick : ℤ → Snapshot → Signal

-- One stream: the database at its start, and the signals in the order in which `select` takes them.
pub record Session : Type 0 where
  pub initial : Snapshot
  pub signals : List Signal

-- Whether `MustPubKeyFromHex` takes the author of an address, where the sync asks for it: the second
-- part, if it has the length of a key.
abbrev pub is_readable_author : (String → Bool) → List String → Bool
is_readable_author is_hex [] = true
is_readable_author is_hex (kind ∷ []) = true
is_readable_author is_hex (kind ∷ pubkey ∷ rest) =
    if byte_len pubkey == 64 then is_hex pubkey else true

unfoldable pub is_readable_address : (String → Bool) → String → Bool
unfolding split byte_len
is_readable_address is_hex address = is_readable_author is_hex (split b':' address)

-- The loop of a stream, over the function that sends a wave. The sync runs in a goroutine of its
-- own: one that cannot read its subject panics there, which ends the process, behind the signals
-- that `select` takes before. Its deferred close may let a last wave through first.
unfoldable pub follow_sync :
    (Snapshot → Bool → M (Unit {0})) → Bool → ℤ → List Signal → M (Unit {0})
follow_sync send reads last [] = if reads then wait else panic
follow_sync send reads last (cancelled ∷ rest) = pure tt
follow_sync send reads last (synced s ∷ rest) =
    if reads then send s true else (send s true >> panic)
follow_sync send reads last (tick count s ∷ rest) =
    if ltb_ℤ last count
    then (send s false >> follow_sync send reads count rest)
    else follow_sync send reads last rest

-- A wave from the local database, then the waves of the sync, which reads its subject or not.
abbrev pub stream : (Snapshot → Bool → M (Unit {0})) → Bool → Session → M (Unit {0})
stream send reads x = send x.initial false >> follow_sync send reads (pos 0) x.signals

-- The subjects that a filter names.
abbrev pub subjects : Filter → List String
subjects f = elim (lookup "d" f.tags) [ none ↦ [] | some ds ↦ ds ]

module _ (y : Crypto) (km : MetricKeyManager y) (is_hex : String → Bool)
    (goes_on : List Event → Bool) where
  -- The subject is turned into a public key on the way to its relays, before the first wave: what is
  -- no hexadecimal number makes `MustPubKeyFromHex` panic.
  unfoldable pub stream_user_assertions : String → List String → Session → M (Unit {0})
  unfolding send_user_metrics follow_sync
  stream_user_assertions pubkey authors x =
      if byte_len pubkey == 64
      then (if is_hex pubkey
          then stream (λ s final. send_user_metrics y km goes_on pubkey s authors final) true x
          else panic)
      else pure tt

  unfoldable pub stream_event_assertions : String → List String → Session → M (Unit {0})
  unfolding send_event_metrics follow_sync
  stream_event_assertions event_id authors x =
      if byte_len event_id == 64
      then stream (λ s final. send_event_metrics y km goes_on event_id s authors final)
          (is_hex event_id) x
      else pure tt

  unfoldable pub stream_address_assertions : String → List String → Session → M (Unit {0})
  unfolding send_address_metrics follow_sync is_readable_address
  stream_address_assertions address authors x =
      if str_eq address ""
      then pure tt
      else stream (λ s final. send_address_metrics y km goes_on address s authors final)
          (is_readable_address is_hex address) x

  -- The switch on the kind.
  unfoldable pub stream_kind : ℕ → String → List String → Session → M (Unit {0})
  unfolding stream_user_assertions stream_event_assertions stream_address_assertions
  stream_kind kind subject authors x =
      if kind == kind_user_assertion
      then stream_user_assertions subject authors x
      else if kind == kind_event_assertion
      then stream_event_assertions subject authors x
      else if kind == kind_address_assertion
      then stream_address_assertions subject authors x
      else pure tt

  -- The two loops of a query: `session` is what the stream of a kind and a subject meets.
  module _ (session : ℕ → String → Session) (authors : List String) where
    unfoldable pub stream_subjects : ℕ → List String → M (Unit {0})
    unfolding stream_kind
    stream_subjects kind [] = pure tt
    stream_subjects kind (d ∷ ds) =
        stream_kind kind d authors (session kind d) >> stream_subjects kind ds

    unfoldable pub stream_kinds : List ℕ → List String → M (Unit {0})
    unfolding stream_subjects
    stream_kinds [] ds = pure tt
    stream_kinds (k ∷ ks) ds = stream_subjects k ds >> stream_kinds ks ds

  unfoldable pub handle_nip85_query : (ℕ → String → Session) → Filter → M (Unit {0})
  unfolding contains_nip85_kind stream_kinds lookup
  handle_nip85_query session f =
      if contains_nip85_kind f.kinds
      then (if is_empty (subjects f)
          then pure tt
          else stream_kinds session f.authors f.kinds (subjects f))
      else pure tt
