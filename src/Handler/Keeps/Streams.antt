-- ===== src/Handler/Keeps/Streams.antt =====
-- The streams of a query keep what their waves keep.
use cipolin.Base.{false≢true, sym, ℕ, ◌≡◌, Bool, true, false, List, [], ◌∷◌, ◌==◌, All}
use cipolin.Base.Texts.{String, str_eq, byte_len}
use cipolin.Nostr.{Event, Filter}
use cipolin.Keys.Manager.{Crypto, MetricKeyManager}
use cipolin.Fetcher.Pages.{is_empty}
use cipolin.Handler.Run.{World}
use cipolin.Handler.Keeps.Waves.{Waves}
use cipolin.Handler.Keeps.{
  stream-Keeps, ends_synced, Keeps, Keeps-pure, Keeps-panic, Keeps-if, Keeps-bind,
}
use cipolin.Handler.Assert.{
  contains_nip85_kind, kind_user_assertion, kind_event_assertion, kind_address_assertion,
}
use cipolin.Handler.Send.{send_user_metrics, send_event_metrics, send_address_metrics}
use cipolin.Handler.Serve.{
  Session, is_readable_address, stream_user_assertions, stream_event_assertions,
  stream_address_assertions, stream_kind, stream_subjects, stream_kinds, handle_nip85_query,
  subjects,
}

-- The program can read a subject of the length of a key, and the author of an address, unless panics
-- are allowed.
abbrev pub Readable : (String → Bool) → Type 0 → String → Type 0
Readable is_hex Panics d =
    (byte_len d == 64 ≡ true → is_hex d ≡ false → Panics)
    × (is_readable_address is_hex d ≡ false → Panics)

module _ (y : Crypto) (km : MetricKeyManager y) (is_hex : String → Bool)
    (goes_on : List Event → Bool) (authors : List String) {Panics : Type 0} {P : World → Type 0}
    {Fits : Bool → Type 0} (waves : Waves y km goes_on authors Panics P Fits) where
  stream_user_assertions-Keeps :
      (pubkey : String) (x : Session)
      → Readable is_hex Panics pubkey
      → (ends_synced x.signals ≡ true → Fits true)
      → Keeps Panics P (stream_user_assertions y km is_hex goes_on pubkey authors x)
  unfolding stream_user_assertions
  stream_user_assertions-Keeps pubkey x hex fits =
      Keeps-if (byte_len pubkey == 64) _ _
        (λ l.
          Keeps-if (is_hex pubkey) _ _
            (λ _.
              stream-Keeps Fits (λ s final. send_user_metrics y km goes_on pubkey s authors final)
                (waves.user pubkey) waves.early true (λ e. absurd (false≢true (sym e))) x fits)
            (λ e. Keeps-panic (hex.0 l e)))
        (λ _. Keeps-pure tt)

  stream_event_assertions-Keeps :
      (event_id : String) (x : Session)
      → Readable is_hex Panics event_id
      → (ends_synced x.signals ≡ true → Fits true)
      → Keeps Panics P (stream_event_assertions y km is_hex goes_on event_id authors x)
  unfolding stream_event_assertions
  stream_event_assertions-Keeps event_id x hex fits =
      Keeps-if (byte_len event_id == 64) _ _
        (λ l.
          stream-Keeps Fits (λ s final. send_event_metrics y km goes_on event_id s authors final)
            (waves.event event_id) waves.early (is_hex event_id) (hex.0 l) x fits)
        (λ _. Keeps-pure tt)

  stream_address_assertions-Keeps :
      (address : String) (x : Session)
      → Readable is_hex Panics address
      → (ends_synced x.signals ≡ true → Fits true)
      → Keeps Panics P (stream_address_assertions y km is_hex goes_on address authors x)
  unfolding stream_address_assertions
  stream_address_assertions-Keeps address x hex fits =
      Keeps-if (str_eq address "") _ _ (λ _. Keeps-pure tt)
        (λ _.
          stream-Keeps Fits (λ s final. send_address_metrics y km goes_on address s authors final)
            (waves.address address) waves.early (is_readable_address is_hex address) hex.1 x fits)

  stream_kind-Keeps :
      (kind : ℕ) (subject : String) (x : Session)
      → Readable is_hex Panics subject
      → (ends_synced x.signals ≡ true → Fits true)
      → Keeps Panics P (stream_kind y km is_hex goes_on kind subject authors x)
  unfolding stream_kind
  stream_kind-Keeps kind subject x hex fits =
      Keeps-if (kind == kind_user_assertion) _ _
        (λ _. stream_user_assertions-Keeps subject x hex fits)
        (λ _.
          Keeps-if (kind == kind_event_assertion) _ _
            (λ _. stream_event_assertions-Keeps subject x hex fits)
            (λ _.
              Keeps-if (kind == kind_address_assertion) _ _
                (λ _. stream_address_assertions-Keeps subject x hex fits) (λ _. Keeps-pure tt)))

  module _ (session : ℕ → String → Session)
      (fits : (kind : ℕ) (d : String)
        → ends_synced (session kind d).signals ≡ true
        → Fits true) where
    stream_subjects-Keeps :
        (kind : ℕ) (ds : List String)
        → All (Readable is_hex Panics) ds
        → Keeps Panics P (stream_subjects y km is_hex goes_on session authors kind ds)
    unfolding stream_subjects
    stream_subjects-Keeps kind [] hex = Keeps-pure tt
    stream_subjects-Keeps kind (d ∷ ds) (h, hex) =
        Keeps-bind _ _ (stream_kind-Keeps kind d (session kind d) h (fits kind d))
          (λ _. stream_subjects-Keeps kind ds hex)

    pub stream_kinds-Keeps :
        (ks : List ℕ) (ds : List String)
        → All (Readable is_hex Panics) ds
        → Keeps Panics P (stream_kinds y km is_hex goes_on session authors ks ds)
    unfolding stream_kinds
    stream_kinds-Keeps [] ds hex = Keeps-pure tt
    stream_kinds-Keeps (k ∷ ks) ds hex =
        Keeps-bind _ _ (stream_subjects-Keeps k ds hex) (λ _. stream_kinds-Keeps ks ds hex)

pub handle_nip85_query-Keeps :
    (y : Crypto) (km : MetricKeyManager y) (is_hex : String → Bool) (goes_on : List Event → Bool)
    {Panics : Type 0} {P : World → Type 0} {Fits : Bool → Type 0} (session : ℕ → String → Session)
    (f : Filter)
    → Waves y km goes_on f.authors Panics P Fits
    → ((kind : ℕ) (d : String) → ends_synced (session kind d).signals ≡ true → Fits true)
    → All (Readable is_hex Panics) (subjects f)
    → Keeps Panics P (handle_nip85_query y km is_hex goes_on session f)
unfolding handle_nip85_query
handle_nip85_query-Keeps y km is_hex goes_on session f waves fits hex =
    Keeps-if (contains_nip85_kind f.kinds) _ _
      (λ _.
        Keeps-if (is_empty (subjects f)) _ _ (λ _. Keeps-pure tt)
          (λ _.
            stream_kinds-Keeps y km is_hex goes_on f.authors waves session fits f.kinds (subjects f)
              hex))
      (λ _. Keeps-pure tt)
