-- ===== src/Examples/Handling.antt =====
-- Queries answered from a small database.
use cipolin.Base.{inr, ℕ, ◌≡◌, refl, List, [], ◌∷◌, ◌++◌, Bool, true, false, All, some, none}
use cipolin.Base.Int.{pos}
use cipolin.Base.Texts.{String}
use cipolin.Nostr.{Event, Filter}
use cipolin.Handler.Run.{done, panicked}
use cipolin.Handler.Send.{Snapshot, send_user_metrics, send_event_metrics}
use cipolin.Handler.Serve.{
  is_readable_address, Session, cancelled, synced, tick, handle_nip85_query,
}
use cipolin.Handler.Keeps.{panics}
use cipolin.Handler.Selective.{SignsForSecret, ByAuthors, handle_nip85_query-selective}
use cipolin.Handler.Early.{handle_nip85_query-unpublished}
use cipolin.Handler.Calm.{handle_nip85_query-calm}
use cipolin.Handler.Blocking.{generate_user_assertions}
use cipolin.Handler.Delivers.{
  listening, user_events, event_events, address_events, send_user_metrics-delivers,
  send_event_metrics-delivers, send_address_metrics-delivers,
}
use cipolin.Handler.Delivers.Generated.{after, generate_user_assertions-generates}
use cipolin.Handler.Closed.{closed, send_user_metrics-panicked}
use cipolin.Examples.Signing.{crypto, manager}

abbrev snapshot : Snapshot
snapshot = record { metrics = ("rank", "7") ∷ ("_topics", "go,nostr") ∷ []; now = λ name. pos 50 }

abbrev user : String
user = "0123456789abcdef0123456789abcdef0123456789abcdef0123456789abcdef"

abbrev session : ℕ → String → Session
session kind subject = record {
  initial = snapshot;
  signals = tick (pos 3) snapshot ∷ synced snapshot ∷ [];
}

abbrev dropped : ℕ → String → Session
dropped kind subject = record {
  initial = snapshot;
  signals = tick (pos 3) snapshot ∷ cancelled ∷ [];
}

-- The key that signs the rank of addresses.
abbrev ranker : String
ranker = "m:nip85:30384:rank"

abbrev query : Filter
query = record {
  ids = [];
  authors = ranker ∷ [];
  kinds = 30384 ∷ 30382 ∷ [];
  tags = ("d", "30023:k:x" ∷ user ∷ []) ∷ [];
  since = pos 0;
  until = pos 0;
  limit = 0;
}

crypto-SignsForSecret : SignsForSecret crypto
crypto-SignsForSecret = record { pubkey-sign = λ s e e' h. of_some s e e' h }
  where
    of_some : (s : String) (e e' : Event) → some (record e { pubkey = s }) ≡ some e' → e'.pubkey ≡ s
    of_some s e e' h = cc

handle_nip85_query-selective_example :
    All
      (ByAuthors (ranker ∷ []))
      (handle_nip85_query crypto manager
        (λ s. true)
        (λ es. false)
        session
        query
        (listening [] [])).1.received
handle_nip85_query-selective_example =
    handle_nip85_query-selective crypto crypto-SignsForSecret "m" (λ s. true) (λ es. false) session
      query (listening [] []) refl refl

handle_nip85_query-unpublished_example :
    (handle_nip85_query crypto manager
      (λ s. true)
      (λ es. true)
      dropped
      query
      (listening [] [])).1.published
    ≡ []
unfolding cipolin.Handler.Keeps.ends_synced
handle_nip85_query-unpublished_example =
    handle_nip85_query-unpublished crypto manager (λ s. true) (λ es. true) dropped query
      (listening [] []) (λ kind subject. refl)

handle_nip85_query-calm_example : ¬ (
    panics
      (handle_nip85_query crypto manager (λ s. true) (λ es. true) session query (listening [] [])).0
    ≡ true)
unfolding cipolin.Base.Texts.lookup is_readable_address
handle_nip85_query-calm_example =
    handle_nip85_query-calm crypto manager (λ s. true) (λ es. true) session query (listening [] [])
      (λ es. refl) refl ((inr refl, refl), ((inr refl, refl), tt))

send_user_metrics-delivers_example :
    let es = user_events crypto manager user snapshot [] in
    send_user_metrics crypto manager (λ es. true) user snapshot [] true (listening [] [])
    ≡ (done tt, listening es es)
send_user_metrics-delivers_example =
    send_user_metrics-delivers crypto manager (λ es. true) (λ es. refl) user snapshot [] true [] []

generate_user_assertions-generates_example :
    let es = user_events crypto manager user snapshot [] in
    generate_user_assertions crypto manager (λ s. true) user snapshot [] (listening [] [])
    ≡ (done es, after (listening [] []) es)
unfolding cipolin.Base.Texts.byte_len
generate_user_assertions-generates_example =
    generate_user_assertions-generates crypto manager (λ s. true) user snapshot [] (listening [] [])
      refl refl

send_user_metrics-panicked_example :
    ((send_user_metrics crypto manager (λ es. false) user snapshot [] true (closed [] [])).0
      ≡ panicked)
    × ((send_event_metrics crypto manager (λ es. false) user snapshot [] true (closed [] [])).0
        ≡ panicked)
unfolding cipolin.Handler.Delivers.metric_events cipolin.Keys.Manager.new_metric_key_manager
    cipolin.Base.Texts.lookup
send_user_metrics-panicked_example =
    send_user_metrics-panicked crypto manager (λ es. false) user user snapshot [] true [] [] refl
      refl

-- An address whose author has the length of a key and is none: the sync's panic ends the process.
abbrev stray : Filter
stray = record query {
  authors = "nobody" ∷ [];
  tags =
      ("d", "30023:zzzzzzzzzzzzzzzzzzzzzzzzzzzzzzzzzzzzzzzzzzzzzzzzzzzzzzzzzzzzzzzz:x" ∷ []) ∷ [];
}

stray-panics :
    panics
      (handle_nip85_query crypto manager
        (λ s. false)
        (λ es. true)
        session
        stray
        (listening [] [])).0
    ≡ true
unfolding handle_nip85_query cipolin.Base.Texts.has cipolin.Keys.Manager.get_pub_key
    cipolin.Keys.Manager.new_metric_key_manager
stray-panics = refl
