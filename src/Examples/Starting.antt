-- ===== src/Examples/Starting.antt =====
-- The program with an environment that sets a few variables, and two stored events.
use cipolin.Base.{
  ◌≡◌, refl, Bool, true, false, List, [], ◌∷◌, Option, none, some, length, ltb, if◌then◌else◌,
}
use cipolin.Base.Int.{pos}
use cipolin.Base.Texts.{String, str_eq}
use cipolin.Nostr.{Event}
use cipolin.Handler.Run.{World, pure}
use cipolin.Handler.Assert.{is_only_nip85_kinds}
use cipolin.Policy.Engine.{Host, RequestContext}
use cipolin.Policy.Verdicts.{HasAnswered}
use cipolin.Entry.Settings.{load_config}
use cipolin.Entry.Settings.Filled.{IsFilled, load_config-IsFilled}
use cipolin.Entry.Start.{engine_config}
use cipolin.Entry.Guards.{
  Policy, IsSequential, NeedsAuth, IsAuthed, plugin_policy, on_request, on_request-guarded,
}
use cipolin.Entry.Serve.{query_stored}
use cipolin.Entry.Serve.Served.{IsServed, query_stored-IsServed}
use cipolin.Examples.Judging.{host_of, any_event, idle, context}
use cipolin.Examples.Fetching.{young, old}

abbrev env : String → String
env name =
    if str_eq name "STORAGE_RELAYS"
    then " wss://a , ,wss://b"
    else if str_eq name "ENABLE_NIP42_AUTH"
    then "Yes"
    else if str_eq name "FETCH_TTL_SECONDS"
    then "ten"
    else if str_eq name "REQUEST_POLICY_PLUGIN"
    then "plugin --strict"
    else ""

parsed :
    ((load_config env).storage_relays ≡ "wss://a" ∷ "wss://b" ∷ [])
    × ((load_config env).fetch_ttl ≡ pos 60_000_000_000)
    × ((load_config env).relay_url ≡ "wss://localhost:3334")
unfolding load_config
parsed = (refl, refl, refl)

load_config-IsFilled_example : IsFilled (load_config env)
load_config-IsFilled_example = load_config-IsFilled env

abbrev host : Host
host = host_of "accept"

abbrev authed_context : RequestContext
authed_context = record context { authed = some "k" }

abbrev in_sequence : List (Policy host) → Policy host
in_sequence [] f s = ((false, ""), s)
in_sequence (p ∷ ps) f s =
    let rest = in_sequence ps f (p f s).1 in if (p f s).0.0 then p f s else rest

abbrev is_unauthed : Option String → Bool
is_unauthed none = true
is_unauthed (some pubkey) = false

abbrev must_auth : Policy host
must_auth f s = ((is_unauthed authed_context.authed, "auth-required"), s)

in_sequence-IsSequential : IsSequential host in_sequence
in_sequence-IsSequential = record { of_none = λ f s. refl; of_more = λ p ps f s. refl }

must_auth-NeedsAuth : NeedsAuth host authed_context must_auth
must_auth-NeedsAuth = record { authed = λ f s h. tt }

abbrev handler : Policy host
handler = in_sequence (must_auth ∷ plugin_policy host (load_config env) authed_context "REQ" ∷ [])

on_request-guarded_example :
    IsAuthed authed_context.authed
    × HasAnswered host (engine_config (load_config env)) (λ a. a ≡ "accept")
unfolding load_config on_request
on_request-guarded_example =
    on_request-guarded host in_sequence in_sequence-IsSequential (load_config env) authed_context
      must_auth must_auth-NeedsAuth "REQ" any_event (idle, 0) handler refl refl refl refl refl

-- The client takes one event and leaves.
abbrev takes_one : List Event → Bool
takes_one received = ltb (length received) 1

abbrev fresh : World
fresh = record { received = []; is_open = true; published = [] }

query_stored-IsServed_example :
    IsServed fresh
      (young ∷ old ∷ [])
      (query_stored takes_one (pure tt) any_event (young ∷ old ∷ []) fresh)
unfolding is_only_nip85_kinds
query_stored-IsServed_example =
    query_stored-IsServed takes_one (pure tt) any_event (young ∷ old ∷ []) fresh fresh refl

left_after_one :
    (query_stored takes_one (pure tt) any_event (young ∷ old ∷ []) fresh).1.received ≡ young ∷ []
unfolding query_stored
left_after_one = refl
