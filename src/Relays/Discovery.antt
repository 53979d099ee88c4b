-- ===== src/Relays/Discovery.antt =====
-- internal/relay/discovery.go: the queries for lists of relays, with their fallbacks.
use cipolin.Base.{Bool, List, [], ◌∷◌, Option, none, some, length, take, ltb, if◌then◌else◌}
use cipolin.Base.Int.{pos}
use cipolin.Base.Texts.{String, str_eq}
use cipolin.Nostr.{Event, Filter, Tag}

-- What the relays answer (`none` where the connection fails), `encoding/json` on a list of texts,
-- and the texts that `MustPubKeyFromHex` and `MustIDFromHex` take without a panic.
pub record Network : Type 0 where
  pub reply : String → Filter → Option (List Event)
  pub unmarshal : String → Option (List String)
  pub is_hex : String → Bool

abbrev pub no_filter : Filter
no_filter = record {
  ids = [];
  authors = [];
  kinds = [];
  tags = [];
  since = pos 0;
  until = pos 0;
  limit = 0;
}

abbrev pub first_event : Option (List Event) → Option Event
first_event none = none
first_event (some []) = none
first_event (some (e ∷ es)) = some e

-- A list of at most so many, if there is one and it is not empty.
abbrev pub usable : Option (List String) → Option (List String)
usable none = none
usable (some []) = none
usable (some (r ∷ rs)) = some (r ∷ rs)

-- The loop over the storage relays: the first usable list, or the fallback.
abbrev pub or_next : Option (List String) → List String → List String
or_next none rest = rest
or_next (some relays) rest = relays

abbrev pub online_filter : Filter
online_filter = record no_filter {
  kinds = 6301 ∷ [];
  tags = ("i", "online-relays" ∷ []) ∷ [];
  limit = 1;
}

abbrev pub popular_fallback : List String
popular_fallback = "wss://relay.damus.io" ∷ "wss://nos.lol" ∷ "wss://relay.nostr.band" ∷ []

abbrev pub user_fallback : List String
user_fallback =
    "wss://relay.damus.io" ∷ "wss://nos.lol" ∷ "wss://relay.nostr.band" ∷ "wss://nostr.wine"
    ∷ "wss://relay.primal.net" ∷ []

abbrev pub at_most_ten : List String → List String
at_most_ten relays = if ltb 10 (length relays) then take 10 relays else relays

abbrev pub trimmed : Option (List String) → Option (List String)
trimmed none = none
trimmed (some relays) = some (at_most_ten relays)

abbrev pub relay_tag : Tag → List String → List String
relay_tag [] rest = rest
relay_tag (name ∷ []) rest = rest
relay_tag (name ∷ value ∷ more) rest = if str_eq name "r" then value ∷ rest else rest

unfoldable pub relay_tags : List Tag → List String
relay_tags [] = []
relay_tags (tag ∷ tags) = relay_tag tag (relay_tags tags)

abbrev pub relays_filter : String → Filter
relays_filter pubkey = record no_filter { authors = pubkey ∷ []; kinds = 10002 ∷ []; limit = 1 }

module _ (net : Network) where
  open net use {reply, unmarshal, is_hex}

  abbrev pub listed : Option Event → Option (List String)
  listed none = none
  listed (some e) = usable (unmarshal e.content)

  unfoldable pub get_popular_relays : List String → List String
  get_popular_relays [] = popular_fallback
  get_popular_relays (url ∷ urls) =
      or_next (trimmed (listed (first_event (reply url online_filter)))) (get_popular_relays urls)

  abbrev pub named_by : Option Event → Option (List String)
  named_by none = none
  named_by (some e) = usable (some (relay_tags e.tags))

  unfoldable pub nip65_relays : String → List String → List String
  unfolding relay_tags
  nip65_relays pubkey [] = user_fallback
  nip65_relays pubkey (url ∷ urls) =
      or_next (named_by (first_event (reply url (relays_filter pubkey)))) (nip65_relays pubkey urls)

  -- `none` is the panic on what is no public key.
  unfoldable pub get_user_nip65_relays : List String → String → Option (List String)
  unfolding nip65_relays
  get_user_nip65_relays storage_relays pubkey =
      if is_hex pubkey then some (nip65_relays pubkey storage_relays) else none
