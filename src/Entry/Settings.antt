-- ===== src/Entry/Settings.antt =====
-- cmd/cipolin/main.go: the configuration from the environment.
pub mod Filled
use Prim.Native.Char.{Char, code}
use Prim.Native.String.{◌++◌, char_at}
use cipolin.Base.{
  ℕ, ◌-◌, ◌≡◌, Bool, true, false, ◌&&◌, ◌||◌, List, [], ◌∷◌, Option, none, some, leb, if◌then◌else◌,
}
use cipolin.Base.Int.{ℤ, pos, eqb_ℤ, ◌*ℤ◌, wrap64}
use cipolin.Base.Split.{split}
use cipolin.Base.Texts.{String, str_eq}
use cipolin.Metrics.Zaps.{parse_int}
use cipolin.Policy.Texts.{trim_space}

-- Durations are nanoseconds.
pub record Config : Type 0 where
  pub master_key : String
  pub port : String
  pub storage_relays : List String
  pub db_path : String
  pub fetch_ttl : ℤ
  pub fetch_timeout : ℤ
  pub relay_url : String
  pub neo4j_uri : String
  pub neo4j_username : String
  pub neo4j_password : String
  pub neo4j_database : String
  pub rank_cache_ttl : ℤ
  pub neo4j_timeout : ℤ
  pub enable_nip42_auth : Bool
  pub request_policy_plugin : String
  pub request_policy_timeout : ℤ
  pub request_policy_fail_open : Bool

abbrev pub or_text : String → String → String
or_text value default = if str_eq value "" then default else value

-- A number of units, as a duration: the product of two int64 wraps. What is no number leaves zero.
abbrev pub scaled : ℕ → Option ℤ → ℤ
scaled unit none = pos 0
scaled unit (some n) = wrap64 (n *ℤ pos unit)

abbrev pub or_duration : ℤ → ℤ → ℤ
or_duration value default = if eqb_ℤ value (pos 0) then default else value

-- A variable with a number of units, with a default for zero. `strconv.Atoi` has the range of an
-- int64 and refuses the empty text too.
unfoldable pub duration_env : String → ℕ → ℤ → ℤ
unfolding parse_int wrap64 ◌*ℤ◌
duration_env value unit default = or_duration (scaled unit (parse_int value)) default

-- `strings.ToLower`, as far as the words of `parseBoolEnv` go: no letter outside ASCII has one of
-- theirs as its lower case.
abbrev lower_char : Char → Char
lower_char c =
    if leb 65 (code c) && leb (code c) 90
    then char_at "abcdefghijklmnopqrstuvwxyz" (code c - 65)
    else c

unfoldable pub to_lower : String → String
to_lower String.[] = String.[]
to_lower (String.◌∷◌ c s) = String.◌∷◌ (lower_char c) (to_lower s)

abbrev pub truth_of : String → Bool → Bool
truth_of v default =
    if str_eq v ""
    then default
    else if str_eq v "1" || str_eq v "true" || str_eq v "yes" || str_eq v "on"
    then true
    else if str_eq v "0" || str_eq v "false" || str_eq v "no" || str_eq v "off"
    then false
    else default

unfoldable pub parse_bool_env : String → Bool → Bool
unfolding trim_space to_lower
parse_bool_env value default = truth_of (trim_space (to_lower value)) default

abbrev pub add_relay : String → List String → List String
add_relay part rest = if str_eq part "" then rest else part ∷ rest

-- The loop over the parts.
unfoldable pub trimmed_parts : List String → List String
unfolding trim_space
trimmed_parts [] = []
trimmed_parts (part ∷ parts) = add_relay (trim_space part) (trimmed_parts parts)

unfoldable pub split_relays : String → List String
unfolding trimmed_parts split
split_relays s = trimmed_parts (split b',' s)

abbrev pub default_relays : List String
default_relays = "wss://nostr-01.uid.ovh" ∷ "wss://nostr-02.uid.ovh" ∷ []

abbrev pub relays_env : String → List String
relays_env value = if str_eq value "" then default_relays else split_relays value

abbrev second : ℕ
second = 1_000_000_000

abbrev millisecond : ℕ
millisecond = 1_000_000

-- The environment gives the empty text for a variable that is not set.
unfoldable pub load_config : (String → String) → Config
unfolding duration_env parse_bool_env split_relays
load_config env = record {
  master_key = or_text (env "NIP85_MASTER_KEY") (env "NIP85_PRIVATE_KEY");
  port = or_text (env "PORT") "3334";
  storage_relays = relays_env (env "STORAGE_RELAYS");
  db_path = or_text (env "DB_PATH") "./data/cipolin.db";
  fetch_ttl = duration_env (env "FETCH_TTL_SECONDS") second (pos 60_000_000_000);
  fetch_timeout = duration_env (env "FETCH_TIMEOUT_SECONDS") second (pos 30_000_000_000);
  relay_url = or_text (env "RELAY_URL") ("wss://localhost:" ++ or_text (env "PORT") "3334");
  neo4j_uri = or_text (env "NEO4J_URI") "neo4j://localhost:7687";
  neo4j_username = or_text (env "NEO4J_USERNAME") "neo4j";
  neo4j_password = env "NEO4J_PASSWORD";
  neo4j_database = or_text (env "NEO4J_DATABASE") "neo4j";
  rank_cache_ttl = duration_env (env "RANK_CACHE_TTL_SECONDS") second (pos 15_000_000_000);
  neo4j_timeout = duration_env (env "NEO4J_QUERY_TIMEOUT_SECONDS") second (pos 20_000_000_000);
  enable_nip42_auth = parse_bool_env (env "ENABLE_NIP42_AUTH") false;
  request_policy_plugin = env "REQUEST_POLICY_PLUGIN";
  request_policy_timeout =
      duration_env (env "REQUEST_POLICY_TIMEOUT_MS") millisecond (pos 1_500_000_000);
  request_policy_fail_open = parse_bool_env (env "REQUEST_POLICY_FAIL_OPEN") false;
}
