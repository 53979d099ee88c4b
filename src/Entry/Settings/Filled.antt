-- ===== src/Entry/Settings/Filled.antt =====
-- Every setting but the secrets has a value.
use Prim.Native.Char.{code}
use Prim.Native.String.{◌++◌}
use cipolin.Base.{
  ℕ, ◌≡◌, refl, ap, ◌∙◌, false, ◌&&◌, List, [], ◌∷◌, All, Bool-cases, inl, inr, arith,
}
use cipolin.Base.Int.{ℤ, pos, eqb_ℤ}
use cipolin.Base.Split.{split}
use text.Mathlib.TextPositions.{len-append}
use cipolin.Base.Texts.{String, len, str_eq, eq_iff}
use cipolin.Policy.Texts.{is_space, trim_left, trim_right, trim_space}
use cipolin.Metrics.Zaps.{parse_int}
use cipolin.Entry.Settings.{
  Config, or_text, or_duration, scaled, duration_env, trimmed_parts, split_relays, relays_env,
  load_config,
}

-- The part of a text that stands between blanks, once more.
trim_right_idem : (s : String) → trim_right (trim_right s) ≡ trim_right s
unfolding trim_right
trim_right_idem String.[] = refl
trim_right_idem (String.◌∷◌ c s) =
    elim (Bool-cases (is_space (code c) && str_eq (trim_right s) "")) [
      | inl blank ↦ rw blank refl
      | inr solid ↦ rw (solid, trim_right_idem s, solid) refl
    ]

-- A text that does not begin with a blank.
abbrev BeginsSolid : String → Type 0
BeginsSolid String.[] = Unit {0}
BeginsSolid (String.◌∷◌ c s) = is_space (code c) ≡ false

trim_left-BeginsSolid : (s : String) → BeginsSolid (trim_left s)
unfolding trim_left
trim_left-BeginsSolid String.[] = tt
trim_left-BeginsSolid (String.◌∷◌ c s) = elim (Bool-cases (is_space (code c))) [
  | inl blank ↦ rw blank (trim_left-BeginsSolid s)
  | inr solid ↦ rw solid solid
]

trim_left-trim_right : (s : String) → BeginsSolid s → trim_left (trim_right s) ≡ trim_right s
unfolding trim_left trim_right
trim_left-trim_right String.[] h = refl
trim_left-trim_right (String.◌∷◌ c s) h = rw (h, h) refl

trim_space_idem : (s : String) → trim_space (trim_space s) ≡ trim_space s
unfolding trim_space
trim_space_idem s =
    ap trim_right (trim_left-trim_right (trim_left s) (trim_left-BeginsSolid s))
    ∙ trim_right_idem (trim_left s)

-- A relay of the list: not empty, and with no blank at either end.
abbrev pub IsRelay : String → Type 0
IsRelay r = (str_eq r "" ≡ false) × (trim_space r ≡ r)

trimmed_parts-IsRelay : (parts : List String) → All IsRelay (trimmed_parts parts)
unfolding trimmed_parts
trimmed_parts-IsRelay [] = tt
trimmed_parts-IsRelay (part ∷ parts) = elim (Bool-cases (str_eq (trim_space part) "")) [
  | inl empty ↦ rw empty (trimmed_parts-IsRelay parts)
  | inr there ↦ rw there ((there, trim_space_idem part), trimmed_parts-IsRelay parts)
]

relays_env-IsRelay : (value : String) → All IsRelay (relays_env value)
unfolding split_relays trim_space
relays_env-IsRelay value = elim (Bool-cases (str_eq value "")) [
  | inl unset ↦ rw unset ((refl, refl), ((refl, refl), tt))
  | inr given ↦ rw given (trimmed_parts-IsRelay (split b',' value))
]

or_text-there :
    (value default : String) → str_eq default "" ≡ false → str_eq (or_text value default) "" ≡ false
or_text-there value default there = elim (Bool-cases (str_eq value "")) [
  | inl unset ↦ rw unset there
  | inr given ↦ rw given given
]

or_duration-there :
    (value default : ℤ)
    → eqb_ℤ default (pos 0) ≡ false
    → eqb_ℤ (or_duration value default) (pos 0) ≡ false
or_duration-there value default there = elim (Bool-cases (eqb_ℤ value (pos 0))) [
  | inl unset ↦ rw unset there
  | inr given ↦ rw given given
]

abbrev IsText : String → Type 0
IsText s = str_eq s "" ≡ false

abbrev IsDuration : ℤ → Type 0
IsDuration t = eqb_ℤ t (pos 0) ≡ false

url-there : (port : String) → IsText ("wss://localhost:" ++ port)
url-there port = elim (Bool-cases (str_eq ("wss://localhost:" ++ port) "")) [
  | inl empty ↦
      let none_left = ap len ((eq_iff ("wss://localhost:" ++ port) "").0 empty) in
      let size = len-append "wss://localhost:" port in absurd (omega (arith, none_left, size))
  | inr there ↦ there
]

duration_env-there :
    (value : String) (unit : ℕ) (default : ℤ)
    → IsDuration default
    → IsDuration (duration_env value unit default)
unfolding duration_env
duration_env-there value unit default = or_duration-there (scaled unit (parse_int value)) default

pub record IsFilled (c : Config) : Type 0 where
  pub port_there : IsText c.port
  pub db_path_there : IsText c.db_path
  pub relay_url_there : IsText c.relay_url
  pub uri_there : IsText c.neo4j_uri
  pub username_there : IsText c.neo4j_username
  pub database_there : IsText c.neo4j_database
  pub fetch_ttl_there : IsDuration c.fetch_ttl
  pub fetch_timeout_there : IsDuration c.fetch_timeout
  pub rank_cache_ttl_there : IsDuration c.rank_cache_ttl
  pub neo4j_timeout_there : IsDuration c.neo4j_timeout
  pub policy_timeout_there : IsDuration c.request_policy_timeout
  pub relays_trimmed : All IsRelay c.storage_relays

-- Whatever the environment holds, the port, the paths, the URLs and the names of the configuration
-- are not empty, none of its durations is zero, and each storage relay is a text that is not empty
-- and has no blank at either end.
pub load_config-IsFilled : (env : String → String) → IsFilled (load_config env)
unfolding load_config duration_env
load_config-IsFilled env = record {
  port_there = or_text-there (env "PORT") "3334" refl;
  db_path_there = or_text-there (env "DB_PATH") "./data/cipolin.db" refl;
  relay_url_there =
      or_text-there (env "RELAY_URL") ("wss://localhost:" ++ or_text (env "PORT") "3334")
        (url-there (or_text (env "PORT") "3334"));
  uri_there = or_text-there (env "NEO4J_URI") "neo4j://localhost:7687" refl;
  username_there = or_text-there (env "NEO4J_USERNAME") "neo4j" refl;
  database_there = or_text-there (env "NEO4J_DATABASE") "neo4j" refl;
  fetch_ttl_there =
      duration_env-there (env "FETCH_TTL_SECONDS") 1_000_000_000 (pos 60_000_000_000) refl;
  fetch_timeout_there =
      duration_env-there (env "FETCH_TIMEOUT_SECONDS") 1_000_000_000 (pos 30_000_000_000) refl;
  rank_cache_ttl_there =
      duration_env-there (env "RANK_CACHE_TTL_SECONDS") 1_000_000_000 (pos 15_000_000_000) refl;
  neo4j_timeout_there =
      duration_env-there (env "NEO4J_QUERY_TIMEOUT_SECONDS") 1_000_000_000 (pos 20_000_000_000)
        refl;
  policy_timeout_there =
      duration_env-there (env "REQUEST_POLICY_TIMEOUT_MS") 1_000_000 (pos 1_500_000_000) refl;
  relays_trimmed = relays_env-IsRelay (env "STORAGE_RELAYS");
}
