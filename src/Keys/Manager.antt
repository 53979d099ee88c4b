-- ===== src/Keys/Manager.antt =====
-- internal/keys/keys.go: the manager of the signing keys, one for each kind and metric.
use Prim.Native.String.{◌++◌}
use cipolin.Base.{List, [], ◌∷◌, Option, none, some, ◌++◌ as append, if◌then◌else◌}
use cipolin.Base.Texts.{String, str_eq, lookup, insert}
use cipolin.Nostr.{Event, Tag}
use cipolin.Keys.{user_metrics, event_metrics}

-- SHA-256, and the keys of the nostr library: the public key of a secret in hexadecimal, and the
-- signature of an event, which may fail.
pub record Crypto : Type 1 where
  pub Secret : Type 0
  pub sha256 : String → Secret
  pub public_key : Secret → String
  pub sign : Secret → Event → Option Event

pub record MetricKindPair : Type 0 where
  pub kind : String
  pub metrics : List String

abbrev pub all_metric_kinds : List MetricKindPair
all_metric_kinds =
    record { kind = "30382"; metrics = user_metrics }
    ∷ record { kind = "30383"; metrics = event_metrics }
    ∷ record { kind = "30384"; metrics = event_metrics }
    ∷ []

unfoldable pub map_key : String → String → String
map_key kind metric = kind ++ (":" ++ metric)

module _ (y : Crypto) where
  open y use {Secret, sha256, public_key, sign}

  pub record MetricKey : Type 0 where
    pub kind : String
    pub metric : String
    pub private_key : Secret
    pub public : String

  pub record MetricKeyManager : Type 0 where
    pub master_key : String
    pub metric_keys : List (String × MetricKey)

  unfoldable pub derive_key : String → String → String → Secret
  derive_key master kind metric = sha256 (master ++ (":nip85:" ++ (kind ++ (":" ++ metric))))

  -- The key of a kind and metric.
  unfoldable pub metric_key : String → String → String → MetricKey
  unfolding derive_key
  metric_key master kind metric =
      let secret = derive_key master kind metric in
      record { kind = kind; metric = metric; private_key = secret; public = public_key secret }

  -- The inner loop of `deriveAllKeys`, and the outer one.
  unfoldable pub derive_metrics :
      String → String → List String → List (String × MetricKey) → List (String × MetricKey)
  unfolding insert map_key metric_key
  derive_metrics master kind [] keys = keys
  derive_metrics master kind (m ∷ ms) keys =
      derive_metrics master kind ms (insert (map_key kind m) (metric_key master kind m) keys)

  unfoldable pub derive_all_keys :
      String → List MetricKindPair → List (String × MetricKey) → List (String × MetricKey)
  unfolding derive_metrics
  derive_all_keys master [] keys = keys
  derive_all_keys master (p ∷ ps) keys =
      derive_all_keys master ps (derive_metrics master p.kind p.metrics keys)

  unfoldable pub new_metric_key_manager : String → MetricKeyManager
  unfolding derive_all_keys
  new_metric_key_manager master = record {
    master_key = master;
    metric_keys = derive_all_keys master all_metric_kinds [];
  }

  -- `none` is the error of an unknown metric.
  unfoldable pub get_key : MetricKeyManager → String → String → Option MetricKey
  unfolding lookup map_key
  get_key km kind metric = lookup (map_key kind metric) km.metric_keys

  abbrev public_of : Option MetricKey → String
  public_of none = ""
  public_of (some k) = k.public

  unfoldable pub get_pub_key : MetricKeyManager → String → String → String
  unfolding get_key
  get_pub_key km kind metric = public_of (get_key km kind metric)

  abbrev signed : Option MetricKey → Event → Option Event
  signed none e = none
  signed (some k) e = sign k.private_key (record e { pubkey = k.public })

  unfoldable pub sign_event_for_metric : MetricKeyManager → Event → String → String → Option Event
  unfolding get_key
  sign_event_for_metric km e kind metric = signed (get_key km kind metric) e

  abbrev public_keys : List (String × MetricKey) → List (String × String)
  public_keys [] = []
  public_keys ((key, k) ∷ rest) = (key, k.public) ∷ public_keys rest

  unfoldable pub get_all_pub_keys : MetricKeyManager → List (String × String)
  get_all_pub_keys km = public_keys km.metric_keys

  -- The loop over the metrics of one kind.
  unfoldable pub kind_tags : MetricKeyManager → String → String → List String → List Tag
  unfolding get_pub_key
  kind_tags km relay_url kind [] = []
  kind_tags km relay_url kind (m ∷ ms) =
      let rest = kind_tags km relay_url kind ms in
      let pk = get_pub_key km kind m in
      if str_eq pk "" then rest else ((kind ++ (":" ++ m)) ∷ pk ∷ relay_url ∷ []) ∷ rest

  unfoldable pub get_kind10040_tags : MetricKeyManager → String → List Tag
  unfolding kind_tags
  get_kind10040_tags km relay_url = append (kind_tags km relay_url "30382" user_metrics) (
      append (kind_tags km relay_url "30383" event_metrics)
        (kind_tags km relay_url "30384" event_metrics))
