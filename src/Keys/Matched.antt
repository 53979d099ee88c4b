-- ===== src/Keys/Matched.antt =====
-- internal/keys/keys.go: the public keys of a manager's keys.
use cipolin.Base.{◌≡◌, refl, sym, ◌∙◌, List, [], ◌∷◌, some, Bool, true, false, if◌then◌else◌, subst}
use cipolin.Base.Texts.{String, str_eq, lookup, lookup-insert}
use cipolin.Keys.Manager.{
  Crypto, MetricKey, MetricKindPair, all_metric_kinds, map_key, metric_key, derive_metrics,
  derive_all_keys, new_metric_key_manager, get_key,
}

module _ (y : Crypto) where
  -- The public key of each entry belongs to its private key.
  abbrev IsMatched : List (String × MetricKey y) → Type 0
  IsMatched keys =
      (key : String) (k : MetricKey y)
      → lookup key keys ≡ some k
      → k.public ≡ y.public_key k.private_key

  metric_key-matched :
      (master kind metric : String)
      → let k = metric_key y master kind metric in k.public ≡ y.public_key k.private_key
  unfolding metric_key
  metric_key-matched master kind metric = refl

  derive_metrics-IsMatched :
      (master kind : String) (ms : List String) (keys : List (String × MetricKey y))
      → IsMatched keys
      → IsMatched (derive_metrics y master kind ms keys)
  unfolding derive_metrics
  derive_metrics-IsMatched master kind [] keys h = h
  derive_metrics-IsMatched master kind (m ∷ ms) keys h =
      derive_metrics-IsMatched master kind ms _ (λ key k found.
        by_test (str_eq (map_key kind m) key) key k
          (sym (lookup-insert (map_key kind m) key (metric_key y master kind m) keys) ∙ found))
    where
      by_test :
          (test : Bool) (key : String) (k : MetricKey y)
          → (if test then some (metric_key y master kind m) else lookup key keys) ≡ some k
          → k.public ≡ y.public_key k.private_key
      by_test true key k e =
          let same : metric_key y master kind m ≡ k = cc in
          subst (λ (j : MetricKey y). j.public ≡ y.public_key j.private_key) same
            (metric_key-matched master kind m)
      by_test false key k e = h key k e

  derive_all_keys-IsMatched :
      (master : String) (ps : List MetricKindPair) (keys : List (String × MetricKey y))
      → IsMatched keys
      → IsMatched (derive_all_keys y master ps keys)
  unfolding derive_all_keys
  derive_all_keys-IsMatched master [] keys h = h
  derive_all_keys-IsMatched master (p ∷ ps) keys h =
      derive_all_keys-IsMatched master ps _
        (derive_metrics-IsMatched master p.kind p.metrics keys h)

  pub get_key-matched :
      (master kind metric : String) (k : MetricKey y)
      → get_key y (new_metric_key_manager y master) kind metric ≡ some k
      → k.public ≡ y.public_key k.private_key
  unfolding get_key new_metric_key_manager lookup
  get_key-matched master kind metric k found =
      derive_all_keys-IsMatched master all_metric_kinds [] (λ key k h. absurd (cc))
        (map_key kind metric) k found
