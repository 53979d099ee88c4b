-- ===== src/Keys/Derived.antt =====
-- The keys that the manager derives.
use Prim.Native.String.{◌++◌}
use cipolin.Base.{
  ◌≡◌, refl, List, [], ◌∷◌, some, arith, All, map, false, ◌++◌ as append, ap, sym, ◌∙◌, ◌⊎◌, inl,
  inr, true, Bool-cases, subst,
}
use cipolin.Base.Texts.{String, has, str_eq, eq_iff, len}
use text.Mathlib.TextLemmas.{append_cancel_left}
use text.Mathlib.TextPositions.{slice-append_left}
use cipolin.Nostr.{Tag}
use cipolin.Keys.{user_metrics, event_metrics}
use cipolin.Keys.Manager.{
  Crypto, MetricKindPair, all_metric_kinds, metric_key, MetricKeyManager, new_metric_key_manager,
  get_key, get_pub_key, derive_key, kind_tags, get_kind10040_tags,
}

abbrev IsPaired : List MetricKindPair → String → String → Type 0
IsPaired [] kind metric = ⊥
IsPaired (p ∷ ps) kind metric =
    ((p.kind ≡ kind) × (has metric p.metrics ≡ true)) ⊎ IsPaired ps kind metric

-- The table has the kind, with the metric.
abbrev pub IsKnown : String → String → Type 0
IsKnown = IsPaired all_metric_kinds

All-has : (P : String → Type 0) (x : String) (xs : List String) → All P xs → has x xs ≡ true → P x
unfolding has
All-has P x [] h k = cc
All-has P x (y ∷ ys) h k = elim (Bool-cases (str_eq y x)) [
  | inl e ↦ subst P ((eq_iff y x).0 e) h.0
  | inr e ↦ All-has P x ys h.1 (ground arith)
]

module _ (y : Crypto) where
  -- Every kind and metric of the table has the key that is derived from the master key, the kind
  -- and the metric.
  pub get_key-new :
      (master : String)
      → All
          (λ p.
            All
              (λ m.
                get_key y (new_metric_key_manager y master) p.kind m
                ≡ some (metric_key y master p.kind m))
              p.metrics)
          all_metric_kinds
  unfolding get_key new_metric_key_manager
  get_key-new master = ground arith

  paired :
      (P : String → String → Type 0) (kind metric : String) (ps : List MetricKindPair)
      → All (λ p. All (P p.kind) p.metrics) ps
      → IsPaired ps kind metric
      → P kind metric
  paired P kind metric [] h k = absurd k
  paired P kind metric (p ∷ ps) h (inl (e, m)) =
      subst (λ x. P x metric) e (All-has (P p.kind) metric p.metrics h.0 m)
  paired P kind metric (p ∷ ps) h (inr k) = paired P kind metric ps h.1 k

  module _ (master : String) where
    abbrev km : MetricKeyManager y
    km = new_metric_key_manager y master

    -- A new manager has, for every kind and metric of the table, the key derived from the master
    -- key, the kind and the metric.
    pub get_key-new_of_IsKnown :
        (kind metric : String)
        → IsKnown kind metric
        → get_key y km kind metric ≡ some (metric_key y master kind metric)
    get_key-new_of_IsKnown kind metric k =
        paired (λ kd m. get_key y km kd m ≡ some (metric_key y master kd m)) kind metric
          all_metric_kinds (get_key-new master) k

    pub get_pub_key-new :
        (kind metric : String)
        → IsKnown kind metric
        → get_pub_key y km kind metric ≡ y.public_key (derive_key y master kind metric)
    unfolding get_pub_key metric_key
    get_pub_key-new kind metric k = rw (get_key-new_of_IsKnown kind metric k)

    -- SHA-256 and the curve give different keys to the seeds of the table.
    pub record IsCollisionFree : Type 0 where
      pub seeds :
          (kind metric kind' metric' : String)
          → IsKnown kind metric
          → IsKnown kind' metric'
          → y.public_key (derive_key y master kind metric)
            ≡ y.public_key (derive_key y master kind' metric')
          → master ++ (":nip85:" ++ (kind ++ (":" ++ metric)))
            ≡ master ++ (":nip85:" ++ (kind' ++ (":" ++ metric')))

    kind-len : (kind metric : String) → IsKnown kind metric → len kind ≡ 5
    kind-len kind metric (inl (e, h)) = ap len (sym e)
    kind-len kind metric (inr (inl (e, h))) = ap len (sym e)
    kind-len kind metric (inr (inr (inl (e, h)))) = ap len (sym e)
    kind-len kind metric (inr (inr (inr x))) = elim x [ ]

    -- If the hash and the curve give different public keys to the different seeds of the table,
    -- the public key of a known kind and metric tells the kind and the metric.
    pub get_pub_key_inj :
        (kind metric kind' metric' : String)
        → IsCollisionFree
        → IsKnown kind metric
        → IsKnown kind' metric'
        → get_pub_key y km kind metric ≡ get_pub_key y km kind' metric'
        → (kind ≡ kind') × (metric ≡ metric')
    get_pub_key_inj kind metric kind' metric' free k k' e =
        let seeds =
          free.seeds kind metric kind' metric' k k'
            (sym (get_pub_key-new kind metric k) ∙ e ∙ get_pub_key-new kind' metric' k') in
        let rest = append_cancel_left ":nip85:" _ _ (append_cancel_left master _ _ seeds) in
        let same : kind ≡ kind' =
          sym (slice-append_left kind (":" ++ metric))
          ∙ (rw (kind-len kind metric k, rest, ← kind-len kind' metric' k')
              (slice-append_left kind' (":" ++ metric'))) in
        (
          same,
          append_cancel_left ":" metric metric'
              (append_cancel_left kind' (":" ++ metric) (":" ++ metric') (rw same at rest)),
        )

    -- The tag of a kind 10040 event for one metric.
    abbrev pub announced : String → String → String → Tag
    announced url kind metric =
        (kind ++ (":" ++ metric)) ∷ (metric_key y master kind metric).public ∷ url ∷ []

    module _
        (named : (kind metric : String)
          → str_eq (y.public_key (derive_key y master kind metric)) "" ≡ false)
        (url : String) where
      kind_tags-map :
          (kind : String) (ms : List String)
          → All (λ m. get_key y km kind m ≡ some (metric_key y master kind m)) ms
          → kind_tags y km url kind ms ≡ map (announced url kind) ms
      unfolding kind_tags get_pub_key metric_key
      kind_tags-map kind [] h = refl
      kind_tags-map kind (m ∷ ms) h = rw (kind_tags, h.0, named kind m, kind_tags-map kind ms h.1)

      -- If no public key is empty, the tags of kind 10040 announce the key of every metric of the
      -- three kinds, in the order of the lists, with the URL of the relay.
      pub get_kind10040_tags-announced :
          get_kind10040_tags y km url
          ≡ append (map (announced url "30382") user_metrics) (
              append
                (map (announced url "30383") event_metrics)
                (map (announced url "30384") event_metrics))
      unfolding get_kind10040_tags
      get_kind10040_tags-announced =
          let h = get_key-new master in
          rw (
            kind_tags-map "30382" user_metrics h.0,
            kind_tags-map "30383" event_metrics h.1.0,
            kind_tags-map "30384" event_metrics h.1.1.0,
          )
