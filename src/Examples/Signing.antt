-- ===== src/Examples/Signing.antt =====
-- Keys from a stand-in for the cryptography, whose secrets and public keys are the seeds.
use cipolin.Base.{
  ◌≡◌, refl, List, [], ◌∷◌, some, none, true, false, arith, inl, inr, if◌then◌else◌, map,
  ◌++◌ as append,
}
use cipolin.Base.Texts.{String}
use cipolin.Keys.{get_required_filters, user_metrics, event_metrics}
use cipolin.Keys.Manager.{
  Crypto, MetricKeyManager, new_metric_key_manager, derive_key, get_kind10040_tags,
}
use cipolin.Keys.Filters.{has_bit, wants, any_known, get_required_filters-bits}
use cipolin.Keys.Derived.{
  IsKnown, IsCollisionFree, get_pub_key_inj, announced, get_kind10040_tags-announced,
}

abbrev pub crypto : Crypto
crypto = record {
  Secret = String;
  sha256 = λ s. s;
  public_key = λ s. s;
  sign = λ k e. some (record e { pubkey = k });
}

abbrev pub manager : MetricKeyManager crypto
manager = new_metric_key_manager crypto "m"

get_required_filters-bits_example :
    has_bit (get_required_filters ("post_cnt" ∷ [])) 2
    ≡ (if any_known ("post_cnt" ∷ []) then wants 2 ("post_cnt" ∷ []) else true)
get_required_filters-bits_example = get_required_filters-bits ("post_cnt" ∷ []) 2 (omega arith)

rank-IsKnown : IsKnown "30384" "rank"
unfolding cipolin.Base.Texts.has
rank-IsKnown = inr (inr (inl (refl, refl)))

followers-IsKnown : IsKnown "30382" "followers"
unfolding cipolin.Base.Texts.has
followers-IsKnown = inl (refl, refl)

crypto-IsCollisionFree : IsCollisionFree crypto "m"
unfolding derive_key
crypto-IsCollisionFree = record { seeds = λ kind metric kind' metric' k k' e. e }

get_pub_key_inj_example : (◌≡◌ {A = String} "30384" "30384") × (◌≡◌ {A = String} "rank" "rank")
get_pub_key_inj_example =
    get_pub_key_inj crypto "m" "30384" "rank" "30384" "rank" crypto-IsCollisionFree rank-IsKnown
      rank-IsKnown refl

-- A cryptography with a single public key.
abbrev blunt : Crypto
blunt = record crypto { public_key = λ s. "k" }

get_kind10040_tags-announced_example :
    get_kind10040_tags blunt (new_metric_key_manager blunt "m") "wss://r"
    ≡ append (map (announced blunt "m" "wss://r" "30382") user_metrics) (
        append
          (map (announced blunt "m" "wss://r" "30383") event_metrics)
          (map (announced blunt "m" "wss://r" "30384") event_metrics))
get_kind10040_tags-announced_example =
    get_kind10040_tags-announced blunt "m" (λ kind metric. refl) "wss://r"
