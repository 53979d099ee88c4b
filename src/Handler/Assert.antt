-- ===== src/Handler/Assert.antt =====
-- The assertion events and the choice of the metrics.
use cipolin.Base.{
  ℕ, Bool, true, false, ◌||◌, not, ◌&&◌, List, [], ◌∷◌, Option, if◌then◌else◌, ◌==◌, ◌++◌ as append,
}
use cipolin.Base.Int.{ℤ}
use cipolin.Base.Texts.{String, has, str_eq}
use cipolin.Nostr.{Event, Tag}
use cipolin.Keys.{user_metrics, event_metrics}
use cipolin.Keys.Manager.{Crypto, MetricKeyManager, get_pub_key, sign_event_for_metric}
use cipolin.Fetcher.Pages.{is_empty}

abbrev pub kind_user_assertion : ℕ
kind_user_assertion = 30382

abbrev pub kind_event_assertion : ℕ
kind_event_assertion = 30383

abbrev pub kind_address_assertion : ℕ
kind_address_assertion = 30384

abbrev is_nip85 : ℕ → Bool
is_nip85 k = k == kind_user_assertion || (k == kind_event_assertion || k == kind_address_assertion)

unfoldable pub contains_nip85_kind : List ℕ → Bool
contains_nip85_kind [] = false
contains_nip85_kind (k ∷ ks) = is_nip85 k || contains_nip85_kind ks

abbrev all_nip85 : List ℕ → Bool
all_nip85 [] = true
all_nip85 (k ∷ ks) = is_nip85 k && all_nip85 ks

unfoldable pub is_only_nip85_kinds : List ℕ → Bool
is_only_nip85_kinds ks = not (is_empty ks) && all_nip85 ks

module _ (y : Crypto) (km : MetricKeyManager y) where
  -- `none` is the error of the signature.
  unfoldable pub create_metric_event :
      ℕ → String → String → String → String → List Tag → ℤ → Option Event
  unfolding sign_event_for_metric
  create_metric_event kind subject kind_str metric value extra now =
      sign_event_for_metric y km
        (record {
          id = "";
          pubkey = "";
          created_at = now;
          kind = kind;
          tags = append (("d" ∷ subject ∷ []) ∷ (metric ∷ value ∷ []) ∷ []) extra;
          content = "";
          sig = "";
        })
        kind_str metric

  unfoldable pub should_generate_metric : String → String → List String → Bool
  should_generate_metric kind metric authors =
      if is_empty authors then true else has (get_pub_key y km kind metric) authors

  -- The loop over the metrics of the kind.
  unfoldable pub requested : String → List String → List String → List String
  unfolding should_generate_metric
  requested kind authors [] = []
  requested kind authors (m ∷ ms) =
      let rest = requested kind authors ms in
      if should_generate_metric kind m authors then m ∷ rest else rest

  -- The empty list is the source's nil, which stands for all metrics.
  unfoldable pub get_requested_metrics : String → List String → List String
  unfolding requested
  get_requested_metrics kind authors =
      if is_empty authors
      then []
      else requested kind authors
          (if str_eq kind "30383" || str_eq kind "30384" then event_metrics else user_metrics)
