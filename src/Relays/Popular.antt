-- ===== src/Relays/Popular.antt =====
-- How many popular relays there are, and where they come from.
use cipolin.Base.{
  ℕ, zero, suc, ◌≤◌, ◌≡◌, refl, sym, ap, ◌∙◌, ◌⊎◌, inl, inr, true, List, [], ◌∷◌, Option, none,
  some, length, take, length-take, ltb, arith, Bool-cases,
}
use cipolin.Base.Texts.{String, has, eq_refl}
use cipolin.Nostr.{Event}
use cipolin.Relays.Discovery.{
  Network, first_event, usable, or_next, online_filter, popular_fallback, at_most_ten, trimmed,
  listed, get_popular_relays,
}

-- The first event that the relay answers with has the list in its content.
abbrev pub Offers : Network → String → List String → Type 0
Offers net url relays =
    (e : Event) × (all : List String) × (first_event (net.reply url online_filter) ≡ some e)
    × (net.unmarshal e.content ≡ some all)
    × (relays ≡ take 10 all)

-- A list of relays that the query may give.
pub record IsPopular (net : Network) (storage relays : List String) : Type 0 where
  pub some_there : 1 ≤ length relays
  pub few : length relays ≤ 10
  pub source :
      (relays ≡ popular_fallback)
      ⊎ ((url : String) × (has url storage ≡ true) × Offers net url relays)

take-all {ℓ} : {A : Type ℓ} (n : ℕ) (xs : List A) → length xs ≤ n → take n xs ≡ xs
take-all zero [] h = refl
take-all zero (x ∷ xs) h = absurd (omega arith)
take-all (suc n) [] h = refl
take-all (suc n) (x ∷ xs) h = ap (λ l. x ∷ l) (take-all n xs (omega arith))

at_most_ten-eq-take : (relays : List String) → at_most_ten relays ≡ take 10 relays
at_most_ten-eq-take relays = elim (Bool-cases (ltb 10 (length relays))) [
  | inl long ↦ rw long refl
  | inr short ↦ rw short (sym (take-all 10 relays (ground (arith, short))))
]

module _ (net : Network) where
  -- One turn of the loop over the storage relays.
  turn-IsPopular :
      (url : String) (urls rest : List String) (e : Option Event)
      → first_event (net.reply url online_filter) ≡ e
      → IsPopular net urls rest
      → IsPopular net (url ∷ urls) (or_next (trimmed (listed net e)) rest)
  unfolding has
  turn-IsPopular url urls rest e answer h = by_event e answer
    where
      later : IsPopular net (url ∷ urls) rest
      later = record {
        some_there = h.some_there;
        few = h.few;
        source = elim h.source [
          | inl fallback ↦ inl fallback
          | inr (from, there, offers) ↦ inr (from, ground (arith, there), offers)
        ];
      }

      by_content :
          (e : Event) (all : Option (List String))
          → first_event (net.reply url online_filter) ≡ some e
          → net.unmarshal e.content ≡ all
          → IsPopular net (url ∷ urls) (or_next (trimmed (usable all)) rest)
      by_content e none answer content = later
      by_content e (some []) answer content = later
      by_content e (some (r ∷ rs)) answer content =
          let trim = at_most_ten-eq-take (r ∷ rs) in
          let size = ap length trim ∙ length-take 10 (r ∷ rs) in
          record {
            some_there = omega (arith, size);
            few = omega (arith, size);
            source = inr (url, rw (eq_refl url) refl, (e, r ∷ rs, answer, content, trim));
          }

      by_event :
          (e : Option Event)
          → first_event (net.reply url online_filter) ≡ e
          → IsPopular net (url ∷ urls) (or_next (trimmed (listed net e)) rest)
      by_event none answer = later
      by_event (some e) answer = by_content e (net.unmarshal e.content) answer refl

  -- The query for popular relays gives between one and ten of them: the fallback, or the first ten
  -- of the list that one of the storage relays offers.
  pub get_popular_relays-IsPopular :
      (storage : List String) → IsPopular net storage (get_popular_relays net storage)
  unfolding get_popular_relays
  get_popular_relays-IsPopular [] = record {
    some_there = omega arith;
    few = omega arith;
    source = inl refl;
  }
  get_popular_relays-IsPopular (url ∷ urls) =
      turn-IsPopular url urls (get_popular_relays net urls) _ refl
        (get_popular_relays-IsPopular urls)
