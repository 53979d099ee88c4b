-- ===== src/Metrics/User/Written.antt =====
-- internal/metrics/metrics.go: what the maps of metrics hold for the handler, which reads them by
-- the metrics' names (internal/handler/handler.go).
use cipolin.Base.{
  ℕ, [], ◌∷◌, ◌≡◌, refl, Option, none, some, All, List, length, arith, Bool-cases, inl, inr,
}
use cipolin.Base.Int.{ℤ, pos, ltb_ℤ, IsInt64}
use cipolin.Base.Texts.{String, lookup}
use cipolin.Graph.Engine.{
  Clocks, State, normalize_rank, ranked, rank_locked, rebuild_cache_locked, get_user_rank, is_blank,
}
use cipolin.Graph.Neo4j.{Arithmetic, Neo4j, Result, ok, err}
use cipolin.Handler.Send.{user_names}
use cipolin.Keys.{event_metrics}
use cipolin.Metrics.Counts.{
  EventStore, Counts, ZapSpan, tagged, authored, zaps_received, zaps_sent, compute_event_metrics,
  compute_address_metrics,
}
use cipolin.Metrics.Rank.{Floats, IsRank, calculate_user_rank, ranks-IsRank}
use cipolin.Metrics.Texts.{itoa, parse_int-itoa}
use cipolin.Metrics.Topics.{SortSlice, count_topics, get_top_topics}
use cipolin.Metrics.Hours.{find_active_hours_range}
use cipolin.Metrics.Posts.{PostStats, post_stats}
use cipolin.Metrics.User.{
  Readings, user_entries, event_entries, compute_user_metrics, event_metrics_map,
  address_metrics_map, provided, user_rank,
}
use cipolin.Metrics.Zaps.{Json, parse_int}

-- Each name has the text of an integer.
abbrev pub IsWritten : List (String × String) → List String → Type 0
IsWritten entries names = All (λ name. (z : ℤ) × (lookup name entries ≡ some (itoa z))) names

module _ (fl : Floats) where
  -- The text of the rank parses to a rank.
  abbrev pub HasRank : List (String × String) → Type 0
  HasRank entries =
      (rank : ℤ) × IsRank fl rank
      × (lookup "rank" entries ≡ some (itoa rank))
      × (parse_int (itoa rank) ≡ some rank)

  IsRank-IsInt64 : (rank : ℤ) → IsRank fl rank → IsInt64 rank
  IsRank-IsInt64 rank h = ground (arith, h)

  -- What a provider answers is a rank, if it answers.
  abbrev IsRanked : Option (Result ℤ) → Type 0
  IsRanked none = Unit {0}
  IsRanked (some (err e)) = Unit {0}
  IsRanked (some (ok rank)) = IsRank fl rank

  provided-IsRank :
      (answer : Option (Result ℤ)) (rank : ℤ)
      → IsRanked answer
      → IsRank fl rank
      → IsRank fl (provided answer rank)
  provided-IsRank none rank a h = h
  provided-IsRank (some (err e)) rank a h = h
  provided-IsRank (some (ok other)) rank a h = a

  module _ (m : Arithmetic) (neo : Neo4j m) where
    normalize_rank-IsRank :
        (score max_score : m.Float64) → IsRank fl (normalize_rank m score max_score)
    unfolding normalize_rank
    normalize_rank-IsRank score max_score = ground arith

    ranked-IsRanked :
        (pubkey : String) (r : Result (Unit {0}) × State m neo)
        → IsRanked (some (ranked m neo pubkey r).0)
    ranked-IsRanked pubkey (ok done, (e, d)) = normalize_rank-IsRank _ _
    ranked-IsRanked pubkey (err x, s) = tt

    rank_locked-IsRanked :
        (pubkey : String) (now : Clocks) (s : State m neo)
        → IsRanked (some (rank_locked m neo pubkey now s).0)
    unfolding rank_locked
    rank_locked-IsRanked pubkey now (e, d) =
        elim (Bool-cases (ltb_ℤ (pos now.locked) e.cache_expires_at)) [
          | inl fresh ↦ rw fresh (normalize_rank-IsRank _ _)
          | inr stale ↦
              rw stale (ranked-IsRanked pubkey (rebuild_cache_locked m neo now.rebuilt (e, d)))
        ]

    get_user_rank-IsRanked :
        (pubkey : String) (now : Clocks) (others : State m neo → State m neo) (s : State m neo)
        → IsRanked (some (get_user_rank m neo pubkey now others s).0)
    unfolding get_user_rank
    get_user_rank-IsRanked pubkey now others (e, d) = elim (Bool-cases (is_blank pubkey)) [
      | inl blank ↦ rw blank (ground arith)
      | inr named ↦ elim (Bool-cases (ltb_ℤ (pos now.asked) e.cache_expires_at)) [
        | inl fresh ↦ rw (named, fresh) (normalize_rank-IsRank _ _)
        | inr stale ↦ rw (named, stale) (rank_locked-IsRanked pubkey now (others (e, d)))
      ]
    ]

    -- The provider is the engine, where there is one.
    abbrev pub asked :
        Option (State m neo) → Clocks → (State m neo → State m neo) → String → Option (Result ℤ)
    asked none now others pubkey = none
    asked (some s) now others pubkey = some (get_user_rank m neo pubkey now others s).0

    asked-IsRanked :
        (engine : Option (State m neo)) (now : Clocks) (others : State m neo → State m neo)
        (pubkey : String)
        → IsRanked (asked engine now others pubkey)
    asked-IsRanked none now others pubkey = tt
    asked-IsRanked (some s) now others pubkey = get_user_rank-IsRanked pubkey now others s

  user_entries-IsWritten :
      (followers : ℕ) (rank : ℤ) (posts : PostStats) (reactions : ℕ) (recd sent : ZapSpan)
      (reports_recd reports_sent : ℕ) (hours : ℕ × ℕ) (topics : List String)
      → IsRank fl rank
      → let entries =
          user_entries followers rank posts reactions recd sent reports_recd reports_sent hours
            topics in
        IsWritten entries user_names × HasRank entries
  unfolding lookup
  user_entries-IsWritten followers rank posts reactions recd sent reports_recd reports_sent hours
        topics h =
      (
        (
          (_, refl),
          (
            (_, refl),
            (
              (_, refl),
              (
                (_, refl),
                (
                  (_, refl),
                  (
                    (_, refl),
                    (
                      (_, refl),
                      (
                        (_, refl),
                        (
                          (_, refl),
                          (
                            (_, refl),
                            (
                              (_, refl),
                              ((_, refl), ((_, refl), ((_, refl), ((_, refl), ((_, refl), tt))))),
                            ),
                          ),
                        ),
                      ),
                    ),
                  ),
                ),
              ),
            ),
          ),
        ),
        (rank, h, refl, parse_int-itoa rank (IsRank-IsInt64 rank h)),
      )

  event_entries-IsWritten :
      (c : Counts)
      → IsRank fl c.rank
      → IsWritten (event_entries c) event_metrics × HasRank (event_entries c)
  unfolding lookup
  event_entries-IsWritten c h = (
    ((_, refl), ((_, refl), ((_, refl), ((_, refl), ((_, refl), ((_, refl), ((_, refl), tt))))))),
    (c.rank, h, refl, parse_int-itoa c.rank (IsRank-IsInt64 c.rank h)),
  )

  module _ (db : EventStore) (json : Json) where
    compute_user_metrics-IsWritten :
        (lower : String → String) (sort_slice : SortSlice) (now : Readings)
        (answer : Option (Result ℤ)) (pubkey : String)
        → IsRanked answer
        → let entries = compute_user_metrics db json fl lower sort_slice now answer pubkey in
          IsWritten entries user_names × HasRank entries
    unfolding compute_user_metrics
    compute_user_metrics-IsWritten lower sort_slice now answer pubkey h =
        let followers = length (tagged db (3 ∷ []) "p" pubkey) in
        let posts = post_stats db now.first_created_at pubkey in
        let recd = zaps_received db json now.oldest_zap_recd pubkey in
        let calculated =
          calculate_user_rank fl (pos followers) (pos posts.posts) recd.total.amount
            (pos recd.total.count) in
        let is : IsRank fl calculated =
          (ranks-IsRank fl (pos followers) (pos posts.posts) recd.total.amount
            (pos recd.total.count) (pos 0) (pos 0)).0 in
        user_entries-IsWritten followers (user_rank db json fl answer followers posts recd) posts
          (length (authored db 7 pubkey)) recd (zaps_sent db json now.oldest_zap_sent pubkey)
          (length (tagged db (1984 ∷ []) "p" pubkey)) (length (authored db 1984 pubkey))
          (find_active_hours_range posts.hour_counts)
          (get_top_topics sort_slice (count_topics lower (authored db 1 pubkey) []) 5)
          (provided-IsRank answer calculated h is)

    event_metrics_map-IsWritten :
        (event_id : String)
        → let entries = event_metrics_map db json fl event_id in
          IsWritten entries event_metrics × HasRank entries
    unfolding event_metrics_map compute_event_metrics
    event_metrics_map-IsWritten event_id =
        event_entries-IsWritten (compute_event_metrics db json fl event_id)
          (ranks-IsRank fl _ _ _ _ _ _).1

    address_metrics_map-IsWritten :
        (address : String)
        → let entries = address_metrics_map db json fl address in
          IsWritten entries event_metrics × HasRank entries
    unfolding address_metrics_map compute_address_metrics
    address_metrics_map-IsWritten address =
        event_entries-IsWritten (compute_address_metrics db json fl address)
          (ranks-IsRank fl _ _ _ _ _ _).1

  -- Each metric that the handler reads by its name has the text of an integer, for users, events
  -- and addresses; and the text of the rank parses to an integer from 0 to 100, whatever the database
  -- and the floating-point numbers give, and for users whether there is no engine of ranks, or it fails, or
  -- it answers.
  pub compute_metrics-IsWritten :
      (db : EventStore) (json : Json) (lower : String → String) (sort_slice : SortSlice)
      (readings : Readings) (m : Arithmetic) (neo : Neo4j m) (engine : Option (State m neo))
      (now : Clocks) (others : State m neo → State m neo) (pubkey event_id address : String)
      → let user =
          compute_user_metrics db json fl lower sort_slice readings
            (asked m neo engine now others pubkey)
            pubkey in
        let event = event_metrics_map db json fl event_id in
        let addressed = address_metrics_map db json fl address in
        (IsWritten user user_names × HasRank user)
        × (IsWritten event event_metrics × HasRank event)
        × (IsWritten addressed event_metrics × HasRank addressed)
  compute_metrics-IsWritten db json lower sort_slice readings m neo engine now others pubkey
        event_id address =
      (
        compute_user_metrics-IsWritten db json lower sort_slice readings
            (asked m neo engine now others pubkey) pubkey
            (asked-IsRanked m neo engine now others pubkey),
        event_metrics_map-IsWritten db json event_id,
        address_metrics_map-IsWritten db json address,
      )
