-- ===== src/Graph/Engine.antt =====
-- internal/metrics/graphrank.go: the engine, its cache of ranks and its projection.
use cipolin.Base.{ℕ, Bool, true, false, ◌||◌, List, [], ◌∷◌, Option, none, some, if◌then◌else◌}
use cipolin.Base.Int.{ℤ, pos, ltb_ℤ, ◌+ℤ◌}
use cipolin.Base.Texts.{String, str_eq, lookup, insert}
use cipolin.Graph.Neo4j.{
  Arithmetic, Any, to_float64, as_text, as_bool, bad_config, no_driver, no_connection,
  gds_unavailable, rank_failed, create_failed, drop_failed, check_failed, Result, ok, err, Neo4j,
  Run, ◌>>=◌, ◌>>◌, pure, wrapped, first_row, every_row,
}

-- Durations and times are nanoseconds; a time is counted from the zero `time.Time`.
pub record GraphRankEngineConfig : Type 0 where
  pub uri : String
  pub username : String
  pub password : String
  pub database : String
  pub cache_ttl : ℤ
  pub query_timeout : ℤ

-- The driver and the name of the projection are constant, and the lock is held where the source
-- holds it.
pub record GraphRankEngine (F64 : Type 0) : Type 0 where
  pub database : String
  pub cache_ttl : ℤ
  pub query_timeout : ℤ
  pub cache : List (String × F64)
  pub max_score : F64
  pub cache_expires_at : ℤ
  pub projection_dirty : Bool

-- The scores of a stream, and the largest.
pub record Ranks (F64 : Type 0) : Type 0 where
  pub ranks : List (String × F64)
  pub max_score : F64

-- The readings of the clock in a call for a rank.
pub record Clocks : Type 0 where
  pub asked : ℕ
  pub locked : ℕ
  pub rebuilt : ℕ

abbrev pub is_blank : String → Bool
is_blank s = str_eq s ""

abbrev text_or : String → String → String
text_or value default = if is_blank value then default else value

abbrev duration_or : ℤ → ℤ → ℤ
duration_or value default = if ltb_ℤ (pos 0) value then value else default

module _ (m : Arithmetic) where
  open m use {Float64, nought, hundred, is_less, is_at_most, div, mul, round, to_int}

  -- The clamp at the end.
  abbrev clamp : ℤ → ℤ
  clamp raw = if ltb_ℤ raw (pos 0) then pos 0 else if ltb_ℤ (pos 100) raw then pos 100 else raw

  unfoldable pub normalize_rank : Float64 → Float64 → ℤ
  normalize_rank score max_score =
      if is_at_most score nought || is_at_most max_score nought
      then pos 0
      else clamp (to_int (round (mul (div score max_score) hundred)))

  abbrev score_or : Option Float64 → Float64
  score_or none = nought
  score_or (some x) = x

  -- `g.cache[pubkey]`, normalised.
  abbrev pub rank_among : Ranks Float64 → String → ℤ
  rank_among r pubkey = normalize_rank (score_or (lookup pubkey r.ranks)) r.max_score

  abbrev add_score : Bool → String → Float64 → Ranks Float64 → Ranks Float64
  add_score true pubkey score r = r
  add_score false pubkey score r = record {
    ranks = insert pubkey score r.ranks;
    max_score = if is_less r.max_score score then score else r.max_score;
  }

  -- The loop over the records of the stream; a row without a key is left out.
  unfoldable pub collect : List (Any m × Any m) → Ranks Float64 → Ranks Float64
  unfolding insert to_float64
  collect [] r = r
  collect ((key, score) ∷ rows) r =
      collect rows (add_score (is_blank (as_text m key)) (as_text m key) (to_float64 m score) r)

  unfoldable pub ranks_of : List (Any m × Any m) → Ranks Float64
  unfolding collect
  ranks_of rows = collect rows (record { ranks = []; max_score = nought })

  unfoldable pub new_engine : GraphRankEngineConfig → GraphRankEngine Float64
  new_engine cfg = record {
    database = text_or cfg.database "neo4j";
    cache_ttl = duration_or cfg.cache_ttl (pos 30_000_000_000);
    query_timeout = duration_or cfg.query_timeout (pos 20_000_000_000);
    cache = [];
    max_score = nought;
    cache_expires_at = pos 0;
    projection_dirty = true;
  }

  unfoldable pub invalidate_cache : GraphRankEngine Float64 → GraphRankEngine Float64
  invalidate_cache e = record e {
    cache = [];
    max_score = nought;
    cache_expires_at = pos 0;
    projection_dirty = true;
  }

  -- The fields that a rebuild sets.
  abbrev pub refilled : Ranks Float64 → ℕ → GraphRankEngine Float64 → GraphRankEngine Float64
  refilled r now e = record e {
    cache = r.ranks;
    max_score = r.max_score;
    cache_expires_at = pos now +ℤ e.cache_ttl;
    projection_dirty = false;
  }

  abbrev pub cached : GraphRankEngine Float64 → Ranks Float64
  cached e = record { ranks = e.cache; max_score = e.max_score }

  module _ (n : Neo4j m) where
    open n use {
      Database, execute_write, execute_read, graph_exists, graph_project, graph_drop, page_rank,
      gds_version,
    }

    unfoldable pub check_gds_availability : Run Database (Unit {0})
    check_gds_availability =
        wrapped gds_unavailable (execute_read Unit (first_row gds_version >>= λ _. pure tt))

    -- The constructor; the driver and its connection are there or not.
    unfoldable pub new_graph_rank_engine :
        GraphRankEngineConfig → Bool → Bool → Run Database (GraphRankEngine Float64)
    unfolding new_engine check_gds_availability
    new_graph_rank_engine cfg has_driver has_connection d =
        if is_blank cfg.uri || is_blank cfg.username || is_blank cfg.password
        then (err bad_config, d)
        else if has_driver
        then if has_connection
          then (check_gds_availability >> pure (new_engine cfg)) d
          else (err no_connection, d)
        else (err no_driver, d)

    unfoldable pub projection_exists : Run Database Bool
    projection_exists =
        wrapped check_failed
          (execute_read Bool (first_row graph_exists >>= λ v. pure (as_bool m v)))

    abbrev pub create : Run Database (Unit {0})
    create = wrapped create_failed (execute_write Unit (every_row graph_project >> pure tt))

    abbrev pub drop : Run Database (Unit {0})
    drop = wrapped drop_failed (execute_write Unit (every_row graph_drop >> pure tt))

    abbrev pub unless : Bool → Run Database (Unit {0}) → Run Database (Unit {0})
    unless true run = pure tt
    unless false run = run

    unfoldable pub ensure_projection : Run Database (Unit {0})
    unfolding projection_exists
    ensure_projection = projection_exists >>= λ exists. unless exists create

    unfoldable pub drop_projection_if_exists : Run Database (Unit {0})
    unfolding projection_exists
    drop_projection_if_exists =
        projection_exists >>= λ exists. elim exists [ true ↦ drop | false ↦ pure tt ]

    unfoldable pub read_ranks : Run Database (Ranks Float64)
    unfolding ranks_of
    read_ranks =
        wrapped rank_failed
          (execute_read (Ranks Float64) (every_row page_rank >>= λ rows. pure (ranks_of rows)))

    abbrev pub drop_if : Bool → Run Database (Unit {0})
    drop_if true = drop_projection_if_exists
    drop_if false = pure tt

    -- The database's part of a rebuild.
    unfoldable pub fetch_ranks : Bool → Run Database (Ranks Float64)
    unfolding ensure_projection drop_projection_if_exists read_ranks
    fetch_ranks dirty = do drop_if dirty; ensure_projection; read_ranks

    abbrev pub State : Type 0
    State = GraphRankEngine Float64 × Database

    -- The engine changes only behind the last error.
    abbrev pub refill :
        ℕ → GraphRankEngine Float64 → Result (Ranks Float64) × Database → Result (Unit {0}) × State
    refill now e (ok r, d) = (ok tt, (refilled r now e, d))
    refill now e (err x, d) = (err x, (e, d))

    unfoldable pub rebuild_cache_locked : ℕ → Run State (Unit {0})
    unfolding fetch_ranks
    rebuild_cache_locked now (e, d) = refill now e (fetch_ranks e.projection_dirty d)

    abbrev pub ranked : String → Result (Unit {0}) × State → Result ℤ × State
    ranked pubkey (ok done, (e, d)) = (ok (rank_among (cached e) pubkey), (e, d))
    ranked pubkey (err x, s) = (err x, s)

    -- Under the lock: the cache again, or a rebuild.
    unfoldable pub rank_locked : String → Clocks → Run State ℤ
    unfolding rebuild_cache_locked normalize_rank lookup
    rank_locked pubkey now (e, d) =
        if ltb_ℤ (pos now.locked) e.cache_expires_at
        then (ok (rank_among (cached e) pubkey), (e, d))
        else ranked pubkey (rebuild_cache_locked now.rebuilt (e, d))

    -- Between the two locks other calls may run.
    unfoldable pub get_user_rank : String → Clocks → (State → State) → Run State ℤ
    unfolding rank_locked normalize_rank lookup
    get_user_rank pubkey now others (e, d) =
        if is_blank pubkey
        then (ok (pos 0), (e, d))
        else if ltb_ℤ (pos now.asked) e.cache_expires_at
        then (ok (rank_among (cached e) pubkey), (e, d))
        else rank_locked pubkey now (others (e, d))
