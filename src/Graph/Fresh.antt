-- ===== src/Graph/Fresh.antt =====
-- A rank after an invalidation is that of the graph as it stands then.
use cipolin.Base.{ℕ, ◌≡◌, refl, sym, ap, ◌∙◌, subst, true, false, arith}
use cipolin.Base.Int.{ℤ, pos, ltb_ℤ, ◌+ℤ◌, ◌<ℤ◌}
use cipolin.Base.Texts.{String}
use cipolin.Graph.Neo4j.{Arithmetic, Result, ok, err, Neo4j}
use cipolin.Graph.Promises.{Reading, IsFaithful}
use cipolin.Graph.Projection.{fetch_ranks-current}
use cipolin.Graph.Engine.{
  GraphRankEngine, Ranks, Clocks, is_blank, rank_among, ranks_of, refilled, cached, State,
  fetch_ranks, refill, rebuild_cache_locked, ranked, rank_locked, get_user_rank,
}

module _ (m : Arithmetic) (n : Neo4j m) (r : Reading m n) (faithful : IsFaithful m n r) where
  open n use {Database}
  open r use {current, scores_of}

  -- Invalidated, with nothing in the cache that a clock could find valid.
  pub record IsInvalid (e : GraphRankEngine m.Float64) : Type 0 where
    pub dirty : e.projection_dirty ≡ true
    pub expired : e.cache_expires_at ≡ pos 0

  -- The ranks of the graph as a database has it.
  abbrev pub ranks_in : Database → Ranks m.Float64
  ranks_in d = ranks_of m (scores_of (current d))

  -- A successful rebuild of an engine whose projection is dirty.
  abbrev pub Rebuilt : ℕ → State m n → State m n → Type 0
  Rebuilt now before after = after.0 ≡ refilled m (ranks_in before.1) now before.0

  ranked-Rebuilt :
      (pubkey : String) (now : ℕ) (e : GraphRankEngine m.Float64) (d : Database) (rank : ℤ)
      (after : State m n) (got : Result (Ranks m.Float64) × Database)
      → fetch_ranks m n true d ≡ got
      → ranked m n pubkey (refill m n now e got) ≡ (ok rank, after)
      → (rank ≡ rank_among m (ranks_in d) pubkey) × Rebuilt now (e, d) after
  ranked-Rebuilt pubkey now e d rank after (ok found, d') run h =
      let (scores, kept) = fetch_ranks-current m n r faithful d d' found run in
      let out : rank_among m (cached m (refilled m found now e)) pubkey ≡ rank = cc in
      let end : (refilled m found now e, d') ≡ after = cc in
      (
        sym out ∙ ap (λ f. rank_among m f pubkey) scores,
        ap (λ (s : State m n). s.0) (sym end) ∙ ap (λ f. refilled m f now e) scores,
      )
  ranked-Rebuilt pubkey now e d rank after (err x, d') run h = cc

  rank_locked-Rebuilt :
      (pubkey : String) (now : Clocks) (e : GraphRankEngine m.Float64) (d : Database) (rank : ℤ)
      (after : State m n)
      → IsInvalid e
      → rank_locked m n pubkey now (e, d) ≡ (ok rank, after)
      → (rank ≡ rank_among m (ranks_in d) pubkey) × Rebuilt now.rebuilt (e, d) after
  unfolding rank_locked rebuild_cache_locked
  rank_locked-Rebuilt pubkey now e d rank after invalid h =
      let late : ltb_ℤ (pos now.locked) e.cache_expires_at ≡ false =
        rw invalid.expired (ground arith) in
      ranked-Rebuilt pubkey now.rebuilt e d rank after (fetch_ranks m n true d) refl (
        subst
          (λ b.
            ranked m n pubkey (refill m n now.rebuilt e (fetch_ranks m n b d)) ≡ (ok rank, after))
          invalid.dirty (rw late at h))

  pub get_user_rank-Rebuilt :
      (pubkey : String) (now : Clocks) (others : State m n → State m n)
      (e : GraphRankEngine m.Float64) (d : Database) (rank : ℤ) (after : State m n)
      → is_blank pubkey ≡ false
      → IsInvalid e
      → IsInvalid (others (e, d)).0
      → get_user_rank m n pubkey now others (e, d) ≡ (ok rank, after)
      → (rank ≡ rank_among m (ranks_in (others (e, d)).1) pubkey)
        × Rebuilt now.rebuilt (others (e, d)) after
  unfolding get_user_rank
  get_user_rank-Rebuilt pubkey now others e d rank after named invalid invalid' h =
      let late : ltb_ℤ (pos now.asked) e.cache_expires_at ≡ false =
        rw invalid.expired (ground arith) in
      let behind : rank_locked m n pubkey now (others (e, d)) ≡ (ok rank, after) =
        rw (named, late) at h in
      rank_locked-Rebuilt pubkey now (others (e, d)).0 (others (e, d)).1 rank after invalid' behind

  -- The first rank that is asked of an engine whose cache is invalid is that of the graph as it
  -- stands, whatever the projection was; and until the time to live of the cache is over every call
  -- answers with the rank in the same graph, and leaves Neo4j alone. Calls that run meanwhile are
  -- allowed, if the first finds the cache invalid behind them too.
  pub get_user_rank-fresh :
      (pubkey asked : String) (now later : Clocks) (others others' : State m n → State m n)
      (e : GraphRankEngine m.Float64) (d : Database) (rank : ℤ) (after : State m n)
      → is_blank pubkey ≡ false
      → is_blank asked ≡ false
      → IsInvalid e
      → IsInvalid (others (e, d)).0
      → get_user_rank m n pubkey now others (e, d) ≡ (ok rank, after)
      → pos later.asked <ℤ pos now.rebuilt +ℤ (others (e, d)).0.cache_ttl
      → (rank ≡ rank_among m (ranks_in (others (e, d)).1) pubkey)
        × (get_user_rank m n asked later others' after
            ≡ (ok (rank_among m (ranks_in (others (e, d)).1) asked), after))
  unfolding get_user_rank
  get_user_rank-fresh pubkey asked now later others others' e d rank after named named' invalid
        invalid' h soon =
      let (right, filled) =
        get_user_rank-Rebuilt pubkey now others e d rank after named invalid invalid' h in
      let valid : ltb_ℤ (pos later.asked) after.0.cache_expires_at ≡ true =
        rw filled (ground arith) in
      let same : rank_among m (cached m after.0) asked
          ≡ rank_among m (ranks_in (others (e, d)).1) asked =
        ap (λ x. rank_among m (cached m x) asked) filled in
      (
        right,
        rw (named', valid)
            (ap (λ (x : ℤ). let out : Result ℤ × State m n = (ok x, after) in out) same),
      )
