-- ===== src/Graph/Projection.antt =====
-- A projection that is dropped and made again is that of the graph as it stands.
use cipolin.Base.{◌≡◌, refl, sym, ap, ◌∙◌, subst, Bool, true, false, false≢true, Option, none, some}
use cipolin.Graph.Neo4j.{
  Arithmetic, as_bool, ok, Neo4j, Run, ◌>>◌, pure, first_row, every_row, >>=-eq-ok, one_row-eq-ok,
  all_rows-eq-ok, wrapped-eq-ok,
}
use cipolin.Graph.Promises.{is_there, Reading, Same, IsFaithful}
use cipolin.Graph.Engine.{
  Ranks, ranks_of, projection_exists, create, drop, unless, ensure_projection,
  drop_projection_if_exists, drop_if, read_ranks, fetch_ranks,
}

module _ (m : Arithmetic) (n : Neo4j m) (r : Reading m n) (faithful : IsFaithful m n r) where
  open n use {Database}
  open r use {current, projection, scores_of}

  projection_exists-is_there :
      (d d' : Database) (b : Bool)
      → projection_exists m n d ≡ (ok b, d')
      → (b ≡ is_there (projection d)) × Same m n r d d'
  unfolding projection_exists
  projection_exists-is_there d d' b h =
      let (before, after, start, run, same) =
        faithful.read_ok Bool _ d b d' (wrapped-eq-ok _ _ b d' h) in
      let (v, d₁, row, rest) =
        >>=-eq-ok (first_row n.graph_exists) (λ v. pure (as_bool m v)) before b after run in
      let (vs, broken, answer) = one_row-eq-ok _ v d₁ row in
      let value = faithful.exists_row before d₁ v vs broken answer in
      let out : as_bool m v ≡ b = cc in
      (sym out ∙ ap (as_bool m) value ∙ ap (λ p. is_there p) start.same_projection, same)

  drop-none :
      (d d' : Database)
      → drop m n d ≡ (ok tt, d')
      → (projection d' ≡ none) × (current d' ≡ current d)
  drop-none d d' h =
      let (before, after, start, run, end) =
        faithful.write_ok Unit _ d tt d' (wrapped-eq-ok _ _ tt d' h) in
      let (vs, d₁, row, rest) =
        >>=-eq-ok (every_row n.graph_drop) (λ _. pure tt) before tt after run in
      let (gone, kept) = faithful.drop_done before d₁ vs (all_rows-eq-ok _ vs d₁ row) in
      let last : d₁ ≡ after = cc in
      (
        end.same_projection ∙ ap projection (sym last) ∙ gone,
        end.same_current ∙ ap current (sym last) ∙ kept ∙ start.same_current,
      )

  create-current :
      (d d' : Database)
      → create m n d ≡ (ok tt, d')
      → (projection d' ≡ some (current d)) × (current d' ≡ current d)
  create-current d d' h =
      let (before, after, start, run, end) =
        faithful.write_ok Unit _ d tt d' (wrapped-eq-ok _ _ tt d' h) in
      let (vs, d₁, row, rest) =
        >>=-eq-ok (every_row n.graph_project) (λ _. pure tt) before tt after run in
      let (made, kept) = faithful.project_done before d₁ vs (all_rows-eq-ok _ vs d₁ row) in
      let last : d₁ ≡ after = cc in
      (
        end.same_projection ∙ ap projection (sym last) ∙ made ∙ ap some start.same_current,
        end.same_current ∙ ap current (sym last) ∙ kept ∙ start.same_current,
      )

  drop_if-none :
      (d d' : Database)
      → drop_if m n true d ≡ (ok tt, d')
      → (projection d' ≡ none) × (current d' ≡ current d)
  unfolding drop_projection_if_exists
  drop_if-none d d' h =
      let (exists, d₁, asked, rest) =
        >>=-eq-ok (projection_exists m n)
          (λ exists. elim exists [ true ↦ drop m n | false ↦ pure tt ]) d tt d' h in
      let (told, same) = projection_exists-is_there d d₁ exists asked in
      by_answer exists d₁ told same rest
    where
      gone : (p : Option r.Snapshot) → false ≡ is_there p → p ≡ none
      gone none q = refl
      gone (some s) q = absurd (false≢true q)

      by_answer :
          (exists : Bool) (d₁ : Database)
          → exists ≡ is_there (projection d)
          → Same m n r d d₁
          → elim exists as (λ b. Run Database (Unit {0})) [ true ↦ drop m n | false ↦ pure tt ] d₁
            ≡ (ok tt, d')
          → (projection d' ≡ none) × (current d' ≡ current d)
      by_answer true d₁ told same run =
          let (none?, kept) = drop-none d₁ d' run in (none?, kept ∙ sym same.same_current)
      by_answer false d₁ told same run =
          let last : d₁ ≡ d' = cc in
          (
            ap projection (sym last) ∙ sym same.same_projection ∙ gone (projection d) told,
            ap current (sym last) ∙ sym same.same_current,
          )

  ensure_projection-current :
      (d d' : Database)
      → projection d ≡ none
      → ensure_projection m n d ≡ (ok tt, d')
      → (projection d' ≡ some (current d)) × (current d' ≡ current d)
  unfolding ensure_projection
  ensure_projection-current d d' empty h =
      let (exists, d₁, asked, rest) =
        >>=-eq-ok (projection_exists m n) (λ exists. unless m n exists (create m n)) d tt d' h in
      let (told, same) = projection_exists-is_there d d₁ exists asked in
      let no? : exists ≡ false = told ∙ ap (λ p. is_there p) empty in
      let made : create m n d₁ ≡ (ok tt, d') =
        subst (λ b. unless m n b (create m n) d₁ ≡ (ok tt, d')) no? rest in
      let (some?, kept) = create-current d₁ d' made in
      (some? ∙ ap some (sym same.same_current), kept ∙ sym same.same_current)

  read_ranks-scores :
      (d d' : Database) (s : r.Snapshot) (found : Ranks m.Float64)
      → projection d ≡ some s
      → read_ranks m n d ≡ (ok found, d')
      → (found ≡ ranks_of m (scores_of s)) × (current d' ≡ current d)
  unfolding read_ranks
  read_ranks-scores d d' s found there h =
      let (before, after, start, run, same) =
        faithful.read_ok (Ranks m.Float64) _ d found d' (wrapped-eq-ok _ _ found d' h) in
      let (rows, d₁, answer, rest) =
        >>=-eq-ok (every_row n.page_rank) (λ rows. pure (ranks_of m rows)) before found after run in
      let (s', projected, scores) =
        faithful.page_rank_rows before d₁ rows (all_rows-eq-ok _ rows d₁ answer) in
      let both : some s' ≡ some s = sym projected ∙ start.same_projection ∙ there in
      let one : s' ≡ s = cc in
      let out : ranks_of m rows ≡ found = cc in
      (sym out ∙ ap (ranks_of m) (scores ∙ ap scores_of one), sym same.same_current)

  -- With the projection marked dirty the ranks are those of the graph as it stands.
  pub fetch_ranks-current :
      (d d' : Database) (found : Ranks m.Float64)
      → fetch_ranks m n true d ≡ (ok found, d')
      → (found ≡ ranks_of m (scores_of (current d))) × (current d' ≡ current d)
  unfolding fetch_ranks
  fetch_ranks-current d d' found h =
      let (u, d₁, dropped, rest) =
        >>=-eq-ok (drop_if m n true) (λ _. ensure_projection m n >> read_ranks m n) d found d' h in
      let (v, d₂, ensured, read) =
        >>=-eq-ok (ensure_projection m n) (λ _. read_ranks m n) d₁ found d' rest in
      let (empty, kept₁) = drop_if-none d d₁ dropped in
      let (made, kept₂) = ensure_projection-current d₁ d₂ empty ensured in
      let (scores, kept₃) = read_ranks-scores d₂ d' (current d₁) found made read in
      (scores ∙ ap (λ s. ranks_of m (scores_of s)) kept₁, kept₃ ∙ kept₂ ∙ kept₁)
