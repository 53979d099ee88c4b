-- ===== src/Graph/Ingest.antt =====
-- internal/metrics/graphrank.go: a contact list enters the graph.
use cipolin.Base.{Bool, true, false, List, [], ◌∷◌, ◌==◌, if◌then◌else◌, not}
use cipolin.Base.Int.{ℤ, ltb_ℤ}
use cipolin.Base.Texts.{String, has, str_eq, byte_len}
use cipolin.Base.Sorting.{sort, sort_strings}
use cipolin.Nostr.{Event, Tag}
use cipolin.Graph.Neo4j.{
  Arithmetic, to_int64, upsert_failed, Neo4j, Run, ◌>>=◌, ◌>>◌, pure, wrapped, first_row, every_row,
}

-- `unique[target] = struct{}{}`, on the keys of the map.
abbrev pub add_target : String → List String → List String
add_target target unique =
    if not (byte_len target == 64)
    then unique
    else if has target unique
    then unique
    else target ∷ unique

abbrev pub target_of : Tag → List String → List String
target_of [] unique = unique
target_of (name ∷ []) unique = unique
target_of (name ∷ target ∷ rest) unique =
    if str_eq name "p" then add_target target unique else unique

-- The loop over the tags.
unfoldable pub unique_targets : List Tag → List String → List String
unfolding has byte_len
unique_targets [] unique = unique
unique_targets (tag ∷ tags) unique = unique_targets tags (target_of tag unique)

-- The keys come out of the map in any order, and are sorted.
unfoldable pub extract_follow_targets : Event → List String
unfolding unique_targets sort
extract_follow_targets event = sort_strings (unique_targets event.tags [])

module _ (m : Arithmetic) (n : Neo4j m) where
  open n use {Database, execute_write, merge_user, reset_follows, add_follows}

  -- The last statement of the transaction, which is left out if there is no target.
  abbrev pub insert_targets : String → ℤ → String → List String → Run Database Bool
  insert_targets source created_at id [] = pure true
  insert_targets source created_at id (target ∷ targets) =
      every_row (add_follows source (target ∷ targets) id created_at) >> pure true

  abbrev pub replace_list : String → ℤ → String → List String → Run Database Bool
  replace_list source created_at id targets =
      every_row (reset_follows source created_at) >> insert_targets source created_at id targets

  abbrev pub if_newer : Bool → Run Database Bool → Run Database Bool
  if_newer true replace = replace
  if_newer false replace = pure false

  -- The work of the transaction.
  unfoldable pub upsert : String → ℤ → String → List String → Run Database Bool
  unfolding to_int64
  upsert source created_at id targets = do
    last_seen ← first_row (merge_user source)
    if_newer (ltb_ℤ (to_int64 m last_seen) created_at) (replace_list source created_at id targets)

  unfoldable pub ingest_event : Event → Run Database Bool
  unfolding upsert extract_follow_targets
  ingest_event event =
      if not (event.kind == 3)
      then pure false
      else wrapped upsert_failed (
          execute_write Bool
            (upsert event.pubkey event.created_at event.id (extract_follow_targets event)))
