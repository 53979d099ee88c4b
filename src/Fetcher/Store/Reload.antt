-- ===== src/Fetcher/Store/Reload.antt =====
-- A saved cursor is read back.
use Prim.Native.String.{◌++◌}
use cipolin.Base.{◌≡◌, true, Option-cases, arith, inl, inr}
use cipolin.Base.Texts.{String, eq_refl}
use cipolin.Nostr.{Filter}
use cipolin.Fetcher.Cursor.{FetchCursor}
use cipolin.Fetcher.Identity.{Digest, generate_cursor_id, new_fetch_cursor}
use cipolin.Fetcher.Store.{
  Bolt, IsFaithful, IsReliable, ok, cursor_prefix, load_cursor, save_cursor, delete_cursor,
}

module _ (d : Digest) (b : Bolt) (faithful : IsFaithful b) where
  open b use {Bucket, get, put, delete, marshal, unmarshal}

  -- A cursor that was saved, and whose id is that of a relay and filter, is what is loaded for the
  -- relay and filter, with a database that reads back what it wrote.
  pub load-save :
      (s : Bucket) (c : FetchCursor) (relay : String) (f : Filter)
      → c.id ≡ generate_cursor_id d relay f
      → (save_cursor d b s c).1 ≡ true
      → load_cursor d b (save_cursor d b s c).0 relay f ≡ ok c
  unfolding load_cursor save_cursor
  load-save s c relay f p saved = elim (Option-cases (marshal c)) [
    | inl e ↦ ground arith
    | inr (v, e) ↦ elim (Option-cases (put s (cursor_prefix ++ c.id) v)) [
      | inl e' ↦ ground arith
      | inr (t, e') ↦
          let read = faithful.get-put s t (cursor_prefix ++ c.id) (cursor_prefix ++ c.id) v e' in
          let decoded = faithful.unmarshal-marshal c v e in
          ground (arith, eq_refl (cursor_prefix ++ c.id))
    ]
  ]

  -- Once the cursor of a relay and filter was deleted, loading starts afresh for them, with a
  -- database that keeps its promises.
  pub load-delete :
      (s : Bucket) (relay : String) (f : Filter)
      → (delete_cursor d b s (generate_cursor_id d relay f)).1 ≡ true
      → load_cursor d b (delete_cursor d b s (generate_cursor_id d relay f)).0 relay f
        ≡ ok (new_fetch_cursor d relay f)
  unfolding load_cursor delete_cursor
  load-delete s relay f deleted =
      let key = cursor_prefix ++ generate_cursor_id d relay f in
      elim (Option-cases (delete s key)) [
        | inl e ↦ ground (arith, e, deleted)
        | inr (t, e) ↦
            let gone = faithful.get-delete s t key key e in ground (arith, e, gone, eq_refl key)
      ]

module _ (d : Digest) (b : Bolt) (reliable : IsReliable b) where
  pub save_of_IsReliable : (s : b.Bucket) (c : FetchCursor) → (save_cursor d b s c).1 ≡ true
  unfolding save_cursor
  save_of_IsReliable s c =
      let (v, e) = reliable.marshals c in
      let (t, e') = reliable.puts s (cursor_prefix ++ c.id) v in ground arith
