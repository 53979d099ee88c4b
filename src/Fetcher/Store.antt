-- ===== src/Fetcher/Store.antt =====
-- internal/fetcher/store.go: the cursors kept in a bucket of a Bolt database.
pub mod Reload
use Prim.Native.String.{slice, ◌++◌}
use cipolin.Base.{
  ◌≡◌, Bool, true, false, ◌&&◌, List, [], ◌∷◌, Option, none, some, ltb, if◌then◌else◌,
}
use cipolin.Base.Texts.{String, len, str_eq}
use cipolin.Nostr.{Filter}
use cipolin.Fetcher.Cursor.{FetchCursor}
use cipolin.Fetcher.Identity.{Digest, generate_cursor_id, new_fetch_cursor}

-- The bucket of the Bolt database, and `encoding/json` on a cursor. An update that fails answers
-- `none` and leaves the bucket as it was.
pub record Bolt : Type 1 where
  pub Bytes : Type 0
  pub Bucket : Type 0
  pub get : Bucket → String → Option Bytes
  pub put : Bucket → String → Bytes → Option Bucket
  pub delete : Bucket → String → Option Bucket
  pub keys : Bucket → List String
  pub marshal : FetchCursor → Option Bytes
  pub unmarshal : Bytes → Option FetchCursor

-- What Bolt and the JSON encoding promise: a committed write or deletion is seen, other keys are left
-- alone, and a cursor is decoded as it was encoded.
pub record IsFaithful (b : Bolt) : Type 0 where
  pub get-put :
      (s t : b.Bucket) (k j : String) (v : b.Bytes)
      → b.put s k v ≡ some t
      → b.get t j ≡ (if str_eq k j then some v else b.get s j)
  pub get-delete :
      (s t : b.Bucket) (k j : String)
      → b.delete s k ≡ some t
      → b.get t j ≡ (if str_eq k j then none else b.get s j)
  pub unmarshal-marshal :
      (c : FetchCursor) (v : b.Bytes) → b.marshal c ≡ some v → b.unmarshal v ≡ some c

-- The disk accepts every write.
pub record IsReliable (b : Bolt) : Type 0 where
  pub marshals : (c : FetchCursor) → (v : b.Bytes) × (b.marshal c ≡ some v)
  pub puts : (s : b.Bucket) (k : String) (v : b.Bytes) → (t : b.Bucket) × (b.put s k v ≡ some t)

abbrev pub cursor_prefix : String
cursor_prefix = "cursor:"

pub data Error : Type 0 where
  load_failed connect_failed save_failed : Error

pub data Result {ℓ} (A : Type ℓ) : Type ℓ where
  ok : A → Result A
  err : Error → Result A

module _ (d : Digest) (b : Bolt) where
  open b use {Bucket, get, put, delete, keys, marshal, unmarshal}

  abbrev decode : Option b.Bytes → FetchCursor → Result FetchCursor
  decode none fresh = ok fresh
  decode (some v) fresh = elim (unmarshal v) [ none ↦ err load_failed | some c ↦ ok c ]

  unfoldable pub load_cursor : Bucket → String → Filter → Result FetchCursor
  load_cursor s relay f =
      decode (get s (cursor_prefix ++ generate_cursor_id d relay f)) (new_fetch_cursor d relay f)

  -- The bucket after the call, and whether the cursor was saved.
  unfoldable pub save_cursor : Bucket → FetchCursor → Bucket × Bool
  save_cursor s c = elim (marshal c) [
    | none ↦ (s, false)
    | some v ↦ elim (put s (cursor_prefix ++ c.id) v) [ none ↦ (s, false) | some t ↦ (t, true) ]
  ]

  unfoldable pub delete_cursor : Bucket → String → Bucket × Bool
  delete_cursor s id = elim (delete s (cursor_prefix ++ id)) [
    | none ↦ (s, false)
    | some t ↦ (t, true)
  ]

-- The keys of the cursors among the keys of the bucket, without their prefix.
unfoldable pub cursor_ids : List String → List String
cursor_ids [] = []
cursor_ids (k ∷ ks) =
    let rest = cursor_ids ks in
    if ltb (len cursor_prefix) (len k) && str_eq (slice k 0 (len cursor_prefix)) cursor_prefix
    then slice k (len cursor_prefix) (len k) ∷ rest
    else rest

module _ (b : Bolt) where
  unfoldable pub list_cursors : b.Bucket → List String
  unfolding cursor_ids
  list_cursors s = cursor_ids (b.keys s)
