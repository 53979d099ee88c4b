-- ===== src/Nostr.antt =====
-- The events and filters of the nostr library (fiatjaf.com/nostr), by the fields that the program
-- uses. Identifiers and keys stand in their hexadecimal form, timestamps are int64 seconds.
pub mod Times
use cipolin.Base.{ℕ, List}
use cipolin.Base.Int.{ℤ}
use cipolin.Base.Texts.{String}

abbrev pub Tag : Type 0
Tag = List String

pub record Event : Type 0 where
  pub id : String
  pub pubkey : String
  pub created_at : ℤ
  pub kind : ℕ
  pub tags : List Tag
  pub content : String
  pub sig : String

-- `since` and `until` are unset at 0, `limit` too.
pub record Filter : Type 0 where
  pub ids : List String
  pub authors : List String
  pub kinds : List ℕ
  pub tags : List (String × List String)
  pub since : ℤ
  pub until : ℤ
  pub limit : ℕ
