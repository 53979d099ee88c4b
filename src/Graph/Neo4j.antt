-- ===== src/Graph/Neo4j.antt =====
-- The Neo4j driver as internal/metrics/graphrank.go uses it: the values of a record, the answer to
-- a statement, transactions, and the Go code that reads one row or all rows.
use cipolin.Base.{◌≡◌, refl, Bool, true, false, List, [], ◌∷◌}
use cipolin.Base.Int.{ℤ, pos}
use cipolin.Base.Texts.{String}

-- The float64 and float32 of Go, by the operations that the ranks use.
pub record Arithmetic : Type 1 where
  pub Float64 : Type 0
  pub Float32 : Type 0
  pub nought : Float64
  pub hundred : Float64
  pub is_less : Float64 → Float64 → Bool
  pub is_at_most : Float64 → Float64 → Bool
  pub div : Float64 → Float64 → Float64
  pub mul : Float64 → Float64 → Float64
  pub round : Float64 → Float64
  pub to_int : Float64 → ℤ
  pub of_int : ℤ → Float64
  pub widen : Float32 → Float64

-- A value of type `any` that a record holds.
pub data Value (F64 F32 : Type 0) : Type 0 where
  int64 int32 int : ℤ → Value F64 F32
  float64 : F64 → Value F64 F32
  float32 : F32 → Value F64 F32
  text : String → Value F64 F32
  boolean : Bool → Value F64 F32
  other : Value F64 F32

module _ (m : Arithmetic) where
  abbrev pub Any : Type 0
  Any = Value m.Float64 m.Float32

  -- What the conversions give; their `ok` is not read.
  unfoldable pub to_int64 : Any → ℤ
  to_int64 (int64 n) = n
  to_int64 (int n) = n
  to_int64 (int32 n) = n
  to_int64 (float64 x) = m.to_int x
  to_int64 (float32 x) = pos 0
  to_int64 (text s) = pos 0
  to_int64 (boolean b) = pos 0
  to_int64 other = pos 0

  unfoldable pub to_float64 : Any → m.Float64
  to_float64 (float64 x) = x
  to_float64 (float32 x) = m.widen x
  to_float64 (int64 n) = m.of_int n
  to_float64 (int n) = m.of_int n
  to_float64 (int32 n) = m.nought
  to_float64 (text s) = m.nought
  to_float64 (boolean b) = m.nought
  to_float64 other = m.nought

  -- `v.(string)` and `v.(bool)` with the zero value if the type is another one.
  abbrev pub as_text : Any → String
  as_text (text s) = s
  as_text _ = ""

  abbrev pub as_bool : Any → Bool
  as_bool (boolean b) = b
  as_bool _ = false

-- The answer to a statement: `tx.Run` fails, or there are rows, and the flag says that `res.Err()`
-- is an error behind them.
pub data Answer (A : Type 0) : Type 0 where
  refused : Answer A
  rows : List A → Bool → Answer A

pub data Error : Type 0 where
  bad_config no_driver no_connection gds_unavailable : Error
  statement_failed no_rows : Error
  upsert_failed rank_failed create_failed drop_failed check_failed : Error

pub data Result (A : Type 0) : Type 0 where
  ok : A → Result A
  err : Error → Result A

-- The driver on a database, whose state has the condition of the network with it. The statements
-- are the texts in the source, by what they are for.
pub record Neo4j (m : Arithmetic) : Type 1 where
  pub Database : Type 0
  pub execute_write :
      (R : Type 0) → (Database → Result R × Database) → Database → Result R × Database
  pub execute_read :
      (R : Type 0) → (Database → Result R × Database) → Database → Result R × Database
  pub merge_user : String → Database → Answer (Any m) × Database
  pub reset_follows : String → ℤ → Database → Answer (Any m) × Database
  pub add_follows : String → List String → String → ℤ → Database → Answer (Any m) × Database
  pub graph_exists : Database → Answer (Any m) × Database
  pub graph_project : Database → Answer (Any m) × Database
  pub graph_drop : Database → Answer (Any m) × Database
  pub page_rank : Database → Answer (Any m × Any m) × Database
  pub gds_version : Database → Answer (Any m) × Database

-- Go code that runs on a database and may return an error.
abbrev pub Run : Type 0 → Type 0 → Type 0
Run D A = D → Result A × D

abbrev pub go_on : {D A B : Type 0} → Result A × D → (A → Run D B) → Result B × D
go_on (ok a, d) f = f a d
go_on (err e, d) f = (err e, d)

infixl 5 ◌>>=◌ ◌>>◌
abbrev pub ◌>>=◌ : {D A B : Type 0} → Run D A → (A → Run D B) → Run D B
◌>>=◌ run f d = go_on (run d) f

abbrev pub ◌>>◌ : {D A B : Type 0} → Run D A → Run D B → Run D B
◌>>◌ run next d = go_on (run d) (λ _. next)

abbrev pub pure : {D A : Type 0} → A → Run D A
pure a d = (ok a, d)

-- `fmt.Errorf("...: %w", err)` around an error.
abbrev pub relabel : {D A : Type 0} → Error → Result A × D → Result A × D
relabel label (ok a, d) = (ok a, d)
relabel label (err e, d) = (err label, d)

abbrev pub wrapped : {D A : Type 0} → Error → Run D A → Run D A
wrapped label run d = relabel label (run d)

-- The first row: `res.Next` and `res.Record`.
abbrev pub one_row : {D A : Type 0} → Answer A × D → Result A × D
one_row (refused, d) = (err statement_failed, d)
one_row (rows [] true, d) = (err statement_failed, d)
one_row (rows [] false, d) = (err no_rows, d)
one_row (rows (r ∷ rs) broken, d) = (ok r, d)

-- All rows: the loop over `res.Next`, and the test of `res.Err()` behind it.
abbrev pub all_rows : {D A : Type 0} → Answer A × D → Result (List A) × D
all_rows (refused, d) = (err statement_failed, d)
all_rows (rows rs true, d) = (err statement_failed, d)
all_rows (rows rs false, d) = (ok rs, d)

abbrev pub first_row : {D A : Type 0} → (D → Answer A × D) → Run D A
first_row statement d = one_row (statement d)

abbrev pub every_row : {D A : Type 0} → (D → Answer A × D) → Run D (List A)
every_row statement d = all_rows (statement d)

-- What success says of each way to build such code.
module _ {D A B : Type 0} where
  go_on-eq-ok :
      (r : Result A × D) (f : A → Run D B) (b : B) (d' : D)
      → go_on r f ≡ (ok b, d')
      → (a : A) × (d : D) × (r ≡ (ok a, d)) × (f a d ≡ (ok b, d'))
  go_on-eq-ok (ok a, d) f b d' h = (a, d, refl, h)
  go_on-eq-ok (err e, d) f b d' h = cc

  pub >>=-eq-ok :
      (run : Run D A) (f : A → Run D B) (d : D) (b : B) (d' : D)
      → (run >>= f) d ≡ (ok b, d')
      → (a : A) × (d₁ : D) × (run d ≡ (ok a, d₁)) × (f a d₁ ≡ (ok b, d'))
  >>=-eq-ok run f d = go_on-eq-ok (run d) f

module _ {D A : Type 0} where
  pub wrapped-eq-ok :
      (label : Error) (r : Result A × D) (a : A) (d : D)
      → relabel label r ≡ (ok a, d)
      → r ≡ (ok a, d)
  wrapped-eq-ok label (ok a, d) a' d' h = h
  wrapped-eq-ok label (err e, d) a' d' h = cc

  pub one_row-eq-ok :
      (r : Answer A × D) (a : A) (d : D)
      → one_row r ≡ (ok a, d)
      → (rs : List A) × (broken : Bool) × (r ≡ (rows (a ∷ rs) broken, d))
  one_row-eq-ok (refused, d) a d' h = cc
  one_row-eq-ok (rows [] true, d) a d' h = cc
  one_row-eq-ok (rows [] false, d) a d' h = cc
  one_row-eq-ok (rows (r ∷ rs) broken, d) a d' h = (rs, broken, cc)

  pub all_rows-eq-ok :
      (r : Answer A × D) (rs : List A) (d : D) → all_rows r ≡ (ok rs, d) → r ≡ (rows rs false, d)
  all_rows-eq-ok (refused, d) rs d' h = cc
  all_rows-eq-ok (rows rs true, d) rs' d' h = cc
  all_rows-eq-ok (rows rs false, d) rs' d' h = cc
