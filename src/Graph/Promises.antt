-- ===== src/Graph/Promises.antt =====
-- What Neo4j promises of the statements and transactions of internal/metrics/graphrank.go, as
-- hypotheses: a database is read by its contact lists, its graph as GDS would project it, and its
-- projection.
use cipolin.Base.{◌≡◌, ◌⊎◌, Bool, true, false, ◌||◌, List, ◌∷◌, Option, none, some, if◌then◌else◌}
use cipolin.Base.Int.{ℤ}
use cipolin.Base.Texts.{String, has, str_eq}
use cipolin.Graph.Neo4j.{Arithmetic, Any, int64, boolean, rows, ok, err, Error, Neo4j, Run}

-- What a user's node holds: the time of the list (0 at first), and whom it follows.
pub record ContactList : Type 0 where
  pub created_at : ℤ
  pub follows : String → Bool

abbrev pub update : String → ContactList → (String → ContactList) → String → ContactList
update pubkey new lists key = if str_eq pubkey key then new else lists key

abbrev pub is_there : {A : Type 0} → Option A → Bool
is_there none = false
is_there (some a) = true

pub record Reading (m : Arithmetic) (n : Neo4j m) : Type 1 where
  pub Snapshot : Type 0
  pub lists : n.Database → String → ContactList
  pub current : n.Database → Snapshot
  pub projection : n.Database → Option Snapshot
  pub scores_of : Snapshot → List (Any m × Any m)

module _ (m : Arithmetic) (n : Neo4j m) (r : Reading m n) where
  open n use {Database}
  open r use {Snapshot, lists, current, projection, scores_of}

  -- The same but for the condition of the network.
  pub record Same (d d' : Database) : Type 0 where
    pub same_lists : lists d ≡ lists d'
    pub same_current : current d ≡ current d'
    pub same_projection : projection d ≡ projection d'

  -- A run of the work, from the database as it was when the transaction began, that succeeded.
  abbrev pub Committed : (R : Type 0) → Run Database R → Database → R → Database → Type 0
  Committed R work d a d' =
      (before : Database) × (after : Database) × Same before d
      × (work before ≡ (ok a, after))
      × Same d' after

  pub record IsFaithful : Type 1 where
    -- The driver may run the work again. A failed transaction has changed nothing, or the error
    -- came after its commit.
    pub write_ok :
        (R : Type 0) (work : Run Database R) (d : Database) (a : R) (d' : Database)
        → n.execute_write R work d ≡ (ok a, d')
        → Committed R work d a d'
    pub write_err :
        (R : Type 0) (work : Run Database R) (d : Database) (e : Error) (d' : Database)
        → n.execute_write R work d ≡ (err e, d')
        → Same d d' ⊎ ((a : R) × Committed R work d a d')
    pub read_ok :
        (R : Type 0) (work : Run Database R) (d : Database) (a : R) (d' : Database)
        → n.execute_read R work d ≡ (ok a, d')
        → (before : Database) × (after : Database) × Same before d
          × (work before ≡ (ok a, after))
          × Same d d'
    -- MERGE finds the user or makes one, whose list is that of an unknown user.
    pub merge_user_row :
        (pubkey : String) (d d' : Database) (v : Any m) (vs : List (Any m)) (broken : Bool)
        → n.merge_user pubkey d ≡ (rows (v ∷ vs) broken, d')
        → (v ≡ int64 ((lists d pubkey).created_at)) × (lists d' ≡ lists d)
    pub reset_done :
        (pubkey : String) (time : ℤ) (d d' : Database) (vs : List (Any m))
        → n.reset_follows pubkey time d ≡ (rows vs false, d')
        → lists d' ≡ update pubkey (record { created_at = time; follows = λ k. false }) (lists d)
    pub add_done :
        (pubkey : String) (targets : List String) (id : String) (time : ℤ) (d d' : Database)
        (vs : List (Any m))
        → n.add_follows pubkey targets id time d ≡ (rows vs false, d')
        → lists d'
          ≡ update pubkey
              (record {
                created_at = (lists d pubkey).created_at;
                follows = λ k. (lists d pubkey).follows k || has k targets;
              })
              (lists d)
    pub exists_row :
        (d d' : Database) (v : Any m) (vs : List (Any m)) (broken : Bool)
        → n.graph_exists d ≡ (rows (v ∷ vs) broken, d')
        → v ≡ boolean (is_there (projection d))
    pub drop_done :
        (d d' : Database) (vs : List (Any m))
        → n.graph_drop d ≡ (rows vs false, d')
        → (projection d' ≡ none) × (current d' ≡ current d)
    pub project_done :
        (d d' : Database) (vs : List (Any m))
        → n.graph_project d ≡ (rows vs false, d')
        → (projection d' ≡ some (current d)) × (current d' ≡ current d)
    -- The stream has a score for each node of the projection, which stays.
    pub page_rank_rows :
        (d d' : Database) (vs : List (Any m × Any m))
        → n.page_rank d ≡ (rows vs false, d')
        → (s : Snapshot) × (projection d ≡ some s) × (vs ≡ scores_of s)
