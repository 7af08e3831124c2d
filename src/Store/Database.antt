-- ===== src/Store/Database.antt =====
-- What internal/store relies on of the database: the transactions of SQLite on the one connection
-- that the store holds. The database itself is a library, and enters as a record of its operations
-- and their documented laws.
use vps_safe_dashboard.Prelude.{
  ℕ, ◌≡◌, Bytes, Bool, true, List, [], ◌∷◌, ◌++◌, Option, none, some, if◌then◌else◌,
}
use vps_safe_dashboard.Store.Items.{Arg, Statement}

-- A row that a statement inserts, with its arguments.
abbrev pub Row : Type 0 → Type 0 → Type 0
Row F M = Statement × List (Arg F M)

-- An operation returns the database and whether it succeeded. `committed` is what the transactions
-- have inserted that were committed so far, whether deleted since or not; `staged` what the open
-- transaction has inserted, if one is open.
pub record Database (F M : Type 0) : Type 1 where
  pub Db : Type 0
  pub committed : Db → List (Row F M)
  pub staged : Db → Option (List (Row F M))
  pub begin : Db → Db × Bool
  pub insert : Row F M → Db → Db × Bool
  pub commit : Db → Db × Bool
  pub rollback : Db → Db
  -- The DELETE of cleanupTable in a table, with how many rows it deleted, and a write into `meta`.
  pub delete_old : Bytes → ℕ → Db → Db × Option ℕ
  pub put_meta : Bytes → Bytes → Db → Db × Bool
  -- The laws.
  pub committed-begin : (d : Db) → committed (begin d).0 ≡ committed d
  pub staged-begin :
      (d : Db) → staged d ≡ none → staged (begin d).0 ≡ (if (begin d).1 then some [] else none)
  pub committed-insert : (r : Row F M) (d : Db) → committed (insert r d).0 ≡ committed d
  pub staged-insert :
      (r : Row F M) (d : Db) (rs : List (Row F M))
      → staged d ≡ some rs
      → (insert r d).1 ≡ true
      → staged (insert r d).0 ≡ some (rs ++ r ∷ [])
  pub committed-commit :
      (d : Db) (rs : List (Row F M))
      → staged d ≡ some rs
      → committed (commit d).0 ≡ (if (commit d).1 then committed d ++ rs else committed d)
  pub staged-commit : (d : Db) → (commit d).1 ≡ true → staged (commit d).0 ≡ none
  pub committed-rollback : (d : Db) → committed (rollback d) ≡ committed d
  pub staged-rollback : (d : Db) → staged (rollback d) ≡ none
  pub committed-delete_old :
      (table : Bytes) (cutoff : ℕ) (d : Db) → committed (delete_old table cutoff d).0 ≡ committed d
  pub staged-delete_old :
      (table : Bytes) (cutoff : ℕ) (d : Db)
      → staged d ≡ none
      → staged (delete_old table cutoff d).0 ≡ none
  pub committed-put_meta :
      (key value : Bytes) (d : Db) → committed (put_meta key value d).0 ≡ committed d
  pub staged-put_meta :
      (key value : Bytes) (d : Db) → staged d ≡ none → staged (put_meta key value d).0 ≡ none
