-- ===== src/Store/Base.antt =====
-- What the repositories of internal/scheduler/infra/repository.go and
-- internal/release/infra/repository.go use of gorm and its database: one table of rows, each found
-- by its primary key. Neither gorm nor the database is part of the repository, so a table is a
-- parameter: the statements the program sends, what they may answer, and the laws on which it relies.
-- A statement that fails leaves the database as it was. `Memory` is a table that meets the laws.
use edge_pilot.Base.{ℕ, ◌≡◌, Bool, true, Option, none, some, List, if◌then◌else◌, All}
use edge_pilot.Base.Text.{Text}

-- The answer of a statement: a value, or the text of the database's error.
pub data Answer {ℓ} (A : Type ℓ) : Type ℓ where
  done : A → Answer A
  fault : Text → Answer A

-- What an update makes of a row: the rows that satisfy the condition are changed.
abbrev pub changed : {Row : Type 0} → (Row → Bool) → (Row → Row) → Option Row → Option Row
changed p f none = none
changed p f (some r) = if p r then some (f r) else some r

-- The number of rows that an update by key affects.
abbrev pub affected : {Row : Type 0} → (Row → Bool) → Option Row → ℕ
affected p none = 0
affected p (some r) = if p r then 1 else 0

pub record Table (Key Row : Type 0) (key : Row → Key) (same : Key → Key → Bool) : Type 1 where
  pub Db : Type 0
  -- The committed row with a primary key.
  pub row : Key → Db → Option Row
  -- `Where("id = ?", id).First`; a missing row is no error of this statement.
  pub first : Key → Db → Answer (Option Row)
  -- `Where(condition).Order(…).Limit(n).Find`, `none` for no limit.
  pub find : (Row → Bool) → Option ℕ → Db → Answer (List Row)
  -- `Create`, refused where the key is taken.
  pub create : Row → Db → Answer Db
  -- `Model(…).Where("id = ? AND condition").Updates(columns)`: the new state and `RowsAffected`.
  pub update_where : Key → (Row → Bool) → (Row → Row) → Db → Answer (Db × ℕ)
  pub first_row : (k : Key) (db : Db) (o : Option Row) → first k db ≡ done o → o ≡ row k db
  pub find_rows :
      (p : Row → Bool) (n : Option ℕ) (db : Db) (rows : List Row)
      → find p n db ≡ done rows
      → All (λ r. (row (key r) db ≡ some r) × (p r ≡ true)) rows
  pub row-create :
      (r : Row) (db db' : Db) (k : Key)
      → create r db ≡ done db'
      → row k db' ≡ (if same (key r) k then some r else row k db)
  pub created_new : (r : Row) (db db' : Db) → create r db ≡ done db' → row (key r) db ≡ none
  pub row-update_where :
      (i : Key) (p : Row → Bool) (f : Row → Row) (db : Db) (a : Db × ℕ) (k : Key)
      → update_where i p f db ≡ done a
      → row k a.0 ≡ (if same i k then changed p f (row k db) else row k db)
  pub affected_rows :
      (i : Key) (p : Row → Bool) (f : Row → Row) (db : Db) (a : Db × ℕ)
      → update_where i p f db ≡ done a
      → a.1 ≡ affected p (row i db)
