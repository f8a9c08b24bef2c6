-- ===== src/Store/Entities.antt =====
-- Tables whose rows gorm updates from a struct, `Model(r).Updates(r)`, as
-- internal/release/infra/repository.go does. gorm is not part of the repository, so such a table is a
-- parameter: `merge old new` is the row that an update with the struct `new` leaves. Which fields it
-- takes over is stated where a component relies on it.
use edge_pilot.Base.{
  ℕ, ◌≡◌, Bool, true, false, Option, none, some, List, if◌then◌else◌, All, [], In, Bool-cases, inl,
  inr,
}
use edge_pilot.Store.Base.{Answer, done}

-- The row that `Updates` leaves: a row that is not there stays away, and is no error.
abbrev pub merged : {Row : Type 0} → (Row → Row → Row) → Row → Option Row → Option Row
merged merge new none = none
merged merge new (some old) = some (merge old new)

pub record Entities (Key Row : Type 0) (key : Row → Key) (same : Key → Key → Bool) : Type 1 where
  pub Db : Type 0
  pub row : Key → Db → Option Row
  pub merge : Row → Row → Row
  -- `Where("id = ?", id).First`.
  pub first : Key → Db → Answer (Option Row)
  -- `Where(condition).Order(…).Limit(n).Find`, `none` for no limit.
  pub find : (Row → Bool) → Option ℕ → Db → Answer (List Row)
  pub create : Row → Db → Answer Db
  -- `Model(r).Updates(r)`, which selects the row by the primary key of `r`.
  pub save : Row → Db → Answer Db
  pub first_row : (k : Key) (db : Db) (o : Option Row) → first k db ≡ done o → o ≡ row k db
  pub row_key : (k : Key) (db : Db) (r : Row) → row k db ≡ some r → key r ≡ k
  pub find_rows :
      (p : Row → Bool) (n : Option ℕ) (db : Db) (rows : List Row)
      → find p n db ≡ done rows
      → All (λ r. (row (key r) db ≡ some r) × (p r ≡ true)) rows
  -- A search without a limit finds every row there is.
  pub found_all :
      (p : Row → Bool) (db : Db) (rows : List Row)
      → find p none db ≡ done rows
      → (k : Key) (r : Row) → row k db ≡ some r
      → p r ≡ true
      → In r rows
  pub row-create :
      (r : Row) (db db' : Db) (k : Key)
      → create r db ≡ done db'
      → row k db' ≡ (if same (key r) k then some r else row k db)
  pub created_new : (r : Row) (db db' : Db) → create r db ≡ done db' → row (key r) db ≡ none
  pub row-save :
      (r : Row) (db db' : Db) (k : Key)
      → save r db ≡ done db'
      → row k db' ≡ (if same (key r) k then merged merge r (row k db) else row k db)

module _ {Key Row : Type 0} {key : Row → Key} {same : Key → Key → Bool}
    (table : Entities Key Row key same) where
  -- A search that finds nothing.
  pub found_none :
      (p : Row → Bool) (db : table.Db)
      → table.find p none db ≡ done []
      → (k : Key) (r : Row) → table.row k db ≡ some r
      → p r ≡ false
  found_none p db h k r e = elim (Bool-cases (p r)) [
    | inl sat ↦ absurd (table.found_all p db [] h k r e sat)
    | inr not_ ↦ not_
  ]
