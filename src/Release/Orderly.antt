-- ===== src/Release/Orderly.antt =====
-- What the operations of internal/release/application/service.go, but for those that start a release,
-- do to the table of releases: no row goes, a release that has ended keeps its status, and none begins
-- to be dispatched or deployed.
use edge_pilot.Base.{ℕ, ◌≡◌, refl, ◌∙◌, ap, Bool, true, false, Option, none, some, arith}
use edge_pilot.Model.Release.{Release, is_terminal, is_busy}
use edge_pilot.Release.World.{Backend}
use edge_pilot.Store.Base.{done}
use edge_pilot.Release.Rowwise.{
  RowStep, Rowwise, Rowwise-refl, Rowwise-trans, Rowwise-some, Rowwise-save, Rowwise-create,
}

-- gorm's update takes over the status: no status is the zero of its type.
unfoldable pub SavesStatus : Backend → Type 0
SavesStatus b = (old new : Release) → (b.releases.merge old new).status ≡ new.status

-- gorm's update with a release of the same service leaves the service as it is.
unfoldable pub KeepsService : Backend → Type 0
KeepsService b =
    (old new : Release)
    → new.service_id ≡ old.service_id
    → (b.releases.merge old new).service_id ≡ old.service_id

-- A row that has ended keeps its status; a row that is busy was busy.
unfoldable pub Orderly : Backend → Release → Release → Type 0
Orderly b old new =
    (is_terminal old.status ≡ true → new.status ≡ old.status)
    × (is_busy new.status ≡ true → is_busy old.status ≡ true)
    × (KeepsService b → new.service_id ≡ old.service_id)

unfoldable pub IsIdle : Release → Type 0
IsIdle r = is_busy r.status ≡ false

-- The same, and the row of one release does not change at all.
unfoldable pub Others : Backend → ℕ → Release → Release → Type 0
Others b id old new = Orderly b old new × (old.id ≡ id → new ≡ old)

module _ (b : Backend) where
  pub Orderly-refl : (r : Release) → Orderly b r r
  unfolding Orderly
  Orderly-refl r = (λ h. refl, λ h. h, λ k. refl)

  Orderly-trans : (r s t : Release) → Orderly b r s → Orderly b s t → Orderly b r t
  unfolding Orderly
  Orderly-trans r s t f g =
      (λ h. g.0 (ap is_terminal (f.0 h) ∙ h) ∙ f.0 h, λ h. f.1 (g.1 h), λ k. g.2 k ∙ f.2 k)

  IsIdle-Orderly : (r s : Release) → IsIdle r → Orderly b r s → IsIdle s
  unfolding Orderly IsIdle
  IsIdle-Orderly r s h g = idle (is_busy s.status) g.1
    where
      idle : (t : Bool) → (t ≡ true → is_busy r.status ≡ true) → t ≡ false
      idle true k = ground (arith, k refl)
      idle false k = refl

  Others-refl : (id : ℕ) (r : Release) → Others b id r r
  unfolding Others
  Others-refl id r = (Orderly-refl r, λ _. refl)

  Others-trans : (id : ℕ) (r s t : Release) → Others b id r s → Others b id s t → Others b id r t
  unfolding Others
  Others-trans id r s t f g =
      (Orderly-trans r s t f.0 g.0, λ e. g.1 (ap (λ x. x.id) (f.1 e) ∙ e) ∙ f.1 e)

  IsIdle-Others : (id : ℕ) (r s : Release) → IsIdle r → Others b id r s → IsIdle s
  unfolding Others
  IsIdle-Others id r s h g = IsIdle-Orderly r s h g.0

  -- The table as a whole.
  unfoldable pub TableOrderly : b.releases.Db → b.releases.Db → Type 0
  TableOrderly = Rowwise (Orderly b) IsIdle b

  unfoldable pub OthersOrderly : ℕ → b.releases.Db → b.releases.Db → Type 0
  OthersOrderly id = Rowwise (Others b id) IsIdle b

  pub TableOrderly-refl : (db : b.releases.Db) → TableOrderly db db
  unfolding TableOrderly
  TableOrderly-refl = Rowwise-refl b (Orderly b) IsIdle Orderly-refl Orderly-trans IsIdle-Orderly

  pub TableOrderly-trans :
      (db db' db'' : b.releases.Db)
      → TableOrderly db db'
      → TableOrderly db' db''
      → TableOrderly db db''
  unfolding TableOrderly
  TableOrderly-trans = Rowwise-trans b (Orderly b) IsIdle Orderly-refl Orderly-trans IsIdle-Orderly

  pub OthersOrderly-refl : (id : ℕ) (db : b.releases.Db) → OthersOrderly id db db
  unfolding OthersOrderly
  OthersOrderly-refl id =
      Rowwise-refl b (Others b id) IsIdle (Others-refl id) (Others-trans id) (IsIdle-Others id)

  pub OthersOrderly-trans :
      (id : ℕ) (db db' db'' : b.releases.Db)
      → OthersOrderly id db db'
      → OthersOrderly id db' db''
      → OthersOrderly id db db''
  unfolding OthersOrderly
  OthersOrderly-trans id =
      Rowwise-trans b (Others b id) IsIdle (Others-refl id) (Others-trans id) (IsIdle-Others id)

  -- An update that the row it merges into allows.
  pub save-TableOrderly :
      (r : Release) (db db' : b.releases.Db)
      → ((old : Release)
          → b.releases.row r.id db ≡ some old
          → Orderly b old (b.releases.merge old r))
      → b.releases.save r db ≡ done db'
      → TableOrderly db db'
  unfolding TableOrderly
  save-TableOrderly = Rowwise-save b (Orderly b) IsIdle Orderly-refl Orderly-trans IsIdle-Orderly

  pub save-OthersOrderly :
      (id : ℕ) (r : Release) (db db' : b.releases.Db)
      → ((old : Release)
          → b.releases.row r.id db ≡ some old
          → Others b id old (b.releases.merge old r))
      → b.releases.save r db ≡ done db'
      → OthersOrderly id db db'
  unfolding OthersOrderly
  save-OthersOrderly id =
      Rowwise-save b (Others b id) IsIdle (Others-refl id) (Others-trans id) (IsIdle-Others id)

  pub create-TableOrderly :
      (r : Release) (db db' : b.releases.Db)
      → IsIdle r
      → b.releases.create r db ≡ done db'
      → TableOrderly db db'
  unfolding TableOrderly
  create-TableOrderly =
      Rowwise-create b (Orderly b) IsIdle Orderly-refl Orderly-trans IsIdle-Orderly

  pub row-TableOrderly :
      (db db' : b.releases.Db) (id : ℕ) (r : Release)
      → TableOrderly db db'
      → b.releases.row id db ≡ some r
      → (s : Release) × (b.releases.row id db' ≡ some s) × Orderly b r s
  unfolding TableOrderly
  row-TableOrderly = Rowwise-some b (Orderly b) IsIdle Orderly-refl Orderly-trans IsIdle-Orderly

  step_weaker :
      (id : ℕ) (o o' : Option Release)
      → RowStep (Others b id) IsIdle o o'
      → RowStep (Orderly b) IsIdle o o'
  unfolding Others
  step_weaker id none none h = h
  step_weaker id none (some s) h = h
  step_weaker id (some r) none h = h
  step_weaker id (some r) (some s) h = h.0

  -- What leaves one release alone keeps the table in order, and that release's row.
  pub OthersOrderly-weaker :
      (id : ℕ) (db db' : b.releases.Db) → OthersOrderly id db db' → TableOrderly db db'
  unfolding OthersOrderly TableOrderly Rowwise
  OthersOrderly-weaker id db db' h k =
      step_weaker id (b.releases.row k db) (b.releases.row k db') (h k)

  pub OthersOrderly-row :
      (current : ℕ) (db db' : b.releases.Db) (id : ℕ) (r : Release)
      → OthersOrderly current db db'
      → b.releases.row id db ≡ some r
      → r.id ≡ current
      → b.releases.row id db' ≡ some r
  unfolding OthersOrderly Others
  OthersOrderly-row current db db' id r h p e =
      let s =
        Rowwise-some b (Others b current) IsIdle (Others-refl current) (Others-trans current)
          (IsIdle-Others current) db db' id r h p in
      s.1 ∙ ap some (s.2.1 e)
