-- ===== src/Release/Busy.antt =====
-- At most one release of a service is being dispatched or deployed: what the statements of
-- internal/release/infra/repository.go do to that.
use edge_pilot.Base.{
  ℕ, ◌≡◌, refl, sym, ◌∙◌, ap, true, false, false≢true, Option, none, some, Bool-cases, inl, inr,
}
use edge_pilot.Model.Release.{Release, is_busy}
use edge_pilot.Release.World.{Backend}
use edge_pilot.Release.Rowwise.{RowStep, Rowwise, Rowwise-refl, Rowwise-trans}
use edge_pilot.Release.Orderly.{KeepsService, Orderly, IsIdle, TableOrderly}

-- A row that is busy was busy, for the same service.
unfoldable pub Calm : Release → Release → Type 0
Calm old new =
    is_busy new.status ≡ true → (is_busy old.status ≡ true) × (new.service_id ≡ old.service_id)

-- The same, and the row of one release does not change at all.
unfoldable pub CalmBut : ℕ → Release → Release → Type 0
CalmBut id old new = Calm old new × (old.id ≡ id → new ≡ old)

pub Calm-refl : (r : Release) → Calm r r
unfolding Calm
Calm-refl r h = (h, refl)

pub Calm-trans : (r s t : Release) → Calm r s → Calm s t → Calm r t
unfolding Calm
Calm-trans r s t f g h = let k = g h in let l = f k.0 in (l.0, k.1 ∙ l.1)

pub IsIdle-Calm : (r s : Release) → IsIdle r → Calm r s → IsIdle s
unfolding Calm IsIdle
IsIdle-Calm r s idle f = elim (Bool-cases (is_busy s.status)) [
  | inl busy ↦ elim (false≢true (sym idle ∙ (f busy).0)) [ ]
  | inr h ↦ h
]

pub CalmBut-refl : (id : ℕ) (r : Release) → CalmBut id r r
unfolding CalmBut
CalmBut-refl id r = (Calm-refl r, λ _. refl)

pub CalmBut-trans : (id : ℕ) (r s t : Release) → CalmBut id r s → CalmBut id s t → CalmBut id r t
unfolding CalmBut
CalmBut-trans id r s t f g =
    (Calm-trans r s t f.0 g.0, λ e. g.1 (ap (λ x. x.id) (f.1 e) ∙ e) ∙ f.1 e)

pub IsIdle-CalmBut : (id : ℕ) (r s : Release) → IsIdle r → CalmBut id r s → IsIdle s
unfolding CalmBut
IsIdle-CalmBut id r s h g = IsIdle-Calm r s h g.0

module _ (b : Backend) where
  -- At most one release of a service is being dispatched or deployed.
  unfoldable pub OneBusy : b.releases.Db → Type 0
  OneBusy db =
      (i j : ℕ) (r s : Release)
      → b.releases.row i db ≡ some r
      → b.releases.row j db ≡ some s
      → is_busy r.status ≡ true
      → is_busy s.status ≡ true
      → r.service_id ≡ s.service_id
      → i ≡ j

  -- No release of the service is.
  unfoldable pub NoneBusy : ℕ → b.releases.Db → Type 0
  NoneBusy service db =
      (i : ℕ) (r : Release)
      → b.releases.row i db ≡ some r
      → r.service_id ≡ service
      → is_busy r.status ≡ false

  unfoldable pub TableCalm : b.releases.Db → b.releases.Db → Type 0
  TableCalm = Rowwise Calm IsIdle b

  unfoldable pub TableCalmBut : ℕ → b.releases.Db → b.releases.Db → Type 0
  TableCalmBut id = Rowwise (CalmBut id) IsIdle b

  pub TableCalm-refl : (db : b.releases.Db) → TableCalm db db
  unfolding TableCalm
  TableCalm-refl = Rowwise-refl b Calm IsIdle Calm-refl Calm-trans IsIdle-Calm

  pub TableCalm-trans :
      (db db' db'' : b.releases.Db) → TableCalm db db' → TableCalm db' db'' → TableCalm db db''
  unfolding TableCalm
  TableCalm-trans = Rowwise-trans b Calm IsIdle Calm-refl Calm-trans IsIdle-Calm

  pub TableCalmBut-refl : (id : ℕ) (db : b.releases.Db) → TableCalmBut id db db
  unfolding TableCalmBut
  TableCalmBut-refl id =
      Rowwise-refl b (CalmBut id) IsIdle (CalmBut-refl id) (CalmBut-trans id) (IsIdle-CalmBut id)

  pub TableCalmBut-trans :
      (id : ℕ) (db db' db'' : b.releases.Db)
      → TableCalmBut id db db'
      → TableCalmBut id db' db''
      → TableCalmBut id db db''
  unfolding TableCalmBut
  TableCalmBut-trans id =
      Rowwise-trans b (CalmBut id) IsIdle (CalmBut-refl id) (CalmBut-trans id) (IsIdle-CalmBut id)

  weaker :
      (K L : Release → Release → Type 0) (o o' : Option Release)
      → ((r s : Release) → K r s → L r s)
      → RowStep K IsIdle o o'
      → RowStep L IsIdle o o'
  weaker K L none none f h = h
  weaker K L none (some s) f h = h
  weaker K L (some r) none f h = h
  weaker K L (some r) (some s) f h = f r s h

  pub TableOrderly-calm :
      KeepsService b → (db db' : b.releases.Db) → TableOrderly b db db' → TableCalm db db'
  unfolding TableOrderly TableCalm Rowwise Orderly Calm
  TableOrderly-calm keeps db db' h id =
      weaker (Orderly b) Calm (b.releases.row id db) (b.releases.row id db')
        (λ r s k busy. (k.1 busy, k.2 keeps)) (h id)

  pub TableCalmBut-calm :
      (id : ℕ) (db db' : b.releases.Db) → TableCalmBut id db db' → TableCalm db db'
  unfolding TableCalmBut TableCalm Rowwise CalmBut
  TableCalmBut-calm id db db' h k =
      weaker (CalmBut id) Calm (b.releases.row k db) (b.releases.row k db') (λ r s f. f.0) (h k)
