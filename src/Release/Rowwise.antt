-- ===== src/Release/Rowwise.antt =====
-- What may happen to each row of the table of releases, and what gorm's statements do to it.
use edge_pilot.Base.{
  ℕ, ◌≡◌, refl, sym, subst, Option, none, some, Bool-cases, inl, inr, ==_iff, ◌==◌,
}
use edge_pilot.Store.Base.{done}
use edge_pilot.Store.Entities.{merged}
use edge_pilot.Model.Release.{Release}
use edge_pilot.Release.World.{Backend}

-- `K` says what may become of a row, `N` what a new row may be. No row is deleted.
module _ (K : Release → Release → Type 0) (N : Release → Type 0) where
  abbrev pub RowStep : Option Release → Option Release → Type 0
  RowStep none none = Unit {0}
  RowStep none (some s) = N s
  RowStep (some r) none = ⊥
  RowStep (some r) (some s) = K r s

  unfoldable pub Rowwise : (b : Backend) → b.releases.Db → b.releases.Db → Type 0
  Rowwise b db db' = (id : ℕ) → RowStep (b.releases.row id db) (b.releases.row id db')

module _ (b : Backend) (K : Release → Release → Type 0) (N : Release → Type 0)
    (K_refl : (r : Release) → K r r) (K_trans : (r s t : Release) → K r s → K s t → K r t)
    (N_K : (r s : Release) → N r → K r s → N s) where
  RowStep-refl : (o : Option Release) → RowStep K N o o
  RowStep-refl none = tt
  RowStep-refl (some r) = K_refl r

  RowStep-trans :
      (o o' o'' : Option Release) → RowStep K N o o' → RowStep K N o' o'' → RowStep K N o o''
  RowStep-trans none none o'' h g = g
  RowStep-trans none (some s) none h g = tt
  RowStep-trans none (some s) (some t) h g = N_K s t h g
  RowStep-trans (some r) none o'' h g = elim h [ ]
  RowStep-trans (some r) (some s) none h g = g
  RowStep-trans (some r) (some s) (some t) h g = K_trans r s t h g

  pub Rowwise-refl : (db : b.releases.Db) → Rowwise K N b db db
  unfolding Rowwise
  Rowwise-refl db id = RowStep-refl (b.releases.row id db)

  pub Rowwise-trans :
      (db db' db'' : b.releases.Db)
      → Rowwise K N b db db'
      → Rowwise K N b db' db''
      → Rowwise K N b db db''
  unfolding Rowwise
  Rowwise-trans db db' db'' f g id =
      RowStep-trans (b.releases.row id db) (b.releases.row id db') (b.releases.row id db'') (f id)
        (g id)

  step-some :
      (o : Option Release) (r : Release)
      → RowStep K N (some r) o
      → (s : Release) × (o ≡ some s) × K r s
  step-some none r h = elim h [ ]
  step-some (some s) r h = (s, refl, h)

  -- A row that is there stays, and becomes what it may.
  pub Rowwise-some :
      (db db' : b.releases.Db) (id : ℕ) (r : Release)
      → Rowwise K N b db db'
      → b.releases.row id db ≡ some r
      → (s : Release) × (b.releases.row id db' ≡ some s) × K r s
  unfolding Rowwise
  Rowwise-some db db' id r f e =
      step-some (b.releases.row id db') r
        (subst (λ o. RowStep K N o (b.releases.row id db')) e (f id))

  -- A row that is there now was there, or is new.
  pub Rowwise-before :
      (db db' : b.releases.Db) (id : ℕ) (s : Release) (o : Option Release)
      → Rowwise K N b db db'
      → b.releases.row id db' ≡ some s
      → b.releases.row id db ≡ o
      → RowStep K N o (some s)
  unfolding Rowwise
  Rowwise-before db db' id s o f e p =
      subst (λ x. RowStep K N x (some s)) p
        (subst (λ x. RowStep K N (b.releases.row id db) x) e (f id))

  merged-K :
      (r : Release) (o : Option Release)
      → ((old : Release) → o ≡ some old → K old (b.releases.merge old r))
      → RowStep K N o (merged b.releases.merge r o)
  merged-K r none k = tt
  merged-K r (some old) k = k old refl

  -- An update from a struct, where the row that it merges into allows it.
  pub Rowwise-save :
      (r : Release) (db db' : b.releases.Db)
      → ((old : Release) → b.releases.row r.id db ≡ some old → K old (b.releases.merge old r))
      → b.releases.save r db ≡ done db'
      → Rowwise K N b db db'
  unfolding Rowwise
  Rowwise-save r db db' k e id =
      rw (b.releases.row-save r db db' id e) (elim (Bool-cases (r.id == id)) [
        | inr other ↦ rw other (RowStep-refl (b.releases.row id db))
        | inl own ↦ rw own (
            merged-K r (b.releases.row id db) λ old h.
              k old (subst (λ i. b.releases.row i db ≡ some old) (sym ((==_iff r.id id).0 own)) h))
      ])

  -- A new row, where it is allowed.
  pub Rowwise-create :
      (r : Release) (db db' : b.releases.Db)
      → N r
      → b.releases.create r db ≡ done db'
      → Rowwise K N b db db'
  unfolding Rowwise
  Rowwise-create r db db' k e id =
      rw (b.releases.row-create r db db' id e) (elim (Bool-cases (r.id == id)) [
        | inr other ↦ rw other (RowStep-refl (b.releases.row id db))
        | inl own ↦
            let free : b.releases.row id db ≡ none =
              subst (λ i. b.releases.row i db ≡ none) ((==_iff r.id id).0 own)
                (b.releases.created_new r db db' e) in
            rw (own, free) k
      ])
