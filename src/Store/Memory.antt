-- ===== src/Store/Memory.antt =====
-- A table in memory: the keys in use and the row of each. Its statements fail only where `Create`
-- meets a key that is taken.
use edge_pilot.Base.{
  ℕ, zero, suc, ◌≡◌, refl, sym, ◌∙◌, ap, subst, Bool, true, false≢true, In, ◌&&◌, Option, none,
  some, List, [], ◌∷◌, if◌then◌else◌, All, take, arith, Bool-cases, inl, inr, any,
}
use edge_pilot.Base.Text.{codes}
use edge_pilot.Store.Base.{Answer, done, fault, Table, changed, affected}

pub record Rows (Key Row : Type 0) : Type 0 where
  pub keys : List Key
  pub at : Key → Option Row

module _ {Key Row : Type 0} (key : Row → Key) (same : Key → Key → Bool)
    (same→eq : (a b : Key) → same a b ≡ true → a ≡ b) where
  pub consider : (Row → Bool) → Key → Option Row → List Row → List Row
  consider p k none rest = rest
  consider p k (some r) rest = if same (key r) k && p r then r ∷ rest else rest

  -- The rows that satisfy a condition, in the order of the keys.
  pub gather : (Row → Bool) → (Key → Option Row) → List Key → List Row
  gather p at [] = []
  gather p at (k ∷ ks) = consider p k (at k) (gather p at ks)

  consider_found :
      (p : Row → Bool) (k : Key) (r : Row) (rest : List Row)
      → same (key r) k ≡ true
      → p r ≡ true
      → In r (consider p k (some r) rest)
  unfolding consider
  consider_found p k r rest own sat = rw (own, sat) (inl refl)

  consider_rest :
      (p : Row → Bool) (k : Key) (o : Option Row) (r : Row) (rest : List Row)
      → In r rest
      → In r (consider p k o rest)
  unfolding consider
  consider_rest p k none r rest m = m
  consider_rest p k (some x) r rest m = elim (Bool-cases (same (key x) k && p x)) [
    | inl taken ↦ rw taken (inr m)
    | inr left ↦ rw left m
  ]

  -- A search looks at every key in use.
  pub gather_all :
      (p : Row → Bool) (at : Key → Option Row) (ks : List Key) (k : Key) (r : Row)
      → any (λ j. same j k) ks ≡ true
      → at k ≡ some r
      → same (key r) k ≡ true
      → p r ≡ true
      → In r (gather p at ks)
  unfolding gather any
  gather_all p at [] k r m e own sat = absurd (false≢true m)
  gather_all p at (j ∷ ks) k r m e own sat = elim (Bool-cases (same j k)) [
    | inl same_key ↦
        let j_k : j ≡ k = same→eq j k same_key in
        rw (ap at j_k ∙ e) (
          consider_found p j r (gather p at ks) (subst (λ i. same (key r) i ≡ true) (sym j_k) own)
            sat)
    | inr other ↦
        consider_rest p j (at j) r (gather p at ks)
          (gather_all p at ks k r (rw other at m) e own sat)
  ]

  abbrev pub Good : (Row → Bool) → (Key → Option Row) → List Row → Type 0
  Good p at = All (λ r. (at (key r) ≡ some r) × (p r ≡ true))

  consider-Good :
      (p : Row → Bool) (at : Key → Option Row) (k : Key) (o : Option Row) (rest : List Row)
      → at k ≡ o
      → Good p at rest
      → Good p at (consider p k o rest)
  unfolding consider
  consider-Good p at k none rest e g = g
  consider-Good p at k (some r) rest e g = elim (Bool-cases (same (key r) k)) [
    | inr other ↦ rw other g
    | inl own ↦ elim (Bool-cases (p r)) [
      | inl chosen ↦ rw (own, chosen) ((ap at (same→eq (key r) k own) ∙ e, chosen), g)
      | inr skipped ↦ rw (own, skipped) g
    ]
  ]

  gather-Good :
      (p : Row → Bool) (at : Key → Option Row) (ks : List Key) → Good p at (gather p at ks)
  unfolding gather
  gather-Good p at [] = tt
  gather-Good p at (k ∷ ks) =
      consider-Good p at k (at k) (gather p at ks) refl (gather-Good p at ks)

  unfoldable pub limited : Option ℕ → List Row → List Row
  limited none rows = rows
  limited (some n) rows = take n rows

  take-Good :
      (p : Row → Bool) (at : Key → Option Row) (n : ℕ) (rows : List Row)
      → Good p at rows
      → Good p at (take n rows)
  take-Good p at zero rows g = tt
  take-Good p at (suc n) [] g = tt
  take-Good p at (suc n) (r ∷ rows) g = (g.0, take-Good p at n rows g.1)

  limited-Good :
      (p : Row → Bool) (at : Key → Option Row) (n : Option ℕ) (rows : List Row)
      → Good p at rows
      → Good p at (limited n rows)
  unfolding limited
  limited-Good p at none rows g = g
  limited-Good p at (some n) rows g = take-Good p at n rows g

  pub insert : Row → Rows Key Row → Answer (Rows Key Row)
  insert r db = elim (db.at (key r)) [
    | some _ ↦ fault (codes "duplicate key")
    | none ↦
        done
          (record { keys = key r ∷ db.keys; at = λ k. if same (key r) k then some r else db.at k })
  ]

  pub update : Key → (Row → Bool) → (Row → Row) → Rows Key Row → Answer (Rows Key Row × ℕ)
  update i p f db = done (
    record { keys = db.keys; at = λ k. if same i k then changed p f (db.at k) else db.at k },
    affected p (db.at i),
  )

  pub insert-at :
      (r : Row) (db db' : Rows Key Row) (k : Key)
      → insert r db ≡ done db'
      → (db'.at k ≡ (if same (key r) k then some r else db.at k)) × (db.at (key r) ≡ none)
  unfolding insert
  insert-at r db db' k h = ground arith

  pub update-at :
      (i : Key) (p : Row → Bool) (f : Row → Row) (db : Rows Key Row) (a : Rows Key Row × ℕ)
      (k : Key)
      → update i p f db ≡ done a
      → (a.0.at k ≡ (if same i k then changed p f (db.at k) else db.at k))
        × (a.1 ≡ affected p (db.at i))
  unfolding update
  update-at i p f db a k h = ground arith

  unfoldable pub find_in : (Row → Bool) → Option ℕ → Rows Key Row → Answer (List Row)
  find_in p n db = done (limited n (gather p db.at db.keys))

  pub find_in-Good :
      (p : Row → Bool) (n : Option ℕ) (db : Rows Key Row) (rows : List Row)
      → find_in p n db ≡ done rows
      → Good p db.at rows
  unfolding find_in
  find_in-Good p n db rows h =
      subst (Good p db.at) (cc) (limited-Good p db.at n _ (gather-Good p db.at db.keys))

  pub first_in : Key → Rows Key Row → Answer (Option Row)
  first_in k db = done (db.at k)

  pub first_in-eq :
      (k : Key) (db : Rows Key Row) (o : Option Row) → first_in k db ≡ done o → o ≡ db.at k
  unfolding first_in
  first_in-eq k db o h = cc

  -- The table in memory.
  unfoldable pub memory : Table Key Row key same
  unfolding insert update find_in first_in limited gather consider
  memory = record {
    Db = Rows Key Row;
    row = λ k db. db.at k;
    first = first_in;
    find = find_in;
    create = insert;
    update_where = update;
    first_row = first_in-eq;
    find_rows = find_in-Good;
    row-create = λ r db db' k h. (insert-at r db db' k h).0;
    created_new = λ r db db' h. (insert-at r db db' (key r) h).1;
    row-update_where = λ i p f db a k h. (update-at i p f db a k h).0;
    affected_rows = λ i p f db a h. (update-at i p f db a i h).1;
  }
