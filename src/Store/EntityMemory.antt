-- ===== src/Store/EntityMemory.antt =====
-- A table in memory for the laws of `Entities`: the keys in use and the row of each.
use edge_pilot.Base.{
  In, ℕ, ◌≡◌, refl, sym, ◌∙◌, ap, Bool, true, subst, any, Option, none, some, List, ◌∷◌,
  if◌then◌else◌, All, arith, Bool-cases, inl, inr,
}
use edge_pilot.Store.Base.{Answer, done, fault}
use edge_pilot.Base.Text.{codes}
use edge_pilot.Store.Entities.{Entities, merged}
use edge_pilot.Store.Memory.{Rows, find_in, find_in-Good, gather, gather_all, limited}

module _ {Key Row : Type 0} (key : Row → Key) (same : Key → Key → Bool)
    (same→eq : (a b : Key) → same a b ≡ true → a ≡ b) (same_refl : (a : Key) → same a a ≡ true)
    (merge : Row → Row → Row) (key-merge : (old new : Row) → key (merge old new) ≡ key old) where
  -- A row counts only under its own key.
  unfoldable pub own : Key → Option Row → Option Row
  own k none = none
  own k (some r) = if same (key r) k then some r else none

  -- The keys in use are those of the list.
  pub present : Key → Rows Key Row → Option Row
  present k db = if any (λ j. same j k) db.keys then db.at k else none

  pub at : Key → Rows Key Row → Option Row
  at k db = own k (present k db)

  pub first_at : Key → Rows Key Row → Answer (Option Row)
  first_at k db = done (at k db)

  pub find_at : (Row → Bool) → Option ℕ → Rows Key Row → Answer (List Row)
  find_at p n db = find_in key same same→eq p n (record { keys = db.keys; at = λ k. at k db })

  pub insert_new : Row → Rows Key Row → Option Row → Answer (Rows Key Row)
  insert_new r db none =
      done (record { keys = key r ∷ db.keys; at = λ k. if same (key r) k then some r else db.at k })
  insert_new r db (some old) = fault (codes "duplicate key")

  pub insert_at : Row → Rows Key Row → Answer (Rows Key Row)
  insert_at r db = insert_new r db (at (key r) db)

  pub save_at : Row → Rows Key Row → Answer (Rows Key Row)
  save_at r db = done (record {
    keys = db.keys;
    at = λ k. if same (key r) k then merged merge r (at k db) else db.at k;
  })

  own-key : (k : Key) (o : Option Row) (r : Row) → own k o ≡ some r → key r ≡ k
  unfolding own
  own-key k none r h = ground arith
  own-key k (some x) r h = elim (Bool-cases (same (key x) k)) [
    | inl mine ↦
        let is_r : some x ≡ some r = rw mine at h in
        let x_r : x ≡ r = cc in same→eq (key r) k (rw x_r at mine)
    | inr theirs ↦ (let none_r : none ≡ some r = rw theirs at h in absurd none_r)
  ]
    where
      absurd : none ≡ some r → key r ≡ k
      absurd e = ground arith

  own_self : (r : Row) → own (key r) (some r) ≡ some r
  unfolding own
  own_self r = rw (same_refl (key r)) refl

  own-merged :
      (k : Key) (r : Row) (o : Option Row)
      → own k (merged merge r (own k o)) ≡ merged merge r (own k o)
  unfolding own
  own-merged k r none = refl
  own-merged k r (some x) = elim (Bool-cases (same (key x) k)) [
    | inl mine ↦ rw (mine, key-merge x r, mine) refl
    | inr theirs ↦ rw theirs refl
  ]

  pub row_key-at : (k : Key) (db : Rows Key Row) (r : Row) → at k db ≡ some r → key r ≡ k
  unfolding at
  row_key-at k db r h = own-key k (present k db) r h

  of_done : (a db : Rows Key Row) → done a ≡ done db → db ≡ a
  of_done a db h = cc

  inserted :
      (r : Row) (db db' : Rows Key Row) (o : Option Row) (k : Key)
      → insert_new r db o ≡ done db'
      → (at k db' ≡ (if same (key r) k then some r else at k db)) × (o ≡ none)
  unfolding insert_new at present any
  inserted r db db' none k h = (
    rw (of_done _ db' h) (elim (Bool-cases (same (key r) k)) [
      | inl here ↦ rw here (ap (λ j. own j (some r)) (sym (same→eq (key r) k here)) ∙ own_self r)
      | inr there ↦ rw there refl
    ]),
    refl,
  )
  inserted r db db' (some x) k h = ground arith

  pub insert_at-row :
      (r : Row) (db db' : Rows Key Row) (k : Key)
      → insert_at r db ≡ done db'
      → at k db' ≡ (if same (key r) k then some r else at k db)
  unfolding insert_at
  insert_at-row r db db' k h = (inserted r db db' (at (key r) db) k h).0

  pub inserted_new :
      (r : Row) (db db' : Rows Key Row) → insert_at r db ≡ done db' → at (key r) db ≡ none
  unfolding insert_at
  inserted_new r db db' h = (inserted r db db' (at (key r) db) (key r) h).1

  pub save_at-row :
      (r : Row) (db db' : Rows Key Row) (k : Key)
      → save_at r db ≡ done db'
      → at k db' ≡ (if same (key r) k then merged merge r (at k db) else at k db)
  unfolding save_at at present own
  save_at-row r db db' k h = rw (of_done _ db' h) (elim (Bool-cases (same (key r) k)) [
    | inr there ↦ rw there refl
    | inl here ↦ elim (Bool-cases (any (λ j. same j k) db.keys)) [
      | inl used ↦ rw (here, used) (own-merged k r (db.at k))
      | inr unused ↦ rw (here, unused, own) refl
    ]
  ])

  -- A statement that changes one row, and adds none.
  pub change_at : Key → (Option Row → Option Row) → Rows Key Row → Rows Key Row
  change_at i f db = record { keys = db.keys; at = λ k. if same i k then f (at k db) else db.at k }

  -- A change that leaves the key of a row alone.
  abbrev pub KeepsKey : (Option Row → Option Row) → Type 0
  KeepsKey f = (f none ≡ none) × ((r : Row) → own (key r) (f (some r)) ≡ f (some r))

  own-changed :
      (f : Option Row → Option Row) (k : Key) (o : Option Row)
      → KeepsKey f
      → own k (f (own k o)) ≡ f (own k o)
  unfolding own
  own-changed f k none h = rw (h.0) refl
  own-changed f k (some x) h = elim (Bool-cases (same (key x) k)) [
    | inl mine ↦
        rw mine (subst (λ j. own j (f (some x)) ≡ f (some x)) (same→eq (key x) k mine) (h.1 x))
    | inr theirs ↦ rw (theirs, h.0) refl
  ]

  pub change_at-row :
      (i : Key) (f : Option Row → Option Row) (db : Rows Key Row) (k : Key)
      → KeepsKey f
      → at k (change_at i f db) ≡ (if same i k then f (at k db) else at k db)
  unfolding change_at at present own
  change_at-row i f db k h = elim (Bool-cases (same i k)) [
    | inr there ↦ rw there refl
    | inl here ↦ elim (Bool-cases (any (λ j. same j k) db.keys)) [
      | inl used ↦ rw (here, used) (own-changed f k (db.at k) h)
      | inr unused ↦ rw (here, unused, own) (sym (h.0))
    ]
  ]

  pub found_at :
      (p : Row → Bool) (n : Option ℕ) (db : Rows Key Row) (rows : List Row)
      → find_at p n db ≡ done rows
      → All (λ r. (at (key r) db ≡ some r) × (p r ≡ true)) rows
  unfolding find_at
  found_at p n db rows h = find_in-Good key same same→eq p n _ rows h

  in_use :
      (k : Key) (r : Row) (db : Rows Key Row)
      → at k db ≡ some r
      → any (λ j. same j k) db.keys ≡ true
  unfolding at present own
  in_use k r db e = elim (Bool-cases (any (λ j. same j k) db.keys)) [
    | inl used ↦ used
    | inr unused ↦ (let nothing : own k none ≡ some r = rw unused at e in ground arith)
  ]

  pub found_everything :
      (p : Row → Bool) (db : Rows Key Row) (rows : List Row)
      → find_at p none db ≡ done rows
      → (k : Key) (r : Row) → at k db ≡ some r
      → p r ≡ true
      → In r rows
  unfolding find_at find_in limited
  found_everything p db rows h k r e sat =
      subst (In r) (of_done (gather key same same→eq p (λ j. at j db) db.keys) rows h) (
        gather_all key same same→eq p (λ j. at j db) db.keys k r (in_use k r db e) e
          (subst (λ i. same (key r) i ≡ true) (row_key-at k db r e) (same_refl (key r))) sat)
    where
      of_done : (xs ys : List Row) → done xs ≡ done ys → xs ≡ ys
      of_done xs ys q = cc

  pub first_at-row :
      (k : Key) (db : Rows Key Row) (o : Option Row) → first_at k db ≡ done o → o ≡ at k db
  unfolding first_at
  first_at-row k db o h = cc

  -- The table in memory, whose updates merge by `merge`.
  unfoldable pub entity_memory : Entities Key Row key same
  unfolding first_at find_at insert_at insert_new save_at at present own any
  entity_memory = record {
    Db = Rows Key Row;
    row = at;
    merge = merge;
    first = first_at;
    find = find_at;
    create = insert_at;
    save = save_at;
    first_row = first_at-row;
    row_key = row_key-at;
    find_rows = found_at;
    found_all = found_everything;
    row-create = insert_at-row;
    created_new = inserted_new;
    row-save = save_at-row;
  }
