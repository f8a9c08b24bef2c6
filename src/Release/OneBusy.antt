-- ===== src/Release/OneBusy.antt =====
-- What keeps it so that at most one release of a service is being dispatched or deployed.
use edge_pilot.Base.{
  ℕ, ◌≡◌, refl, sym, ◌∙◌, ap, subst, true, false, false≢true, Option, none, some, ◌==◌,
  if◌then◌else◌, Bool-cases, inl, inr, ==_iff,
}
use edge_pilot.Store.Base.{done}
use edge_pilot.Model.Release.{Release, is_busy}
use edge_pilot.Release.World.{Backend}
use edge_pilot.Release.Rowwise.{RowStep, Rowwise-some, Rowwise-before, Rowwise-save}
use edge_pilot.Release.Orderly.{SavesStatus, KeepsService, IsIdle}
use edge_pilot.Release.Busy.{
  Calm, CalmBut, Calm-refl, Calm-trans, IsIdle-Calm, CalmBut-refl, CalmBut-trans, IsIdle-CalmBut,
  OneBusy, NoneBusy, TableCalm, TableCalmBut,
}

module _ (b : Backend) where
  step-busy :
      (o : Option Release) (s : Release)
      → RowStep Calm IsIdle o (some s)
      → is_busy s.status ≡ true
      → (r : Release) × (o ≡ some r) × (is_busy r.status ≡ true) × (s.service_id ≡ r.service_id)
  unfolding IsIdle Calm
  step-busy none s idle busy = elim (false≢true (sym idle ∙ busy)) [ ]
  step-busy (some r) s h busy = let k = h busy in (r, refl, k.0, k.1)

  -- A row that is busy after calm steps was busy before.
  was_busy :
      (db db' : b.releases.Db) (id : ℕ) (s : Release)
      → TableCalm b db db'
      → b.releases.row id db' ≡ some s
      → is_busy s.status ≡ true
      → (r : Release) × (b.releases.row id db ≡ some r)
        × (is_busy r.status ≡ true)
        × (s.service_id ≡ r.service_id)
  unfolding TableCalm
  was_busy db db' id s h e = step-busy (b.releases.row id db) s (
      Rowwise-before b Calm IsIdle Calm-refl Calm-trans IsIdle-Calm db db' id s
        (b.releases.row id db) h e refl)

  pub calm-OneBusy : (db db' : b.releases.Db) → TableCalm b db db' → OneBusy b db → OneBusy b db'
  unfolding OneBusy
  calm-OneBusy db db' h one i j r s p q busy_r busy_s same =
      let r' = was_busy db db' i r h p busy_r in
      let s' = was_busy db db' j s h q busy_s in
      one i j r'.0 s'.0 r'.1 s'.1 r'.2 s'.2 (sym r'.3 ∙ same ∙ s'.3)

  pub calm-NoneBusy :
      (service : ℕ) (db db' : b.releases.Db)
      → TableCalm b db db'
      → NoneBusy b service db
      → NoneBusy b service db'
  unfolding NoneBusy
  calm-NoneBusy service db db' h free i s e own = elim (Bool-cases (is_busy s.status)) [
    | inr idle ↦ idle
    | inl busy ↦
        let r = was_busy db db' i s h e busy in
        elim (false≢true (sym (free i r.0 r.1 (sym r.3 ∙ own)) ∙ r.2)) [ ]
  ]

  pub calm_but-row :
      (current : ℕ) (db db' : b.releases.Db) (id : ℕ) (r : Release)
      → TableCalmBut b current db db'
      → b.releases.row id db ≡ some r
      → r.id ≡ current
      → b.releases.row id db' ≡ some r
  unfolding TableCalmBut CalmBut
  calm_but-row current db db' id r h p e =
      let s =
        Rowwise-some b (CalmBut current) IsIdle (CalmBut-refl current) (CalmBut-trans current)
          (IsIdle-CalmBut current) db db' id r h p in
      s.1 ∙ ap some (s.2.1 e)

  merged-Calm :
      SavesStatus b
      → (old new : Release) → is_busy new.status ≡ false
      → Calm old (b.releases.merge old new)
  unfolding SavesStatus Calm
  merged-Calm saves old new idle busy =
      elim (false≢true (sym idle ∙ ap is_busy (sym (saves old new)) ∙ busy)) [ ]

  -- An update to a status that is not busy.
  pub idle_save-TableCalm :
      SavesStatus b
      → (new : Release) (db db' : b.releases.Db) → is_busy new.status ≡ false
      → b.releases.save new db ≡ done db'
      → TableCalm b db db'
  unfolding TableCalm
  idle_save-TableCalm saves new db db' idle =
      Rowwise-save b Calm IsIdle Calm-refl Calm-trans IsIdle-Calm new db db'
        (λ old _. merged-Calm saves old new idle)

  pub idle_save-TableCalmBut :
      SavesStatus b
      → (current : ℕ) (new : Release) (db db' : b.releases.Db) → (new.id == current) ≡ false
      → is_busy new.status ≡ false
      → b.releases.save new db ≡ done db'
      → TableCalmBut b current db db'
  unfolding TableCalmBut CalmBut
  idle_save-TableCalmBut saves current new db db' other idle =
      Rowwise-save b (CalmBut current) IsIdle (CalmBut-refl current) (CalmBut-trans current)
        (IsIdle-CalmBut current) new db db'
        λ old e. (
          merged-Calm saves old new idle,
          λ own.
              elim (false≢true (
                sym other
                ∙ (==_iff new.id current).1 (sym (b.releases.row_key new.id db old e) ∙ own))) [ ],
        )

  row_saved :
      (new r : Release) (db db' : b.releases.Db)
      → b.releases.row new.id db ≡ some r
      → b.releases.save new db ≡ done db'
      → (k : ℕ)
      → b.releases.row k db'
        ≡ (if new.id == k then some (b.releases.merge r new) else b.releases.row k db)
  row_saved new r db db' here e k =
      rw (b.releases.row-save new db db' k e) (elim (Bool-cases (new.id == k)) [
        | inr other ↦ rw other refl
        | inl own ↦
            let at_k : b.releases.row k db ≡ some r =
              subst (λ i. b.releases.row i db ≡ some r) ((==_iff new.id k).0 own) here in
            rw (own, at_k) refl
      ])

  -- A release may be dispatched where none of its service is.
  module _ (keeps : KeepsService b) (new r : Release) (db db' : b.releases.Db)
      (here : b.releases.row new.id db ≡ some r) (same : new.service_id ≡ r.service_id)
      (free : NoneBusy b r.service_id db) (saved : b.releases.save new db ≡ done db') where
    of_saved :
        (k : ℕ) (x : Release)
        → b.releases.row k db' ≡ some x
        → (new.id == k) ≡ true
        → x.service_id ≡ r.service_id
    unfolding KeepsService
    of_saved k x e own =
        ap (λ y. y.service_id) (some_eq (sym e ∙ row_saved new r db db' here saved k ∙ rw own refl))
        ∙ keeps r new same
      where
        some_eq : some x ≡ some (b.releases.merge r new) → x ≡ b.releases.merge r new
        some_eq h = cc

    of_other :
        (k : ℕ) (x : Release)
        → b.releases.row k db' ≡ some x
        → (new.id == k) ≡ false
        → b.releases.row k db ≡ some x
    of_other k x e other =
        let kept : b.releases.row k db' ≡ b.releases.row k db =
          row_saved new r db db' here saved k ∙ rw other refl in
        sym kept ∙ e

    refuted :
        (k : ℕ) (x y : Release)
        → b.releases.row k db ≡ some x
        → is_busy x.status ≡ true
        → x.service_id ≡ y.service_id
        → y.service_id ≡ r.service_id
        → ⊥
    unfolding NoneBusy
    refuted k x y e busy own service = false≢true (sym (free k x e (own ∙ service)) ∙ busy)

    pub dispatched-OneBusy : OneBusy b db → OneBusy b db'
    unfolding OneBusy
    dispatched-OneBusy one i j x y p q busy_x busy_y own = elim (Bool-cases (new.id == i)) [
      | inl at_i ↦ elim (Bool-cases (new.id == j)) [
        | inl at_j ↦ sym ((==_iff new.id i).0 at_i) ∙ (==_iff new.id j).0 at_j
        | inr other ↦
            elim (refuted j y x (of_other j y q other) busy_y (sym own) (of_saved i x p at_i)) [ ]
      ]
      | inr other_i ↦ elim (Bool-cases (new.id == j)) [
        | inl at_j ↦
            elim (refuted i x y (of_other i x p other_i) busy_x own (of_saved j y q at_j)) [ ]
        | inr other_j ↦
            one i j x y (of_other i x p other_i) (of_other j y q other_j) busy_x busy_y own
      ]
    ]
