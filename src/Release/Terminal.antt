-- ===== src/Release/Terminal.antt =====
-- A release that has ended stays as it has ended: the operations of
-- internal/release/application/service.go on the table of releases.
use edge_pilot.Base.{
  ℕ, ◌≡◌, refl, sym, ◌∙◌, ap, subst, Bool, true, false, false≢true, ◌||◌, Option, none, some, ◌==◌,
  if◌then◌else◌, Bool-cases, inl, inr, ==_iff, arith,
}
use edge_pilot.Base.Text.{Text}
use edge_pilot.Cron.Calendar.{Time}
use edge_pilot.Model.Slot.{unset, slot_eq}
use edge_pilot.Model.Release.{Release, RuntimeInstance, is_terminal, is_queued, is_ready, is_busy}
use edge_pilot.Release.World.{Backend, R, update_release}
use edge_pilot.Release.Traffic.{
  may_supersede, superseded, supersede, supersede_instance, complete_previous_live_release,
}
use edge_pilot.Release.Quiet.{return-Quiet, audit-Quiet, get_instance-Quiet}
use edge_pilot.Release.Orderly.{
  SavesStatus, KeepsService, Orderly, Others, TableOrderly, TableOrderly-refl, TableOrderly-trans,
  OthersOrderly, OthersOrderly-refl, OthersOrderly-trans, OthersOrderly-weaker, OthersOrderly-row,
  save-TableOrderly, save-OthersOrderly,
}
use edge_pilot.Release.Kept.{
  Holds, Ends, Keeps, Quiet-Ends, Quiet-Keeps, >>-Done, if-Ends, >>=-Keeps, update_release-Ends,
  get_release-Keeps,
}

superseded-ended :
    (now : Time) (previous : Release)
    → may_supersede previous ≡ true
    → is_terminal previous.status ≡ true
    → (superseded now previous).status ≡ previous.status
unfolding may_supersede is_terminal superseded
superseded-ended now previous may ended = ground arith

pub queued-not_ended : (r : Release) → is_queued r.status ≡ true → is_terminal r.status ≡ true → ⊥
unfolding is_queued is_terminal
queued-not_ended r h ended = ground arith

pub ready-not_ended : (r : Release) → is_ready r.status ≡ true → is_terminal r.status ≡ true → ⊥
unfolding is_ready is_terminal
ready-not_ended r h ended = ground arith

superseded-idle : (now : Time) (r : Release) → is_busy (superseded now r).status ≡ false
unfolding superseded is_busy
superseded-idle now r = refl

supersede-Others :
    (b : Backend) (saves : SavesStatus b) (current k : ℕ) (now : Time) (previous old : Release)
    → (k == current) ≡ false
    → may_supersede previous ≡ true
    → previous.id ≡ k
    → old ≡ previous
    → Others b current old (b.releases.merge old (superseded now previous))
unfolding Others Orderly SavesStatus KeepsService superseded
supersede-Others b saves current k now previous old other may own same = (
  (
    λ ended.
        status
        ∙ superseded-ended now previous may (subst (λ x. is_terminal x.status ≡ true) same ended)
        ∙ ap (λ x. x.status) (sym same),
    λ busy.
        elim (false≢true (sym (superseded-idle now previous) ∙ ap is_busy (sym status) ∙ busy)) [ ],
    λ keep. keep old (superseded now previous) (ap (λ x. x.service_id) (sym same)),
  ),
  λ e.
      elim (false≢true
        (sym other ∙ (==_iff k current).1 (sym own ∙ ap (λ x. x.id) (sym same) ∙ e))) [ ],
)
  where
    status :
        (b.releases.merge old (superseded now previous)).status ≡ (superseded now previous).status
    status = saves old (superseded now previous)

-- Two readings of one row agree.
same_row :
    (b : Backend) (db : b.releases.Db) (k id : ℕ) (r old : Release)
    → b.releases.row k db ≡ some r
    → b.releases.row id db ≡ some old
    → id ≡ r.id
    → old ≡ r
same_row b db k id r old p q e =
    same (subst (λ i. b.releases.row i db ≡ some old) (e ∙ b.releases.row_key k db r p) q)
  where
    same : b.releases.row k db ≡ some old → old ≡ r
    same q' = cc

module _ (b : Backend) (saves : SavesStatus b) where
  supersede-Ends :
      (current k : ℕ) (operator : Text) (now : Time) (o : Option Release)
      → (k == current) ≡ false
      → Ends b
          (OthersOrderly b current)
          (OthersOrderly-refl b current)
          (OthersOrderly-trans b current)
          (λ db. b.releases.row k db ≡ o)
          (supersede b operator now o)
  unfolding supersede superseded
  supersede-Ends current k operator now none other = Quiet-Ends b _ _ _ (return-Quiet b tt)
  supersede-Ends current k operator now (some previous) other =
      if-Ends b _ _ _ (may_supersede previous)
        (λ may.
          >>-Done b _ _ _
            (update_release-Ends b _ _ _ _ (superseded now previous) λ db db' p.
              save-OthersOrderly b current (superseded now previous) db db' λ old q.
                supersede-Others b saves current k now previous old other may
                  (b.releases.row_key k db previous p)
                  (same_row b db k previous.id previous old p q refl))
            (audit-Quiet b _ _ _))
        (λ _. Quiet-Ends b _ _ _ (return-Quiet b tt))

  supersede_instance-Keeps :
      (current : Release) (operator : Text) (now : Time) (o : Option RuntimeInstance)
      → Keeps b
          (OthersOrderly b current.id)
          (OthersOrderly-refl b current.id)
          (OthersOrderly-trans b current.id)
          (supersede_instance b current operator now o)
  unfolding supersede_instance
  supersede_instance-Keeps current operator now none = Quiet-Keeps b _ _ _ (return-Quiet b tt)
  supersede_instance-Keeps current operator now (some i) =
      elim (Bool-cases (i.release_id == current.id)) [
        | inl own ↦ rw own (elim (Bool-cases (i.release_id == 0)) [
          | inl z ↦ rw z (Quiet-Keeps b _ _ _ (return-Quiet b tt))
          | inr nz ↦ rw nz (Quiet-Keeps b _ _ _ (return-Quiet b tt))
        ])
        | inr other ↦ rw other (elim (Bool-cases (i.release_id == 0)) [
          | inl z ↦ rw z (Quiet-Keeps b _ _ _ (return-Quiet b tt))
          | inr nz ↦ rw nz (
              get_release-Keeps b _ _ _ i.release_id (supersede b operator now)
                (λ o. supersede-Ends current.id i.release_id operator now o other))
        ])
      ]

  complete_previous-Keeps :
      (current : Release) (operator : Text) (now : Time)
      → Keeps b
          (OthersOrderly b current.id)
          (OthersOrderly-refl b current.id)
          (OthersOrderly-trans b current.id)
          (complete_previous_live_release b current operator now)
  unfolding complete_previous_live_release
  complete_previous-Keeps current operator now =
      if-Keeps ((current.service_id == 0) || slot_eq current.previous_live_slot unset)
        (Quiet-Keeps b _ _ _ (return-Quiet b tt))
        (>>=-Keeps b _ _ _ (Quiet-Keeps b _ _ _ (get_instance-Quiet b _ _))
          (supersede_instance-Keeps current operator now))
    where
      if-Keeps :
          (t : Bool) {m n : R b (Unit {0})}
          → Keeps b
              (OthersOrderly b current.id)
              (OthersOrderly-refl b current.id)
              (OthersOrderly-trans b current.id)
              m
          → Keeps b
              (OthersOrderly b current.id)
              (OthersOrderly-refl b current.id)
              (OthersOrderly-trans b current.id)
              n
          → Keeps b
              (OthersOrderly b current.id)
              (OthersOrderly-refl b current.id)
              (OthersOrderly-trans b current.id)
              (if t then m else n)
      if-Keeps true h g = h
      if-Keeps false h g = g

  Keeps-Holds :
      {A : Type 0} {m : R b A} (current id : ℕ) (r : Release)
      → current ≡ r.id
      → Keeps b
          (OthersOrderly b current)
          (OthersOrderly-refl b current)
          (OthersOrderly-trans b current)
          m
      → Holds b
          (TableOrderly b)
          (TableOrderly-refl b)
          (TableOrderly-trans b)
          (λ db. b.releases.row id db ≡ some r)
          m
  Keeps-Holds {m} current id r e h = record {
    holds = λ w p. (
      OthersOrderly-weaker b current w.releases (m w).1.releases (h.keeps_rows w),
      OthersOrderly-row b current w.releases (m w).1.releases id r (h.keeps_rows w) p (sym e),
    );
  }

  update-Orderly :
      (r new old : Release)
      → old ≡ r
      → (is_terminal r.status ≡ true → ⊥)
      → (is_busy new.status ≡ true → is_busy r.status ≡ true)
      → new.service_id ≡ r.service_id
      → Orderly b old (b.releases.merge old new)
  unfolding Orderly SavesStatus KeepsService
  update-Orderly r new old same open_ busy service = (
    λ ended. elim (open_ (ap (λ x. is_terminal x.status) (sym same) ∙ ended)) [ ],
    λ h. ap (λ x. is_busy x.status) same ∙ busy (ap is_busy (sym (saves old new)) ∙ h),
    λ keep. keep old new (service ∙ ap (λ x. x.service_id) (sym same)),
  )

  -- The update of the release that an operation has read, while it had not ended.
  pub update-Ends :
      (id : ℕ) (r new : Release)
      → new.id ≡ r.id
      → (is_terminal r.status ≡ true → ⊥)
      → (is_busy new.status ≡ true → is_busy r.status ≡ true)
      → new.service_id ≡ r.service_id
      → Ends b
          (TableOrderly b)
          (TableOrderly-refl b)
          (TableOrderly-trans b)
          (λ db. b.releases.row id db ≡ some r)
          (update_release b new)
  update-Ends id r new e open_ busy service = update_release-Ends b _ _ _ _ new λ db db' p.
      save-TableOrderly b new db db'
        λ old q. update-Orderly r new old (same_row b db id new.id r old p q e) open_ busy service

  -- The same, for what is not dispatched or deployed afterwards.
  pub idle-Ends :
      (id : ℕ) (r new : Release)
      → new.id ≡ r.id
      → (is_terminal r.status ≡ true → ⊥)
      → is_busy new.status ≡ false
      → new.service_id ≡ r.service_id
      → Ends b
          (TableOrderly b)
          (TableOrderly-refl b)
          (TableOrderly-trans b)
          (λ db. b.releases.row id db ≡ some r)
          (update_release b new)
  idle-Ends id r new e open_ idle service =
      update-Ends id r new e open_ (λ h. elim (false≢true (sym idle ∙ h)) [ ]) service

  pub complete_previous-Holds :
      (current : Release) (operator : Text) (now : Time) (id : ℕ) (r : Release)
      → current.id ≡ r.id
      → Holds b
          (TableOrderly b)
          (TableOrderly-refl b)
          (TableOrderly-trans b)
          (λ db. b.releases.row id db ≡ some r)
          (complete_previous_live_release b current operator now)
  complete_previous-Holds current operator now id r e =
      Keeps-Holds current.id id r e (complete_previous-Keeps current operator now)
