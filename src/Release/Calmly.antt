-- ===== src/Release/Calmly.antt =====
-- The steps of `Start` and `Retry` of internal/release/application/service.go after which no release is
-- being dispatched or deployed that was not before.
use edge_pilot.Base.{ℕ, ◌≡◌, refl, true, false, ◌||◌, Option, none, some, ◌==◌, arith}
use edge_pilot.Base.Text.{Text}
use edge_pilot.Cron.Calendar.{Time}
use edge_pilot.Model.Slot.{unset, slot_eq}
use edge_pilot.Model.Release.{Release, Task, ReleaseStatus, is_busy}
use edge_pilot.Release.World.{
  Backend, R, Delivery, delivered, agent_offline, undelivered, update_release,
}
use edge_pilot.Release.Start.{
  makes_room, ended_as, supersede_item, complete_superseded_release, skip_item,
  auto_skip_queued_before_start, fail_release, mark_dispatch_failed, after_delivery, dispatch,
}
use edge_pilot.Release.Quiet.{
  return-Quiet, fail-Quiet, audit-Quiet, update_task-Quiet, create_task_attempt-Quiet,
  get_release-Quiet,
}
use edge_pilot.Release.Reads.{list_releases-Quiet, list_queued_before-Quiet, audit_deferred-Quiet}
use edge_pilot.Release.Kept.{
  Holds, Keeps, Quiet-Keeps, Ends-Keeps, >>=-Keeps, >>-Keeps, if-Keeps, each-Keeps,
  update_release-Ends,
}
use edge_pilot.Release.Orderly.{SavesStatus}
use edge_pilot.Release.Busy.{
  OneBusy, NoneBusy, TableCalm, TableCalm-refl, TableCalm-trans, TableCalmBut, TableCalmBut-refl,
  TableCalmBut-trans, TableCalmBut-calm,
}
use edge_pilot.Release.OneBusy.{
  calm-OneBusy, calm-NoneBusy, calm_but-row, idle_save-TableCalm, idle_save-TableCalmBut,
}

ended_as-id :
    (status : ReleaseStatus) (now : Time) (r : Release) → (ended_as status now r).id ≡ r.id
unfolding ended_as
ended_as-id status now r = refl

makes_room-other :
    (current item : Release) → makes_room current item ≡ true → (item.id == current.id) ≡ false
unfolding makes_room
makes_room-other current item h = ground arith

module _ (b : Backend) where
  -- Where at most one release of a service was busy, that is so afterwards.
  unfoldable pub KeepsOneBusy : b.releases.Db → b.releases.Db → Type 0
  KeepsOneBusy db db' = OneBusy b db → OneBusy b db'

  pub KeepsOneBusy-refl : (db : b.releases.Db) → KeepsOneBusy db db
  unfolding KeepsOneBusy
  KeepsOneBusy-refl db h = h

  pub KeepsOneBusy-trans :
      (db db' db'' : b.releases.Db)
      → KeepsOneBusy db db'
      → KeepsOneBusy db' db''
      → KeepsOneBusy db db''
  unfolding KeepsOneBusy
  KeepsOneBusy-trans db db' db'' f g h = g (f h)

  unfoldable pub Safe : {A : Type 0} → R b A → Type 0
  Safe m = Keeps b KeepsOneBusy KeepsOneBusy-refl KeepsOneBusy-trans m

  abbrev pub Calmly : {A : Type 0} → R b A → Type 0
  Calmly m = Keeps b (TableCalm b) (TableCalm-refl b) (TableCalm-trans b) m

  abbrev pub CalmlyBut : ℕ → {A : Type 0} → R b A → Type 0
  CalmlyBut id m = Keeps b (TableCalmBut b id) (TableCalmBut-refl b id) (TableCalmBut-trans b id) m

  pub Calmly-Safe : {A : Type 0} {m : R b A} → Calmly m → Safe m
  unfolding Safe KeepsOneBusy
  Calmly-Safe {m} h = record {
    keeps_rows = λ w. calm-OneBusy b w.releases (m w).1.releases (h.keeps_rows w);
  }

  -- The release is in the table as it was read, and none of its service is busy.
  abbrev pub Ready : ℕ → Release → b.releases.Db → Type 0
  Ready id r db = (b.releases.row id db ≡ some r) × NoneBusy b r.service_id db

  pub CalmlyBut-Holds :
      {A : Type 0} {m : R b A} (id current : ℕ) (r : Release)
      → r.id ≡ current
      → CalmlyBut current m
      → Holds b KeepsOneBusy KeepsOneBusy-refl KeepsOneBusy-trans (Ready id r) m
  unfolding KeepsOneBusy
  CalmlyBut-Holds {m} id current r e h = record {
    holds = λ w p.
        let but = h.keeps_rows w in
        let calm = TableCalmBut-calm b current w.releases (m w).1.releases but in
        (
          calm-OneBusy b w.releases (m w).1.releases calm,
          (
            calm_but-row b current w.releases (m w).1.releases id r but p.0 e,
            calm-NoneBusy b r.service_id w.releases (m w).1.releases calm p.1,
          ),
        );
  }

module _ (b : Backend) (saves : SavesStatus b) where
  idle_update-Calmly :
      (new : Release) → is_busy new.status ≡ false → Calmly b (update_release b new)
  idle_update-Calmly new idle =
      Ends-Keeps b _ _ _
        (update_release-Ends b _ _ _ (λ _. Unit {0}) new
          (λ db db' _. idle_save-TableCalm b saves new db db' idle))
        (λ _. tt)

  idle_update-CalmlyBut :
      (current : ℕ) (new : Release)
      → (new.id == current) ≡ false
      → is_busy new.status ≡ false
      → CalmlyBut b current (update_release b new)
  idle_update-CalmlyBut current new other idle =
      Ends-Keeps b _ _ _
        (update_release-Ends b _ _ _ (λ _. Unit {0}) new
          (λ db db' _. idle_save-TableCalmBut b saves current new db db' other idle))
        (λ _. tt)

  pub complete_superseded-CalmlyBut :
      (current : Release) (operator : Text) (now : Time)
      → CalmlyBut b current.id (complete_superseded_release b current operator now)
  unfolding complete_superseded_release supersede_item ended_as is_busy
  complete_superseded-CalmlyBut current operator now =
      if-Keeps b _ _ _ ((current.service_id == 0) || slot_eq current.target_slot unset)
        (λ _. Quiet-Keeps b _ _ _ (return-Quiet b tt))
        λ _. >>=-Keeps b _ _ _ (Quiet-Keeps b _ _ _ (list_releases-Quiet b 0)) λ items.
          each-Keeps b _ _ _ (supersede_item b current operator now) items λ item.
            if-Keeps b _ _ _ (makes_room current item)
              (λ room.
                >>-Keeps b _ _ _
                  (idle_update-CalmlyBut current.id _ (makes_room-other current item room) refl)
                  (Quiet-Keeps b _ _ _ (audit-Quiet b _ _ _)))
              (λ _. Quiet-Keeps b _ _ _ (return-Quiet b tt))

  pub auto_skip-Calmly :
      (current : Release) (operator : Text) (now : Time)
      → Calmly b (auto_skip_queued_before_start b current operator now)
  unfolding auto_skip_queued_before_start skip_item ended_as is_busy
  auto_skip-Calmly current operator now =
      if-Keeps b _ _ _ (current.service_id == 0) (λ _. Quiet-Keeps b _ _ _ (return-Quiet b tt))
        λ _. >>=-Keeps b _ _ _ (Quiet-Keeps b _ _ _ (list_queued_before-Quiet b _ _ _)) λ items.
          each-Keeps b _ _ _ (skip_item b _ now) items λ item.
            >>-Keeps b _ _ _ (idle_update-Calmly _ refl) (Quiet-Keeps b _ _ _ (audit-Quiet b _ _ _))

  fail_release-Calmly :
      (message : Text) (now : Time) (o : Option Release) → Calmly b (fail_release b message now o)
  unfolding fail_release ended_as is_busy
  fail_release-Calmly message now none = Quiet-Keeps b _ _ _ (return-Quiet b tt)
  fail_release-Calmly message now (some r) =
      >>-Keeps b _ _ _ (idle_update-Calmly _ refl) (Quiet-Keeps b _ _ _ (audit-Quiet b _ _ _))

  after_delivery-Calmly :
      (task : Task) (now : Time) (d : Delivery) → Calmly b (after_delivery b task now d)
  unfolding after_delivery mark_dispatch_failed
  after_delivery-Calmly task now delivered = Quiet-Keeps b _ _ _ (return-Quiet b tt)
  after_delivery-Calmly task now agent_offline =
      >>-Keeps b _ _ _ (Quiet-Keeps b _ _ _ (update_task-Quiet b _)) (
        >>=-Keeps b _ _ _ (Quiet-Keeps b _ _ _ (get_release-Quiet b _))
          (λ o. Quiet-Keeps b _ _ _ (audit_deferred-Quiet b task o)))
  after_delivery-Calmly task now (undelivered e) =
      >>-Keeps b _ _ _
        (>>-Keeps b _ _ _ (Quiet-Keeps b _ _ _ (update_task-Quiet b _)) (
          >>-Keeps b _ _ _ (Quiet-Keeps b _ _ _ (create_task_attempt-Quiet b _)) (
            >>=-Keeps b _ _ _ (Quiet-Keeps b _ _ _ (get_release-Quiet b _))
              (fail_release-Calmly e now))))
        (Quiet-Keeps b _ _ _ (fail-Quiet b _))

  pub dispatch-Calmly : (task : Task) (now : Time) → Calmly b (dispatch b task now)
  unfolding dispatch
  dispatch-Calmly task now = >>-Keeps b _ _ _ (Quiet-Keeps b _ _ _ (update_task-Quiet b _)) (
      >>-Keeps b _ _ _ (Quiet-Keeps b _ _ _ (create_task_attempt-Quiet b _))
        (after_delivery-Calmly _ now _))
