-- ===== src/Release/Reports.antt =====
-- A release that has ended, under the reports of agents: `HandleTaskUpdate` of
-- internal/release/application/service.go.
use edge_pilot.Base.{ℕ, ◌≡◌, refl, true, false, ◌&&◌, ◌||◌, not, Option, none, some, arith}
use edge_pilot.Base.Text.{Text, text_eq, codes, is_empty, trim_space}
use edge_pilot.Cron.Calendar.{Time}
use edge_pilot.Store.Program.{◌>>=◌, ◌>>◌, return}
use edge_pilot.Store.Effect.{Result, ok, err}
use edge_pilot.Model.Release.{
  Release, Task, TaskType, deploy_green, switch_traffic, rollback, cleanup_old, is_busy,
  is_terminal, is_task_terminal, is_task_running,
}
use edge_pilot.Release.World.{Backend, World, R, get_task}
use edge_pilot.Release.Reported.{
  TaskUpdate, ReportedStatus, running, succeeded, failed, unspecified, is_current_task, is_deploy,
  is_dispatching, has_prefix, deployed_release, switched_release, task_rolled_back, failed_release,
}
use edge_pilot.Release.Tasks.{
  record_late_task_update, record_running_audit, apply_deploy, apply_switch, apply_rollback,
  apply_task_success, begin_deploying, report_running, report_succeeded, audit_failure,
  report_failed, report, update_found, task_found, handle_task_update, parsed,
}
use edge_pilot.Release.Quiet.{
  Quiet, >>-Quiet, return-Quiet, fail-Quiet, if-Quiet, audit-Quiet, update_live_slot-Quiet,
  upsert_instance-Quiet, new_id-Quiet, update_traffic_flags-Quiet, publish_agent-Quiet,
  update_task-Quiet, create_task_attempt-Quiet, get_task-Quiet,
}
use edge_pilot.Release.Kept.{
  Ends, Quiet-Holds, Quiet-Ends, Quiet-Keeps, >>-Ends, >>=-Ends, >>-Done, if-Ends, >>=-Keeps,
  get_found-Keeps,
}
use edge_pilot.Release.Orderly.{SavesStatus, TableOrderly, TableOrderly-refl, TableOrderly-trans}
use edge_pilot.Release.Terminal.{update-Ends, idle-Ends, complete_previous-Holds}
use edge_pilot.Release.Ended.{IsOrderly}

record_running_audit-Quiet :
    (b : Backend) (r : Release) (update : TaskUpdate) → Quiet b (record_running_audit b r update)
unfolding record_running_audit
record_running_audit-Quiet b r update =
    if-Quiet b (has_prefix update.step (codes "cleanup_pruned")) (audit-Quiet b _ _ _) (
      if-Quiet b (text_eq update.step (codes "cleanup_failed")) (audit-Quiet b _ _ _) (
        if-Quiet b (text_eq update.step (codes "startup_grace_started")) (audit-Quiet b _ _ _) (
          if-Quiet b (text_eq update.step (codes "health_probe_retry")) (audit-Quiet b _ _ _)
            (return-Quiet b tt))))

audit_failure-Quiet :
    (b : Backend) (r : Release) (task : Task) (update : TaskUpdate)
    → Quiet b (audit_failure b r task update)
unfolding audit_failure
audit_failure-Quiet b r task update =
    if-Quiet b (text_eq update.step (codes "managed_container_conflict")) (audit-Quiet b _ _ _) (
      >>-Quiet b
        (if-Quiet b (text_eq update.step (codes "health_check_failed")) (audit-Quiet b _ _ _)
          (return-Quiet b tt))
        (>>-Quiet b
          (if-Quiet b (not (is_empty (trim_space update.failure_logs))) (audit-Quiet b _ _ _)
            (return-Quiet b tt))
          (>>-Quiet b
            (if-Quiet b update.cleanup_completed (audit-Quiet b _ _ _) (return-Quiet b tt))
            (audit-Quiet b _ _ _))))

dispatching-busy :
    (task : Task) (r : Release)
    → (is_deploy task.type && is_dispatching r.status) ≡ true
    → is_busy r.status ≡ true
unfolding is_dispatching is_busy
dispatching-busy task r h = ground arith

module _ (b : Backend) (saves : SavesStatus b) (id : ℕ) (r : Release)
    (open_ : is_terminal r.status ≡ true → ⊥) where
  -- Such a step keeps the rows, where the row of the release is still the one that was read.
  abbrev Fine : {A : Type 0} → R b A → Type 0
  Fine m =
      Ends b (TableOrderly b) (TableOrderly-refl b) (TableOrderly-trans b)
        (λ db. b.releases.row id db ≡ some r) m

  still : {A : Type 0} {m : R b (Unit {0})} {k : R b A} → Quiet b m → Fine k → Fine (m >> k)
  still q e = >>-Ends b _ _ _ (Quiet-Holds b _ _ _ q) e

  apply_deploy-Fine : (task : Task) (update : TaskUpdate) → Fine (apply_deploy b r task update)
  unfolding apply_deploy deployed_release is_busy
  apply_deploy-Fine task update = >>=-Ends b _ _ _ (Quiet-Holds b _ _ _ (new_id-Quiet b)) λ i.
      still (upsert_instance-Quiet b _) (
        >>-Done b _ _ _ (idle-Ends b saves id r (deployed_release r) refl open_ refl refl)
          (>>-Quiet b (publish_agent-Quiet b _) (audit-Quiet b _ _ _)))

  apply_switch-Fine :
      (task : Task) (update : TaskUpdate) (now : Time) → Fine (apply_switch b r task update now)
  unfolding apply_switch switched_release is_busy
  apply_switch-Fine task update now = still (update_live_slot-Quiet b _ _) (
      still (update_traffic_flags-Quiet b _ _ _) (
        >>-Ends b _ _ _ (complete_previous-Holds b saves (switched_release now r) _ now id r refl) (
          >>-Done b _ _ _ (idle-Ends b saves id r (switched_release now r) refl open_ refl refl)
            (>>-Quiet b (publish_agent-Quiet b _) (audit-Quiet b _ _ _)))))

  apply_rollback-Fine :
      (task : Task) (update : TaskUpdate) (now : Time) → Fine (apply_rollback b r task update now)
  unfolding apply_rollback task_rolled_back is_busy
  apply_rollback-Fine task update now = still (update_live_slot-Quiet b _ _) (
      still (update_traffic_flags-Quiet b _ _ _) (
        >>-Done b _ _ _ (idle-Ends b saves id r (task_rolled_back now r) refl open_ refl refl)
          (>>-Quiet b (publish_agent-Quiet b _) (audit-Quiet b _ _ _))))

  apply_task_success-Fine :
      (task : Task) (update : TaskUpdate) (now : Time)
      → Fine (apply_task_success b r task update now)
  unfolding apply_task_success
  apply_task_success-Fine task update now = by_type task.type
    where
      by_type :
          (t : TaskType)
          → Fine (elim t [
            | deploy_green ↦ apply_deploy b r task update
            | switch_traffic ↦ apply_switch b r task update now
            | rollback ↦ apply_rollback b r task update now
            | cleanup_old ↦ return {S = World b} tt
          ])
      by_type deploy_green = apply_deploy-Fine task update
      by_type switch_traffic = apply_switch-Fine task update now
      by_type rollback = apply_rollback-Fine task update now
      by_type cleanup_old = Quiet-Ends b _ _ _ (return-Quiet b tt)

  report_running-Fine :
      (agent : Text) (update : TaskUpdate) (now : Time) (task : Task)
      → Fine (report_running b agent update now r task)
  unfolding report_running begin_deploying
  report_running-Fine agent update now task =
      >>-Done b _ _ _
        (if-Ends b _ _ _ (is_deploy task.type && is_dispatching r.status)
          (λ e. update-Ends b saves id r _ refl open_ (λ _. dispatching-busy task r e) refl)
          (λ _. Quiet-Ends b _ _ _ (return-Quiet b tt)))
        (>>-Quiet b (update_task-Quiet b _) (
          >>-Quiet b
            (if-Quiet b
              (not (is_task_running task.status) || not (text_eq task.last_step update.step))
              (create_task_attempt-Quiet b _) (return-Quiet b tt))
            (record_running_audit-Quiet b r update)))

  report_succeeded-Fine :
      (agent : Text) (update : TaskUpdate) (now : Time) (task : Task)
      → Fine (report_succeeded b agent update now r task)
  unfolding report_succeeded
  report_succeeded-Fine agent update now task =
      still (update_task-Quiet b _)
        (still (create_task_attempt-Quiet b _) (apply_task_success-Fine _ update now))

  report_failed-Fine :
      (agent : Text) (update : TaskUpdate) (now : Time) (task : Task)
      → Fine (report_failed b agent update now r task)
  unfolding report_failed failed_release is_busy
  report_failed-Fine agent update now task = still (update_task-Quiet b _) (
      >>-Done b _ _ _ (idle-Ends b saves id r (failed_release now r) refl open_ refl refl)
        (>>-Quiet b (create_task_attempt-Quiet b _) (audit_failure-Quiet b r task update)))

  report-Fine :
      (agent : Text) (update : TaskUpdate) (now : Time) (task : Task)
      → Fine (report b agent update now r task)
  unfolding report
  report-Fine agent update now task = by_status update.status
    where
      by_status :
          (s : ReportedStatus)
          → Fine (elim s [
            | running ↦ report_running b agent update now r task
            | succeeded ↦ report_succeeded b agent update now r task
            | failed ↦ report_failed b agent update now r task
            | unspecified ↦ return {S = World b} tt
          ])
      by_status running = report_running-Fine agent update now task
      by_status succeeded = report_succeeded-Fine agent update now task
      by_status failed = report_failed-Fine agent update now task
      by_status unspecified = Quiet-Ends b _ _ _ (return-Quiet b tt)

module _ (b : Backend) (saves : SavesStatus b) where
  update_found-Ends :
      (agent : Text) (update : TaskUpdate) (now : Time) (task : Task) (id : ℕ) (r : Release)
      → Ends b
          (TableOrderly b)
          (TableOrderly-refl b)
          (TableOrderly-trans b)
          (λ db. b.releases.row id db ≡ some r)
          (update_found b agent update now task r)
  unfolding update_found record_late_task_update
  update_found-Ends agent update now task id r =
      if-Ends b _ _ _ (not (is_current_task r.current_task_id task.id))
        (λ _. Quiet-Ends b _ _ _ (audit-Quiet b _ _ _))
        (λ _.
          if-Ends b _ _ _ (is_task_terminal task.status || is_terminal r.status)
            (λ _. Quiet-Ends b _ _ _ (audit-Quiet b _ _ _))
            (λ e. report-Fine b saves id r (going e) agent update now task))
    where
      going :
          (is_task_terminal task.status || is_terminal r.status) ≡ false
          → is_terminal r.status ≡ true
          → ⊥
      going e h = ground arith

  task_found-Keeps :
      (agent : Text) (update : TaskUpdate) (now : Time) (o : Option Task)
      → IsOrderly b (task_found b agent update now o)
  unfolding task_found IsOrderly
  task_found-Keeps agent update now none = Quiet-Keeps b _ _ _ (fail-Quiet b _)
  task_found-Keeps agent update now (some task) =
      get_found-Keeps b _ _ _ task.release_id (update_found b agent update now task)
        (λ r. update_found-Ends agent update now task task.release_id r)

  pub handle_task_update-IsOrderly :
      (agent : Text) (update : TaskUpdate) (now : Time)
      → IsOrderly b (handle_task_update b agent update now)
  unfolding handle_task_update parsed IsOrderly
  handle_task_update-IsOrderly agent update now = by_id (b.parse_id update.task_id)
    where
      by_id :
          (i : Result ℕ)
          → IsOrderly b (parsed b i λ id. get_task b id >>= task_found b agent update now)
      by_id (ok id) =
          >>=-Keeps b _ _ _ (Quiet-Keeps b _ _ _ (get_task-Quiet b id))
            (task_found-Keeps agent update now)
      by_id (err e) = Quiet-Keeps b _ _ _ (fail-Quiet b e)
