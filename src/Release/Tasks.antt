-- ===== src/Release/Tasks.antt =====
-- What an agent reports of a task: `HandleTaskUpdate` of internal/release/application/service.go and
-- what it calls. The time that the source reads from the clock is the argument `now`.
use edge_pilot.Base.{ℕ, true, false, ◌&&◌, ◌||◌, not, Option, none, some, ◌++◌, if◌then◌else◌}
use edge_pilot.Base.Text.{Text, codes, text_eq, trim_space, is_empty}
use edge_pilot.Cron.Calendar.{Time}
use edge_pilot.Store.Effect.{Result, ok, err, not_found}
use edge_pilot.Store.Program.{◌>>=◌, ◌>>◌, return, fail}
use edge_pilot.Model.Event.{
  late_task_update_ignored, cleanup_pruned, cleanup_failed, startup_grace_started,
  health_probe_retry, ready_to_switch, traffic_switched, rolled_back, managed_container_conflict,
  health_check_failed, failure_logs_uploaded, failed_container_cleaned, task_failed,
}
use edge_pilot.Model.Release.{
  Release, RuntimeInstance, ReleaseStatus, Task, deploy_green, switch_traffic, rollback,
  cleanup_old, TaskStatus, TaskAttempt, is_terminal, is_task_terminal, is_task_running,
}
use edge_pilot.Release.World.{
  Backend, R, get_release, get_task, update_release, update_task, create_task_attempt, audit,
  update_live_slot, upsert_instance, publish_agent, new_id,
}
use edge_pilot.Release.Traffic.{update_traffic_flags, complete_previous_live_release, found}
use edge_pilot.Release.Reported.{
  ReportedStatus, TaskUpdate, is_current_task, is_deploy, is_dispatching, coalesce_non_empty,
  first_published_host_port, has_prefix, truncate_for_audit, failed_task, failed_release,
  running_task, succeeded_task, deployed_release, switched_release, task_rolled_back, running,
  succeeded, failed, unspecified,
}

module _ (b : Backend) where
  unfoldable pub record_late_task_update : Release → Task → TaskUpdate → Text → R b (Unit {0})
  record_late_task_update r task update reason = audit b r late_task_update_ignored (
      codes "reason="
      ++ reason
      ++ codes " taskId="
      ++ b.id_text task.id
      ++ codes " status="
      ++ status_text update.status
      ++ codes " step="
      ++ update.step)
    where
      status_text : ReportedStatus → Text
      status_text running = codes "TASK_STATUS_RUNNING"
      status_text succeeded = codes "TASK_STATUS_SUCCEEDED"
      status_text failed = codes "TASK_STATUS_FAILED"
      status_text unspecified = codes "TASK_STATUS_UNSPECIFIED"

  unfoldable pub record_running_audit : Release → TaskUpdate → R b (Unit {0})
  record_running_audit r update =
      if has_prefix update.step (codes "cleanup_pruned")
      then audit b r cleanup_pruned update.step
      else if text_eq update.step (codes "cleanup_failed")
      then audit b r cleanup_failed (coalesce_non_empty update.error_message update.step)
      else if text_eq update.step (codes "startup_grace_started")
      then audit b r startup_grace_started update.step
      else if text_eq update.step (codes "health_probe_retry")
      then audit b r health_probe_retry (coalesce_non_empty update.error_message update.step)
      else return tt

  unfoldable pub deployed_instance : Release → Task → TaskUpdate → ℕ → RuntimeInstance
  unfolding first_published_host_port
  deployed_instance r task update id = record {
    id = id;
    service_id = task.service_id;
    release_id = task.release_id;
    slot = update.slot;
    container_id = update.container_id;
    image_tag = r.image_tag;
    listen_address = update.listen_address;
    host_port = first_published_host_port task.payload.published_ports;
    server_name = task.payload.server_name;
    healthy = some true;
    accepting_traffic = some false;
    active = some true;
  }

  unfoldable pub apply_deploy : Release → Task → TaskUpdate → R b (Unit {0})
  apply_deploy r task update = do
    id ← new_id b
    upsert_instance b (deployed_instance r task update id)
    update_release b (deployed_release r)
    publish_agent b task.agent_id
    audit b r ready_to_switch update.listen_address

  unfoldable pub apply_switch : Release → Task → TaskUpdate → Time → R b (Unit {0})
  apply_switch r task update now = do
    update_live_slot b task.service_id task.payload.target_slot
    update_traffic_flags b task.service_id task.payload.target_slot r.previous_live_slot
    complete_previous_live_release b (switched_release now r) update.server_name now
    update_release b (switched_release now r)
    publish_agent b task.agent_id
    audit b r traffic_switched update.server_name

  unfoldable pub apply_rollback : Release → Task → TaskUpdate → Time → R b (Unit {0})
  apply_rollback r task update now = do
    update_live_slot b task.service_id task.payload.target_slot
    update_traffic_flags b task.service_id task.payload.target_slot task.payload.current_live_slot
    update_release b (task_rolled_back now r)
    publish_agent b task.agent_id
    audit b r rolled_back update.server_name

  unfoldable pub apply_task_success : Release → Task → TaskUpdate → Time → R b (Unit {0})
  apply_task_success r task update now = elim task.type [
    | deploy_green ↦ apply_deploy r task update
    | switch_traffic ↦ apply_switch r task update now
    | rollback ↦ apply_rollback r task update now
    | cleanup_old ↦ return tt
  ]

  unfoldable pub attempt :
      Text → Task → TaskStatus → Text → Option Time → Option Time → ℕ → TaskAttempt
  attempt agent task status message started completed id = record {
    id = id;
    task_id = task.id;
    agent_id = agent;
    status = status;
    message = message;
    started_at = started;
    completed_at = completed;
  }

  -- A deployment of which the first report arrives is no longer being dispatched.
  unfoldable pub begin_deploying : Release → Task → R b (Unit {0})
  begin_deploying r task =
      if is_deploy task.type && is_dispatching r.status
      then update_release b (record r { status = ReleaseStatus.deploying })
      else return tt

  unfoldable pub report_running : Text → TaskUpdate → Time → Release → Task → R b (Unit {0})
  unfolding attempt begin_deploying running_task
  report_running agent update now r task = do
    begin_deploying r task
    update_task b (running_task update now task)
    (if not (is_task_running task.status) || not (text_eq task.last_step update.step)
        then create_task_attempt b
            (attempt agent task TaskStatus.running update.step (some now) none)
        else return tt)
    record_running_audit r update

  unfoldable pub report_succeeded : Text → TaskUpdate → Time → Release → Task → R b (Unit {0})
  unfolding attempt succeeded_task
  report_succeeded agent update now r task = do
    update_task b (succeeded_task update now task)
    create_task_attempt b (attempt agent task TaskStatus.succeeded update.step none (some now))
    apply_task_success r (succeeded_task update now task) update now

  unfoldable pub audit_failure : Release → Task → TaskUpdate → R b (Unit {0})
  audit_failure r task update =
      if text_eq update.step (codes "managed_container_conflict")
      then audit b r managed_container_conflict update.error_message
      else (do
        (if text_eq update.step (codes "health_check_failed")
            then audit b r health_check_failed
                (coalesce_non_empty update.docker_health update.error_message)
            else return tt)
        (if not (is_empty (trim_space update.failure_logs))
            then audit b r failure_logs_uploaded (truncate_for_audit update.failure_logs)
            else return tt)
        (if update.cleanup_completed
            then audit b r failed_container_cleaned (b.id_text task.id)
            else return tt)
        audit b r task_failed update.error_message)

  unfoldable pub report_failed : Text → TaskUpdate → Time → Release → Task → R b (Unit {0})
  unfolding attempt failed_task failed_release
  report_failed agent update now r task = do
    update_task b (failed_task update now task)
    update_release b (failed_release now r)
    create_task_attempt b (
        attempt agent task TaskStatus.failed (coalesce_non_empty update.error_message update.step)
          none (some now))
    audit_failure r task update

  -- The `switch` on the reported status.
  unfoldable pub report : Text → TaskUpdate → Time → Release → Task → R b (Unit {0})
  report agent update now r task = elim update.status [
    | running ↦ report_running agent update now r task
    | succeeded ↦ report_succeeded agent update now r task
    | failed ↦ report_failed agent update now r task
    | unspecified ↦ return tt
  ]

  -- The two guards: of a report that comes late nothing but an audit is kept.
  unfoldable pub update_found : Text → TaskUpdate → Time → Task → Release → R b (Unit {0})
  update_found agent update now task r =
      if not (is_current_task r.current_task_id task.id)
      then record_late_task_update r task update (codes "not_current_task")
      else if is_task_terminal task.status || is_terminal r.status
      then record_late_task_update r task update (codes "task_or_release_terminal")
      else report agent update now r task

  unfoldable pub task_found : Text → TaskUpdate → Time → Option Task → R b (Unit {0})
  task_found agent update now none = fail not_found
  task_found agent update now (some task) =
      get_release b task.release_id >>= λ o. found b o (update_found agent update now task)

  unfoldable pub parsed : Result ℕ → (ℕ → R b (Unit {0})) → R b (Unit {0})
  parsed (ok id) k = k id
  parsed (err e) k = fail e

  unfoldable pub handle_task_update : Text → TaskUpdate → Time → R b (Unit {0})
  unfolding parsed
  handle_task_update agent update now =
      parsed (b.parse_id update.task_id) λ id. get_task b id >>= task_found agent update now
