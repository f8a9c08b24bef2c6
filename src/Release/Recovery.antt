-- ===== src/Release/Recovery.antt =====
-- What becomes of tasks whose agent was away: `RecoverAgentTasks`, `FailStaleTasks` and
-- `RecordAgentOfflineTimeout` of internal/release/application/service.go.
use edge_pilot.Base.{
  ℕ, Bool, true, false, ◌||◌, not, Option, none, some, List, [], if◌then◌else◌, any,
}
use edge_pilot.Base.Text.{Text, codes, text_eq}
use edge_pilot.Cron.Calendar.{Time}
use edge_pilot.Store.Effect.{read_answer}
use edge_pilot.Store.Program.{◌>>=◌, ◌>>◌, return}
use edge_pilot.Model.Event.{task_timed_out, task_replayed, agent_offline_timeout}
use edge_pilot.Model.Release.{
  Release, Task, TaskStatus, AuditLog, is_terminal, is_task_terminal, is_task_running, failed,
}
use edge_pilot.Release.World.{
  Backend, R, get_release, update_release, update_task, new_id, log_audit, create_task_attempt,
  audit,
}
use edge_pilot.Release.Traffic.{or_now}
use edge_pilot.Release.Reported.{is_current_task}
use edge_pilot.Release.Queries.{list_active_tasks, list_recoverable_tasks_by_agent, each}
use edge_pilot.Release.Deploy
use edge_pilot.Release.Start.{attempt_of, ended_as}

-- The task once it is known to have run out of time.
unfoldable pub timed_out_task : Time → Task → Task
timed_out_task now task = record task {
  status = TaskStatus.timed_out;
  completed_at = some now;
  last_error = codes "task timed out";
  last_step = codes "task_timed_out";
}

-- A task that is not the current one of its release, or that is over with it, is left alone.
unfoldable pub may_fail : Task → Release → Bool
unfolding is_current_task
may_fail task r = not (
    not (is_current_task r.current_task_id task.id)
    || (is_task_terminal task.status || is_terminal r.status))

module _ (b : Backend) where
  unfoldable pub is_reported : List Text → Task → Bool
  is_reported running task = any (text_eq (b.id_text task.id)) running

  unfoldable pub recover_running : Text → Time → Task → R b (Unit {0})
  unfolding attempt_of
  recover_running agent now task =
      if not (is_task_running task.status)
      then (do
        update_task b
            (record task { status = TaskStatus.running; started_at = or_now task.started_at now })
        create_task_attempt b
            (attempt_of task agent TaskStatus.running (codes "recovered_running") (some now) none))
      else return tt

  unfoldable pub replay : Text → Task → R b Bool
  replay agent task w = read_answer w (b.replay_task agent task)

  unfoldable pub audit_replayed : Task → Option Release → R b (Unit {0})
  audit_replayed task none = return tt
  audit_replayed task (some r) = audit b r task_replayed (b.id_text task.id)

  unfoldable pub after_replay : Text → Time → Task → Bool → R b (Unit {0})
  unfolding attempt_of
  after_replay agent now task false = return tt
  after_replay agent now task true = do
    update_task b (record task { status = TaskStatus.dispatched; dispatched_at = some now })
    create_task_attempt b (
        attempt_of task agent TaskStatus.dispatched (codes "replayed_after_reconnect") (some now)
          none)
    get_release b task.release_id >>= audit_replayed task

  unfoldable pub recover_task : Text → List Text → Time → Task → R b (Unit {0})
  recover_task agent running now task =
      if is_reported running task
      then recover_running agent now task
      else replay agent task >>= after_replay agent now task

  unfoldable pub recover_agent_tasks : Text → List Text → Time → R b (Unit {0})
  recover_agent_tasks agent running now =
      list_recoverable_tasks_by_agent b agent >>= each b (recover_task agent running now)

  unfoldable pub fail_task : Time → Task → Option Release → R b (Unit {0})
  unfolding attempt_of
  fail_task now task none = return tt
  fail_task now task (some r) =
      if may_fail task r
      then (do
        update_task b (timed_out_task now task)
        update_release b (ended_as failed now r)
        create_task_attempt b (
            attempt_of task task.agent_id TaskStatus.timed_out (codes "task timed out") none
              (some now))
        audit b r task_timed_out (b.id_text task.id))
      else return tt

  unfoldable pub fail_stale_task : Time → Task → R b (Unit {0})
  fail_stale_task now task =
      if not (Deploy.task_timed_out task now)
      then return tt
      else get_release b task.release_id >>= fail_task now task

  unfoldable pub fail_stale_tasks : Time → R b (Unit {0})
  fail_stale_tasks now = list_active_tasks b >>= each b (fail_stale_task now)

  unfoldable pub offline_audit : Text → ℕ → AuditLog
  offline_audit agent id = record {
    id = id;
    aggregate_type = codes "agent";
    aggregate_id = agent;
    event_type = agent_offline_timeout;
    message = codes "agent offline due to heartbeat timeout";
    trace_id = [];
  }

  unfoldable pub record_agent_offline_timeout : Text → R b (Unit {0})
  unfolding offline_audit
  record_agent_offline_timeout agent = new_id b >>= λ id. log_audit b (offline_audit agent id)
