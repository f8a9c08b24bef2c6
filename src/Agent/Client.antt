-- ===== src/Agent/Client.antt =====
-- What an agent does with an order: `handleTask` of adapter/grpc/agent/client.go, with the tasks that run, of
-- internal/agent/application/taskexec/runtime_state.go.
use edge_pilot.Base.{Bool, true, false, not, Option, none, some, [], ◌∷◌, any, keep, if◌then◌else◌}
use edge_pilot.Base.Text.{Text, codes, is_empty, text_eq}
use edge_pilot.Model.Slot.{unset}
use edge_pilot.Release.Reported.{TaskUpdate, failed}
use edge_pilot.Agent.Containers.{TaskCommand}
use edge_pilot.Agent.Host.{
  Backend, E, ExecError, plain, at_step, error_text, TaskFailureDiagnostic, sent, ◌>>=◌, ◌>>◌,
  return, on_failure, note, stopped,
}
use edge_pilot.Agent.Executor.{execute}

-- The step and the diagnostic that a failure is reported with.
unfoldable pub reported_failure : ExecError → Text × Option TaskFailureDiagnostic
reported_failure (plain text) = (codes "execution_failed", none)
reported_failure (at_step step text d) =
    if is_empty step then (codes "execution_failed", none) else (step, d)

unfoldable pub failed_update : TaskCommand → Text → Text × Option TaskFailureDiagnostic → TaskUpdate
failed_update task text (step, none) = record {
  task_id = task.task_id;
  status = failed;
  step = step;
  error_message = text;
  container_id = [];
  listen_address = [];
  slot = unset;
  server_name = [];
  docker_health = [];
  failure_logs = [];
  cleanup_completed = false;
}
failed_update task text (step, some d) = record {
  task_id = task.task_id;
  status = failed;
  step = step;
  error_message = text;
  container_id = d.container_id;
  listen_address = [];
  slot = unset;
  server_name = [];
  docker_health = d.docker_health;
  failure_logs = d.failure_logs;
  cleanup_completed = d.cleanup_completed;
}

module _ (b : Backend) where
  -- `TryStart` of the tasks that run.
  unfoldable pub try_start : Text → E b Bool
  try_start id w =
      if any (text_eq id) w.running
      then return false w
      else return true (record w { running = id ∷ w.running })

  -- `Done`.
  unfoldable pub done_running : Text → E b (Unit {0})
  done_running id w = return tt (record w { running = keep (λ t. not (text_eq id t)) w.running })

  unfoldable pub sent_if : TaskUpdate → Bool → E b (Unit {0})
  sent_if update true = note b (sent update)
  sent_if update false = stopped

  -- `outbound <- …`.
  unfoldable pub send : TaskUpdate → E b (Unit {0})
  unfolding sent_if
  send update w =
      sent_if update (b.outbound update w.host).0 (record w { host = (b.outbound update w.host).1 })

  unfoldable pub report_failure : TaskCommand → ExecError → E b (Unit {0})
  unfolding send failed_update reported_failure
  report_failure task e = send (failed_update task (error_text e) (reported_failure e))

  unfoldable pub run_task : TaskCommand → E b (Unit {0})
  unfolding execute send report_failure
  run_task task = on_failure (execute b send task) (report_failure task)

  unfoldable pub handle_started : TaskCommand → Bool → E b (Unit {0})
  unfolding run_task done_running
  handle_started task false = return tt
  handle_started task true = run_task task >> done_running task.task_id

  unfoldable pub handle_task : TaskCommand → E b (Unit {0})
  unfolding try_start handle_started
  handle_task task = try_start task.task_id >>= handle_started task
