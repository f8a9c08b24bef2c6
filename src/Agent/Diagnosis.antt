-- ===== src/Agent/Diagnosis.antt =====
-- What a failed task is reported with: `wrapTaskFailure` and `collectFailureDiagnostic` of
-- internal/agent/application/taskexec/executor.go.
use edge_pilot.Base.{◌*◌, Bool, true, false, Option, none, some, ◌++◌, if◌then◌else◌}
use edge_pilot.Base.Text.{Text, codes, is_empty, trim_space}
use edge_pilot.Store.Base.{Answer, done, fault}
use edge_pilot.Agent.Containers.{ContainerRuntime, ContainerStatus}
use edge_pilot.Agent.Host.{
  Backend, E, ExecError, plain, at_step, error_text, TaskFailureDiagnostic, ◌>>=◌, ◌>>◌, return,
  fail, attempt, is_done, remove_container,
}
use edge_pilot.Agent.Checks.{summarize_container_status}
use edge_pilot.Agent.Cleanup.{remove_container_image}

-- Whether a failure keeps its own step and diagnostic, `id` being the container's identifier.
unfoldable pub is_diagnosed : Text → ExecError → Bool
is_diagnosed id (plain text) = false
is_diagnosed id (at_step step text (some d)) = true
is_diagnosed id (at_step step text none) = is_empty id

unfoldable pub failure_step : ExecError → Text
failure_step (plain text) = codes "health_check_failed"
failure_step (at_step step text d) =
    if is_empty (trim_space step) then codes "health_check_failed" else step

unfoldable pub with_cleanup_error : Text → Option Text → Text
with_cleanup_error text none = text
with_cleanup_error text (some e) = text ++ (codes "; cleanup failed: " ++ e)

unfoldable pub status_text : Answer (Option ContainerStatus) → Text
unfolding summarize_container_status
status_text (done status) = summarize_container_status status
status_text (fault e) = e

unfoldable pub logs_text : Answer Text → Text
logs_text (done logs) = logs
logs_text (fault e) = codes "log_capture_failed: " ++ e

abbrev pub fault_of : {A : Type 0} → Answer A → Option Text
fault_of (done x) = none
fault_of (fault e) = some e

module _ (b : Backend) where
  unfoldable pub diagnosed :
      ContainerRuntime
      → Text
      → Text
      → Answer (Unit {0})
      → E b (Option TaskFailureDiagnostic × Option Text)
  unfolding remove_container_image
  diagnosed runtime health logs removal =
      (if is_done b removal then remove_container_image b runtime.image else return tt)
      >> return (
        some (record {
          container_id = trim_space runtime.container_id;
          docker_health = health;
          failure_logs = logs;
          cleanup_completed = is_done b removal;
        }),
        fault_of removal,
      )

  unfoldable pub collect_failure_diagnostic :
      ContainerRuntime → E b (Option TaskFailureDiagnostic × Option Text)
  unfolding diagnosed status_text logs_text
  collect_failure_diagnostic runtime =
      let id = trim_space runtime.container_id in
      if is_empty id then return (none, none) else (do
        status ← attempt b (b.inspect_container id)
        logs ← attempt b (b.read_container_logs id 200 (64 * 1024))
        removal ← remove_container b id
        diagnosed runtime (status_text status) (logs_text logs) removal)

  unfoldable pub wrap_task_failure : {A : Type 0} → ContainerRuntime → ExecError → E b A
  unfolding is_diagnosed collect_failure_diagnostic failure_step with_cleanup_error
  wrap_task_failure runtime e =
      if is_diagnosed (trim_space runtime.container_id) e
      then fail e
      else (collect_failure_diagnostic runtime >>= λ d.
          fail (at_step (failure_step e) (with_cleanup_error (error_text e) d.1) d.0))
