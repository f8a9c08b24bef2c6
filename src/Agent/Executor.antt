-- ===== src/Agent/Executor.antt =====
-- The execution of a task: `Execute`, `executeDeploy` and `executeTrafficSwitch` of
-- internal/agent/application/taskexec/executor.go.
use edge_pilot.Base.{ℕ, false, none, [], ◌∷◌, ◌++◌, ◌==◌, if◌then◌else◌}
use edge_pilot.Base.Int.{pos}
use edge_pilot.Base.Text.{Text, codes}
use edge_pilot.Store.Base.{Answer, done, fault}
use edge_pilot.Model.Slot.{Slot, unset}
use edge_pilot.Release.Reported.{TaskUpdate, ReportedStatus, running, succeeded}
use edge_pilot.Agent.Containers.{
  TaskType, unspecified, deploy_green, switch_traffic, rollback, cleanup_old, TaskCommand,
  ContainerRuntime, decimal,
}
use edge_pilot.Agent.Host.{
  Backend, E, plain, at_step, ◌>>=◌, ◌>>◌, return, fail, on_failure, attempt, or_fail, call,
}
use edge_pilot.Agent.Health.{wait_for_health}
use edge_pilot.Agent.Checks.{normalize_health_config, running_update}
use edge_pilot.Agent.Cleanup.{cleanup_managed_containers}
use edge_pilot.Agent.Diagnosis.{wrap_task_failure}
use edge_pilot.Agent.Existing.{
  DeployDecision, start_new, reuse_healthy, wait_existing, ensure_deploy_container,
}

unfoldable pub container_update :
    TaskCommand → ReportedStatus → Text → ContainerRuntime → TaskUpdate
container_update task status step runtime = record {
  task_id = task.task_id;
  status = status;
  step = step;
  error_message = [];
  container_id = runtime.container_id;
  listen_address = runtime.listen_address;
  slot = task.target_slot;
  server_name = task.server_name;
  docker_health = [];
  failure_logs = [];
  cleanup_completed = false;
}

-- An update on success without a container.
unfoldable pub succeeded_update : TaskCommand → Text → Slot → Text → TaskUpdate
succeeded_update task step slot server = record {
  task_id = task.task_id;
  status = succeeded;
  step = step;
  error_message = [];
  container_id = [];
  listen_address = [];
  slot = slot;
  server_name = server;
  docker_health = [];
  failure_logs = [];
  cleanup_completed = false;
}

module _ (b : Backend) where
  -- A call whose error names the step.
  unfoldable pub call_at : Text → (b.Host → Answer (Unit {0}) × b.Host) → E b (Unit {0})
  unfolding or_fail
  call_at step f = attempt b f >>= or_fail b (λ e. at_step step e none)

  module _ (report : TaskUpdate → E b (Unit {0})) where
    unfoldable pub finish : TaskCommand → ContainerRuntime → E b (Unit {0})
    unfolding wait_for_health wrap_task_failure container_update
    finish task runtime =
        on_failure (wait_for_health b task report runtime) (wrap_task_failure b runtime) >>= λ r.
        report (container_update task succeeded (codes "healthy") r)

    unfoldable pub proceed : TaskCommand → DeployDecision → E b (Unit {0})
    unfolding finish container_update call
    proceed task (reuse_healthy runtime) =
        report (container_update task succeeded (codes "healthy") runtime)
    proceed task (wait_existing runtime) =
        report (container_update task running (codes "container_reused_waiting") runtime)
        >> finish task runtime
    proceed task start_new = call b (b.deploy_container task) >>= λ runtime.
        report (container_update task running (codes "container_started") runtime)
        >> finish task runtime

    unfoldable pub deploy_normalized : TaskCommand → E b (Unit {0})
    unfolding call_at running_update ensure_deploy_container proceed
    deploy_normalized task = do
      call_at (codes "image_pull_failed")
          (b.ensure_image (task.image_repo ++ (b':' ∷ task.image_tag)) task)
      report (running_update task (codes "image_pulled") [] [])
      decision ← ensure_deploy_container b task
      proceed task decision

    unfoldable pub execute_deploy : TaskCommand → E b (Unit {0})
    unfolding call_at deploy_normalized normalize_health_config
    execute_deploy task =
        call_at (codes "proxy_stack_not_ready") b.ensure_ready
        >> deploy_normalized (normalize_health_config task)

    -- `_ = report(…)`.
    unfoldable pub report_anyway : TaskUpdate → E b (Unit {0})
    report_anyway update = on_failure (report update) (λ e. return tt)

    unfoldable pub report_pruned : TaskCommand → Answer ℕ → E b (Unit {0})
    unfolding report_anyway running_update decimal
    report_pruned task (fault e) = report_anyway (running_update task (codes "cleanup_failed") [] e)
    report_pruned task (done n) =
        if n == 0
        then return tt
        else report_anyway (running_update task (codes "cleanup_pruned:" ++ decimal (pos n)) [] [])

    unfoldable pub execute_traffic_switch : TaskCommand → E b (Unit {0})
    unfolding call_at cleanup_managed_containers report_pruned succeeded_update
    execute_traffic_switch task = do
      call_at (codes "proxy_stack_not_ready") b.ensure_ready
      a ← cleanup_managed_containers b task
      report_pruned task a
      report (succeeded_update task (codes "traffic_switched") task.target_slot task.server_name)

    unfoldable pub execute_type : TaskCommand → TaskType → E b (Unit {0})
    unfolding execute_deploy execute_traffic_switch succeeded_update
    execute_type task deploy_green = execute_deploy task
    execute_type task switch_traffic = execute_traffic_switch task
    execute_type task rollback = execute_traffic_switch task
    execute_type task cleanup_old = report (succeeded_update task (codes "noop") unset [])
    execute_type task unspecified = fail (plain (codes "unknown task type: TASK_TYPE_UNSPECIFIED"))

    unfoldable pub execute : TaskCommand → E b (Unit {0})
    unfolding execute_type running_update
    execute task =
        report (running_update task (codes "accepted") [] []) >> execute_type task task.type
