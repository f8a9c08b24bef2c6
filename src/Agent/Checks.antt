-- ===== src/Agent/Checks.antt =====
-- The checks of a container's health: `normalizeHealthConfig`, `verifyHealth` and what they use, of
-- internal/agent/application/taskexec/executor.go.
use edge_pilot.Base.{
  ℕ, ◌*◌, Bool, true, false, ◌&&◌, not, Option, none, some, [], ◌++◌, if◌then◌else◌,
}
use edge_pilot.Base.Int.{ℤ, pos, negsuc, ltb_ℤ, eqb_ℤ}
use edge_pilot.Base.Text.{Text, codes, is_empty, trim_space, text_eq}
use edge_pilot.Store.Base.{Answer, done, fault}
use edge_pilot.Model.Slot.{unset}
use edge_pilot.Release.Reported.{TaskUpdate, running}
use edge_pilot.Agent.Containers.{TaskCommand, ContainerStatus, to_lower, decimal}
use edge_pilot.Agent.Host.{Backend, E, verified, ◌>>=◌, ◌>>◌, return, attempt, note}

-- The value, or a default where it is not positive.
unfoldable pub default_positive : ℤ → ℤ → ℤ
default_positive fallback value = if ltb_ℤ (pos 0) value then value else fallback

unfoldable pub default_code : ℤ → ℤ
default_code value = if eqb_ℤ value (pos 0) then pos 200 else value

abbrev pub ns_per_second : ℕ
ns_per_second = 1_000_000_000

-- A number of seconds of 32 bits as a duration, which cannot overflow; 0 where it is negative.
abbrev pub seconds : ℤ → ℕ
seconds (pos n) = n * ns_per_second
seconds (negsuc n) = 0

abbrev pub count : ℤ → ℕ
count (pos n) = n
count (negsuc n) = 0

unfoldable pub normalize_health_config : TaskCommand → TaskCommand
unfolding default_positive default_code
normalize_health_config task = record task {
  http_expected_code = default_code task.http_expected_code;
  http_timeout_second = default_positive (pos 90) task.http_timeout_second;
  startup_grace_second = default_positive (pos 15) task.startup_grace_second;
  http_probe_timeout_second = default_positive (pos 2) task.http_probe_timeout_second;
  http_probe_interval_second = default_positive (pos 1) task.http_probe_interval_second;
  http_success_threshold = default_positive (pos 2) task.http_success_threshold;
}

unfoldable pub status_part : Text → Text → Text
status_part name value = if is_empty (trim_space value) then [] else name ++ (value ++ codes " ")

unfoldable pub summarize_container_status : Option ContainerStatus → Text
unfolding status_part
summarize_container_status none = []
summarize_container_status (some s) =
    status_part (codes "state=") s.state
    ++ (status_part (codes "health=") s.health
        ++ (if s.running then codes "running=true" else codes "running=false"))

-- An update on a running task without a container's address.
unfoldable pub running_update : TaskCommand → Text → Text → Text → TaskUpdate
running_update task step container message = record {
  task_id = task.task_id;
  status = running;
  step = step;
  error_message = message;
  container_id = container;
  listen_address = [];
  slot = unset;
  server_name = [];
  docker_health = [];
  failure_logs = [];
  cleanup_completed = false;
}

unfoldable pub docker_unhealthy : TaskCommand → Option ContainerStatus → Option Text
unfolding to_lower
docker_unhealthy task none = none
docker_unhealthy task (some s) =
    let health = trim_space s.health in
    if task.docker_health_check
      && not (is_empty health)
      && not (text_eq (to_lower health) (codes "healthy"))
    then some (codes "docker health not ready: " ++ health)
    else none

abbrev pub is_none : {A : Type 0} → Option A → Bool
is_none none = true
is_none (some x) = false

module _ (b : Backend) where
  unfoldable pub probe_error : TaskCommand → Text → Text → Answer (Unit {0}) → Option Text
  unfolding default_code default_positive decimal
  probe_error task address path (done _) = none
  probe_error task address path (fault e) = some (
      codes "http health probe failed: target=http://"
      ++ (address
          ++ (path
              ++ (codes " expected="
                  ++ (decimal (default_code task.http_expected_code)
                      ++ (codes " timeout="
                          ++ (decimal (default_positive (pos 2) task.http_probe_timeout_second)
                              ++ (codes "s: " ++ e))))))))

  unfoldable pub probe : TaskCommand → Text → E b (Option Text)
  unfolding probe_error default_code default_positive
  probe task address =
      let path = trim_space task.http_health_path in
      if is_empty path
      then return none
      else attempt b (
          b.http_probe address path task.http_health_headers (default_code task.http_expected_code)
            (default_positive (pos 2) task.http_probe_timeout_second))
        >>= λ a. return (probe_error task address path a)

  -- The error of a check is a value; none is a check that succeeds.
  unfoldable pub verify_after : TaskCommand → Text → Option Text → E b (Option Text)
  unfolding probe
  verify_after task address none =
      probe task address >>= λ e. note b (verified (is_none e)) >> return e
  verify_after task address (some e) = note b (verified false) >> return (some e)

  unfoldable pub verify_health : TaskCommand → Option ContainerStatus → Text → E b (Option Text)
  unfolding verify_after docker_unhealthy
  verify_health task status address = verify_after task address (docker_unhealthy task status)
