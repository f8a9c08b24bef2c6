-- ===== src/Agent/Health.antt =====
-- The wait for a container's health: `waitForHealth` of
-- internal/agent/application/taskexec/executor.go.
use edge_pilot.Base.{
  ℕ, zero, suc, ◌+◌, ◌-◌, Bool, true, false, ◌&&◌, ◌||◌, not, Option, none, some, [], ◌++◌, ◌==◌,
  ltb, leb, if◌then◌else◌,
}
use edge_pilot.Base.Int.{pos}
use edge_pilot.Base.Text.{Text, codes, is_empty, trim_space}
use edge_pilot.Store.Base.{Answer, done, fault}
use edge_pilot.Release.Reported.{TaskUpdate}
use edge_pilot.Agent.Containers.{TaskCommand, ContainerRuntime, ContainerStatus, is_terminal}
use edge_pilot.Agent.Host.{
  Backend, E, plain, ◌>>=◌, ◌>>◌, return, fail, stopped, attempt, read_clock, context_ended, call,
  sleep,
}
use edge_pilot.Agent.Checks.{
  default_positive, seconds, count, summarize_container_status, running_update, verify_health,
}

-- What the loop of `waitForHealth` keeps.
pub record Probing : Type 0 where
  pub last_error : Option Text
  pub consecutive_success : ℕ
  pub retry_reported : Bool
  pub runtime : ContainerRuntime

-- What a round of it comes to.
pub data Round : Type 0 where
  healthy : ContainerRuntime → Round
  again : Probing → Round

unfoldable pub http_probe_required : TaskCommand → Bool
http_probe_required task = not (is_empty (trim_space task.http_health_path))

unfoldable pub min_duration : ℕ → ℕ → ℕ
min_duration left right = if right == 0 then left else if ltb left right then left else right

unfoldable pub timeout_text : TaskCommand → Option Text → Text
timeout_text task none =
    let timeout = codes "health check timeout for task " ++ task.task_id in
    timeout ++ (codes ": " ++ timeout)
timeout_text task (some e) =
    codes "health check timeout for task " ++ (task.task_id ++ (codes ": " ++ e))

unfoldable pub with_address : Answer Text → Probing → Probing
with_address (fault e) p = record p { last_error = some e }
with_address (done address) p = record p { runtime = record p.runtime { listen_address = address } }

module _ (b : Backend) where
  unfoldable pub grace_status : Option ContainerStatus → E b (Unit {0})
  unfolding summarize_container_status
  grace_status status =
      if is_terminal status
      then fail (
          plain (
            codes "container entered terminal state during startup grace: "
            ++ summarize_container_status status))
      else return tt

  -- The loop of the startup grace.
  unfoldable pub grace_rounds : ℕ → ℕ → ℕ → Text → E b (Unit {0})
  unfolding grace_status min_duration
  grace_rounds zero interval deadline id = stopped
  grace_rounds (suc fuel) interval deadline id = read_clock b >>= λ now.
      if ltb now deadline
      then (do
        status ← call b (b.inspect_container id)
        grace_status status
        now' ← read_clock b
        sleep b (min_duration interval (deadline - now'))
        grace_rounds fuel interval deadline id)
      else return tt

  module _ (task : TaskCommand) (report : TaskUpdate → E b (Unit {0})) where
    unfoldable pub resolved : Probing → E b Probing
    unfolding http_probe_required with_address
    resolved p =
        if http_probe_required task && is_empty (trim_space p.runtime.listen_address)
        then (attempt b (b.resolve_listen_address p.runtime.container_id task.container_port)
            >>= λ a. return (with_address a p))
        else return p

    unfoldable pub judged : ℕ → Probing → Option Text → E b Round
    unfolding running_update
    judged threshold p none =
        if leb threshold (p.consecutive_success + 1)
        then return (healthy p.runtime)
        else return (
            again (record p { consecutive_success = p.consecutive_success + 1; last_error = none }))
    judged threshold p (some e) =
        if p.retry_reported
        then return (again (record p { last_error = some e; consecutive_success = 0 }))
        else report (running_update task (codes "health_probe_retry") p.runtime.container_id e)
          >> return (
              again
                (record p { last_error = some e; consecutive_success = 0; retry_reported = true }))

    unfoldable pub checked : ℕ → Option ContainerStatus → Probing → E b Round
    unfolding http_probe_required judged verify_health
    checked threshold status p =
        if not (http_probe_required task) || not (is_empty (trim_space p.runtime.listen_address))
        then verify_health b task status p.runtime.listen_address >>= judged threshold p
        else return (again p)

    unfoldable pub inspected : ℕ → Probing → Answer (Option ContainerStatus) → E b Round
    unfolding summarize_container_status resolved checked
    inspected threshold p (fault e) = return (again (record p { last_error = some e }))
    inspected threshold p (done status) =
        if is_terminal status
        then fail (
            plain (codes "container entered terminal state: " ++ summarize_container_status status))
        else resolved p >>= checked threshold status

    unfoldable pub unless_ended : Option Text → E b (Unit {0})
    unless_ended none = return tt
    unless_ended (some e) = fail (plain e)

    -- After the checks of a round; `rest` is the loop from the next round on.
    unfoldable pub next_round :
        (Probing → E b ContainerRuntime) → ℕ → ℕ → Round → E b ContainerRuntime
    unfolding timeout_text
    next_round rest interval deadline (healthy runtime) = return runtime
    next_round rest interval deadline (again p) = read_clock b >>= λ now.
        if ltb deadline now
        then fail (plain (timeout_text task p.last_error))
        else sleep b interval >> rest p

    -- The loop of the checks.
    unfoldable pub health_rounds : ℕ → ℕ → ℕ → ℕ → Probing → E b ContainerRuntime
    unfolding unless_ended inspected next_round
    health_rounds zero interval deadline threshold p = stopped
    health_rounds (suc fuel) interval deadline threshold p = do
      ended ← context_ended b
      unless_ended ended
      a ← attempt b (b.inspect_container p.runtime.container_id)
      round ← inspected threshold p a
      next_round (health_rounds fuel interval deadline threshold) interval deadline round

    abbrev pub probe_interval : ℕ
    probe_interval = seconds (default_positive (pos 1) task.http_probe_interval_second)

    abbrev pub startup_grace : ℕ
    startup_grace = seconds (default_positive (pos 15) task.startup_grace_second)

    abbrev pub success_threshold : ℕ
    success_threshold = count (default_positive (pos 2) task.http_success_threshold)

    unfoldable pub wait_out_grace : ContainerRuntime → E b (Unit {0})
    unfolding grace_rounds running_update default_positive
    wait_out_grace runtime = if startup_grace == 0 then return tt else (do
      report (running_update task (codes "startup_grace_started") runtime.container_id [])
      now ← read_clock b
      grace_rounds (startup_grace + 2) probe_interval (now + startup_grace) runtime.container_id)

    -- The runtime with the address that has been found. A loop has a round for each nanosecond.
    unfoldable pub wait_for_health : ContainerRuntime → E b ContainerRuntime
    unfolding wait_out_grace health_rounds default_positive
    wait_for_health runtime = do
      now ← read_clock b
      wait_out_grace runtime
      health_rounds (seconds task.http_timeout_second + 2) probe_interval
          (now + seconds task.http_timeout_second) success_threshold
          (record {
            last_error = none;
            consecutive_success = 0;
            retry_reported = false;
            runtime = runtime;
          })
