-- ===== src/Release/Reported.antt =====
-- What an agent reports of a task, and what a task and its release become by a report: the message
-- `TaskUpdate` and the assignments of `HandleTaskUpdate` and `applyTaskSuccess` of
-- internal/release/application/service.go.
use edge_pilot.Base.{
  ℕ, Bool, true, false, ◌&&◌, not, Option, none, some, List, [], ◌∷◌, ◌==◌, leb, if◌then◌else◌,
  length, drop, ◌-◌,
}
use edge_pilot.Base.Int.{ℤ, pos}
use edge_pilot.Base.Text.{Text, trim_space, is_empty}
use edge_pilot.Cron.Calendar.{Time}
use edge_pilot.Model.Slot.{Slot}
use edge_pilot.Model.Release.{
  Release, ReleaseStatus, Task, TaskType, deploy_green, TaskStatus, PublishedPort,
}
use edge_pilot.Release.Traffic.{or_now}

pub data ReportedStatus : Type 0 where
  running succeeded failed unspecified : ReportedStatus

-- The message `TaskUpdate` of internal/shared/grpcapi/agent_control.proto.
pub record TaskUpdate : Type 0 where
  pub task_id : Text
  pub status : ReportedStatus
  pub step : Text
  pub error_message : Text
  pub container_id : Text
  pub listen_address : Text
  pub slot : Slot
  pub server_name : Text
  pub docker_health : Text
  pub failure_logs : Text
  pub cleanup_completed : Bool

unfoldable pub is_current_task : Option ℕ → ℕ → Bool
is_current_task none id = false
is_current_task (some current) id = current == id

unfoldable pub is_deploy : TaskType → Bool
is_deploy deploy_green = true
is_deploy _ = false

unfoldable pub is_dispatching : ReleaseStatus → Bool
is_dispatching ReleaseStatus.dispatching = true
is_dispatching _ = false

-- `coalesceNonEmpty` of two values.
unfoldable pub coalesce_non_empty : Text → Text → Text
coalesce_non_empty first second =
    if not (is_empty (trim_space first))
    then first
    else if not (is_empty (trim_space second))
    then second
    else []

unfoldable pub first_published_host_port : List PublishedPort → ℤ
first_published_host_port [] = pos 0
first_published_host_port (p ∷ rest) = p.host_port

-- `strings.HasPrefix`.
unfoldable pub has_prefix : Text → Text → Bool
has_prefix s [] = true
has_prefix [] (c ∷ p) = false
has_prefix (d ∷ s) (c ∷ p) = (d == c) && has_prefix s p

-- The last 512 bytes of a longer text.
unfoldable pub truncate_for_audit : Text → Text
truncate_for_audit value = if leb (length value) 512 then value else drop (length value - 512) value

-- The task after a report that it has failed.
unfoldable pub failed_task : TaskUpdate → Time → Task → Task
failed_task update now task = record task {
  status = TaskStatus.failed;
  completed_at = some now;
  last_error = update.error_message;
  last_step = update.step;
  docker_health = update.docker_health;
  failure_logs = update.failure_logs;
  cleanup_completed = some update.cleanup_completed;
}

unfoldable pub failed_release : Time → Release → Release
failed_release now r = record r { status = ReleaseStatus.failed; completed_at = some now }

unfoldable pub running_task : TaskUpdate → Time → Task → Task
running_task update now task = record task {
  status = TaskStatus.running;
  last_step = update.step;
  started_at = or_now task.started_at now;
}

unfoldable pub succeeded_task : TaskUpdate → Time → Task → Task
succeeded_task update now task = record task {
  status = TaskStatus.succeeded;
  completed_at = some now;
  last_step = update.step;
}

unfoldable pub deployed_release : Release → Release
deployed_release r = record r {
  status = ReleaseStatus.ready_to_switch;
  traffic_percent = 0;
  switch_confirmed = some false;
}

unfoldable pub switched_release : Time → Release → Release
switched_release now r = record r {
  status = ReleaseStatus.completed;
  traffic_percent = 100;
  switch_confirmed = some true;
  completed_at = some now;
}

unfoldable pub task_rolled_back : Time → Release → Release
task_rolled_back now r = record r {
  status = ReleaseStatus.rolled_back;
  traffic_percent = 0;
  switch_confirmed = some false;
  completed_at = some now;
}
