-- ===== src/Model/Scheduler.antt =====
-- The scheduler's entities, from internal/shared/model/entities.go. `Attempt` and `MaxRetries` of a run
-- are natural numbers: every run is created with `Attempt` 1 and with a `MaxRetries` of at least 0,
-- and internal/shared/model/fx.go sets the rows of older versions to that. Times are those of
-- `Cron.Calendar`.
use edge_pilot.Base.{ℕ, Bool, true, false, ◌||◌, Option, List}
use edge_pilot.Base.Int.{ℤ}
use edge_pilot.Base.Text.{Text}
use edge_pilot.Cron.Calendar.{Time}
use edge_pilot.Model.Slot.{Slot}

pub data SchedulerScheduleKind : Type 0 where
  one_time cron unknown_kind : SchedulerScheduleKind

pub data SchedulerDispatchPolicy : Type 0 where
  round_robin fixed_live_slot unknown_policy : SchedulerDispatchPolicy

pub data SchedulerJobRunStatus : Type 0 where
  pending dispatched running succeeded retry_waiting failed : SchedulerJobRunStatus

unfoldable pub status_eq : SchedulerJobRunStatus → SchedulerJobRunStatus → Bool
status_eq pending pending = true
status_eq dispatched dispatched = true
status_eq running running = true
status_eq succeeded succeeded = true
status_eq retry_waiting retry_waiting = true
status_eq failed failed = true
status_eq _ _ = false

unfoldable pub is_terminal : SchedulerJobRunStatus → Bool
unfolding status_eq
is_terminal s = status_eq s succeeded || status_eq s failed

pub data SchedulerExecutorChannelMode : Type 0 where
  direct agent_relay : SchedulerExecutorChannelMode

-- A value of a `map[string]any` read from JSON, as far as the scheduler tells them apart. Of a
-- floating point number only its conversion to `int` is read.
pub data Value : Type 0 where
  null : Value
  text : Text → Value
  int_value float64 : ℤ → Value
  other : Value

abbrev pub Payload : Type 0
Payload = List (Text × Value)

abbrev pub Metadata : Type 0
Metadata = List (Text × Text)

pub record SchedulerJob : Type 0 where
  pub id : ℕ
  pub name : Text
  pub handler_key : Text
  pub service_id : ℕ
  pub payload : Option Payload
  pub schedule_kind : SchedulerScheduleKind
  pub cron_expr : Text
  pub run_at : Option Time
  pub next_run_at : Option Time
  pub enabled : Option Bool
  pub dispatch_policy : SchedulerDispatchPolicy
  pub executor_group : Text
  pub lease_timeout_sec : ℤ
  pub max_retries : ℤ
  pub last_dispatched_seq : ℤ
  pub metadata : Option Metadata

pub record SchedulerJobRun : Type 0 where
  pub id : ℕ
  pub job_id : ℕ
  pub handler_key : Text
  pub service_id : ℕ
  pub payload : Option Payload
  pub status : SchedulerJobRunStatus
  pub attempt : ℕ
  pub max_retries : ℕ
  pub lease_timeout_sec : ℤ
  pub scheduled_at : Time
  pub dispatched_at : Option Time
  pub started_at : Option Time
  pub completed_at : Option Time
  pub lease_expires_at : Option Time
  pub leased_by : Text
  pub next_retry_at : Option Time
  pub error_message : Text
  pub idempotency_key : Text
  pub dispatch_policy : SchedulerDispatchPolicy
  pub executor_group : Text

pub record SchedulerExecutor : Type 0 where
  pub id : Text
  pub token_hash : Text
  pub group : Text
  pub channel_mode : SchedulerExecutorChannelMode
  pub relay_agent_id : Text
  pub relay_routing_key : Text
  pub enabled : Option Bool
  pub last_seen_at : Option Time
  pub live_slot : Slot
  pub instance_meta : Option Metadata

pub record SchedulerDispatchCursor : Type 0 where
  pub job_id : ℕ
  pub executor_group : Text
  pub last_executor_id : Text
