-- ===== src/Model/Release.antt =====
-- Releases, their tasks and the instances they run in, from internal/shared/model/entities.go. The
-- enumerations there are of type `int` and start at 1. The limit of processor cores, which is floating point, is a
-- number of some small unit.
use edge_pilot.Base.{ℕ, Bool, true, false, Option, List}
use edge_pilot.Base.Int.{ℤ}
use edge_pilot.Base.Text.{Text}
use edge_pilot.Cron.Calendar.{Time}
use edge_pilot.Model.Event.{Event}
use edge_pilot.Model.Slot.{Slot}

pub data ReleaseStatus : Type 0 where
  queued dispatching deploying ready_to_switch switched completed failed rolled_back skipped :
      ReleaseStatus

unfoldable pub is_active : ReleaseStatus → Bool
is_active dispatching = true
is_active deploying = true
is_active ready_to_switch = true
is_active switched = true
is_active _ = false

-- Being dispatched or deployed: the active states that do not take the traffic into account.
unfoldable pub is_busy : ReleaseStatus → Bool
is_busy dispatching = true
is_busy deploying = true
is_busy _ = false

unfoldable pub is_queued : ReleaseStatus → Bool
is_queued queued = true
is_queued _ = false

unfoldable pub is_terminal : ReleaseStatus → Bool
is_terminal completed = true
is_terminal failed = true
is_terminal rolled_back = true
is_terminal skipped = true
is_terminal _ = false

unfoldable pub is_ready : ReleaseStatus → Bool
is_ready ready_to_switch = true
is_ready _ = false

unfoldable pub is_failed : ReleaseStatus → Bool
is_failed failed = true
is_failed _ = false

unfoldable pub is_skipped : ReleaseStatus → Bool
is_skipped skipped = true
is_skipped _ = false

pub data TaskType : Type 0 where
  deploy_green switch_traffic rollback cleanup_old : TaskType

pub data TaskStatus : Type 0 where
  pending dispatched running succeeded failed timed_out : TaskStatus

unfoldable pub is_task_terminal : TaskStatus → Bool
is_task_terminal succeeded = true
is_task_terminal TaskStatus.failed = true
is_task_terminal timed_out = true
is_task_terminal _ = false

unfoldable pub is_task_running : TaskStatus → Bool
is_task_running running = true
is_task_running _ = false

pub record Release : Type 0 where
  pub id : ℕ
  pub created_at : Time
  pub service_id : ℕ
  pub agent_id : Text
  pub image_repo : Text
  pub image_tag : Text
  pub commit_sha : Text
  pub triggered_by : Text
  pub trace_id : Text
  pub release_notes : Text
  pub status : ReleaseStatus
  pub traffic_percent : ℕ
  pub target_slot : Slot
  pub previous_live_slot : Slot
  pub current_task_id : Option ℕ
  pub switch_confirmed : Option Bool
  pub completed_at : Option Time

pub record PublishedPort : Type 0 where
  pub host_port : ℤ
  pub container_port : ℤ

pub record VolumeMount : Type 0 where
  pub source : Text
  pub target : Text
  pub read_only : Bool

pub record TaskPayload : Type 0 where
  pub service_id : ℕ
  pub service_key : Text
  pub image_repo : Text
  pub image_tag : Text
  pub registry_host : Text
  pub registry_username : Text
  pub registry_secret : Text
  pub commit_sha : Text
  pub trace_id : Text
  pub target_slot : Slot
  pub current_live_slot : Slot
  pub container_port : ℤ
  pub cpu_limit_cores : ℤ
  pub memory_limit_mb : ℤ
  pub docker_health_check : Bool
  pub http_health_path : Text
  pub http_health_headers : List (Text × Text)
  pub http_expected_code : ℤ
  pub http_timeout_second : ℤ
  pub startup_grace_second : ℤ
  pub http_probe_timeout_second : ℤ
  pub http_probe_interval_second : ℤ
  pub http_success_threshold : ℤ
  pub scheduler_sdk_port : ℤ
  pub scheduler_sdk_addr : Text
  pub scheduler_executor_group : Text
  pub backend_name : Text
  pub server_name : Text
  pub previous_server : Text
  pub env : List (Text × Text)
  pub command : List Text
  pub entrypoint : List Text
  pub volumes : List VolumeMount
  pub network_aliases : List Text
  pub published_ports : List PublishedPort

-- The part of a payload that is encrypted.
pub record TaskSensitivePayload : Type 0 where
  pub env : List (Text × Text)
  pub registry_secret : Text

pub record Task : Type 0 where
  pub id : ℕ
  pub created_at : Time
  pub updated_at : Time
  pub release_id : ℕ
  pub service_id : ℕ
  pub agent_id : Text
  pub type : TaskType
  pub status : TaskStatus
  pub payload : TaskPayload
  pub sensitive_ciphertext : Text
  pub sensitive_key_version : Text
  pub last_error : Text
  pub last_step : Text
  pub docker_health : Text
  pub failure_logs : Text
  pub cleanup_completed : Option Bool
  pub dispatched_at : Option Time
  pub started_at : Option Time
  pub completed_at : Option Time

pub record TaskAttempt : Type 0 where
  pub id : ℕ
  pub task_id : ℕ
  pub agent_id : Text
  pub status : TaskStatus
  pub message : Text
  pub started_at : Option Time
  pub completed_at : Option Time

pub record RuntimeInstance : Type 0 where
  pub id : ℕ
  pub service_id : ℕ
  pub release_id : ℕ
  pub slot : Slot
  pub container_id : Text
  pub image_tag : Text
  pub listen_address : Text
  pub host_port : ℤ
  pub server_name : Text
  pub healthy : Option Bool
  pub accepting_traffic : Option Bool
  pub active : Option Bool

pub record AuditLog : Type 0 where
  pub id : ℕ
  pub aggregate_type : Text
  pub aggregate_id : Text
  pub event_type : Event
  pub message : Text
  pub trace_id : Text
