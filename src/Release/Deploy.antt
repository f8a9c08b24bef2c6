-- ===== src/Release/Deploy.antt =====
-- The task of a deployment: `newDeployTask` of internal/release/application/service.go and what it
-- calls.
use edge_pilot.Base.{
  ℕ, Bool, true, false, ◌&&◌, ◌||◌, not, Option, none, some, List, [], ◌∷◌, ◌*◌, ◌==◌,
  if◌then◌else◌,
}
use edge_pilot.Base.Int.{ℤ, pos, ◌+ℤ◌, leb_ℤ, ltb_ℤ, eqb_ℤ}
use edge_pilot.Base.Duration.{seconds, plus}
use edge_pilot.Base.Text.{Text, codes, is_empty, trim_space}
use edge_pilot.Cron.Calendar.{Time, second, minute}
use edge_pilot.Store.Effect.{Result, ok, err, bad_request, other_error}
use edge_pilot.Model.Slot.{Slot, blue, green}
use edge_pilot.Model.Release.{
  Release, Task, TaskType, TaskStatus, TaskPayload, TaskSensitivePayload, deploy_green,
}
use edge_pilot.Catalog.Names.{backend_name_for_release, server_name}
use edge_pilot.Release.World.{Backend, Spec, Credential}

unfoldable pub next_slot : Slot → Slot
next_slot blue = green
next_slot _ = blue

unfoldable pub first_non_empty : Text → Text → Text
first_non_empty v fallback = if not (is_empty v) then v else fallback

unfoldable pub default_int : ℤ → ℤ → ℤ
default_int v fallback = if not (eqb_ℤ v (pos 0)) then v else fallback

abbrev pub default_startup_grace_second : ℤ
default_startup_grace_second = pos 15

abbrev pub default_http_expected_code : ℤ
default_http_expected_code = pos 200

abbrev pub default_http_timeout_second : ℤ
default_http_timeout_second = pos 90

abbrev pub default_http_probe_timeout_second : ℤ
default_http_probe_timeout_second = pos 2

abbrev pub default_http_probe_interval_second : ℤ
default_http_probe_interval_second = pos 1

abbrev pub default_http_success_threshold : ℤ
default_http_success_threshold = pos 2

unfoldable pub validate_deployment_spec : Spec → Result (Unit {0})
validate_deployment_spec spec =
    if leb_ℤ spec.container_port (pos 0) || ltb_ℤ (pos 65535) spec.container_port
    then err (bad_request (codes "service.containerPort 非法，请先更新服务配置后再发布"))
    else ok tt

-- `len(m) == 0`.
unfoldable pub no_entries : {A : Type 0} → List A → Bool
no_entries [] = true
no_entries (x ∷ xs) = false

abbrev pub no_sensitive : TaskSensitivePayload
no_sensitive = record { env = []; registry_secret = [] }

unfoldable pub sealed : Result (Text × Text) → Result (Text × Text × TaskSensitivePayload)
sealed (ok (ciphertext, version)) = ok (ciphertext, version, no_sensitive)
sealed (err e) = err e

unfoldable pub seal_with :
    Option (TaskSensitivePayload → Result (Text × Text))
    → Bool
    → TaskSensitivePayload
    → Result (Text × Text × TaskSensitivePayload)
unfolding sealed no_entries
seal_with none encrypted sensitive =
    if not encrypted
      && not (no_entries sensitive.env)
      && is_empty (trim_space sensitive.registry_secret)
    then ok ([], [], record { env = sensitive.env; registry_secret = [] })
    else err other_error
seal_with (some codec) encrypted sensitive = sealed (codec sensitive)

-- `prepareTaskSensitive`: a ciphertext, the version of its key, and what may be stored in the open.
unfoldable pub prepare_task_sensitive :
    (b : Backend) → Spec → TaskSensitivePayload → Result (Text × Text × TaskSensitivePayload)
unfolding seal_with no_entries
prepare_task_sensitive b spec sensitive =
    if no_entries sensitive.env && is_empty (trim_space sensitive.registry_secret)
    then ok ([], [], no_sensitive)
    else seal_with b.encrypt spec.env_encrypted sensitive

unfoldable pub secret_of : Option Credential → Text
secret_of none = []
secret_of (some c) = c.secret

unfoldable pub host_of : Option Credential → Text
host_of none = []
host_of (some c) = c.host

unfoldable pub username_of : Option Credential → Text
username_of none = []
username_of (some c) = c.username

module _ (b : Backend) where
  -- The payload, of which `plain` is stored as it is.
  unfoldable pub deploy_payload :
      Release → Spec → Option Credential → TaskSensitivePayload → TaskPayload
  unfolding first_non_empty default_int host_of username_of
  deploy_payload r spec auth plain = record {
    service_id = spec.id;
    service_key = spec.service_key;
    image_repo = first_non_empty r.image_repo spec.image_repo;
    image_tag = r.image_tag;
    registry_host = host_of auth;
    registry_username = username_of auth;
    registry_secret = plain.registry_secret;
    commit_sha = r.commit_sha;
    trace_id = r.trace_id;
    target_slot = r.target_slot;
    current_live_slot = spec.current_live_slot;
    container_port = spec.container_port;
    cpu_limit_cores = spec.cpu_limit_cores;
    memory_limit_mb = spec.memory_limit_mb;
    docker_health_check = spec.docker_health_check;
    http_health_path = spec.http_health_path;
    http_health_headers = spec.http_health_headers;
    http_expected_code = default_int spec.http_expected_code default_http_expected_code;
    http_timeout_second = default_int spec.http_timeout_second default_http_timeout_second;
    startup_grace_second = default_int spec.startup_grace_second default_startup_grace_second;
    http_probe_timeout_second =
        default_int spec.http_probe_timeout_second default_http_probe_timeout_second;
    http_probe_interval_second =
        default_int spec.http_probe_interval_second default_http_probe_interval_second;
    http_success_threshold = default_int spec.http_success_threshold default_http_success_threshold;
    scheduler_sdk_port = spec.scheduler_sdk_port;
    scheduler_sdk_addr = spec.scheduler_sdk_addr;
    scheduler_executor_group = spec.scheduler_executor_group;
    backend_name = backend_name_for_release (b.id_text spec.id) (b.id_text r.id);
    server_name = server_name r.target_slot;
    previous_server = server_name spec.current_live_slot;
    env = plain.env;
    command = spec.command;
    entrypoint = spec.entrypoint;
    volumes = spec.volumes;
    network_aliases = spec.network_aliases;
    published_ports = spec.published_ports;
  }

  unfoldable pub sealed_task :
      Release
      → Spec
      → Option Credential
      → Time
      → ℕ
      → Result (Text × Text × TaskSensitivePayload)
      → Result Task
  unfolding deploy_payload
  sealed_task r spec auth now id (err e) = err e
  sealed_task r spec auth now id (ok (ciphertext, version, plain)) = ok (record {
    id = id;
    created_at = now;
    updated_at = now;
    release_id = r.id;
    service_id = spec.id;
    agent_id = spec.agent_id;
    type = deploy_green;
    status = TaskStatus.pending;
    payload = deploy_payload r spec auth plain;
    sensitive_ciphertext = ciphertext;
    sensitive_key_version = version;
    last_error = [];
    last_step = [];
    docker_health = [];
    failure_logs = [];
    cleanup_completed = none;
    dispatched_at = none;
    started_at = none;
    completed_at = none;
  })

  -- gorm fills in the two times when the row is created.
  unfoldable pub new_deploy_task : Release → Spec → Option Credential → Time → ℕ → Result Task
  unfolding sealed_task prepare_task_sensitive secret_of
  new_deploy_task r spec auth now id =
      sealed_task r spec auth now id (
        prepare_task_sensitive b spec (record { env = spec.env; registry_secret = secret_of auth }))

unfoldable pub timeout_for_task : Task → ℤ
unfolding seconds plus default_int
timeout_for_task task = elim task.type [
  | TaskType.deploy_green ↦
      plus
        (plus
          (plus (pos (5 * minute))
            (seconds (default_int task.payload.startup_grace_second default_startup_grace_second)))
          (seconds (default_int task.payload.http_timeout_second default_http_timeout_second)))
        (pos (30 * second))
  | TaskType.switch_traffic ↦ pos minute
  | TaskType.rollback ↦ pos minute
  | TaskType.cleanup_old ↦ pos minute
]

-- The zero time is 0.
unfoldable pub task_timed_out : Task → Time → Bool
unfolding timeout_for_task
task_timed_out task now =
    let last = if task.updated_at == 0 then task.created_at else task.updated_at in
    if last == 0 then false else ltb_ℤ (pos last +ℤ timeout_for_task task) (pos now)
