-- ===== src/Release/World.antt =====
-- What the release service of internal/release/application/service.go works on: the tables of
-- internal/release/infra/repository.go, the live slots of the services, and the other parts of the
-- control plane, which it calls through interfaces.
use edge_pilot.Base.{
  ℕ, ◌+◌, Bool, ◌&&◌, not, Option, none, some, List, [], ◌∷◌, ◌==◌, ltb, if◌then◌else◌, length,
}
use edge_pilot.Base.Int.{ℤ}
use edge_pilot.Base.Text.{Text, codes, trim_space, is_empty}
use edge_pilot.Cron.Calendar.{Time}
use edge_pilot.Store.Base.{Answer, done, fault}
use edge_pilot.Store.Entities.{Entities}
use edge_pilot.Store.Effect.{M, Result, ok, err, database, not_found, read_answer}
use edge_pilot.Store.Program.{◌>>=◌, return, fail}
use edge_pilot.Model.Slot.{Slot, slot_eq}
use edge_pilot.Model.Event.{Event}
use edge_pilot.Model.Release.{
  Release, Task, TaskAttempt, TaskSensitivePayload, RuntimeInstance, AuditLog, VolumeMount,
  PublishedPort, is_active, is_queued,
}

abbrev pub release_id : Release → ℕ
release_id r = r.id

abbrev pub task_id : Task → ℕ
task_id t = t.id

abbrev pub instance_id : RuntimeInstance → ℕ
instance_id i = i.id

-- `dto.ServiceDeploymentSpec`, but for what the release service does not read of it: the service's
-- name and its routes.
pub record Spec : Type 0 where
  pub id : ℕ
  pub service_key : Text
  pub agent_id : Text
  pub image_repo : Text
  pub container_port : ℤ
  pub cpu_limit_cores : ℤ
  pub memory_limit_mb : ℤ
  pub current_live_slot : Slot
  pub docker_health_check : Bool
  pub http_health_path : Text
  pub http_health_headers : List (Text × Text)
  pub http_expected_code : ℤ
  pub http_timeout_second : ℤ
  pub startup_grace_second : ℤ
  pub http_probe_timeout_second : ℤ
  pub http_probe_interval_second : ℤ
  pub http_success_threshold : ℤ
  pub scheduler_sdk_port : ℤ
  pub scheduler_sdk_addr : Text
  pub scheduler_executor_group : Text
  pub env : List (Text × Text)
  pub env_encrypted : Bool
  pub command : List Text
  pub entrypoint : List Text
  pub volumes : List VolumeMount
  pub network_aliases : List Text
  pub published_ports : List PublishedPort
  pub enabled : Bool

-- `ResolvedRegistryCredential` of internal/release/domain.
pub record Credential : Type 0 where
  pub host : Text
  pub username : Text
  pub secret : Text

-- How the dispatcher answers: nil, `ErrAgentOffline`, or another error with its text.
pub data Delivery : Type 0 where
  delivered agent_offline : Delivery
  undelivered : Text → Delivery

pub record Backend : Type 1 where
  pub releases : Entities ℕ Release release_id ◌==◌
  pub tasks : Entities ℕ Task task_id ◌==◌
  pub instances : Entities ℕ RuntimeInstance instance_id ◌==◌
  -- The other tables: attempts and audits are only written, and of the services the live slot is set.
  pub Log : Type 0
  pub create_attempt : TaskAttempt → Log → Answer Log
  pub create_audit : AuditLog → Log → Answer Log
  pub Catalog : Type 0
  pub get_spec : ℕ → Catalog → Result Spec
  pub get_spec_by_key : Text → Catalog → Result Spec
  pub set_live_slot : ℕ → Slot → Catalog → Answer Catalog
  -- `proxyConfigs.PublishAgent`, where the service has a publisher.
  pub publisher : Option (Text → Answer (Unit {0}))
  -- `agentRegistry.IsOnline`, `registryAuth.ResolveForImageRepo` and, where the service has a codec,
  -- `codec.EncryptJSON`, which returns a ciphertext and the version of the key.
  pub is_online : Text → Answer Bool
  pub resolve_auth : Text → Result (Option Credential)
  pub encrypt : Option (TaskSensitivePayload → Result (Text × Text))
  -- The task dispatcher.
  pub dispatch_task : Text → Task → Delivery
  pub replay_task : Text → Task → Answer Bool
  -- `SELECT ep_task.* … JOIN ep_release ON ep_release.current_task_id = ep_task.id WHERE condition`.
  pub current_tasks : (Task → Bool) → releases.Db → tasks.Db → Answer (List Task)
  -- `ID.String()` and `%d`.
  pub id_text : ℕ → Text
  pub number_text : ℕ → Text
  -- `uuid.Parse`.
  pub parse_id : Text → Result ℕ

module _ (b : Backend) where
  pub record World : Type 0 where
    pub releases : b.releases.Db
    pub tasks : b.tasks.Db
    pub instances : b.instances.Db
    pub log : b.Log
    pub catalog : b.Catalog
    -- The next identifier of `uuid.New`.
    pub next_id : ℕ

-- What `enrichReleaseOutput` returns: the release, and for a queued one its place in the queue. The
-- links into the service are built from its specification, where the service is still there.
pub record ReleaseOutput : Type 0 where
  pub release : Release
  pub is_active : Bool
  pub queue_position : ℕ
  pub spec : Option Spec

-- `status = queued AND service_id = ? AND created_at < ? AND id <> ?`.
unfoldable pub is_queued_before : ℕ → Time → ℕ → Release → Bool
unfolding is_queued
is_queued_before service created_at id r =
    (r.service_id == service)
    && is_queued r.status
    && ltb r.created_at created_at
    && not (r.id == id)

module _ (b : Backend) where
  abbrev pub R : Type 0 → Type 0
  R A = M (World b) A

  unfoldable pub stored_release : World b → Answer b.releases.Db → Result (Unit {0}) × World b
  stored_release w (done db) = (ok tt, record w { releases = db })
  stored_release w (fault e) = (err (database e), w)

  unfoldable pub stored_task : World b → Answer b.tasks.Db → Result (Unit {0}) × World b
  stored_task w (done db) = (ok tt, record w { tasks = db })
  stored_task w (fault e) = (err (database e), w)

  unfoldable pub stored_instance : World b → Answer b.instances.Db → Result (Unit {0}) × World b
  stored_instance w (done db) = (ok tt, record w { instances = db })
  stored_instance w (fault e) = (err (database e), w)

  unfoldable pub stored_log : World b → Answer b.Log → Result (Unit {0}) × World b
  stored_log w (done log) = (ok tt, record w { log = log })
  stored_log w (fault e) = (err (database e), w)

  unfoldable pub stored_catalog : World b → Answer b.Catalog → Result (Unit {0}) × World b
  stored_catalog w (done c) = (ok tt, record w { catalog = c })
  stored_catalog w (fault e) = (err (database e), w)

  -- `GetRelease` and `GetTask`: no row is no error.
  unfoldable pub get_release : ℕ → R (Option Release)
  get_release id w = read_answer w (b.releases.first id w.releases)

  unfoldable pub get_task : ℕ → R (Option Task)
  get_task id w = read_answer w (b.tasks.first id w.tasks)

  unfoldable pub update_release : Release → R (Unit {0})
  unfolding stored_release
  update_release r w = stored_release w (b.releases.save r w.releases)

  unfoldable pub update_task : Task → R (Unit {0})
  unfolding stored_task
  update_task t w = stored_task w (b.tasks.save t w.tasks)

  -- `uuid.New()`.
  unfoldable pub new_id : R ℕ
  new_id w = (ok w.next_id, record w { next_id = w.next_id + 1 })

  unfoldable pub log_attempt : TaskAttempt → R (Unit {0})
  unfolding stored_log
  log_attempt attempt w = stored_log w (b.create_attempt attempt w.log)

  unfoldable pub log_audit : AuditLog → R (Unit {0})
  unfolding stored_log
  log_audit a w = stored_log w (b.create_audit a w.log)

  unfoldable pub create_task_attempt : (ℕ → TaskAttempt) → R (Unit {0})
  create_task_attempt attempt = new_id >>= λ id. log_attempt (attempt id)

  -- `newAudit("release", …)`.
  unfoldable pub audit_row : Release → Event → Text → ℕ → AuditLog
  audit_row r event message id = record {
    id = id;
    aggregate_type = codes "release";
    aggregate_id = b.id_text r.id;
    event_type = event;
    message = message;
    trace_id = r.trace_id;
  }

  unfoldable pub audit : Release → Event → Text → R (Unit {0})
  audit r event message = new_id >>= λ id. log_audit (audit_row r event message id)

  unfoldable pub update_live_slot : ℕ → Slot → R (Unit {0})
  unfolding stored_catalog
  update_live_slot service slot w = stored_catalog w (b.set_live_slot service slot w.catalog)

  unfoldable pub first_of : List RuntimeInstance → Option RuntimeInstance
  first_of [] = none
  first_of (i ∷ rest) = some i

  unfoldable pub is_at : ℕ → Slot → RuntimeInstance → Bool
  is_at service slot i = (i.service_id == service) && slot_eq i.slot slot

  unfoldable pub find_instances : ℕ → Slot → R (List RuntimeInstance)
  find_instances service slot w =
      read_answer w (b.instances.find (is_at service slot) (some 1) w.instances)

  -- `GetRuntimeInstanceByServiceAndSlot`.
  unfoldable pub get_instance : ℕ → Slot → R (Option RuntimeInstance)
  get_instance service slot = find_instances service slot >>= λ rows. return (first_of rows)

  -- `UpsertRuntimeInstance`: a second instance of a service in a slot takes over the row of the first.
  unfoldable pub upsert_over : RuntimeInstance → Option RuntimeInstance → R (Unit {0})
  unfolding stored_instance
  upsert_over i none w = stored_instance w (b.instances.create i w.instances)
  upsert_over i (some current) w =
      stored_instance w (b.instances.save (record i { id = current.id }) w.instances)

  unfoldable pub upsert_instance : RuntimeInstance → R (Unit {0})
  upsert_instance i = get_instance i.service_id i.slot >>= upsert_over i

  unfoldable pub published : World b → Answer (Unit {0}) → Result (Unit {0}) × World b
  published w (done _) = (ok tt, w)
  published w (fault e) = (err (database e), w)

  unfoldable pub publish_by : Text → Option (Text → Answer (Unit {0})) → R (Unit {0})
  unfolding published
  publish_by agent none w = (ok tt, w)
  publish_by agent (some publish) w =
      if is_empty (trim_space agent) then (ok tt, w) else published w (publish agent)

  unfoldable pub publish_agent : Text → R (Unit {0})
  publish_agent agent = publish_by agent b.publisher

  unfoldable pub position : Release → List Release → ReleaseOutput → ReleaseOutput
  position r before out = record out { queue_position = length before + 1 }

  -- `CountQueuedBefore`.
  unfoldable pub count_before : Release → R (List Release)
  count_before r w =
      read_answer w
        (b.releases.find (is_queued_before r.service_id r.created_at r.id) none w.releases)

  -- The end of `enrichReleaseOutput`, with the specification that the links come from.
  unfoldable pub with_queue : Release → Option Spec → R ReleaseOutput
  unfolding position
  with_queue r spec =
      let out : ReleaseOutput = record {
        release = r;
        is_active = is_active r.status;
        queue_position = 0;
        spec = spec;
      } in
      if not (is_queued r.status)
      then return out
      else count_before r >>= λ before. return (position r before out)

  unfoldable pub with_spec : Release → Result Spec → R ReleaseOutput
  with_spec r (ok spec) = with_queue r (some spec)
  with_spec r (err not_found) = with_queue r none
  with_spec r (err e) = fail e

  unfoldable pub enrich_release_output : Release → R ReleaseOutput
  enrich_release_output r w = with_spec r (b.get_spec r.service_id w.catalog) w
