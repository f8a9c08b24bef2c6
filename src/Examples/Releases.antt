-- ===== src/Examples/Releases.antt =====
-- Releases of internal/release in tables in memory, with gorm's update from a struct: a field that is
-- zero is left out.
use edge_pilot.Base.{
  ℕ, ◌+◌, ◌≡◌, refl, true, false, Option, none, some, List, [], ◌∷◌, ◌==◌, ==_iff, ==_refl,
  if◌then◌else◌,
}
use edge_pilot.Base.Int.{pos}
use edge_pilot.Base.Text.{Text, is_empty}
use edge_pilot.Store.Base.{done}
use edge_pilot.Store.Effect.{ok, err, not_found}
use edge_pilot.Store.EntityMemory.{entity_memory}
use edge_pilot.Model.Slot.{Slot, unset, blue, green}
use edge_pilot.Model.Release.{
  Release, ready_to_switch, completed, Task, TaskType, TaskStatus, TaskPayload, RuntimeInstance,
  is_terminal, is_task_terminal,
}
use edge_pilot.Release.World.{Delivery, Backend, World, release_id, task_id, instance_id}
use edge_pilot.Release.Traffic.{set_traffic_percent}
use edge_pilot.Release.Reported.{TaskUpdate, ReportedStatus, is_current_task}
use edge_pilot.Release.Tasks.{handle_task_update}
use edge_pilot.Release.Orderly.{SavesStatus}
use edge_pilot.Release.Operations.{
  Call, after_all, ended_releases_stay, skip, rollback, set_percent, confirm, task_update,
}
use edge_pilot.Release.Zero.{SkipsZeroPercent, set_no_traffic_keeps_percent}
use edge_pilot.Release.Late.{OnlyLogged, is_late, late_updates_change_nothing}

abbrev pub or_text : Text → Text → Text
or_text old new = if is_empty new then old else new

abbrev pub or_number : ℕ → ℕ → ℕ
or_number old new = if new == 0 then old else new

abbrev pub or_old : {A : Type 0} → Option A → Option A → Option A
or_old old none = old
or_old old (some a) = some a

abbrev pub or_slot : Slot → Slot → Slot
or_slot old unset = old
or_slot old new = new

abbrev pub merge_release : Release → Release → Release
merge_release old new = record {
  id = old.id;
  created_at = or_number old.created_at new.created_at;
  service_id = or_number old.service_id new.service_id;
  agent_id = or_text old.agent_id new.agent_id;
  image_repo = or_text old.image_repo new.image_repo;
  image_tag = or_text old.image_tag new.image_tag;
  commit_sha = or_text old.commit_sha new.commit_sha;
  triggered_by = or_text old.triggered_by new.triggered_by;
  trace_id = or_text old.trace_id new.trace_id;
  release_notes = or_text old.release_notes new.release_notes;
  status = new.status;
  traffic_percent = or_number old.traffic_percent new.traffic_percent;
  target_slot = or_slot old.target_slot new.target_slot;
  previous_live_slot = or_slot old.previous_live_slot new.previous_live_slot;
  current_task_id = or_old old.current_task_id new.current_task_id;
  switch_confirmed = or_old old.switch_confirmed new.switch_confirmed;
  completed_at = or_old old.completed_at new.completed_at;
}

pub same→eq : (a b : ℕ) → (a == b) ≡ true → a ≡ b
same→eq a b = (==_iff a b).0

abbrev pub backend : Backend
backend = record {
  releases = entity_memory release_id ◌==◌ same→eq ==_refl merge_release (λ old new. refl);
  tasks =
      entity_memory task_id ◌==◌ same→eq ==_refl (λ old new. record new { id = old.id })
        (λ old new. refl);
  instances =
      entity_memory instance_id ◌==◌ same→eq ==_refl (λ old new. record new { id = old.id })
        (λ old new. refl);
  Log = ℕ;
  create_attempt = λ a log. done (log + 1);
  create_audit = λ a log. done (log + 1);
  Catalog = Slot;
  get_spec = λ id c. err not_found;
  set_live_slot = λ id slot c. done slot;
  publisher = none;
  get_spec_by_key = λ key c. err not_found;
  is_online = λ agent. done true;
  resolve_auth = λ repo. ok none;
  encrypt = none;
  dispatch_task = λ agent task. Delivery.delivered;
  replay_task = λ agent task. done true;
  current_tasks = λ p releases tasks. done [];
  id_text = λ n. [];
  number_text = λ n. [];
  parse_id = λ s. ok 5;
}

abbrev pub half_way : Release
half_way = record {
  id = 1;
  created_at = 100;
  service_id = 3;
  agent_id = [];
  image_repo = [];
  image_tag = [];
  commit_sha = [];
  triggered_by = [];
  trace_id = [];
  release_notes = [];
  status = ready_to_switch;
  traffic_percent = 50;
  target_slot = green;
  previous_live_slot = blue;
  current_task_id = none;
  switch_confirmed = some false;
  completed_at = none;
}

abbrev pub ended : Release
ended = record half_way {
  id = 2;
  status = completed;
  traffic_percent = 100;
  current_task_id = some 5;
  completed_at = some 90;
}

abbrev pub empty_payload : TaskPayload
empty_payload = record {
  service_id = 3;
  service_key = [];
  image_repo = [];
  image_tag = [];
  registry_host = [];
  registry_username = [];
  registry_secret = [];
  commit_sha = [];
  trace_id = [];
  target_slot = green;
  current_live_slot = blue;
  container_port = pos 80;
  cpu_limit_cores = pos 0;
  memory_limit_mb = pos 0;
  docker_health_check = false;
  http_health_path = [];
  http_health_headers = [];
  http_expected_code = pos 200;
  http_timeout_second = pos 5;
  startup_grace_second = pos 0;
  http_probe_timeout_second = pos 0;
  http_probe_interval_second = pos 0;
  http_success_threshold = pos 1;
  scheduler_sdk_port = pos 0;
  scheduler_sdk_addr = [];
  scheduler_executor_group = [];
  backend_name = [];
  server_name = [];
  previous_server = [];
  env = [];
  command = [];
  entrypoint = [];
  volumes = [];
  network_aliases = [];
  published_ports = [];
}

abbrev pub old_task : Task
old_task = record {
  id = 5;
  created_at = 60;
  updated_at = 80;
  release_id = 2;
  service_id = 3;
  agent_id = [];
  type = TaskType.deploy_green;
  status = TaskStatus.succeeded;
  payload = empty_payload;
  sensitive_ciphertext = [];
  sensitive_key_version = [];
  last_error = [];
  last_step = [];
  docker_health = [];
  failure_logs = [];
  cleanup_completed = none;
  dispatched_at = none;
  started_at = none;
  completed_at = some 80;
}

abbrev pub instance : RuntimeInstance
instance = record {
  id = 8;
  service_id = 3;
  release_id = 2;
  slot = blue;
  container_id = [];
  image_tag = [];
  listen_address = [];
  host_port = pos 8080;
  server_name = [];
  healthy = some true;
  accepting_traffic = some true;
  active = some true;
}

unfoldable stored_releases : backend.releases.Db
unfolding entity_memory
stored_releases = record {
  keys = 1 ∷ 2 ∷ [];
  at = λ k. if k == 1 then some half_way else if k == 2 then some ended else none;
}

unfoldable pub stored_tasks : backend.tasks.Db
unfolding entity_memory
stored_tasks = record { keys = 5 ∷ []; at = λ k. if k == 5 then some old_task else none }

unfoldable pub stored_instances : backend.instances.Db
unfolding entity_memory
stored_instances = record { keys = 8 ∷ []; at = λ k. if k == 8 then some instance else none }

abbrev world : World backend
world = record {
  releases = stored_releases;
  tasks = stored_tasks;
  instances = stored_instances;
  log = 0;
  catalog = blue;
  next_id = 100;
}

abbrev pub failure : TaskUpdate
failure = record {
  task_id = [];
  status = ReportedStatus.failed;
  step = [];
  error_message = [];
  container_id = [];
  listen_address = [];
  slot = green;
  server_name = [];
  docker_health = [];
  failure_logs = [];
  cleanup_completed = false;
}

ended_in_place : backend.releases.row 2 world.releases ≡ some ended
unfolding stored_releases entity_memory
ended_in_place = refl

half_way_in_place : backend.releases.row 1 world.releases ≡ some half_way
unfolding stored_releases entity_memory
half_way_in_place = refl

pub saves : SavesStatus backend
unfolding SavesStatus entity_memory
saves old new = refl

skips : SkipsZeroPercent backend
unfolding SkipsZeroPercent entity_memory
skips old new h = rw h refl

abbrev calls : List Call
calls =
    set_percent 1 100 [] 200
    ∷ task_update [] failure 210
    ∷ skip 2 [] 220
    ∷ rollback 2 [] 230
    ∷ confirm 2 [] 240
    ∷ []

ended_releases_stay_example :
    (r' : Release) × ((backend.releases.row 2 (after_all backend calls world).releases ≡ some r')
      × (r'.status ≡ completed))
ended_releases_stay_example =
    ended_releases_stay backend saves calls world 2 ended ended_in_place
      (unfold is_terminal in refl)

set_no_traffic_keeps_percent_example :
    (r' : Release) × ((backend.releases.row 1
          (set_traffic_percent backend 1 0 [] 200 world).1.releases
        ≡ some r')
      × (r'.traffic_percent ≡ 50))
set_no_traffic_keeps_percent_example =
    set_no_traffic_keeps_percent backend skips 1 [] 200 world 1 half_way half_way_in_place

task_read : backend.tasks.first 5 world.tasks ≡ done (some old_task)
unfolding stored_tasks entity_memory
task_read = refl

release_read : backend.releases.first 2 world.releases ≡ done (some ended)
unfolding stored_releases entity_memory
release_read = refl

late_updates_change_nothing_example :
    OnlyLogged backend world (handle_task_update backend [] failure 210 world).1
late_updates_change_nothing_example =
    late_updates_change_nothing backend [] failure 210 world 5 old_task ended refl task_read
      release_read (unfold is_late is_current_task is_task_terminal is_terminal in refl)
