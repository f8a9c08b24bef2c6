-- ===== src/Examples/Deployments.antt =====
-- Releases that are requested, started and retried, in tables in memory: a service with two releases in
-- its queue, of which the later one is started.
use edge_pilot.Base.{
  ℕ, ◌≡◌, refl, sym, ◌∙◌, true, false, false≢true, Option, none, some, List, [], ◌∷◌, ◌==◌,
  if◌then◌else◌, arith, ◌⊎◌,
}
use edge_pilot.Base.Int.{pos}
use edge_pilot.Base.Text.{codes}
use edge_pilot.Store.Base.{done}
use edge_pilot.Store.Effect.{Result, ok, err}
use edge_pilot.Store.EntityMemory.{entity_memory}
use edge_pilot.Model.Slot.{Slot, blue}
use edge_pilot.Model.Release.{Release, queued, dispatching, Task, is_busy}
use edge_pilot.Release.World.{Backend, World, Spec, Credential}
use edge_pilot.Release.Queries.{is_active_of}
use edge_pilot.Release.Start
use edge_pilot.Release.Deploy.{new_deploy_task, task_timed_out}
use edge_pilot.Release.Orderly.{SavesStatus, KeepsService}
use edge_pilot.Release.Busy.{OneBusy}
use edge_pilot.Release.Operations.{skip, create, fail_stale, recover}
use edge_pilot.Release.History.{
  Request, start, retry, call, answered_all, one_deployment_of_a_service,
}
use edge_pilot.Release.Refused.{Refuses, active_service-Refuses}
use edge_pilot.Release.Sealed.{deploy_task_seals_secrets, fresh_task_has_time}
use edge_pilot.Examples.Releases.{backend, half_way, old_task, stored_tasks, stored_instances}

abbrev spec : Slot → Spec
spec live = record {
  id = 3;
  service_key = [];
  agent_id = [];
  image_repo = [];
  container_port = pos 80;
  cpu_limit_cores = pos 1;
  memory_limit_mb = pos 64;
  current_live_slot = live;
  docker_health_check = false;
  http_health_path = [];
  http_health_headers = [];
  http_expected_code = pos 0;
  http_timeout_second = pos 0;
  startup_grace_second = pos 0;
  http_probe_timeout_second = pos 0;
  http_probe_interval_second = pos 0;
  http_success_threshold = pos 0;
  scheduler_sdk_port = pos 0;
  scheduler_sdk_addr = [];
  scheduler_executor_group = [];
  env = [];
  env_encrypted = false;
  command = [];
  entrypoint = [];
  volumes = [];
  network_aliases = [];
  published_ports = [];
  enabled = true;
}

abbrev catalog : Backend
catalog = record backend {
  get_spec = λ id live. ok (spec live);
  get_spec_by_key = λ key live. ok (spec live);
}

abbrev early : Release
early = record half_way { id = 1; created_at = 100; status = queued; traffic_percent = 0 }

abbrev late : Release
late = record half_way { id = 2; created_at = 200; status = queued; traffic_percent = 0 }

unfoldable queue : catalog.releases.Db
unfolding entity_memory
queue = record {
  keys = 1 ∷ 2 ∷ [];
  at = λ k. if k == 1 then some early else if k == 2 then some late else none;
}

abbrev world : World catalog
world = record {
  releases = queue;
  tasks = stored_tasks;
  instances = stored_instances;
  log = 0;
  catalog = blue;
  next_id = 100;
}

abbrev requests : List Request
requests =
    call (
      create
        (record {
          service_key = [];
          image_repo = [];
          image_tag = [];
          commit_sha = [];
          triggered_by = [];
          trace_id = [];
          release_notes = [];
        })
        250)
    ∷ start 2 [] 300
    ∷ start 1 [] 310
    ∷ call (skip 1 [] 320)
    ∷ call (fail_stale 400)
    ∷ call (recover [] [] 410)
    ∷ retry 2 [] 420
    ∷ []

saves : SavesStatus catalog
unfolding SavesStatus entity_memory
saves old new = refl

keeps : KeepsService catalog
unfolding KeepsService entity_memory
keeps old new h = ground arith

-- Nothing in the queue is busy.
idle_row :
    (k : ℕ) (r : Release)
    → catalog.releases.row k world.releases ≡ some r
    → is_busy r.status ≡ false
unfolding queue entity_memory is_busy
idle_row k r e = ground arith

idle_queue : OneBusy catalog world.releases
unfolding OneBusy
idle_queue i j r s p q busy_r busy_s same = elim (false≢true (sym (idle_row i r p) ∙ busy_r)) [ ]

one_deployment_of_a_service_example : OneBusy catalog (answered_all catalog requests world).releases
one_deployment_of_a_service_example =
    one_deployment_of_a_service catalog saves keeps requests world idle_queue

-- The state once release 2 is being dispatched.
unfoldable busy_queue : catalog.releases.Db
unfolding entity_memory
busy_queue = record {
  keys = 1 ∷ 2 ∷ [];
  at = λ k.
      if k == 1
      then some early
      else if k == 2
      then some (record late { status = dispatching })
      else none;
}

abbrev busy_world : World catalog
busy_world = record world { releases = busy_queue }

dispatching_there :
    catalog.releases.row 2 busy_world.releases ≡ some (record late { status = dispatching })
unfolding busy_queue entity_memory
dispatching_there = refl

early_read : catalog.releases.first 1 busy_world.releases ≡ done (some early)
unfolding busy_queue entity_memory
early_read = refl

active_service-Refuses_example :
    Refuses catalog (Start.start catalog 1 [] 300) busy_world
    × Refuses catalog (Start.retry catalog 1 [] 300) busy_world
active_service-Refuses_example =
    active_service-Refuses catalog 1 [] 300 busy_world 2 (record late { status = dispatching })
      dispatching_there early early_read (unfold is_active_of is_busy in refl)

-- A control plane with a codec, a service with an environment, and a registry with a secret.
abbrev sealing : Backend
sealing = record catalog { encrypt = some (λ p. ok (codes "sealed", codes "1")) }

abbrev secret_spec : Spec
secret_spec = record (spec blue) { env = (codes "TOKEN", codes "abc") ∷ [] }

abbrev registry : Option Credential
registry = some (record { host = codes "hub"; username = codes "me"; secret = codes "pw" })

task_or : Result Task → Task
task_or (ok t) = t
task_or (err e) = old_task

made_task : Task
unfolding task_or
made_task = task_or (new_deploy_task sealing early secret_spec registry 300 9)

made : new_deploy_task sealing early secret_spec registry 300 9 ≡ ok made_task
unfolding made_task new_deploy_task
made = refl

deploy_task_seals_secrets_example :
    (made_task.payload.registry_secret ≡ [])
    × ((made_task.payload.env ≡ [])
        ⊎ ((sealing.encrypt ≡ none)
            × (secret_spec.env_encrypted ≡ false)
            × (made_task.payload.env ≡ secret_spec.env)))
deploy_task_seals_secrets_example =
    deploy_task_seals_secrets sealing early secret_spec registry 300 9 made_task made

fresh_task_has_time_example : task_timed_out old_task 90 ≡ false
fresh_task_has_time_example =
    fresh_task_has_time old_task 90 0 5 refl refl (omega arith) (omega arith)
