-- ===== src/Examples/Agents.antt =====
-- An agent whose host is a clock: every container runs, is healthy and can be removed, where it is not the broken
-- one.
use edge_pilot.Base.{
  ℕ, ◌+◌, ◌≡◌, refl, true, false, Option, none, some, List, [], ◌∷◌, ◌++◌, any, All, keep, length,
  ◌⊎◌, if◌then◌else◌, arith,
}
use edge_pilot.Base.Int.{pos}
use edge_pilot.Base.Text.{Text, codes, is_empty, trim_space, text_eq}
use edge_pilot.Store.Base.{done, fault}
use edge_pilot.Model.Slot.{blue, green, slot_eq}
use edge_pilot.Release.Reported.{TaskUpdate, succeeded, failed}
use edge_pilot.Agent.Containers.{
  TaskCommand, deploy_green, switch_traffic, ContainerRuntime, ContainerStatus, ManagedContainer,
  ManagedContainerIdentity, is_terminal,
}
use edge_pilot.Agent.Host.{
  Backend, World, Outcome, returned, plain, at_step, TaskFailureDiagnostic, Event, sent, verified,
  ◌>>=◌, ◌>>◌, read_clock, note, call, attempt, return, sleep, context_ended, remove_container,
  remove_image, on_failure, fail,
}
use edge_pilot.Agent.Index.{identity_key, only_item, find_by_identity, refreshed_index}
use edge_pilot.Agent.Health.{success_threshold, wait_for_health}
use edge_pilot.Agent.Cleanup.{
  should_remove_on_startup_scan, some_items, cleanup_managed_containers,
  StartupManagedContainerScanStats, reconcile_managed_containers_on_startup,
}
use edge_pilot.Agent.Executor.{execute_traffic_switch, execute_deploy, finish}
use edge_pilot.Agent.Client.{send, handle_task}
use edge_pilot.Agent.Clock.{HostLaws, Progress}
use edge_pilot.Agent.Reported.{task_ends_once}
use edge_pilot.Agent.Removals.{
  removals, latest_first, unpreserved, cleanup_removes_unpreserved, startup_scan_adds_up,
}
use edge_pilot.Agent.Spared.{Sparing, switch_spares_live}
use edge_pilot.Agent.Healthy.{Recent, wait_for_health_proves}
use edge_pilot.Agent.Deployed.{deployed_after_check}
use edge_pilot.Agent.Lookup.{goes_by, find_by_identity_refines}
use edge_pilot.Agent.Failure.{failed_wait_cleans_up}

abbrev container : Text → Text → ManagedContainer
container id release = record {
  container_id = id;
  image = codes "registry/shop:1";
  managed = true;
  agent_id = codes "agent";
  service_key = codes "shop";
  release_id = release;
  slot = blue;
  state = codes "running";
}

abbrev listed : List (Option ManagedContainer)
listed =
    some (container (codes "c1") (codes "r1"))
    ∷ none
    ∷ some (record (container (codes "c2") (codes "r2")) { slot = green })
    ∷ some (record (container (codes "c3") (codes "r3")) { slot = green; state = codes "exited" })
    ∷ []

status_of : Text → ContainerStatus
status_of id = record {
  state = if text_eq id (codes "broken") then codes "exited" else codes "running";
  health = codes "healthy";
  running = true;
}

-- Each call takes a nanosecond.
unfoldable backend : Backend
unfolding status_of text_eq
backend = record {
  Host = ℕ;
  agent_id = codes "agent";
  sha1_hex = λ t. t;
  clock = λ h. h;
  context_error = λ h. none;
  wait = λ d h. (done tt, h + d);
  http_probe = λ address path headers code timeout h. (done tt, h + 1);
  ensure_ready = λ h. (done tt, h + 1);
  ensure_image = λ ref task h. (done tt, h + 1);
  deploy_container = λ task h. (
    done (record { container_id = codes "new"; listen_address = codes "10.0.0.2:80"; image = [] }),
    h + 1,
  );
  inspect_container = λ id h. (done (some (status_of id)), h + 1);
  find_managed_container_by_identity = λ identity h. (done none, h + 1);
  resolve_listen_address = λ id port h. (done (codes "10.0.0.2:80"), h + 1);
  read_container_logs = λ id lines bytes h. (fault (codes "no logs"), h + 1);
  remove_container = λ id h. (done tt, h + 1);
  remove_image = λ image h. (fault (codes "in use"), h + 1);
  outbound = λ u h. (true, h + 1);
  list_managed_containers = λ agent service h. (done listed, h + 1);
}

laws : HostLaws backend
unfolding backend
laws = record {
  wait_forward = λ d h. omega arith;
  wait_passes = λ d h e. omega arith;
  probe_forward = λ address path headers code timeout h. omega arith;
  ready_forward = λ h. omega arith;
  image_forward = λ ref task h. omega arith;
  deploy_forward = λ task h. omega arith;
  inspect_forward = λ id h. omega arith;
  find_forward = λ identity h. omega arith;
  address_forward = λ id port h. omega arith;
  logs_forward = λ id lines bytes h. omega arith;
  remove_forward = λ id h. omega arith;
  image_removed_forward = λ image h. omega arith;
  outbound_takes = λ u h. refl;
  outbound_forward = λ u h. omega arith;
  list_forward = λ agent service h. omega arith;
}

abbrev deploy : TaskCommand
deploy = record {
  task_id = codes "t1";
  release_id = codes "r9";
  service_key = codes "shop";
  agent_id = codes "agent";
  type = deploy_green;
  image_repo = codes "registry/shop";
  image_tag = codes "9";
  target_slot = green;
  current_live_slot = blue;
  container_port = pos 80;
  docker_health_check = true;
  http_health_path = codes "/health";
  http_health_headers = [];
  http_expected_code = pos 0;
  http_timeout_second = pos 5;
  startup_grace_second = pos 1;
  http_probe_timeout_second = pos 0;
  http_probe_interval_second = pos 0;
  http_success_threshold = pos 3;
  server_name = codes "green";
}

unfoldable world : World backend
unfolding backend
world = record { host = 100; index = none; running = codes "t0" ∷ []; log = [] }

abbrev runtime : Text → ContainerRuntime
runtime id = record { container_id = id; listen_address = codes "10.0.0.2:80"; image = [] }

task_ends_once_example :
    (((handle_task backend deploy world).0 ≡ returned tt)
      × ((last : TaskUpdate) × (before : List Event) × (((handle_task backend deploy world).1.log
              ≡ sent last ∷ (before ++ world.log))
            × (last.task_id ≡ deploy.task_id)
            × ((last.status ≡ succeeded) ⊎ (last.status ≡ failed))
            × All (Progress deploy.task_id) before)))
    × (any (text_eq deploy.task_id) (handle_task backend deploy world).1.running ≡ false)
unfolding world any text_eq
task_ends_once_example = task_ends_once backend laws deploy world refl

abbrev switch : TaskCommand
switch = record deploy { type = switch_traffic; release_id = codes "r2" }

cleanup_removes_unpreserved_example :
    removals (cleanup_managed_containers backend switch world).1.log
    ≡ latest_first (unpreserved switch (some_items listed)) (removals world.log)
unfolding world backend
cleanup_removes_unpreserved_example = cleanup_removes_unpreserved backend switch world listed refl

switch_spares_live_example :
    (more : List Event) × ((execute_traffic_switch backend (send backend) switch world).1.log
      ≡ more ++ world.log)
    × All (Sparing backend switch) more
unfolding is_empty trim_space
switch_spares_live_example = switch_spares_live backend switch refl world

startup_scan_adds_up_example :
    (r : StartupManagedContainerScanStats) × ((reconcile_managed_containers_on_startup backend
        (codes "agent")
        world).0
      ≡ returned r)
    × ((r.scanned ≡ r.removed + r.preserved + r.failed) × (r.scanned ≡ length (some_items listed)))
    × (removals (reconcile_managed_containers_on_startup backend (codes "agent") world).1.log
        ≡ latest_first
            (keep should_remove_on_startup_scan (some_items listed))
            (removals world.log))
unfolding world backend
startup_scan_adds_up_example = startup_scan_adds_up backend (codes "agent") world listed refl

abbrev shop_identity : ManagedContainerIdentity
shop_identity = record {
  agent_id = codes "agent";
  service_key = codes "shop";
  release_id = codes "r2";
  slot = green;
}

find_by_identity_refines_example : find_by_identity shop_identity (refreshed_index 7 1 listed) ≡ (
    if is_empty (identity_key (codes "shop") (codes "r2") green)
    then done none
    else only_item shop_identity
        (keep (goes_by (identity_key (codes "shop") (codes "r2") green)) (some_items listed)))
find_by_identity_refines_example = find_by_identity_refines shop_identity 7 1 listed

waits :
    (wait_for_health backend deploy (send backend) (runtime (codes "new")) world).0
    ≡ returned (runtime (codes "new"))
unfolding wait_for_health ◌>>=◌ read_clock ◌>>◌ send note backend world call attempt return
    is_terminal trim_space sleep context_ended is_empty
waits = refl

wait_for_health_proves_example :
    Recent
      (success_threshold backend deploy (send backend))
      (wait_for_health backend deploy (send backend) (runtime (codes "new")) world).1.log
wait_for_health_proves_example =
    wait_for_health_proves backend deploy (send backend) (runtime (codes "new"))
      (runtime (codes "new")) world waits

deploys : (execute_deploy backend (send backend) deploy world).0 ≡ returned tt
unfolding execute_deploy ◌>>◌ ◌>>=◌ attempt backend return send note world slot_eq remove_container
    is_empty trim_space remove_image on_failure read_clock is_terminal sleep context_ended call
    text_eq
deploys = refl

deployed_after_check_example :
    (u : TaskUpdate) × (rest : List Event) × (((execute_deploy backend
          (send backend)
          deploy
          world).1.log
        ≡ sent u ∷ verified true ∷ rest)
      × (u.status ≡ succeeded)
      × (u.task_id ≡ deploy.task_id))
deployed_after_check_example = deployed_after_check backend deploy world deploys

after_broken : World backend
after_broken = (wait_for_health backend deploy (send backend) (runtime (codes "broken")) world).1

breaks : wait_for_health backend deploy (send backend) (runtime (codes "broken")) world ≡ (
  edge_pilot.Agent.Host.failed (
      plain (
        codes
          "container entered terminal state during startup grace: state=exited health=healthy running=true")),
  after_broken,
)
unfolding wait_for_health ◌>>=◌ read_clock ◌>>◌ send note backend world call attempt return
    is_terminal trim_space fail after_broken is_empty
breaks = refl

failed_wait_cleans_up_example :
    (d : TaskFailureDiagnostic) × (told : Text) × (((finish backend
          (send backend)
          deploy
          (runtime (codes "broken"))
          world).0
        ≡ edge_pilot.Agent.Host.failed (at_step (codes "health_check_failed") told (some d)))
      × (d.container_id ≡ trim_space (codes "broken"))
      × (removals (finish backend (send backend) deploy (runtime (codes "broken")) world).1.log
          ≡ trim_space (codes "broken") ∷ removals after_broken.log))
unfolding is_empty trim_space
failed_wait_cleans_up_example =
    failed_wait_cleans_up backend deploy (send backend) (runtime (codes "broken"))
      (codes
        "container entered terminal state during startup grace: state=exited health=healthy running=true")
      world after_broken breaks refl
