-- ===== src/Agent/Existing.antt =====
-- Whether the container of a task is there already: `ensureDeployContainer` and `findManagedContainer` of
-- internal/agent/application/taskexec/executor.go.
use edge_pilot.Base.{Bool, false, ◌||◌, not, Option, none, some, [], ◌++◌, if◌then◌else◌}
use edge_pilot.Base.Text.{Text, codes, is_empty, text_eq}
use edge_pilot.Store.Base.{Answer, done, fault}
use edge_pilot.Agent.Containers.{
  TaskCommand, ContainerRuntime, ContainerStatus, ManagedContainer, ManagedContainerIdentity,
  is_terminal, managed_container_name_for_task,
}
use edge_pilot.Agent.Host.{
  Backend, E, plain, at_step, ManagedContainerIndex, ◌>>=◌, ◌>>◌, return, fail, attempt, or_fail,
  call, remove_container,
}
use edge_pilot.Agent.Index.{refresh_now, find_by_identity}
use edge_pilot.Agent.Checks.{verify_health}
use edge_pilot.Agent.Cleanup.{read_index, cleanup_stale_containers_on_slot}

pub data DeployDecision : Type 0 where
  start_new : DeployDecision
  reuse_healthy wait_existing : ContainerRuntime → DeployDecision

unfoldable pub identity_of : TaskCommand → ManagedContainerIdentity
identity_of task = record {
  agent_id = task.agent_id;
  service_key = task.service_key;
  release_id = task.release_id;
  slot = task.target_slot;
}

abbrev pub is_running : Option ContainerStatus → Bool
is_running none = false
is_running (some s) = s.running

module _ (b : Backend) where
  unfoldable pub found_in_index :
      ManagedContainerIdentity
      → Option ManagedContainerIndex
      → Answer (Unit {0})
      → E b (Option ManagedContainer)
  unfolding or_fail find_by_identity
  found_in_index identity none refreshed = return none
  found_in_index identity (some index) (fault e) = return none
  found_in_index identity (some index) (done _) = or_fail b plain (find_by_identity identity index)

  unfoldable pub or_asked :
      ManagedContainerIdentity → Option ManagedContainer → E b (Option ManagedContainer)
  unfolding call
  or_asked identity (some item) = return (some item)
  or_asked identity none = call b (b.find_managed_container_by_identity identity)

  unfoldable pub look_up_index :
      ManagedContainerIdentity → Option ManagedContainerIndex → E b (Option ManagedContainer)
  unfolding found_in_index refresh_now read_index
  look_up_index identity none = return none
  look_up_index identity (some index) = do
    refreshed ← refresh_now b index
    index' ← read_index b
    found_in_index identity index' refreshed

  unfoldable pub find_managed_container : ManagedContainerIdentity → E b (Option ManagedContainer)
  unfolding look_up_index or_asked
  find_managed_container identity = do
    index ← read_index b
    item ← look_up_index identity index
    or_asked identity item

  -- The container is removed, and a new one started.
  unfoldable pub replaced : Text → E b DeployDecision
  unfolding or_fail
  replaced id = remove_container b id >>= λ a. or_fail b plain a >> return start_new

  -- A container of the same release, by the error of its check.
  unfoldable pub decided_on :
      ContainerRuntime → Option ContainerStatus → Option Text → E b DeployDecision
  unfolding replaced
  decided_on runtime status none = return (reuse_healthy runtime)
  decided_on runtime status (some e) =
      if is_running status then return (wait_existing runtime) else replaced runtime.container_id

  abbrev pub address_of : Answer Text → Text
  address_of (done address) = address
  address_of (fault e) = []

  -- The container of the same release is checked, where it has an address.
  unfoldable pub same_release :
      TaskCommand → Text → Option ContainerStatus → Text → E b DeployDecision
  unfolding verify_health decided_on
  same_release task id status address =
      (if is_empty address then return (some []) else verify_health b task status address)
      >>= decided_on (record { container_id = id; listen_address = address; image = [] }) status

  unfoldable pub existing_inspected :
      TaskCommand → ManagedContainer → Option ContainerStatus → E b DeployDecision
  unfolding same_release replaced
  existing_inspected task item status =
      if is_terminal status
      then replaced item.container_id
      else (attempt b (b.resolve_listen_address item.container_id task.container_port) >>= λ a.
          if text_eq item.release_id task.release_id
          then same_release task item.container_id status (address_of a)
          else replaced item.container_id)

  unfoldable pub conflict_text : TaskCommand → Text
  unfolding managed_container_name_for_task
  conflict_text task =
      codes "managed container conflict: "
      ++ (managed_container_name_for_task b.sha1_hex task.service_key task.release_id
            task.target_slot
          ++ (codes " exists but is not owned by agent " ++ task.agent_id))

  unfoldable pub existing_decision : TaskCommand → Option ManagedContainer → E b DeployDecision
  unfolding existing_inspected cleanup_stale_containers_on_slot conflict_text call
  existing_decision task none =
      cleanup_stale_containers_on_slot b task.agent_id task.service_key task.target_slot >>= λ a.
      return start_new
  existing_decision task (some item) =
      if not item.managed || not (text_eq item.agent_id task.agent_id)
      then fail (at_step (codes "managed_container_conflict") (conflict_text task) none)
      else call b (b.inspect_container item.container_id) >>= existing_inspected task item

  unfoldable pub ensure_deploy_container : TaskCommand → E b DeployDecision
  unfolding find_managed_container identity_of existing_decision
  ensure_deploy_container task =
      find_managed_container (identity_of task) >>= existing_decision task
