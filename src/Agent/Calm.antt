-- ===== src/Agent/Calm.antt =====
-- The steps of the executor of internal/agent/application/taskexec/executor.go before it reports the end of
-- a task: they end, and what they report is that the task is on its way.
use edge_pilot.Base.{ℕ, ◌≤◌, refl, ◌||◌, not, Option, none, some, List, [], ◌∷◌, arith}
use edge_pilot.Base.Text.{Text, is_empty, trim_space, text_eq}
use edge_pilot.Store.Base.{Answer, done, fault}
use edge_pilot.Model.Slot.{Slot}
use edge_pilot.Agent.Containers.{
  TaskCommand, ContainerRuntime, ContainerStatus, ManagedContainer, ManagedContainerIdentity,
  is_terminal,
}
use edge_pilot.Agent.Host.{
  Backend, E, ExecError, plain, removed, removed_image, ManagedContainerIndex, return, attempt,
  read_clock, is_done, remove_container, remove_image,
}
use edge_pilot.Agent.Index.{set_index, refreshed, refresh_now}
use edge_pilot.Agent.Cleanup.{
  should_preserve_managed_container_for_switch, Pruned, some_items, remove_container_image, pruned,
  prune, counted, prune_all, prune_unless_preserved, cleanup_listed, cleanup_managed_containers,
  stale_listed, stale_items, read_index, cleanup_stale_containers_on_slot,
}
use edge_pilot.Agent.Executor.{call_at}
use edge_pilot.Agent.Existing.{
  DeployDecision, start_new, is_running, found_in_index, or_asked, look_up_index,
  find_managed_container, replaced, decided_on, same_release, existing_inspected, existing_decision,
  ensure_deploy_container,
}
use edge_pilot.Agent.Diagnosis.{
  is_diagnosed, diagnosed, collect_failure_diagnostic, wrap_task_failure,
}
use edge_pilot.Agent.Runs.{
  Frame, Runs, >>=-Runs, >>-Runs, return-Runs, fail-Runs, or_fail-Runs, if-Runs,
}
use edge_pilot.Agent.Clock.{HostLaws, Progress, Saw-nothing, task_frame}
use edge_pilot.Agent.Waits.{asked-Steady, called-Steady, noted-Steady, verify-Steady}

module _ (b : Backend) (laws : HostLaws b) (id : Text) (t : ℕ) where
  abbrev frame : Frame b
  frame = task_frame b id

  abbrev pub Calm : {A : Type 0} → E b A → Type 0
  Calm m = Runs (task_frame b id) t m

  asked-Calm :
      {A : Type 0} (c : b.Host → Answer A × b.Host)
      → ((h : b.Host) → b.clock h ≤ b.clock (c h).1)
      → Calm (attempt b c)
  asked-Calm c law = asked-Steady b laws id t c law

  remove-Calm : (container : Text) → Calm (remove_container b container)
  unfolding remove_container
  remove-Calm container = >>=-Runs frame (asked-Calm _ (laws.remove_forward container)) λ a.
      >>-Runs frame (noted-Steady b laws id t (removed container (is_done b a)) tt)
        (return-Runs frame t a)

  remove_image-Calm : (image : Text) → Calm (remove_image b image)
  unfolding remove_image
  remove_image-Calm image = >>=-Runs frame (asked-Calm _ (laws.image_removed_forward image)) λ a.
      >>-Runs frame (noted-Steady b laws id t (removed_image image (is_done b a)) tt)
        (return-Runs frame t a)

  container_image-Calm : (image : Text) → Calm (remove_container_image b image)
  unfolding remove_container_image
  container_image-Calm image =
      if-Runs frame (is_empty (trim_space image)) (return-Runs frame t tt)
        (>>=-Runs frame (remove_image-Calm image) λ a. return-Runs frame t tt)

  pruned-Calm : (item : ManagedContainer) (a : Answer (Unit {0})) → Calm (pruned b item a)
  unfolding pruned
  pruned-Calm item (fault e) = return-Runs frame t _
  pruned-Calm item (done x) =
      >>-Runs frame (container_image-Calm item.image) (return-Runs frame t _)

  prune-Calm : (item : ManagedContainer) → Calm (prune b item)
  unfolding prune
  prune-Calm item = >>=-Runs frame (remove-Calm item.container_id) (pruned-Calm item)

  prune_all-Calm : (items : List ManagedContainer) (p : Pruned) → Calm (prune_all b items p)
  unfolding prune_all
  prune_all-Calm [] p = return-Runs frame t p
  prune_all-Calm (item ∷ items) p =
      >>=-Runs frame (prune-Calm item) λ a. prune_all-Calm items (counted b p a)

  prune_some-Calm :
      (task : TaskCommand) (items : List ManagedContainer) (p : Pruned)
      → Calm (prune_unless_preserved b task items p)
  unfolding prune_unless_preserved
  prune_some-Calm task [] p = return-Runs frame t p
  prune_some-Calm task (item ∷ items) p =
      if-Runs frame (should_preserve_managed_container_for_switch item task)
        (prune_some-Calm task items p)
        (>>=-Runs frame (prune-Calm item) λ a. prune_some-Calm task items (counted b p a))

  cleanup_listed-Calm :
      (task : TaskCommand) (a : Answer (List (Option ManagedContainer)))
      → Calm (cleanup_listed b task a)
  unfolding cleanup_listed
  cleanup_listed-Calm task (fault e) = return-Runs frame t _
  cleanup_listed-Calm task (done items) =
      >>=-Runs frame (prune_some-Calm task (some_items items) _) λ p. return-Runs frame t _

  pub cleanup-Calm : (task : TaskCommand) → Calm (cleanup_managed_containers b task)
  unfolding cleanup_managed_containers
  cleanup-Calm task =
      >>=-Runs frame (asked-Calm _ (laws.list_forward task.agent_id task.service_key))
        (cleanup_listed-Calm task)

  stale_listed-Calm :
      (slot : Slot) (a : Answer (List (Option ManagedContainer))) → Calm (stale_listed b slot a)
  unfolding stale_listed
  stale_listed-Calm slot (fault e) = return-Runs frame t _
  stale_listed-Calm slot (done items) =
      >>=-Runs frame (prune_all-Calm _ _) λ p. return-Runs frame t _

  stale_items-Calm :
      (agent service : Text) (slot : Slot) (items : List ManagedContainer)
      → Calm (stale_items b agent service slot items)
  unfolding stale_items
  stale_items-Calm agent service slot [] =
      >>=-Runs frame (asked-Calm _ (laws.list_forward agent service)) (stale_listed-Calm slot)
  stale_items-Calm agent service slot (item ∷ items) =
      >>=-Runs frame (prune_all-Calm (item ∷ items) (record { removed = 0; errors = [] }))
        λ p. return-Runs frame t _

  -- What changes neither the host nor the log.
  index_read-Calm : Calm (read_index b)
  unfolding read_index return task_frame
  index_read-Calm = record { runs = λ w p. ((task_frame b id).stay w, tt) }

  index_set-Calm : (index : ManagedContainerIndex) → Calm (set_index b index)
  unfolding set_index return task_frame
  index_set-Calm index = record {
    runs = λ w p.
        ((omega arith, Saw-nothing b (Progress id) w (record w { index = some index }) refl), tt);
  }

  now-Calm : Calm (read_clock b)
  unfolding read_clock task_frame
  now-Calm = record { runs = λ w p. ((task_frame b id).stay w, tt) }

  stale-Calm :
      (agent service : Text) (slot : Slot)
      → Calm (cleanup_stale_containers_on_slot b agent service slot)
  unfolding cleanup_stale_containers_on_slot
  stale-Calm agent service slot =
      >>=-Runs frame index_read-Calm λ index. stale_items-Calm agent service slot _

  refreshed-Calm :
      (start : ℕ) (index : ManagedContainerIndex) (a : Answer (List (Option ManagedContainer)))
      → Calm (refreshed b start index a)
  unfolding refreshed
  refreshed-Calm start index (fault e) =
      >>=-Runs frame now-Calm λ now. >>-Runs frame (index_set-Calm _) (return-Runs frame t _)
  refreshed-Calm start index (done items) =
      >>=-Runs frame now-Calm λ now. >>-Runs frame (index_set-Calm _) (return-Runs frame t _)

  refresh-Calm : (index : ManagedContainerIndex) → Calm (refresh_now b index)
  unfolding refresh_now
  refresh-Calm index = >>=-Runs frame now-Calm λ start.
      >>=-Runs frame (asked-Calm _ (laws.list_forward b.agent_id [])) (refreshed-Calm start index)

  found-Calm :
      (identity : ManagedContainerIdentity) (index : Option ManagedContainerIndex)
      (a : Answer (Unit {0}))
      → Calm (found_in_index b identity index a)
  unfolding found_in_index
  found-Calm identity none a = return-Runs frame t none
  found-Calm identity (some index) (fault e) = return-Runs frame t none
  found-Calm identity (some index) (done x) = or_fail-Runs frame t plain _

  look_up-Calm :
      (identity : ManagedContainerIdentity) (index : Option ManagedContainerIndex)
      → Calm (look_up_index b identity index)
  unfolding look_up_index
  look_up-Calm identity none = return-Runs frame t none
  look_up-Calm identity (some index) =
      >>=-Runs frame (refresh-Calm index)
        λ a. >>=-Runs frame index_read-Calm λ index'. found-Calm identity index' a

  or_asked-Calm :
      (identity : ManagedContainerIdentity) (item : Option ManagedContainer)
      → Calm (or_asked b identity item)
  unfolding or_asked
  or_asked-Calm identity (some item) = return-Runs frame t _
  or_asked-Calm identity none = called-Steady b laws id t _ (laws.find_forward identity)

  find-Calm : (identity : ManagedContainerIdentity) → Calm (find_managed_container b identity)
  unfolding find_managed_container
  find-Calm identity =
      >>=-Runs frame index_read-Calm
        λ index. >>=-Runs frame (look_up-Calm identity index) (or_asked-Calm identity)

  replaced-Calm : (container : Text) → Calm (replaced b container)
  unfolding replaced
  replaced-Calm container =
      >>=-Runs frame (remove-Calm container)
        λ a. >>-Runs frame (or_fail-Runs frame t plain a) (return-Runs frame t start_new)

  decided_on-Calm :
      (runtime : ContainerRuntime) (status : Option ContainerStatus) (e : Option Text)
      → Calm (decided_on b runtime status e)
  unfolding decided_on
  decided_on-Calm runtime status none = return-Runs frame t _
  decided_on-Calm runtime status (some e) =
      if-Runs frame (is_running status) (return-Runs frame t _) (replaced-Calm runtime.container_id)

  same_release-Calm :
      (task : TaskCommand) (container : Text) (status : Option ContainerStatus) (address : Text)
      → Calm (same_release b task container status address)
  unfolding same_release
  same_release-Calm task container status address =
      >>=-Runs frame
        (if-Runs frame (is_empty address) (return-Runs frame t _)
          (verify-Steady b laws id t task status address))
        (decided_on-Calm _ status)

  inspected-Calm :
      (task : TaskCommand) (item : ManagedContainer) (status : Option ContainerStatus)
      → Calm (existing_inspected b task item status)
  unfolding existing_inspected
  inspected-Calm task item status =
      if-Runs frame (is_terminal status) (replaced-Calm item.container_id) (
        >>=-Runs frame (asked-Calm _ (laws.address_forward item.container_id task.container_port))
          λ a.
            if-Runs frame (text_eq item.release_id task.release_id)
              (same_release-Calm task item.container_id status _) (replaced-Calm item.container_id))

  existing-Calm :
      (task : TaskCommand) (item : Option ManagedContainer) → Calm (existing_decision b task item)
  unfolding existing_decision
  existing-Calm task none =
      >>=-Runs frame (stale-Calm task.agent_id task.service_key task.target_slot)
        λ a. return-Runs frame t start_new
  existing-Calm task (some item) =
      if-Runs frame (not item.managed || not (text_eq item.agent_id task.agent_id))
        (fail-Runs frame DeployDecision t _)
        (>>=-Runs frame (called-Steady b laws id t _ (laws.inspect_forward item.container_id))
          (inspected-Calm task item))

  pub ensure-Calm : (task : TaskCommand) → Calm (ensure_deploy_container b task)
  unfolding ensure_deploy_container
  ensure-Calm task = >>=-Runs frame (find-Calm _) (existing-Calm task)

  pub call_at-Calm :
      (step : Text) (c : b.Host → Answer (Unit {0}) × b.Host)
      → ((h : b.Host) → b.clock h ≤ b.clock (c h).1)
      → Calm (call_at b step c)
  unfolding call_at
  call_at-Calm step c law = >>=-Runs frame (asked-Calm c law) (or_fail-Runs frame t _)

  diagnosed-Calm :
      (runtime : ContainerRuntime) (health logs : Text) (a : Answer (Unit {0}))
      → Calm (diagnosed b runtime health logs a)
  unfolding diagnosed
  diagnosed-Calm runtime health logs a =
      >>-Runs frame
        (if-Runs frame (is_done b a) (container_image-Calm runtime.image) (return-Runs frame t tt))
        (return-Runs frame t _)

  collect-Calm : (runtime : ContainerRuntime) → Calm (collect_failure_diagnostic b runtime)
  unfolding collect_failure_diagnostic
  collect-Calm runtime =
      if-Runs frame (is_empty (trim_space runtime.container_id)) (return-Runs frame t _) (
        >>=-Runs frame (asked-Calm _ (laws.inspect_forward _)) λ status.
          >>=-Runs frame (asked-Calm _ (laws.logs_forward _ _ _))
            λ logs. >>=-Runs frame (remove-Calm _) λ a. diagnosed-Calm runtime _ _ a)

  pub wrap-Calm :
      (A : Type 0) (runtime : ContainerRuntime) (e : ExecError)
      → Calm (wrap_task_failure b {A = A} runtime e)
  unfolding wrap_task_failure
  wrap-Calm A runtime e =
      if-Runs frame (is_diagnosed (trim_space runtime.container_id) e) (fail-Runs frame A t e)
        (>>=-Runs frame (collect-Calm runtime) λ d. fail-Runs frame A t _)
