-- ===== src/Agent/Cleanup.antt =====
-- Which containers are removed: the clean-ups of internal/agent/application/taskexec/executor.go after a
-- switch, before a deployment, and when the agent starts.
use edge_pilot.Base.{
  ℕ, ◌+◌, Bool, ◌&&◌, ◌||◌, not, Option, none, some, List, [], ◌∷◌, ◌++◌, if◌then◌else◌,
}
use edge_pilot.Base.Text.{Text, is_empty, trim_space, text_eq, join}
use edge_pilot.Store.Base.{Answer, done, fault}
use edge_pilot.Model.Slot.{Slot, unset, slot_eq}
use edge_pilot.Agent.Containers.{TaskCommand, ManagedContainer, is_terminal_state}
use edge_pilot.Agent.Host.{
  Backend, E, plain, ManagedContainerIndex, ◌>>=◌, ◌>>◌, return, fail, attempt, remove_container,
  remove_image,
}
use edge_pilot.Agent.Index.{find_by_service_key_and_slot}

unfoldable pub has_slot : Slot → Bool
has_slot slot = not (slot_eq slot unset)

unfoldable pub should_preserve_managed_container_for_switch : ManagedContainer → TaskCommand → Bool
unfolding has_slot
should_preserve_managed_container_for_switch item task =
    let release_id = trim_space task.release_id in
    (not (is_empty release_id) && text_eq (trim_space item.release_id) release_id)
    || (has_slot item.slot && slot_eq item.slot task.current_live_slot)
    || (is_empty release_id && (has_slot item.slot && slot_eq item.slot task.target_slot))

unfoldable pub managed_container_labels_valid : ManagedContainer → Bool
unfolding has_slot
managed_container_labels_valid item =
    not (is_empty (trim_space item.service_key) || is_empty (trim_space item.release_id))
    && has_slot item.slot

unfoldable pub should_remove_on_startup_scan : ManagedContainer → Bool
unfolding managed_container_labels_valid
should_remove_on_startup_scan item =
    is_terminal_state item.state || not (managed_container_labels_valid item)

-- The number of containers removed and the errors, which `errors.Join` puts together.
pub record Pruned : Type 0 where
  pub removed : ℕ
  pub errors : List Text

-- The number of containers removed, or the text of the error.
unfoldable pub result_with : ℕ → List Text → Answer ℕ
result_with removed [] = done removed
result_with removed (e ∷ es) = fault (join b'\n' (e ∷ es))

abbrev pub pruned_result : Pruned → Answer ℕ
unfolding result_with
pruned_result p = result_with p.removed p.errors

abbrev pub some_items : {A : Type 0} → List (Option A) → List A
some_items [] = []
some_items (none ∷ items) = some_items items
some_items (some item ∷ items) = item ∷ some_items items

unfoldable pub items_on_slot : Slot → List (Option ManagedContainer) → List ManagedContainer
items_on_slot slot [] = []
items_on_slot slot (none ∷ items) = items_on_slot slot items
items_on_slot slot (some item ∷ items) =
    let rest = items_on_slot slot items in if slot_eq item.slot slot then item ∷ rest else rest

pub record StartupManagedContainerScanStats : Type 0 where
  pub scanned : ℕ
  pub removed : ℕ
  pub preserved : ℕ
  pub failed : ℕ

module _ (b : Backend) where
  unfoldable pub remove_container_image : Text → E b (Unit {0})
  remove_container_image image =
      if is_empty (trim_space image) then return tt else (remove_image b image >>= λ a. return tt)

  -- Removes a container and then its image; the answer is that of the container.
  unfoldable pub pruned : ManagedContainer → Answer (Unit {0}) → E b (Answer (Unit {0}))
  unfolding remove_container_image
  pruned item (fault e) = return (fault e)
  pruned item (done _) = remove_container_image item.image >> return (done tt)

  unfoldable pub prune : ManagedContainer → E b (Answer (Unit {0}))
  unfolding pruned
  prune item = remove_container b item.container_id >>= pruned item

  abbrev pub counted : Pruned → Answer (Unit {0}) → Pruned
  counted p (done _) = record p { removed = p.removed + 1 }
  counted p (fault e) = record p { errors = p.errors ++ (e ∷ []) }

  unfoldable pub prune_all : List ManagedContainer → Pruned → E b Pruned
  unfolding prune
  prune_all [] p = return p
  prune_all (item ∷ items) p = prune item >>= λ a. prune_all items (counted p a)

  -- The loop of `cleanupManagedContainers`.
  unfoldable pub prune_unless_preserved : TaskCommand → List ManagedContainer → Pruned → E b Pruned
  unfolding prune should_preserve_managed_container_for_switch
  prune_unless_preserved task [] p = return p
  prune_unless_preserved task (item ∷ items) p =
      if should_preserve_managed_container_for_switch item task
      then prune_unless_preserved task items p
      else (prune item >>= λ a. prune_unless_preserved task items (counted p a))

  unfoldable pub cleanup_listed :
      TaskCommand → Answer (List (Option ManagedContainer)) → E b (Answer ℕ)
  unfolding prune_unless_preserved pruned_result
  cleanup_listed task (fault e) = return (fault e)
  cleanup_listed task (done items) =
      prune_unless_preserved task (some_items items) (record { removed = 0; errors = [] }) >>= λ p.
      return (pruned_result p)

  unfoldable pub cleanup_managed_containers : TaskCommand → E b (Answer ℕ)
  unfolding cleanup_listed
  cleanup_managed_containers task =
      attempt b (b.list_managed_containers task.agent_id task.service_key) >>= cleanup_listed task

  unfoldable pub indexed_on_slot :
      Text → Slot → Option ManagedContainerIndex → List ManagedContainer
  unfolding find_by_service_key_and_slot
  indexed_on_slot service slot none = []
  indexed_on_slot service slot (some index) = find_by_service_key_and_slot service slot index

  unfoldable pub stale_listed : Slot → Answer (List (Option ManagedContainer)) → E b (Answer ℕ)
  unfolding prune_all pruned_result items_on_slot
  stale_listed slot (fault e) = return (fault e)
  stale_listed slot (done items) =
      prune_all (items_on_slot slot items) (record { removed = 0; errors = [] }) >>= λ p.
      return (pruned_result p)

  unfoldable pub stale_items : Text → Text → Slot → List ManagedContainer → E b (Answer ℕ)
  unfolding stale_listed
  stale_items agent service slot [] =
      attempt b (b.list_managed_containers agent service) >>= stale_listed slot
  stale_items agent service slot (item ∷ items) =
      prune_all (item ∷ items) (record { removed = 0; errors = [] }) >>= λ p.
      return (pruned_result p)

  unfoldable pub read_index : E b (Option ManagedContainerIndex)
  read_index w = return w.index w

  unfoldable pub cleanup_stale_containers_on_slot : Text → Text → Slot → E b (Answer ℕ)
  unfolding stale_items indexed_on_slot
  cleanup_stale_containers_on_slot agent service slot =
      read_index >>= λ index. stale_items agent service slot (indexed_on_slot service slot index)

  abbrev pub scan_counted :
      StartupManagedContainerScanStats → Answer (Unit {0}) → StartupManagedContainerScanStats
  scan_counted s (done _) = record s { scanned = s.scanned + 1; removed = s.removed + 1 }
  scan_counted s (fault e) = record s { scanned = s.scanned + 1; failed = s.failed + 1 }

  unfoldable pub scan :
      List ManagedContainer
      → StartupManagedContainerScanStats
      → E b StartupManagedContainerScanStats
  unfolding should_remove_on_startup_scan prune
  scan [] s = return s
  scan (item ∷ items) s =
      if should_remove_on_startup_scan item
      then (prune item >>= λ a. scan items (scan_counted s a))
      else scan items (record s { scanned = s.scanned + 1; preserved = s.preserved + 1 })

  unfoldable pub scan_listed :
      Answer (List (Option ManagedContainer)) → E b StartupManagedContainerScanStats
  unfolding scan
  scan_listed (fault e) = fail (plain e)
  scan_listed (done items) =
      scan (some_items items) (record { scanned = 0; removed = 0; preserved = 0; failed = 0 })

  unfoldable pub reconcile_managed_containers_on_startup :
      Text → E b StartupManagedContainerScanStats
  unfolding scan_listed
  reconcile_managed_containers_on_startup agent =
      attempt b (b.list_managed_containers agent []) >>= scan_listed
