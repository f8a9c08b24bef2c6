-- ===== src/Agent/Index.antt =====
-- The index of managed containers: internal/agent/application/containerindex/index.go. Its lock makes each
-- operation one step.
use edge_pilot.Base.{
  ℕ, ◌+◌, ◌-◌, Bool, ◌&&◌, ◌||◌, not, Option, none, some, List, [], ◌∷◌, ◌++◌, ◌==◌, length, keep,
  if◌then◌else◌,
}
use edge_pilot.Base.Int.{pos}
use edge_pilot.Base.Text.{Text, codes, is_empty, trim_space, text_eq}
use edge_pilot.Store.Base.{Answer, done, fault}
use edge_pilot.Model.Slot.{Slot, unset, blue, green, slot_eq}
use edge_pilot.Agent.Containers.{
  ManagedContainer, ManagedContainerIdentity, managed_slot_name, decimal,
}
use edge_pilot.Agent.Host.{
  Backend, E, ManagedContainerIndex, ◌>>=◌, ◌>>◌, return, attempt, read_clock,
}

unfoldable pub identity_key : Text → Text → Slot → Text
unfolding managed_slot_name
identity_key service release slot =
    let service_key = trim_space service in
    let release_id = trim_space release in
    let slot_value = trim_space (managed_slot_name slot) in
    if is_empty service_key
    then []
    else if not (is_empty release_id)
    then codes "release|" ++ (service_key ++ (b'|' ∷ release_id))
    else if is_empty slot_value || text_eq slot_value (codes "unknown")
    then []
    else codes "slot|" ++ (service_key ++ (b'|' ∷ slot_value))

unfoldable pub lookup : Text → List (Text × List ManagedContainer) → List ManagedContainer
lookup key [] = []
lookup key ((k, items) ∷ rest) = if text_eq k key then items else lookup key rest

-- `index[key] = append(index[key], item)`.
unfoldable pub put :
    Text
    → ManagedContainer
    → List (Text × List ManagedContainer)
    → List (Text × List ManagedContainer)
put key item [] = (key, item ∷ []) ∷ []
put key item ((k, items) ∷ rest) =
    if text_eq k key then (k, items ++ (item ∷ [])) ∷ rest else (k, items) ∷ put key item rest

pub record Grouped : Type 0 where
  pub index : List (Text × List ManagedContainer)
  pub conflicts : ℕ

-- A round of the loop of `RefreshNow`.
unfoldable pub grouped_with : ManagedContainer → Grouped → Grouped
unfolding identity_key lookup put
grouped_with item g =
    let key = identity_key item.service_key item.release_id item.slot in
    let index = put key item g.index in
    if is_empty key then g else record {
      index = index;
      conflicts = if length (lookup key index) == 2 then g.conflicts + 1 else g.conflicts;
    }

unfoldable pub group_from : Grouped → List (Option ManagedContainer) → Grouped
unfolding grouped_with
group_from g [] = g
group_from g (none ∷ items) = group_from g items
group_from g (some item ∷ items) = group_from (grouped_with item g) items

unfoldable pub clone_containers : List (Option ManagedContainer) → List ManagedContainer
clone_containers [] = []
clone_containers (none ∷ items) = clone_containers items
clone_containers (some item ∷ items) = item ∷ clone_containers items

unfoldable pub slot_text : Slot → Text
slot_text blue = codes "SLOT_BLUE"
slot_text green = codes "SLOT_GREEN"
slot_text unset = codes "SLOT_UNSPECIFIED"

unfoldable pub only_item :
    ManagedContainerIdentity → List ManagedContainer → Answer (Option ManagedContainer)
unfolding slot_text decimal
only_item identity [] = done none
only_item identity (item ∷ []) = done (some item)
only_item identity (a ∷ c ∷ rest) = fault (
    codes "managed container conflict: found "
    ++ (decimal (pos (length (a ∷ c ∷ rest)))
        ++ (codes " containers for serviceKey="
            ++ (identity.service_key
                ++ (codes " releaseId="
                    ++ (identity.release_id ++ (codes " slot=" ++ slot_text identity.slot)))))))

unfoldable pub find_by_identity :
    ManagedContainerIdentity → ManagedContainerIndex → Answer (Option ManagedContainer)
unfolding identity_key lookup only_item
find_by_identity identity index =
    let key = identity_key identity.service_key identity.release_id identity.slot in
    if is_empty key then done none else only_item identity (lookup key index.identity_index)

unfoldable pub is_on_slot : Text → Slot → ManagedContainer → Bool
is_on_slot service slot item = text_eq item.service_key service && slot_eq item.slot slot

unfoldable pub find_by_service_key_and_slot :
    Text → Slot → ManagedContainerIndex → List ManagedContainer
unfolding is_on_slot
find_by_service_key_and_slot service slot index =
    if is_empty (trim_space service)
    then []
    else keep (is_on_slot (trim_space service) slot) index.containers

unfoldable pub failed_index : ℕ → ℕ → Text → ManagedContainerIndex → ManagedContainerIndex
failed_index now duration text index = record index {
  stats = record index.stats { last_duration = duration; last_refresh_at = now; last_error = text };
}

unfoldable pub refreshed_index : ℕ → ℕ → List (Option ManagedContainer) → ManagedContainerIndex
unfolding group_from clone_containers
refreshed_index now duration items =
    let g = group_from (record { index = []; conflicts = 0 }) items in
    record {
      containers = clone_containers items;
      identity_index = g.index;
      stats = record {
        total_managed = length items;
        identity_conflicts = g.conflicts;
        last_refresh_at = now;
        last_duration = duration;
        last_error = [];
      };
    }

module _ (b : Backend) where
  unfoldable pub set_index : ManagedContainerIndex → E b (Unit {0})
  set_index index w = return tt (record w { index = some index })

  unfoldable pub refreshed :
      ℕ → ManagedContainerIndex → Answer (List (Option ManagedContainer)) → E b (Answer (Unit {0}))
  unfolding set_index
  refreshed start index (fault text) = do
    now ← read_clock b
    set_index (failed_index now (now - start) text index)
    return (fault text)
  refreshed start index (done items) = do
    now ← read_clock b
    set_index (refreshed_index now (now - start) items)
    return (done tt)

  -- `RefreshNow`, with its error as a value.
  unfoldable pub refresh_now : ManagedContainerIndex → E b (Answer (Unit {0}))
  unfolding refreshed
  refresh_now index = do
    start ← read_clock b
    answer ← attempt b (b.list_managed_containers b.agent_id [])
    refreshed start index answer
