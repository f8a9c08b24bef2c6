-- ===== src/Agent/Spared.antt =====
-- What a switch of traffic leaves alone: `executeTrafficSwitch` and `cleanupManagedContainers` of
-- internal/agent/application/taskexec/executor.go.
use edge_pilot.Base.{
  ℕ, ◌≡◌, refl, Bool, true, false, ◌&&◌, ◌||◌, Option, List, [], ◌∷◌, ◌++◌, inl, inr, In, All,
  arith, Bool-cases, ◌==◌,
}
use edge_pilot.Base.Text.{Text, is_empty, trim_space, text_eq, text_eq_self}
use edge_pilot.Store.Base.{Answer, done, fault}
use edge_pilot.Model.Slot.{Slot, unset, blue, green, slot_eq}
use edge_pilot.Release.Reported.{TaskUpdate}
use edge_pilot.Agent.Containers.{TaskCommand, ManagedContainer}
use edge_pilot.Agent.Host.{
  Backend, World, E, Event, sent, verified, removed, removed_image, ◌>>=◌, attempt, note, is_done,
  remove_container, remove_image, stopped,
}
use edge_pilot.Agent.Cleanup.{
  has_slot, should_preserve_managed_container_for_switch, Pruned, some_items,
  remove_container_image, pruned, prune, counted, prune_unless_preserved, cleanup_listed,
  cleanup_managed_containers,
}
use edge_pilot.Agent.Executor.{call_at, report_anyway, report_pruned, execute_traffic_switch}
use edge_pilot.Agent.Client.{sent_if, send}
use edge_pilot.Agent.Runs.{
  Frame, Runs, >>=-Runs, >>-Runs, return-Runs, or_fail-Runs, if-Runs, attempt-Runs, note-Runs,
  on_failure-Runs,
}
use edge_pilot.Agent.Clock.{Saw-one, Saw-nothing, plain_frame}

-- A container of another release than the task's, which is not in the task's live slot.
abbrev pub Replaced : TaskCommand → ManagedContainer → Type 0
Replaced task c =
    (trim_space c.release_id ≡ trim_space task.release_id → ⊥)
    × (c.slot ≡ task.current_live_slot → c.slot ≡ unset)

off_live :
    (slot live : Slot) (a c : Bool)
    → (a || (has_slot slot && slot_eq slot live) || c) ≡ false
    → slot ≡ live
    → slot ≡ unset
unfolding has_slot slot_eq
off_live unset live a c h e = refl
off_live blue unset a c h e = ground arith
off_live blue blue a c h e = ground arith
off_live blue green a c h e = ground arith
off_live green unset a c h e = ground arith
off_live green blue a c h e = ground arith
off_live green green a c h e = ground arith

-- What holds of the elements of a list holds of each.
All-In : {A : Type 0} (P : A → Type 0) (xs : List A) → ((x : A) → In x xs → P x) → All P xs
All-In P [] h = tt
All-In P (x ∷ xs) h = (h x (inl refl), All-In P xs λ y i. h y (inr i))

module _ (b : Backend) (task : TaskCommand) where
  -- A container that Docker lists for the task's service at some time.
  abbrev pub Listed : ManagedContainer → Type 0
  Listed c =
      (h : b.Host) × (items : List (Option ManagedContainer)) × (((b.list_managed_containers
            task.agent_id task.service_key h).0
          ≡ done items)
        × In c (some_items items))

  -- Where the removal of a container is asked for, it is a listed one that is replaced.
  abbrev pub Sparing : Event → Type 0
  Sparing (sent u) = Unit
  Sparing (verified ok) = Unit
  Sparing (removed id ok) =
      (c : ManagedContainer) × ((c.container_id ≡ id) × Listed c × Replaced task c)
  Sparing (removed_image image ok) = Unit

  abbrev frame : Frame b
  frame = plain_frame b Sparing

  abbrev Spares : {A : Type 0} → E b A → Type 0
  Spares m = Runs (plain_frame b Sparing) 0 m

  asked-Spares : {A : Type 0} (c : b.Host → Answer A × b.Host) → Spares (attempt b c)
  unfolding plain_frame
  asked-Spares c =
      attempt-Runs frame 0 c λ w. Saw-nothing b Sparing w (record w { host = (c w.host).1 }) refl

  noted-Spares : (e : Event) → Sparing e → Spares (note b e)
  unfolding plain_frame
  noted-Spares e h =
      note-Runs frame 0 e λ w. Saw-one b Sparing w (record w { log = e ∷ w.log }) e h refl

  image-Spares : (image : Text) → Spares (remove_container_image b image)
  unfolding remove_container_image remove_image
  image-Spares image = if-Runs frame (is_empty (trim_space image)) (return-Runs frame 0 tt) (
      >>=-Runs frame
        (>>=-Runs frame (asked-Spares _) λ a.
          >>-Runs frame (noted-Spares (removed_image image (is_done b a)) tt)
            (return-Runs frame 0 a))
        λ a. return-Runs frame 0 tt)

  pruned-Spares : (item : ManagedContainer) (a : Answer (Unit {0})) → Spares (pruned b item a)
  unfolding pruned
  pruned-Spares item (fault e) = return-Runs frame 0 _
  pruned-Spares item (done x) = >>-Runs frame (image-Spares item.image) (return-Runs frame 0 _)

  prune-Spares :
      (item : ManagedContainer) → Listed item → Replaced task item → Spares (prune b item)
  unfolding prune remove_container
  prune-Spares item listed replaced =
      >>=-Runs frame
        (>>=-Runs frame (asked-Spares _) λ a.
          >>-Runs frame
            (noted-Spares (removed item.container_id (is_done b a))
              (item, (refl, listed, replaced)))
            (return-Runs frame 0 a))
        (pruned-Spares item)

  module _ (named : is_empty (trim_space task.release_id) ≡ false) where
    other_release :
        (item : ManagedContainer)
        → should_preserve_managed_container_for_switch item task ≡ false
        → trim_space item.release_id ≡ trim_space task.release_id
        → ⊥
    unfolding should_preserve_managed_container_for_switch
    other_release item h e =
        let same : text_eq (trim_space item.release_id) (trim_space task.release_id) ≡ true =
          rw e (text_eq_self (trim_space task.release_id)) in
        ground arith

    other_slot :
        (item : ManagedContainer)
        → should_preserve_managed_container_for_switch item task ≡ false
        → item.slot ≡ task.current_live_slot
        → item.slot ≡ unset
    unfolding should_preserve_managed_container_for_switch has_slot slot_eq
    other_slot item h e = off_live item.slot task.current_live_slot _ _ h e

    doomed_item :
        (item : ManagedContainer)
        → should_preserve_managed_container_for_switch item task ≡ false
        → Replaced task item
    doomed_item item h = (other_release item h, other_slot item h)

    prune_some-Spares :
        (items : List ManagedContainer) (p : Pruned)
        → All Listed items
        → Spares (prune_unless_preserved b task items p)
    unfolding prune_unless_preserved
    prune_some-Spares [] p h = return-Runs frame 0 p
    prune_some-Spares (item ∷ items) p h =
        elim (Bool-cases (should_preserve_managed_container_for_switch item task)) [
          | inl spared ↦ rw spared (prune_some-Spares items p h.1)
          | inr doomed ↦ rw doomed (
              >>=-Runs frame (prune-Spares item h.0 (doomed_item item doomed))
                λ a. prune_some-Spares items (counted b p a) h.1)
        ]

    listed-Spares :
        (h : b.Host) (a : Answer (List (Option ManagedContainer)))
        → (b.list_managed_containers task.agent_id task.service_key h).0 ≡ a
        → Spares (cleanup_listed b task a)
    unfolding cleanup_listed
    listed-Spares h (fault e) q = return-Runs frame 0 _
    listed-Spares h (done items) q =
        >>=-Runs frame
          (prune_some-Spares (some_items items) _
            (All-In Listed (some_items items) λ c i. (h, items, (q, i))))
          λ p. return-Runs frame 0 _

    cleanup-Spares : Spares (cleanup_managed_containers b task)
    unfolding cleanup_managed_containers ◌>>=◌ attempt plain_frame
    cleanup-Spares = record {
      runs = λ w p.
          (listed-Spares w.host _ refl).runs
            (record w {
              host = (b.list_managed_containers task.agent_id task.service_key w.host).1;
            })
            tt;
    }

    sent_if-Spares : (u : TaskUpdate) (taken : Bool) → Spares (sent_if b u taken)
    unfolding sent_if stopped plain_frame
    sent_if-Spares u true = noted-Spares (sent u) tt
    sent_if-Spares u false = record { runs = λ w p. (Saw-nothing b Sparing w w refl, tt) }

    send-Spares : (u : TaskUpdate) → Spares (send b u)
    unfolding send plain_frame
    send-Spares u = record {
      runs = λ w p.
          (sent_if-Spares u (b.outbound u w.host).0).runs
            (record w { host = (b.outbound u w.host).1 }) tt;
    }

    anyway-Spares : (u : TaskUpdate) → Spares (report_anyway b (send b) u)
    unfolding report_anyway
    anyway-Spares u = on_failure-Runs frame (send-Spares u) (λ e. return-Runs frame 0 tt)

    report_pruned-Spares : (a : Answer ℕ) → Spares (report_pruned b (send b) task a)
    unfolding report_pruned
    report_pruned-Spares (fault e) = anyway-Spares _
    report_pruned-Spares (done n) =
        if-Runs frame (n == 0) (return-Runs frame 0 tt) (anyway-Spares _)

    switch-Spares : Spares (execute_traffic_switch b (send b) task)
    unfolding execute_traffic_switch call_at
    switch-Spares =
        >>-Runs frame (>>=-Runs frame (asked-Spares _) (or_fail-Runs frame 0 _)) (
          >>=-Runs frame cleanup-Spares λ a. >>-Runs frame (report_pruned-Spares a) (send-Spares _))

    -- A switch of traffic for a release that is named only asks for the removal of containers that Docker lists
    -- for the service, that are of another release, and that are not in the task's live slot, where it has one,
    -- whatever Docker and the proxy answer.
    pub switch_spares_live :
        (w : World b)
        → (more : List Event) × ((execute_traffic_switch b (send b) task w).1.log ≡ more ++ w.log)
          × All Sparing more
    unfolding plain_frame
    switch_spares_live w = (switch-Spares.runs w tt).0
