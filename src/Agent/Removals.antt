-- ===== src/Agent/Removals.antt =====
-- Which containers the clean-ups of internal/agent/application/taskexec/executor.go remove.
use edge_pilot.Base.{
  ℕ, ◌+◌, ◌≡◌, refl, ◌∙◌, ap, not, Option, List, [], ◌∷◌, length, keep, Bool-cases, inl, inr, arith,
}
use edge_pilot.Base.Text.{Text, is_empty, trim_space}
use edge_pilot.Store.Base.{Answer, done, fault}
use edge_pilot.Agent.Containers.{TaskCommand, ManagedContainer}
use edge_pilot.Agent.Host.{
  Backend, World, E, Outcome, returned, failed, unfinished, then_run, Event, sent, verified,
  removed, removed_image, ◌>>=◌, ◌>>◌, return, attempt, note, is_done, remove_container,
  remove_image,
}
use edge_pilot.Agent.Cleanup.{
  should_preserve_managed_container_for_switch, should_remove_on_startup_scan, Pruned, some_items,
  pruned_result, StartupManagedContainerScanStats, remove_container_image, pruned, prune, counted,
  prune_unless_preserved, cleanup_listed, cleanup_managed_containers, scan_counted, scan,
  scan_listed, reconcile_managed_containers_on_startup,
}

-- The containers whose removal was asked for, the latest first.
abbrev pub removals : List Event → List Text
removals [] = []
removals (sent u ∷ log) = removals log
removals (verified ok ∷ log) = removals log
removals (removed id ok ∷ log) = id ∷ removals log
removals (removed_image image ok ∷ log) = removals log

-- The identifiers of containers, the last one first, before others.
abbrev pub latest_first : List ManagedContainer → List Text → List Text
latest_first [] ids = ids
latest_first (item ∷ items) ids = latest_first items (item.container_id ∷ ids)

-- The containers that a clean-up after a switch should remove.
abbrev pub unpreserved : TaskCommand → List ManagedContainer → List ManagedContainer
unpreserved task items =
    keep (λ item. not (should_preserve_managed_container_for_switch item task)) items

module _ (b : Backend) where
  -- A step that returns a value and has asked for the removal of one container.
  Removes : {A : Type 0} → Text → World b → Outcome A × World b → Type 0
  Removes {A} id w o = (x : A) × (o.0 ≡ returned x) × (removals o.1.log ≡ id ∷ removals w.log)

  pruned-Removes :
      (w : World b) (item : ManagedContainer) (a : Answer (Unit {0}))
      → ((x : Answer (Unit {0})) × ((pruned b item a w).0 ≡ returned x)
          × (removals (pruned b item a w).1.log ≡ removals w.log))
  unfolding pruned remove_container_image return ◌>>◌ ◌>>=◌ remove_image attempt note
  pruned-Removes w item (fault e) = (fault e, refl, refl)
  pruned-Removes w item (done x) = elim (Bool-cases (is_empty (trim_space item.image))) [
    | inl none_ ↦ rw none_ (done tt, refl, refl)
    | inr some_ ↦ rw some_ (done tt, refl, refl)
  ]

  prune-Removes :
      (w : World b) (item : ManagedContainer) → Removes item.container_id w (prune b item w)
  unfolding Removes prune remove_container attempt note ◌>>=◌ ◌>>◌ return
  prune-Removes w item =
      let a = (b.remove_container item.container_id w.host).0 in
      let v : World b = record w {
        host = (b.remove_container item.container_id w.host).1;
        log = removed item.container_id (is_done b a) ∷ w.log;
      } in
      let (x, e, q) = pruned-Removes v item a in (x, e, q)

  then_known :
      {A B : Type 0} (o : Outcome A × World b) (x : A) (k : A → E b B)
      → o.0 ≡ returned x
      → then_run o k ≡ k x o.1
  then_known {A} (returned y, v) x k e = ap (λ z. k z v) (same y x e)
    where
      same : (y x : A) → returned y ≡ returned x → y ≡ x
      same y x e = cc
  then_known (failed y, v) x k e = ground arith
  then_known (unfinished, v) x k e = ground arith

  -- After a container has been removed the rest goes on.
  then_prune :
      {B : Type 0} (w : World b) (item : ManagedContainer) (k : Answer (Unit {0}) → E b B)
      → (x : Answer (Unit {0})) × (v : World b) × ((prune b item >>= k) w ≡ k x v)
        × (removals v.log ≡ item.container_id ∷ removals w.log)
  unfolding ◌>>=◌ Removes
  then_prune w item k =
      let (x, e, q) = prune-Removes w item in
      (x, (prune b item w).1, then_known (prune b item w) x k e, q)

  prune_unless-removals :
      (task : TaskCommand) (items : List ManagedContainer) (p : Pruned) (w : World b)
      → (q : Pruned) × ((prune_unless_preserved b task items p w).0 ≡ returned q)
        × (removals (prune_unless_preserved b task items p w).1.log
            ≡ latest_first (unpreserved task items) (removals w.log))
  unfolding prune_unless_preserved return keep
  prune_unless-removals task [] p w = (p, refl, refl)
  prune_unless-removals task (item ∷ items) p w =
      elim (Bool-cases (should_preserve_managed_container_for_switch item task)) [
        | inl spared ↦ rw spared (prune_unless-removals task items p w)
        | inr doomed ↦
            let (x, v, e, q) =
              then_prune w item (λ a. prune_unless_preserved b task items (counted b p a)) in
            let (r, f, g) = prune_unless-removals task items (counted b p x) v in
            rw (doomed, e) (r, f, g ∙ ap (latest_first (unpreserved task items)) q)
      ]

  -- A clean-up after a switch of traffic that gets the list of the service's containers asks for the removal of
  -- exactly those that are neither of the task's release nor in the live slot nor, where the task names no release, in
  -- its target slot, each once and in the order of the list, whether a removal fails or not.
  pub cleanup_removes_unpreserved :
      (task : TaskCommand) (w : World b) (items : List (Option ManagedContainer))
      → (b.list_managed_containers task.agent_id task.service_key w.host).0 ≡ done items
      → removals (cleanup_managed_containers b task w).1.log
        ≡ latest_first (unpreserved task (some_items items)) (removals w.log)
  unfolding cleanup_managed_containers attempt ◌>>=◌ cleanup_listed return
  cleanup_removes_unpreserved task w items h =
      let v : World b = record w {
        host = (b.list_managed_containers task.agent_id task.service_key w.host).1;
      } in
      let (q, e, r) =
        prune_unless-removals task (some_items items) (record { removed = 0; errors = [] }) v in
      rw h (
        ap (λ o. removals o.1.log)
          (then_known
            (prune_unless_preserved b task (some_items items) (record { removed = 0; errors = [] })
              v)
            q (λ p. return (pruned_result p)) e)
        ∙ r)

  abbrev Balanced : StartupManagedContainerScanStats → Type 0
  Balanced s = s.scanned ≡ s.removed + s.preserved + s.failed

  scan-removals :
      (items : List ManagedContainer) (s : StartupManagedContainerScanStats) (w : World b)
      → Balanced s
      → (r : StartupManagedContainerScanStats) × ((scan b items s w).0 ≡ returned r)
        × (Balanced r × (r.scanned ≡ s.scanned + length items))
        × (removals (scan b items s w).1.log
            ≡ latest_first (keep should_remove_on_startup_scan items) (removals w.log))
  unfolding scan return keep
  scan-removals [] s w h = (s, refl, (h, omega arith), refl)
  scan-removals (item ∷ items) s w h = elim (Bool-cases (should_remove_on_startup_scan item)) [
    | inr spared ↦
        let (r, e, (j, n), q) =
          scan-removals items (record s { scanned = s.scanned + 1; preserved = s.preserved + 1 }) w
            (omega arith) in
        rw spared (r, e, (j, omega arith), q)
    | inl doomed ↦
        let (x, v, e, q) = then_prune w item (λ a. scan b items (scan_counted b s a)) in
        let (r, f, (j, n), g) = scan-removals items (scan_counted b s x) v (counted_once x) in
        rw (doomed, e)
          (
            r,
            f,
            (j, n ∙ one_more x),
            g ∙ ap (latest_first (keep should_remove_on_startup_scan items)) q,
          )
  ]
    where
      counted_once : (x : Answer (Unit {0})) → Balanced (scan_counted b s x)
      counted_once (done _) = omega arith
      counted_once (fault e) = omega arith

      one_more :
          (x : Answer (Unit {0}))
          → (scan_counted b s x).scanned + length items ≡ s.scanned + length (item ∷ items)
      one_more (done _) = omega arith
      one_more (fault e) = omega arith

  -- A scan at the start that gets the list of the agent's containers counts each of them once, as removed,
  -- preserved or failed, and asks for the removal of exactly those that are over or lack a label, each once and
  -- in the order of the list.
  pub startup_scan_adds_up :
      (agent : Text) (w : World b) (items : List (Option ManagedContainer))
      → (b.list_managed_containers agent [] w.host).0 ≡ done items
      → (r : StartupManagedContainerScanStats) × ((reconcile_managed_containers_on_startup b agent
            w).0
          ≡ returned r)
        × ((r.scanned ≡ r.removed + r.preserved + r.failed)
            × (r.scanned ≡ length (some_items items)))
        × (removals (reconcile_managed_containers_on_startup b agent w).1.log
            ≡ latest_first (keep should_remove_on_startup_scan (some_items items)) (removals w.log))
  unfolding reconcile_managed_containers_on_startup attempt ◌>>=◌ scan_listed
  startup_scan_adds_up agent w items h =
      let v : World b = record w { host = (b.list_managed_containers agent [] w.host).1 } in
      let (r, e, (j, n), q) =
        scan-removals (some_items items)
          (record { scanned = 0; removed = 0; preserved = 0; failed = 0 }) v (omega arith) in
      rw h (r, e, (j, n ∙ from_zero (length (some_items items))), q)
    where
      from_zero : (n : ℕ) → 0 + n ≡ n
      from_zero n = omega arith
