-- ===== src/Agent/Deployed.antt =====
-- A deployment reports its success after a check that has succeeded: `executeDeploy` of
-- internal/agent/application/taskexec/executor.go.
use edge_pilot.Base.{
  Bool, false, arith, zero, ◌≡◌, refl, ap, true, ◌||◌, not, Option, none, some, List, [], ◌∷◌,
}
use edge_pilot.Base.Text.{Text, is_empty, trim_space, text_eq}
use edge_pilot.Release.Reported.{TaskUpdate, succeeded}
use edge_pilot.Agent.Containers.{
  TaskCommand, ContainerRuntime, ContainerStatus, ManagedContainer, is_terminal,
}
use edge_pilot.Agent.Host.{
  stopped, Backend, World, returned, ExecError, Event, sent, verified, note, or_fail, plain,
  remove_container,
}
use edge_pilot.Agent.Health.{success_threshold}
use edge_pilot.Agent.Checks.{normalize_health_config}
use edge_pilot.Agent.Executor.{container_update, finish, proceed, deploy_normalized, execute_deploy}
use edge_pilot.Agent.Existing.{
  DeployDecision, start_new, reuse_healthy, wait_existing, is_running, replaced, decided_on,
  same_release, existing_inspected, existing_decision, ensure_deploy_container,
}
use edge_pilot.Agent.Diagnosis.{wrap_task_failure, is_diagnosed, collect_failure_diagnostic}
use edge_pilot.Agent.Client.{sent_if, send}
use edge_pilot.Agent.Leaves.{
  Leaves, >>=-Leaves, >>-Leaves, return-Leaves, fail-Leaves, any-Leaves, if-Leaves,
  on_failure-Leaves, weaken-Leaves,
}
use edge_pilot.Agent.Healthy.{
  Recent, Fresh, Checked, verify-Leaves, Recent-le, wait-Leaves, positive_threshold,
}

module _ (b : Backend) where
  -- The last event is the report of the task's success, after a check that has succeeded.
  Announced : Text → World b → Type 0
  Announced id w =
      (u : TaskUpdate) × (rest : List Event) × ((w.log ≡ sent u ∷ verified true ∷ rest)
        × (u.status ≡ succeeded)
        × (u.task_id ≡ id))

  sent_if-Leaves :
      (task : TaskCommand) (u : TaskUpdate) (taken : Bool)
      → u.status ≡ succeeded
      → u.task_id ≡ task.task_id
      → Leaves (Fresh b 1) (λ _. Announced task.task_id) (sent_if b u taken)
  unfolding sent_if note stopped Announced
  sent_if-Leaves task u false s i = record { leaves = λ w x p e. ground arith }
  sent_if-Leaves task u true s i = record { leaves = λ w x p e. announced u w.log p s i }
    where
      announced :
          (u : TaskUpdate) (log : List Event)
          → Recent 1 log
          → u.status ≡ succeeded
          → u.task_id ≡ task.task_id
          → (v : TaskUpdate) × (rest : List Event) × ((sent u ∷ log ≡ sent v ∷ verified true ∷ rest)
              × (v.status ≡ succeeded)
              × (v.task_id ≡ task.task_id))
      announced u [] p s i = absurd p
      announced u (e ∷ log) p s i = (u, log, (ap (λ x. sent u ∷ x ∷ log) p.0, s, i))

  send-Leaves :
      (task : TaskCommand) (step : Text) (r : ContainerRuntime)
      → Leaves
          (Fresh b 1)
          (λ _. Announced task.task_id)
          (send b (container_update task succeeded step r))
  unfolding send container_update
  send-Leaves task step r = record {
    leaves = λ w x p e.
        let u = container_update task succeeded step r in
        (sent_if-Leaves task u (b.outbound u w.host).0 refl refl).leaves
          (record w { host = (b.outbound u w.host).1 }) x p e;
  }

  wrap-Leaves :
      (A : Type 0) (P : World b → Type 0) (Q : A → World b → Type 0) (runtime : ContainerRuntime)
      (e : ExecError)
      → Leaves P Q (wrap_task_failure b {A = A} runtime e)
  unfolding wrap_task_failure
  wrap-Leaves A P Q runtime e =
      if-Leaves (is_diagnosed (trim_space runtime.container_id) e) (λ _. fail-Leaves P Q _)
        (λ _.
          >>=-Leaves (any-Leaves P (collect_failure_diagnostic b runtime)) λ d. fail-Leaves _ Q _)

  -- What a decision to reuse a container rests on.
  Decided : DeployDecision → World b → Type 0
  Decided start_new w = Unit
  Decided (reuse_healthy r) w = Recent 1 w.log
  Decided (wait_existing r) w = Unit

  replaced-Leaves : (P : World b → Type 0) (id : Text) → Leaves P Decided (replaced b id)
  unfolding replaced Decided
  replaced-Leaves P id = >>=-Leaves (any-Leaves P (remove_container b id)) λ a.
      >>-Leaves (any-Leaves _ (or_fail b plain a)) (return-Leaves _ Decided start_new (λ w p. tt))

  decided_on-Leaves :
      (runtime : ContainerRuntime) (status : Option ContainerStatus) (e : Option Text)
      → Leaves (Checked b zero e) Decided (decided_on b runtime status e)
  unfolding decided_on Decided Checked
  decided_on-Leaves runtime status none = return-Leaves _ Decided _ (λ w p. p)
  decided_on-Leaves runtime status (some e) =
      if-Leaves (is_running status) (λ _. return-Leaves _ Decided _ (λ w p. tt))
        (λ _. replaced-Leaves _ runtime.container_id)

  same_release-Leaves :
      (task : TaskCommand) (id : Text) (status : Option ContainerStatus) (address : Text)
      (P : World b → Type 0)
      → Leaves P Decided (same_release b task id status address)
  unfolding same_release
  same_release-Leaves task id status address P =
      >>=-Leaves
        (if-Leaves (is_empty address)
          (λ _. return-Leaves P (Checked b zero) (some []) (λ w p. checked_none w))
          (λ _. record {
            leaves = λ w x p e. (verify-Leaves b zero task status address).leaves w x tt e;
          }))
        (decided_on-Leaves _ status)
    where
      checked_none : (w : World b) → Checked b zero (some []) w
      checked_none w = unfold Checked in tt

  existing-Leaves :
      (task : TaskCommand) (item : Option ManagedContainer) (P : World b → Type 0)
      → Leaves P Decided (existing_decision b task item)
  unfolding existing_decision existing_inspected
  existing-Leaves task none P =
      >>=-Leaves (any-Leaves P _)
        λ a. return-Leaves _ Decided start_new (λ w p. unfold Decided in tt)
  existing-Leaves task (some item) P =
      if-Leaves (not item.managed || not (text_eq item.agent_id task.agent_id))
        (λ _. fail-Leaves P Decided _)
        (λ _. >>=-Leaves (any-Leaves P _) λ status.
          if-Leaves (is_terminal status) (λ _. replaced-Leaves _ item.container_id)
            (λ _. >>=-Leaves (any-Leaves _ _) λ a.
              if-Leaves (text_eq item.release_id task.release_id)
                (λ _. same_release-Leaves task item.container_id status _ _)
                (λ _. replaced-Leaves _ item.container_id)))

  finish-Leaves :
      (task : TaskCommand) (runtime : ContainerRuntime) (P : World b → Type 0)
      → Leaves P (λ _. Announced task.task_id) (finish b (send b) task runtime)
  unfolding finish
  finish-Leaves task runtime P =
      >>=-Leaves
        (on_failure-Leaves
          (weaken-Leaves
            (λ r w p.
              Recent-le b 1 (success_threshold b task (send b)) w.log
                (positive_threshold b task (send b)) p)
            (wait-Leaves b task (send b) runtime P))
          (wrap-Leaves ContainerRuntime _ (λ _. Fresh b 1) runtime))
        λ r. send-Leaves task _ r

  proceed-Leaves :
      (task : TaskCommand) (d : DeployDecision)
      → Leaves (Decided d) (λ _. Announced task.task_id) (proceed b (send b) task d)
  unfolding proceed Decided
  proceed-Leaves task start_new =
      >>=-Leaves (any-Leaves _ _)
        λ runtime. >>-Leaves (any-Leaves _ _) (finish-Leaves task runtime _)
  proceed-Leaves task (reuse_healthy runtime) = send-Leaves task _ runtime
  proceed-Leaves task (wait_existing runtime) =
      >>-Leaves (any-Leaves _ _) (finish-Leaves task runtime _)

  normalized-Leaves :
      (task : TaskCommand) (P : World b → Type 0)
      → Leaves P (λ _. Announced task.task_id) (deploy_normalized b (send b) task)
  unfolding deploy_normalized ensure_deploy_container
  normalized-Leaves task P = >>-Leaves (any-Leaves P _) (
      >>-Leaves (any-Leaves _ _) (
        >>=-Leaves (>>=-Leaves (any-Leaves _ _) λ item. existing-Leaves task item _)
          (proceed-Leaves task)))

  -- A deployment that returns without an error has just reported the success of its task, and the event right before
  -- that is a check of the container's health that has succeeded, whether the container is new or was there.
  pub deployed_after_check :
      (task : TaskCommand) (w : World b)
      → (execute_deploy b (send b) task w).0 ≡ returned tt
      → (u : TaskUpdate) × (rest : List Event) × (((execute_deploy b (send b) task w).1.log
            ≡ sent u ∷ verified true ∷ rest)
          × (u.status ≡ succeeded)
          × (u.task_id ≡ task.task_id))
  unfolding execute_deploy Announced normalize_health_config
  deployed_after_check task w e =
      (>>-Leaves (any-Leaves (λ _. Unit {0}) _)
          (normalized-Leaves (normalize_health_config task) _)).leaves
        w tt tt e
