-- ===== src/Agent/Reported.antt =====
-- Each task that an agent takes up is reported to its end exactly once:
-- internal/agent/application/taskexec/executor.go and `handleTask` of adapter/grpc/agent/client.go.
use edge_pilot.Base.{
  ℕ, zero, ◌≡◌, refl, ◌∙◌, ap, Bool, false, ◌==◌, not, ◌⊎◌, Option, none, some, List, [], ◌∷◌, ◌++◌,
  All, any, keep, Bool-cases, inl, inr, arith,
}
use edge_pilot.Base.Text.{Text, text_eq}
use edge_pilot.Store.Base.{Answer, done, fault}
use edge_pilot.Release.Reported.{TaskUpdate, running, succeeded, failed}
use edge_pilot.Agent.Containers.{
  TaskType, unspecified, deploy_green, switch_traffic, rollback, cleanup_old, TaskCommand,
  ContainerRuntime,
}
use edge_pilot.Agent.Host.{
  Backend, World, E, Outcome, returned, unfinished, error_text, Event, sent, rescue, then_run,
  ◌>>=◌, ◌>>◌, return, on_failure, note, TaskFailureDiagnostic,
}
use edge_pilot.Agent.Checks.{normalize_health_config, running_update}
use edge_pilot.Agent.Executor.{
  container_update, succeeded_update, finish, proceed, deploy_normalized, execute_deploy,
  report_anyway, report_pruned, execute_traffic_switch, execute_type, execute,
}
use edge_pilot.Agent.Existing.{DeployDecision, start_new, reuse_healthy, wait_existing}
use edge_pilot.Agent.Client.{
  reported_failure, failed_update, try_start, done_running, send, report_failure, run_task,
  handle_started, handle_task,
}
use edge_pilot.Agent.Runs.{
  Frame, Ends, EndsAs, on_failure-Runs, return-Runs, if-Runs, >>=-Ends, >>-Ends, fail-Ends,
}
use edge_pilot.Agent.Clock.{HostLaws, Progress, Saw-one, Saw-nothing, task_frame}
use edge_pilot.Agent.Waits.{called-Steady, wait-Steady}
use edge_pilot.Agent.Calm.{Calm, cleanup-Calm, ensure-Calm, call_at-Calm, wrap-Calm}

abbrev Success : Text → TaskUpdate → Type 0
Success id u = (u.status ≡ succeeded) × (u.task_id ≡ id)

module _ (b : Backend) (laws : HostLaws b) (id : Text) (t : ℕ) where
  abbrev frame : Frame b
  frame = task_frame b id

  -- The step sends no end, or it sends the success at the very end and returns.
  abbrev Closes : E b (Unit {0}) → Type 0
  Closes m = Ends (task_frame b id) (Success id) t m

  sent-Steady :
      (s : ℕ) (u : TaskUpdate) → u.status ≡ running → u.task_id ≡ id → Calm b laws id s (send b u)
  unfolding send task_frame note
  sent-Steady s u r i = record {
    runs = λ w p.
        let v : World b = record w { host = (b.outbound u w.host).1 } in
        rw (laws.outbound_takes u w.host) (
          (
            laws.outbound_forward u w.host,
            Saw-one b (Progress id) w (record v { log = sent u ∷ w.log }) (sent u) (r, i) refl,
          ),
          tt,
        );
  }

  sent-Calm : (u : TaskUpdate) → u.status ≡ running → u.task_id ≡ id → Calm b laws id t (send b u)
  sent-Calm u s i = sent-Steady t u s i

  sent-Closes : (u : TaskUpdate) → u.status ≡ succeeded → u.task_id ≡ id → Closes (send b u)
  unfolding send task_frame note
  sent-Closes u s i = record {
    ends = λ w p.
        let v : World b = record w { host = (b.outbound u w.host).1 } in
        rw (laws.outbound_takes u w.host) (
          v,
          u,
          ((laws.outbound_forward u w.host, Saw-nothing b (Progress id) w v refl), refl, (s, i)),
        );
  }

  module _ (task : TaskCommand) (own : task.task_id ≡ id) where
    progress-Calm :
        (step container message : Text)
        → Calm b laws id t (send b (running_update task step container message))
    unfolding running_update
    progress-Calm step container message = sent-Calm _ refl own

    finish-Closes : (runtime : ContainerRuntime) → Closes (finish b (send b) task runtime)
    unfolding finish container_update
    finish-Closes runtime =
        >>=-Ends frame
          (on_failure-Runs frame
            (wait-Steady b laws id task (send b) (λ s u r i. sent-Steady s u r (i ∙ own)) t runtime)
            (wrap-Calm b laws id t ContainerRuntime runtime))
          λ r. sent-Closes _ refl own

    proceed-Closes : (d : DeployDecision) → Closes (proceed b (send b) task d)
    unfolding proceed container_update
    proceed-Closes (reuse_healthy runtime) = sent-Closes _ refl own
    proceed-Closes (wait_existing runtime) =
        >>-Ends frame (sent-Calm _ refl own) (finish-Closes runtime)
    proceed-Closes start_new =
        >>=-Ends frame (called-Steady b laws id t _ (laws.deploy_forward task))
          λ runtime. >>-Ends frame (sent-Calm _ refl own) (finish-Closes runtime)

    deploy-Closes : Closes (deploy_normalized b (send b) task)
    unfolding deploy_normalized
    deploy-Closes = >>-Ends frame (call_at-Calm b laws id t _ _ (laws.image_forward _ task)) (
        >>-Ends frame (progress-Calm _ _ _)
          (>>=-Ends frame (ensure-Calm b laws id t task) proceed-Closes))

    anyway-Calm :
        (step message : Text)
        → Calm b laws id t (report_anyway b (send b) (running_update task step [] message))
    unfolding report_anyway
    anyway-Calm step message =
        on_failure-Runs frame (progress-Calm step [] message) (λ e. return-Runs frame t tt)

    pruned-Calm : (a : Answer ℕ) → Calm b laws id t (report_pruned b (send b) task a)
    unfolding report_pruned
    pruned-Calm (fault e) = anyway-Calm _ e
    pruned-Calm (done n) = if-Runs frame (n == 0) (return-Runs frame t tt) (anyway-Calm _ _)

    switch-Closes : Closes (execute_traffic_switch b (send b) task)
    unfolding execute_traffic_switch succeeded_update
    switch-Closes = >>-Ends frame (call_at-Calm b laws id t _ _ laws.ready_forward) (
        >>=-Ends frame (cleanup-Calm b laws id t task)
          λ a. >>-Ends frame (pruned-Calm a) (sent-Closes _ refl own))

  type-Closes :
      (task : TaskCommand) (type : TaskType)
      → task.task_id ≡ id
      → Closes (execute_type b (send b) task type)
  unfolding execute_type execute_deploy normalize_health_config succeeded_update
  type-Closes task unspecified own = fail-Ends frame (Unit {0}) (Success id) t _
  type-Closes task deploy_green own =
      >>-Ends frame (call_at-Calm b laws id t _ _ laws.ready_forward)
        (deploy-Closes (normalize_health_config task) own)
  type-Closes task switch_traffic own = switch-Closes task own
  type-Closes task rollback own = switch-Closes task own
  type-Closes task cleanup_old own = sent-Closes _ refl own

  execute-Closes : (task : TaskCommand) → task.task_id ≡ id → Closes (execute b (send b) task)
  unfolding execute
  execute-Closes task own =
      >>-Ends frame (progress-Calm task own _ _ _) (type-Closes task task.type own)

any-keep : {A : Type 0} (p : A → Bool) (xs : List A) → any p (keep (λ x. not (p x)) xs) ≡ false
unfolding any keep
any-keep p [] = refl
any-keep p (x ∷ xs) = elim (Bool-cases (p x)) [
  | inl yes_ ↦ rw yes_ (any-keep p xs)
  | inr no_ ↦ rw (no_, any, no_) (any-keep p xs)
]

module _ (b : Backend) (laws : HostLaws b) (task : TaskCommand) where
  -- What has happened when the task is over.
  Over : World b → Outcome (Unit {0}) × World b → Type 0
  Over w o =
      (o.0 ≡ returned tt)
      × ((last : TaskUpdate) × (before : List Event) × ((o.1.log ≡ sent last ∷ (before ++ w.log))
            × (last.task_id ≡ task.task_id)
            × ((last.status ≡ succeeded) ⊎ (last.status ≡ failed))
            × All (Progress task.task_id) before))

  failed_update_lem :
      (text : Text) (r : Text × Option TaskFailureDiagnostic)
      → ((failed_update task text r).status ≡ failed)
        × ((failed_update task text r).task_id ≡ task.task_id)
  unfolding failed_update
  failed_update_lem text (step, none) = (refl, refl)
  failed_update_lem text (step, some d) = (refl, refl)

  Over-after :
      (w : World b) (o : Outcome (Unit {0}) × World b)
      → EndsAs (task_frame b task.task_id) (Success task.task_id) w o
      → Over w (rescue o (report_failure b task))
  unfolding Over task_frame report_failure send note
  Over-after w (returned tt, v) (u, last, ((clock, (before, e, h)), q, (s, i))) =
      (refl, (last, before, (ap (λ z. z.log) q ∙ ap (λ l. sent last ∷ l) e, i, inl s, h)))
  Over-after w (Outcome.failed e, v) (clock, (before, q, h)) =
      let (s, i) = failed_update_lem (error_text e) (reported_failure e) in
      let u = failed_update task (error_text e) (reported_failure e) in
      rw (laws.outbound_takes u v.host) (
        refl,
        (
          _,
          before,
          (
            ap (λ l. sent (failed_update task (error_text e) (reported_failure e)) ∷ l) q,
            i,
            inr s,
            h,
          ),
        ),
      )
  Over-after w (unfinished, v) h = absurd h

  run-Over : (w : World b) → Over w (run_task b task w)
  unfolding run_task on_failure task_frame
  run-Over w =
      Over-after w (execute b (send b) task w)
        ((execute-Closes b laws task.task_id zero task refl).ends w (omega arith))

  -- The task is taken from the running ones.
  closed :
      (w : World b) (o : Outcome (Unit {0}) × World b)
      → Over w o
      → Over w (then_run o (λ _. done_running b task.task_id))
        × (any (text_eq task.task_id) (then_run o (λ _. done_running b task.task_id)).1.running
            ≡ false)
  unfolding Over done_running return
  closed w (returned tt, v) (e, h) = ((refl, h), any-keep (text_eq task.task_id) v.running)
  closed w (Outcome.failed e, v) (q, h) = absurd (failed_ne q)
    where
      failed_ne : Outcome.failed e ≡ returned tt → ⊥
      failed_ne q = ground arith
  closed w (unfinished, v) (q, h) = absurd (unfinished_ne q)
    where
      unfinished_ne : unfinished ≡ returned tt → ⊥
      unfinished_ne q = ground arith

  -- A task that the agent is not running yet, where the clock does not go back and the channel to the control
  -- plane stays open and takes every message, whatever Docker, the proxy and the
  -- checks of health answer: its handling ends, the last message sent is that the
  -- task has succeeded or failed, every message before that says that it is on its way, all name the
  -- task, and it is no longer among the running ones.
  pub task_ends_once :
      (w : World b)
      → any (text_eq task.task_id) w.running ≡ false
      → (((handle_task b task w).0 ≡ returned tt)
          × ((last : TaskUpdate) × (before : List Event) × (((handle_task b task w).1.log
                  ≡ sent last ∷ (before ++ w.log))
                × (last.task_id ≡ task.task_id)
                × ((last.status ≡ succeeded) ⊎ (last.status ≡ failed))
                × All (Progress task.task_id) before)))
        × (any (text_eq task.task_id) (handle_task b task w).1.running ≡ false)
  unfolding handle_task try_start handle_started ◌>>=◌ ◌>>◌ return Over
  task_ends_once w idle = rw idle (closed begun (run_task b task begun) (run-Over begun))
    where
      begun : World b
      begun = record w { running = task.task_id ∷ w.running }
