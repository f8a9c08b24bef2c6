-- ===== src/Agent/Failure.antt =====
-- What becomes of a container whose health check has failed: `wrapTaskFailure` and
-- `collectFailureDiagnostic` of internal/agent/application/taskexec/executor.go.
use edge_pilot.Base.{◌≡◌, refl, ap, false, some, List, ◌∷◌, Bool-cases, inl, inr, arith}
use edge_pilot.Base.Text.{Text, codes, is_empty, trim_space}
use edge_pilot.Store.Base.{Answer, done, fault}
use edge_pilot.Release.Reported.{TaskUpdate}
use edge_pilot.Agent.Containers.{TaskCommand, ContainerRuntime}
use edge_pilot.Agent.Host.{
  Backend, World, E, Outcome, returned, failed, unfinished, then_run, ExecError, plain, at_step,
  TaskFailureDiagnostic, ◌>>=◌, ◌>>◌, return, fail, on_failure, attempt, note, remove_container,
  remove_image,
}
use edge_pilot.Agent.Health.{wait_for_health}
use edge_pilot.Agent.Cleanup.{remove_container_image}
use edge_pilot.Agent.Executor.{finish}
use edge_pilot.Agent.Diagnosis.{
  is_diagnosed, diagnosed, collect_failure_diagnostic, failure_step, wrap_task_failure,
  with_cleanup_error,
}
use edge_pilot.Agent.Removals.{removals}

module _ (b : Backend) (runtime : ContainerRuntime) (text : Text) (before : List Text) where
  -- A failure that names the container, whose removal was asked for last.
  abbrev CleanedUp : {A : Type 0} → Outcome A × World b → Type 0
  CleanedUp o =
      (d : TaskFailureDiagnostic) × (told : Text) × ((o.0
          ≡ failed (at_step (codes "health_check_failed") told (some d)))
        × (d.container_id ≡ trim_space runtime.container_id)
        × (removals o.1.log ≡ trim_space runtime.container_id ∷ before))

  diagnosed-CleanedUp :
      (A : Type 0) (health logs : Text) (a : Answer (Unit {0})) (w : World b)
      → removals w.log ≡ trim_space runtime.container_id ∷ before
      → CleanedUp {A = A} (
          (diagnosed b runtime health logs a >>= λ d.
          fail (at_step (codes "health_check_failed") (with_cleanup_error text d.1) d.0))
            w)
  unfolding diagnosed remove_container_image remove_image attempt note ◌>>=◌ ◌>>◌ return fail
  diagnosed-CleanedUp A health logs (fault e) w h = (_, _, (refl, refl, h))
  diagnosed-CleanedUp A health logs (done x) w h =
      elim (Bool-cases (is_empty (trim_space runtime.image))) [
        | inl none_ ↦ rw none_ (_, _, (refl, refl, h))
        | inr some_ ↦ rw some_ (_, _, (refl, refl, h))
      ]

  wrap-CleanedUp :
      (A : Type 0) (w : World b)
      → is_empty (trim_space runtime.container_id) ≡ false
      → removals w.log ≡ before
      → CleanedUp {A = A} (wrap_task_failure b runtime (plain text) w)
  unfolding wrap_task_failure is_diagnosed failure_step collect_failure_diagnostic remove_container
      attempt note ◌>>=◌ ◌>>◌ return
  wrap-CleanedUp A w there h =
      rw there (diagnosed-CleanedUp A _ _ _ _ (ap (λ ids. trim_space runtime.container_id ∷ ids) h))

  then-CleanedUp :
      (A B : Type 0) (o : Outcome A × World b) (k : A → E b B)
      → CleanedUp {A = A} o
      → CleanedUp {A = B} (then_run o k)
  then-CleanedUp A B (failed e, v) k (d, told, (q, i, r)) =
      (d, told, (ap failed (error_of q), i, r))
    where
      error_of : {e e' : ExecError} → ◌≡◌ {A = Outcome A} (failed e) (failed e') → e ≡ e'
      error_of q = cc
  then-CleanedUp A B (returned x, v) k (d, told, (q, i, r)) = ground arith
  then-CleanedUp A B (unfinished, v) k (d, told, (q, i, r)) = ground arith

-- Where the wait for the health of a container that has an identifier fails, the deployment fails at the step
-- health_check_failed with a diagnostic that names the container, and the last removal that was asked for is that of
-- the container.
pub failed_wait_cleans_up :
    (b : Backend) (task : TaskCommand) (report : TaskUpdate → E b (Unit {0}))
    (runtime : ContainerRuntime) (text : Text) (w v : World b)
    → wait_for_health b task report runtime w ≡ (failed (plain text), v)
    → is_empty (trim_space runtime.container_id) ≡ false
    → (d : TaskFailureDiagnostic) × (told : Text) × (((finish b report task runtime w).0
          ≡ failed (at_step (codes "health_check_failed") told (some d)))
        × (d.container_id ≡ trim_space runtime.container_id)
        × (removals (finish b report task runtime w).1.log
            ≡ trim_space runtime.container_id ∷ removals v.log))
unfolding finish on_failure ◌>>=◌
failed_wait_cleans_up b task report runtime text w v h there = rw h (
    then-CleanedUp b runtime text (removals v.log) ContainerRuntime (Unit {0})
      (wrap_task_failure b runtime (plain text) v) _
      (wrap-CleanedUp b runtime text (removals v.log) ContainerRuntime v there refl))
