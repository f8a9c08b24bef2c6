-- ===== src/Scheduler/Requests.antt =====
-- The requests of executors and the rounds of dispatching, one after the other:
-- internal/scheduler/application/service.go.
use edge_pilot.Base.{refl, arith, ℕ, ◌≡◌, subst, Bool, Option, none, some, List, [], ◌∷◌}
use edge_pilot.Base.Text.{Text}
use edge_pilot.Cron.Calendar.{Time}
use edge_pilot.Model.Scheduler.{SchedulerJobRun}
use edge_pilot.Scheduler.Runs.{mark_run_running, renew_run_lease, complete_run}
use edge_pilot.Scheduler.Lifecycle.{IsValid, SameRun, ◌⟶*◌, ⟶*-IsValid, ⟶*-SameRun}
use edge_pilot.Scheduler.Dispatch.{Engine, Board, on_runs, dispatch_due_runs}
use edge_pilot.Scheduler.Moves.{
  RowMove, TableMove, TableMove-refl, TableMove-trans, mark_run_running-Follows,
  renew_run_lease-Follows, complete_run-Follows,
}
use edge_pilot.Scheduler.Dispatched.{dispatch_due_runs-Moved}

-- `MarkRunRunning`, `RenewRunLease` and `CompleteRun` by an executor, and `DispatchDueRuns`, each at a time.
pub data Request : Type 0 where
  start : ℕ → Text → Time → Request
  renew : ℕ → Text → Time → Request
  complete : ℕ → Text → Bool → Bool → Text → Time → Request
  dispatch : Time → Request

module _ (e : Engine) where
  unfoldable pub after : Board e → Request → Board e
  after w (start id executor now) = (on_runs e (mark_run_running e.runs id executor now) w).1
  after w (renew id executor now) =
      (on_runs e (renew_run_lease e.runs id executor e.default_lease now) w).1
  after w (complete id executor success retryable message now) =
      (on_runs e (complete_run e.runs id executor success retryable message now) w).1
  after w (dispatch now) = (dispatch_due_runs e now w).1

  unfoldable pub after_all : Board e → List Request → Board e
  unfolding after
  after_all w [] = w
  after_all w (r ∷ rs) = after_all (after w r) rs

  after-TableMove : (w : Board e) (r : Request) → TableMove e.runs w.runs (after w r).runs
  unfolding after on_runs
  after-TableMove w (start id executor now) = mark_run_running-Follows e.runs id executor now w.runs
  after-TableMove w (renew id executor now) =
      renew_run_lease-Follows e.runs id executor e.default_lease now w.runs
  after-TableMove w (complete id executor success retryable message now) =
      complete_run-Follows e.runs id executor success retryable message now w.runs
  after-TableMove w (dispatch now) = dispatch_due_runs-Moved e now w

  after_all-TableMove :
      (w : Board e) (rs : List Request) → TableMove e.runs w.runs (after_all w rs).runs
  unfolding after_all
  after_all-TableMove w [] = TableMove-refl e.runs w.runs
  after_all-TableMove w (r ∷ rs) =
      TableMove-trans e.runs w.runs (after w r).runs (after_all (after w r) rs).runs
        (after-TableMove w r) (after_all-TableMove (after w r) rs)

  origin :
      (o p : Option SchedulerJobRun) (s : SchedulerJobRun)
      → RowMove o p
      → p ≡ some s
      → (r : SchedulerJobRun) × (o ≡ some r) × (r ⟶* s)
  origin o none s m q = ground arith
  origin none (some t) s m q = absurd m
  origin (some r) (some t) s m q = (r, refl, subst (λ x. r ⟶* x) (same t s q) m)
    where
      same : (x y : SchedulerJobRun) → some x ≡ some y → x ≡ y
      same x y q = cc

  -- Whatever executors report and whenever runs are dispatched, in any order, one after the other, and whichever
  -- of the statements and deliveries fail: if every run of the table satisfies its invariant, then so does every run
  -- afterwards, and it was in the table before with the same identity, job, payload and retries and no
  -- higher attempt.
  pub runs_stay-IsValid :
      (w : Board e) (requests : List Request)
      → ((k : ℕ) (r : SchedulerJobRun) → e.runs.row k w.runs ≡ some r → IsValid r)
      → (k : ℕ) (s : SchedulerJobRun) → e.runs.row k (after_all w requests).runs ≡ some s
      → (r : SchedulerJobRun) × (e.runs.row k w.runs ≡ some r) × SameRun r s × IsValid s
  runs_stay-IsValid w requests valid k s there =
      let (r, was, path) =
        origin (e.runs.row k w.runs) (e.runs.row k (after_all w requests).runs) s
          (after_all-TableMove w requests k) there in
      (r, was, ⟶*-SameRun path, ⟶*-IsValid path (valid k r was))
