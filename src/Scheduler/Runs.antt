-- ===== src/Scheduler/Runs.antt =====
-- The operations of internal/scheduler/application/service.go that an executor calls for a run. The
-- time that the source reads from the clock is the argument `now`.
use edge_pilot.Base.{
  ℕ, ◌+◌, ◌*◌, Bool, true, false, not, ◌&&◌, Option, none, some, [], leb, if◌then◌else◌,
}
use edge_pilot.Base.Int.{ℤ}
use edge_pilot.Base.Text.{Text, codes, text_eq, trim_space}
use edge_pilot.Cron.Calendar.{Time, second}
use edge_pilot.Store.Effect.{M, not_found, conflict, ◌>>=◌, return, fail}
use edge_pilot.Model.Scheduler.{SchedulerJobRun, succeeded, retry_waiting, failed, is_terminal}
use edge_pilot.Scheduler.Statements.{
  Runs, Completion, get_run, mark_run_running_row, renew_run_lease_row, complete_run_row,
}
use edge_pilot.Scheduler.Lease.{effective_lease_timeout, lease_end, retry_backoff}

pub run_completed : Text
run_completed = codes "run already completed"

pub lease_state_changed : Text
lease_state_changed = codes "run lease state changed"

pub lease_owner_mismatch : Text
lease_owner_mismatch = codes "lease owner mismatch"

-- The end of each operation: an update that affected no row is a conflict.
unfoldable pub require_updated : {S : Type 0} → Bool → M S (Unit {0})
require_updated true = return tt
require_updated false = fail (conflict lease_state_changed)

-- What `CompleteRun` writes for a run that its executor reports on.
unfoldable pub completion : SchedulerJobRun → Bool → Bool → Text → Time → Completion
completion run success retryable message now =
    if success
    then record {
      status = succeeded;
      attempt = run.attempt;
      next_retry_at = none;
      completed_at = some now;
      error_message = [];
    }
    else if retryable && leb run.attempt run.max_retries
    then record {
      status = retry_waiting;
      attempt = run.attempt + 1;
      next_retry_at = some (now + retry_backoff run.attempt * second);
      completed_at = none;
      error_message = trim_space message;
    }
    else record {
      status = failed;
      attempt = run.attempt;
      next_retry_at = none;
      completed_at = some now;
      error_message = trim_space message;
    }

module _ (runs : Runs) where
  -- The row of a run, or `ErrNotFound`.
  unfoldable pub found :
      Option SchedulerJobRun → (SchedulerJobRun → M runs.Db (Unit {0})) → M runs.Db (Unit {0})
  found none k = fail not_found
  found (some run) k = k run

  unfoldable pub start_found : ℕ → Text → Time → SchedulerJobRun → M runs.Db (Unit {0})
  start_found id executor now run =
      if is_terminal run.status
      then fail (conflict run_completed)
      else mark_run_running_row runs id executor now >>= require_updated

  unfoldable pub mark_run_running : ℕ → Text → Time → M runs.Db (Unit {0})
  mark_run_running id executor now = get_run runs id >>= λ o. found o (start_found id executor now)

  unfoldable pub renew_found : ℕ → Text → ℤ → Time → SchedulerJobRun → M runs.Db (Unit {0})
  renew_found id executor fallback now run =
      if text_eq run.leased_by executor
      then renew_run_lease_row runs id executor
          (lease_end now (effective_lease_timeout run fallback)) now
        >>= require_updated
      else fail (conflict lease_owner_mismatch)

  unfoldable pub renew_run_lease : ℕ → Text → ℤ → Time → M runs.Db (Unit {0})
  renew_run_lease id executor fallback now =
      get_run runs id >>= λ o. found o (renew_found id executor fallback now)

  unfoldable pub complete_found :
      ℕ → Text → Bool → Bool → Text → Time → SchedulerJobRun → M runs.Db (Unit {0})
  complete_found id executor success retryable message now run =
      if not (text_eq run.leased_by executor)
      then fail (conflict lease_owner_mismatch)
      else if is_terminal run.status
      then fail (conflict run_completed)
      else complete_run_row runs id executor (completion run success retryable message now)
        >>= require_updated

  unfoldable pub complete_run : ℕ → Text → Bool → Bool → Text → Time → M runs.Db (Unit {0})
  complete_run id executor success retryable message now =
      get_run runs id >>= λ o. found o (complete_found id executor success retryable message now)
